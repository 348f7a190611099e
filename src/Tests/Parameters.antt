-- ===== src/Tests/Parameters.antt =====
-- Parameters that meet the laws asked of PostgreSQL's macros, of pglz and of protobuf.
use cstore_fdw.Prelude.{
  if◌then◌else◌, ℕ, ◌+◌, ◌*◌, ◌/◌, ◌^◌, ◌<◌, ◌≡◌, refl, Bool, true, false, Option, some, List, [],
  ◌∷◌, ◌++◌, arith, length, get_or, take, take-append, take-all,
}
use cstore_fdw.Prelude.Int.{ℤ, pos, negsuc, is_positive}
use cstore_fdw.Postgres.{TupleMacros, TupleMacroLaws}
use cstore_fdw.Compression.{Pglz, PglzLaws, int32_bytes}
use cstore_fdw.Protobuf
use cstore_fdw.Protobuf.{Protobuf, ProtobufLaws}
use cstore_fdw.Tests.Codec.{Codec, number, pair, iso, option, list, integer, unpack, unpack-pack}

-- A Datum is the bytes of its value. A value of a variable-length type begins with its length.
abbrev cut : List ℕ → ℤ → List ℕ
cut memory (pos n) = take n memory
cut memory (negsuc k) = take (get_or memory 0 0) memory

abbrev add_length : ℕ → ℤ → List ℕ → ℕ
add_length offset (pos n) d = offset + n
add_length offset (negsuc k) d = offset + get_or d 0 0

abbrev pub macros : TupleMacros
macros = record {
  Datum = List ℕ;
  zero_datum = [];
  att_addlength_datum = add_length;
  att_align_nominal = λ n c. (n + 3) / 4 * 4;
  store_att_byval = λ d n. d;
  datum_get_pointer = λ d. d;
  pointer_get_datum = λ memory. take (get_or memory 0 0) memory;
  fetch_att = λ memory by_value type_length. cut memory type_length;
}

abbrev pub Fits : Bool → ℤ → List ℕ → Type 0
Fits true (pos n) d = (length d ≡ n) × (0 < n) × (n < 2 ^ 30)
Fits false (negsuc k) d = (get_or d 0 0 ≡ length d) × (0 < length d) × (length d < 2 ^ 30)
Fits _ _ d = ⊥

pub length_image_lem :
    (b : Bool) (z : ℤ) (d : List ℕ)
    → Fits b z d
    → length (if b then d else take (add_length 0 z d) d) ≡ add_length 0 z d
length_image_lem true (pos n) d v = omega arith
length_image_lem false (negsuc k) d v =
    rw (take-all (0 + get_or d 0 0) d (omega arith)) (omega arith)
length_image_lem true (negsuc k) d v = absurd v
length_image_lem false (pos n) d v = absurd v

-- The length of a value stands at its head, whatever follows the value.
head_of : (d rest : List ℕ) → 0 < length d → get_or (d ++ rest) 0 0 ≡ get_or d 0 0
head_of [] rest h = absurd (omega arith)
head_of (x ∷ d) rest h = refl

image_whole : (d : List ℕ) → get_or d 0 0 ≡ length d → take (0 + get_or d 0 0) d ≡ d
image_whole d e = take-all (0 + get_or d 0 0) d (omega arith)

pub fetch_lem :
    (b : Bool) (z : ℤ) (d rest : List ℕ)
    → Fits b z d
    → cut ((if b then d else take (add_length 0 z d) d) ++ rest) z ≡ d
fetch_lem true (pos n) d rest v = take-append d rest n (omega arith)
fetch_lem false (negsuc k) d rest v =
    rw (image_whole d v.0, head_of d rest v.1) (take-append d rest (get_or d 0 0) v.0)
fetch_lem true (negsuc k) d rest v = absurd v
fetch_lem false (pos n) d rest v = absurd v

pub pointer_lem :
    (b : Bool) (z : ℤ) (d rest : List ℕ)
    → Fits b z d
    → b ≡ false
    → let memory = (if b then d else take (add_length 0 z d) d) ++ rest in
      take (get_or memory 0 0) memory ≡ d
pointer_lem false (negsuc k) d rest v e =
    rw (image_whole d v.0, head_of d rest v.1) (take-append d rest (get_or d 0 0) v.0)
pointer_lem false (pos n) d rest v e = absurd v
pointer_lem true z d rest v e = cc

pub addlength_lem :
    (b : Bool) (z : ℤ) (d rest : List ℕ) (offset : ℕ)
    → Fits b z d
    → let memory = (if b then d else take (add_length 0 z d) d) ++ rest in
      add_length offset z (take (get_or memory 0 0) memory) ≡ offset + add_length 0 z d
addlength_lem true (pos n) d rest offset v = omega arith
addlength_lem false (negsuc k) d rest offset v =
    rw (pointer_lem false (negsuc k) d rest v refl) (omega arith)
addlength_lem true (negsuc k) d rest offset v = absurd v
addlength_lem false (pos n) d rest offset v = absurd v

pub small_lem : (b : Bool) (z : ℤ) (d : List ℕ) → Fits b z d → add_length 0 z d < 2 ^ 30
small_lem true (pos n) d v = omega arith
small_lem false (negsuc k) d v = omega arith
small_lem true (negsuc k) d v = absurd v
small_lem false (pos n) d v = absurd v

pub fixed_lem : (z : ℤ) (d : List ℕ) (n : ℕ) → z ≡ pos n → add_length 0 z d ≡ n
fixed_lem (pos m) d n e = ground arith
fixed_lem (negsuc k) d n e = cc

pub byval_lem : (b : Bool) (z : ℤ) (d : List ℕ) → Fits b z d → b ≡ true → is_positive z ≡ true
byval_lem true (pos n) d v e = ground arith
byval_lem false (negsuc k) d v e = cc
byval_lem true (negsuc k) d v e = absurd v
byval_lem false (pos n) d v e = absurd v

abbrev pub laws : TupleMacroLaws macros
laws = record {
  IsValue = λ a d. Fits a.attbyval a.attlen d;
  addlength_small = λ a d v. small_lem a.attbyval a.attlen d v;
  addlength_fixed = λ a d n v e. fixed_lem a.attlen d n e;
  byval_positive = λ a d v e. byval_lem a.attbyval a.attlen d v e;
  length_image = λ a d v. length_image_lem a.attbyval a.attlen d v;
  fetch_image = λ a d rest v. fetch_lem a.attbyval a.attlen d rest v;
  pointer_image = λ a d rest v e. pointer_lem a.attbyval a.attlen d rest v e;
  addlength_image = λ a d offset rest v. addlength_lem a.attbyval a.attlen d rest offset v;
  align_zero = λ c. refl;
  align_bounds = λ n c. omega arith;
  align_idem = λ n c. omega arith;
  align_add = λ m n c e. omega arith;
}

-- The simplest compression: none.
abbrev pub varsize_of : List ℕ → ℕ
varsize_of l = get_or l 0 0 + get_or l 1 0 * 256 + get_or l 2 0 * 65536 + get_or l 3 0 * 16777216

abbrev pub pglz : Pglz
pglz = record {
  pglz_compress = λ raw. some raw;
  pglz_decompress = λ packed size. some packed;
  set_varsize_compressed = int32_bytes;
  varsize = varsize_of;
}

pub pglz_laws : PglzLaws pglz
pglz_laws = record {
  decompress-compress = λ raw packed e. cc;
  compress_max = λ raw packed e. ground arith;
  length-varsize = λ n. refl;
  varsize_at = λ n rest h. omega arith;
}

abbrev Four : Type 0
Four = Option ℕ × (Option ℕ × (Option ℕ × Option ℕ))

abbrev stripe_to : Protobuf.StripeMetadata → Four
stripe_to m = (m.fileoffset, (m.skiplistlength, (m.datalength, m.footerlength)))

abbrev stripe_from : Four → Protobuf.StripeMetadata
stripe_from (a, (b, (c, d))) = record {
  fileoffset = a;
  skiplistlength = b;
  datalength = c;
  footerlength = d;
}

abbrev four : Codec Four
four = pair (option number) (pair (option number) (pair (option number) (option number)))

abbrev stripe_codec : Codec Protobuf.StripeMetadata
stripe_codec = iso stripe_to stripe_from (λ m. refl) four

abbrev footer_codec : Codec Protobuf.TableFooter
footer_codec =
    iso (λ m. (m.stripemetadataarray, m.blockrowcount))
      (λ p. record { stripemetadataarray = p.0; blockrowcount = p.1 }) (λ m. refl)
      (pair (list stripe_codec) (option number))

abbrev post_script_codec : Codec Protobuf.PostScript
post_script_codec =
    iso {B = Option ℕ × (Option ℕ × (Option ℕ × Option (List ℕ)))}
      (λ m. (m.tablefooterlength, (m.versionmajor, (m.versionminor, m.magicnumber))))
      (λ p. record {
        tablefooterlength = p.0;
        versionmajor = p.1.0;
        versionminor = p.1.1.0;
        magicnumber = p.1.1.1;
      })
      (λ m. refl)
      (pair (option number) (pair (option number) (pair (option number) (option (list number)))))

abbrev stripe_footer_codec : Codec Protobuf.StripeFooter
stripe_footer_codec =
    iso {B = List ℕ × (List ℕ × List ℕ)}
      (λ m. (m.skiplistsizearray, (m.existssizearray, m.valuesizearray)))
      (λ p. record { skiplistsizearray = p.0; existssizearray = p.1.0; valuesizearray = p.1.1 })
      (λ m. refl) (pair (list number) (pair (list number) (list number)))

abbrev Node : Type 0
Node = Four × (Option ℕ × (Option ℤ × (Option (List ℕ) × Option (List ℕ))))

abbrev node_to : Protobuf.ColumnBlockSkipNode → Node
node_to m = (
  (m.rowcount, (m.valueblockoffset, (m.valuelength, m.existsblockoffset))),
  (m.existslength, (m.valuecompressiontype, (m.minimumvalue, m.maximumvalue))),
)

abbrev node_from : Node → Protobuf.ColumnBlockSkipNode
node_from ((a, (b, (c, d))), (e, (f, (g, h)))) = record {
  rowcount = a;
  minimumvalue = g;
  maximumvalue = h;
  valueblockoffset = b;
  valuelength = c;
  valuecompressiontype = f;
  existsblockoffset = d;
  existslength = e;
}

abbrev node_codec : Codec Protobuf.ColumnBlockSkipNode
node_codec =
    iso node_to node_from (λ m. refl)
      (pair four (
        pair (option number)
          (pair (option integer) (pair (option (list number)) (option (list number))))))

abbrev pub protobuf : Protobuf
protobuf = record {
  post_script_pack = post_script_codec.put;
  post_script_unpack = unpack post_script_codec;
  table_footer_pack = footer_codec.put;
  table_footer_unpack = unpack footer_codec;
  stripe_footer_pack = stripe_footer_codec.put;
  stripe_footer_unpack = unpack stripe_footer_codec;
  column_block_skip_list_pack = (list node_codec).put;
  column_block_skip_list_unpack = unpack (list node_codec);
}

pub protobuf_laws : ProtobufLaws protobuf
protobuf_laws = record {
  post_script = λ m a b c. unpack-pack post_script_codec m;
  table_footer = λ m a b. unpack-pack footer_codec m;
  stripe_footer = λ m a b c. unpack-pack stripe_footer_codec m;
  column_block_skip_list = λ m a. unpack-pack (list node_codec) m;
}

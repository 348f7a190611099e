-- ===== src/Protobuf.antt =====
-- The messages of cstore.proto, as the code that protobuf-c generates from it presents them: an
-- optional field is an `Option`. Packing and unpacking are parameters, with the documented law that
-- a message whose numbers fit their fields is unpacked as it was packed.
use cstore_fdw.Prelude.{ℕ, ◌^◌, ◌<◌, ◌≡◌, Option, none, some, List, All}
use cstore_fdw.Prelude.Int.{ℤ}
use cstore_fdw.CString.{Text}

pub record PostScript : Type 0 where
  pub tablefooterlength : Option ℕ
  pub versionmajor : Option ℕ
  pub versionminor : Option ℕ
  pub magicnumber : Option Text

pub record StripeMetadata : Type 0 where
  pub fileoffset : Option ℕ
  pub skiplistlength : Option ℕ
  pub datalength : Option ℕ
  pub footerlength : Option ℕ

pub record TableFooter : Type 0 where
  pub stripemetadataarray : List StripeMetadata
  pub blockrowcount : Option ℕ

pub record StripeFooter : Type 0 where
  pub skiplistsizearray : List ℕ
  pub existssizearray : List ℕ
  pub valuesizearray : List ℕ

-- the value of an enumeration is the integer on the wire
pub record ColumnBlockSkipNode : Type 0 where
  pub rowcount : Option ℕ
  pub minimumvalue : Option (List ℕ)
  pub maximumvalue : Option (List ℕ)
  pub valueblockoffset : Option ℕ
  pub valuelength : Option ℕ
  pub valuecompressiontype : Option ℤ
  pub existsblockoffset : Option ℕ
  pub existslength : Option ℕ

-- `protobuf__…__pack` and `protobuf__…__unpack`; `none` is the NULL for a malformed buffer.
pub record Protobuf : Type 0 where
  pub post_script_pack : PostScript → List ℕ
  pub post_script_unpack : List ℕ → Option PostScript
  pub table_footer_pack : TableFooter → List ℕ
  pub table_footer_unpack : List ℕ → Option TableFooter
  pub stripe_footer_pack : StripeFooter → List ℕ
  pub stripe_footer_unpack : List ℕ → Option StripeFooter
  pub column_block_skip_list_pack : List ColumnBlockSkipNode → List ℕ
  pub column_block_skip_list_unpack : List ℕ → Option (List ColumnBlockSkipNode)

abbrev pub IsU64 : ℕ → Type 0
IsU64 n = n < 2 ^ 64

abbrev pub FitsField : ℕ → Option ℕ → Type 0
FitsField bits none = Unit {0}
FitsField bits (some n) = n < 2 ^ bits

abbrev pub FitsStripe : StripeMetadata → Type 0
FitsStripe m =
    FitsField 64 m.fileoffset
    × FitsField 64 m.skiplistlength
    × FitsField 64 m.datalength
    × FitsField 64 m.footerlength

abbrev pub FitsNode : ColumnBlockSkipNode → Type 0
FitsNode m =
    FitsField 64 m.rowcount
    × FitsField 64 m.valueblockoffset
    × FitsField 64 m.valuelength
    × FitsField 64 m.existsblockoffset
    × FitsField 64 m.existslength

pub record ProtobufLaws (p : Protobuf) : Type 0 where
  pub post_script :
      (m : PostScript)
      → FitsField 64 m.tablefooterlength
      → FitsField 64 m.versionmajor
      → FitsField 64 m.versionminor
      → p.post_script_unpack (p.post_script_pack m) ≡ some m
  pub table_footer :
      (m : TableFooter)
      → All FitsStripe m.stripemetadataarray
      → FitsField 32 m.blockrowcount
      → p.table_footer_unpack (p.table_footer_pack m) ≡ some m
  pub stripe_footer :
      (m : StripeFooter)
      → All IsU64 m.skiplistsizearray
      → All IsU64 m.existssizearray
      → All IsU64 m.valuesizearray
      → p.stripe_footer_unpack (p.stripe_footer_pack m) ≡ some m
  pub column_block_skip_list :
      (m : List ColumnBlockSkipNode)
      → All FitsNode m
      → p.column_block_skip_list_unpack (p.column_block_skip_list_pack m) ≡ some m

-- ===== src/Utility/Routing.antt =====
-- Which relations a TRUNCATE passes on (`CStoreProcessUtility`, cstore_fdw.c).
use cstore_fdw.Prelude.{
  ℕ, ◌≡◌, refl, ap, inl, inr, Bool, true, false, not, ◌&&◌, ◌||◌, List, [], ◌∷◌, ◌++◌,
  if◌then◌else◌, Bool-cases, All,
}
use cstore_fdw.Result.{Result, ok, err, permission_denied}
use cstore_fdw.Utility.Tables.{
  Catalog, CatalogLaws, is_truncated_here, list_member_oid, find_cstore_tables,
  open_relations_for_truncate,
}
use cstore_fdw.Utility.{
  Action, truncate_statement, member, list_difference, truncate_opened, truncate_tables,
  call_previous_truncate, process_utility,
}

All-map :
    {A : Type 0} (P Q : A → Type 0) (xs : List A) → ((x : A) → P x → Q x) → All P xs → All Q xs
All-map P Q [] f h = tt
All-map P Q (x ∷ xs) f h = (f x h.0, All-map P Q xs f h.1)

module _ (catalog : Catalog) where
  open catalog use {RangeVar, range_var_get_relid, truncate_allowed}

  -- The relations that are not tables of the extension, or are distributed.
  abbrev pub passed_on : List RangeVar → List RangeVar
  passed_on [] = []
  passed_on (r ∷ rs) = if is_truncated_here catalog r then passed_on rs else r ∷ passed_on rs

  abbrev pub no_relations : List RangeVar → Bool
  no_relations [] = true
  no_relations (r ∷ rs) = false

  -- The role may truncate all tables of the extension among the relations.
  abbrev pub all_allowed : List RangeVar → Bool
  all_allowed [] = true
  all_allowed (r ∷ rs) =
      (not (is_truncated_here catalog r) || truncate_allowed (range_var_get_relid r))
      && all_allowed rs

  -- The identifiers of the tables of the extension among the relations, each once.
  abbrev pub identifiers : List ℕ → List RangeVar → List ℕ
  identifiers ids [] = ids
  identifiers ids (r ∷ rs) =
      if is_truncated_here catalog r && not (list_member_oid ids (range_var_get_relid r))
      then identifiers (ids ++ range_var_get_relid r ∷ []) rs
      else identifiers ids rs

module _ (catalog : Catalog) (laws : CatalogLaws catalog) where
  open catalog use {RangeVar, equal, range_var_get_relid, truncate_allowed}

  others_then_tables :
      (run : Action RangeVar → Result (Unit {0})) (others : List RangeVar) (ids : List ℕ)
      → ((action : Action RangeVar) → run action ≡ ok tt)
      → truncate_opened catalog run others (ok ids) ≡ (
        ok tt,
        (if no_relations catalog others
            then truncate_tables ids ∷ []
            else call_previous_truncate others ∷ truncate_tables ids ∷ []),
      )
  others_then_tables run [] ids runs = rw (runs (truncate_tables ids)) refl
  others_then_tables run (r ∷ rs) ids runs =
      rw (runs (call_previous_truncate (r ∷ rs)), runs (truncate_tables ids)) refl

  equal-is_truncated_here :
      (r t : RangeVar)
      → equal r t ≡ true
      → is_truncated_here catalog r ≡ is_truncated_here catalog t
  equal-is_truncated_here r t e = rw (laws.equal_relid r t e) refl

  -- A relation that is passed on is not equal to a table that was found.
  member-find_cstore_tables :
      (r : RangeVar) (rs : List RangeVar)
      → is_truncated_here catalog r ≡ false
      → member catalog r (find_cstore_tables catalog rs) ≡ false
  unfolding find_cstore_tables
  member-find_cstore_tables r [] e = refl
  member-find_cstore_tables r (t ∷ ts) e = elim (Bool-cases (is_truncated_here catalog t)) [
    | inl f ↦ elim (Bool-cases (equal r t)) [
      | inl g ↦ (let same = equal-is_truncated_here r t g in cc)
      | inr g ↦ rw (f, g) (member-find_cstore_tables r ts e)
    ]
    | inr f ↦ rw f (member-find_cstore_tables r ts e)
  ]

  member-cons :
      (r t : RangeVar) (ts : List RangeVar)
      → member catalog r (find_cstore_tables catalog ts) ≡ true
      → member catalog r (find_cstore_tables catalog (t ∷ ts)) ≡ true
  unfolding find_cstore_tables
  member-cons r t ts e = elim (Bool-cases (is_truncated_here catalog t)) [
    | inl f ↦ elim (Bool-cases (equal r t)) [ inl g ↦ rw (f, g) refl | inr g ↦ rw (f, g) e ]
    | inr f ↦ rw f e
  ]

  member_here :
      (r : RangeVar) (rs : List RangeVar)
      → is_truncated_here catalog r ≡ true
      → member catalog r (find_cstore_tables catalog (r ∷ rs)) ≡ true
  unfolding find_cstore_tables
  member_here r rs e = rw (e, laws.equal_refl r) refl

  members_found :
      (rs : List RangeVar)
      → All
          (λ r.
            is_truncated_here catalog r ≡ true
            → member catalog r (find_cstore_tables catalog rs) ≡ true)
          rs
  members_found [] = tt
  members_found (r ∷ rs) = (
    member_here r rs,
    All-map
        (λ t.
          is_truncated_here catalog t ≡ true
          → member catalog t (find_cstore_tables catalog rs) ≡ true)
        (λ t.
          is_truncated_here catalog t ≡ true
          → member catalog t (find_cstore_tables catalog (r ∷ rs)) ≡ true)
        rs (λ t h e. member-cons t r rs (h e)) (members_found rs),
  )

  list_difference-others :
      (rs others : List RangeVar)
      → ((r : RangeVar) → is_truncated_here catalog r ≡ false → member catalog r others ≡ false)
      → All (λ r. is_truncated_here catalog r ≡ true → member catalog r others ≡ true) rs
      → list_difference catalog rs others ≡ passed_on catalog rs
  list_difference-others [] others out here = refl
  list_difference-others (r ∷ rs) others out here =
      elim (Bool-cases (is_truncated_here catalog r)) [
        | inl e ↦ rw (e, here.0 e) (list_difference-others rs others out here.1)
        | inr e ↦ rw (e, out r e) (ap (λ ts. r ∷ ts) (list_difference-others rs others out here.1))
      ]

  open_relations-identifiers :
      (ids : List ℕ) (rs : List RangeVar)
      → open_relations_for_truncate catalog ids (find_cstore_tables catalog rs) ≡ (
          if all_allowed catalog rs then ok (identifiers catalog ids rs) else err permission_denied)
  unfolding find_cstore_tables open_relations_for_truncate
  open_relations-identifiers ids [] = refl
  open_relations-identifiers ids (r ∷ rs) = elim (Bool-cases (is_truncated_here catalog r)) [
    | inl e ↦ elim (Bool-cases (truncate_allowed (range_var_get_relid r))) [
      | inl a ↦ elim (Bool-cases (list_member_oid ids (range_var_get_relid r))) [
        | inl m ↦ rw (e, a, m) (open_relations-identifiers ids rs)
        | inr m ↦ rw (e, a, m) (open_relations-identifiers (ids ++ range_var_get_relid r ∷ []) rs)
      ]
      | inr a ↦ rw (e, a) refl
    ]
    | inr e ↦ rw e (open_relations-identifiers ids rs)
  ]

  -- A TRUNCATE of relations of which the role may not truncate some table of the extension is an
  -- error before anything is done. Any other, where nothing that is called fails, ends well: the
  -- previous hook is called at most once, never with an empty list, for exactly the relations that
  -- are not tables of the extension or are distributed, and after it the other tables are truncated,
  -- each once.
  pub process_utility-truncate_statement :
      (run : Action RangeVar → Result (Unit {0})) (rs : List RangeVar)
      → ((action : Action RangeVar) → run action ≡ ok tt)
      → process_utility catalog run (truncate_statement rs) ≡ (
          if all_allowed catalog rs
          then (
            ok tt,
            (if no_relations catalog (passed_on catalog rs)
                then truncate_tables (identifiers catalog [] rs) ∷ []
                else call_previous_truncate (passed_on catalog rs)
                  ∷ truncate_tables (identifiers catalog [] rs)
                  ∷ []),
          )
          else (err permission_denied, []))
  unfolding process_utility
  process_utility-truncate_statement run rs runs = elim (Bool-cases (all_allowed catalog rs)) [
    | inl e ↦
        rw
          (
            open_relations-identifiers [] rs,
            e,
            list_difference-others rs (find_cstore_tables catalog rs)
                (λ r. member-find_cstore_tables r rs) (members_found rs),
          )
          (others_then_tables run (passed_on catalog rs) (identifiers catalog [] rs) runs)
    | inr e ↦ rw (open_relations-identifiers [] rs, e) refl
  ]

-- ===== src/Disk/Triples.antt =====
-- What a chain of calls on the disk establishes: a condition where it succeeds, which depends on the
-- result, and one where it fails.
use cstore_fdw.Prelude.{subst, ℕ, zero, suc, ◌≡◌, refl, Bool, true, false, if◌then◌else◌}
use cstore_fdw.Result.{Error, Result, ok, err}
use cstore_fdw.Disk.{Disk, Io, continue, ◌>>=◌, lift, call}

abbrev pub Outcome :
    {A : Type 0} → (A → Disk → Type 0) → (Error → Disk → Type 0) → Result A × Disk → Type 0
Outcome Done Failed (ok a, d) = Done a d
Outcome Done Failed (err e, d) = Failed e d

-- Run on a disk that meets the first condition, the action ends in the second or the third.
pub record Triple {A : Type 0} (Before : Disk → Type 0) (m : Io A) (Done : A → Disk → Type 0)
    (Failed : Error → Disk → Type 0) : Type 0 where
  pub run : (d : Disk) → Before d → Outcome Done Failed (m d)

pub Triple-bind :
    {A B : Type 0} {Before : Disk → Type 0} {Between : A → Disk → Type 0} {Done : B → Disk → Type 0}
    {Failed : Error → Disk → Type 0} (m : Io A) (f : A → Io B)
    → Triple Before m Between Failed
    → ((a : A) → Triple (Between a) (f a) Done Failed)
    → Triple Before (m >>= f) Done Failed
Triple-bind {A} {B} {Before} {Between} {Done} {Failed} m f hm hf = record {
  run = λ d before. after (m d).0 (m d).1 (hm.run d before);
}
  where
    after :
        (r : Result A) (d' : Disk)
        → Outcome Between Failed (r, d')
        → Outcome Done Failed (continue r f d')
    after (ok a) d' h = (hf a).run d' h
    after (err e) d' h = h

pub Triple-lift :
    {A : Type 0} {Before : Disk → Type 0} {Done : A → Disk → Type 0}
    {Failed : Error → Disk → Type 0} (r : Result A)
    → ((e : Error) (d : Disk) → r ≡ err e → Before d → Failed e d)
    → ((a : A) (d : Disk) → r ≡ ok a → Before d → Done a d)
    → Triple Before (lift r) Done Failed
Triple-lift (ok a) fails succeeds = record { run = λ d before. succeeds a d refl before }
Triple-lift (err e) fails succeeds = record { run = λ d before. fails e d refl before }

pub Triple-call :
    {Before : Disk → Type 0} {Failed : Error → Disk → Type 0} {Done : Unit {0} → Disk → Type 0}
    (e : Error) (f : Disk → Disk)
    → ((d : Disk) → Before d → Failed e d)
    → ((d : Disk) (credit : ℕ) → Before d → Done tt (record (f d) { credit = credit }))
    → Triple Before (call e f) Done Failed
unfolding call
Triple-call {Before} {Failed} {Done} e f fails succeeds = record {
  run = λ d before. at_credit d before d.credit;
}
  where
    at_credit :
        (d : Disk)
        → Before d
        → (credit : ℕ)
        → Outcome Done Failed
            (elim credit [ zero ↦ (err e, d) | suc n ↦ (ok tt, record (f d) { credit = n }) ])
    at_credit d before zero = fails d before
    at_credit d before (suc n) = succeeds d n before

pub Triple-if :
    {A : Type 0} {Before : Disk → Type 0} {Done : A → Disk → Type 0}
    {Failed : Error → Disk → Type 0} (b : Bool) (m n : Io A)
    → Triple Before m Done Failed
    → Triple Before n Done Failed
    → Triple Before (if b then m else n) Done Failed
Triple-if true m n hm hn = hm
Triple-if false m n hm hn = hn

-- A condition that does not speak of the disk is a hypothesis.
pub Triple-given :
    {A P : Type 0} {Before : Disk → Type 0} {Done : A → Disk → Type 0}
    {Failed : Error → Disk → Type 0} {m : Io A}
    → (P → Triple Before m Done Failed)
    → Triple (λ d. P × Before d) m Done Failed
Triple-given h = record { run = λ d s. (h s.0).run d s.1 }

-- Without a claim every action does.
pub Triple-any :
    {A : Type 0} {Before : Disk → Type 0} (m : Io A)
    → Triple Before m (λ a d. Unit {0}) (λ e d. Unit {0})
Triple-any {A} m = record { run = λ d before. ends (m d) }
  where
    ends : (r : Result A × Disk) → Outcome (λ a d. Unit {0}) (λ e d. Unit {0}) r
    ends (ok a, d) = tt
    ends (err e, d) = tt

-- The outcome of an action that ends in a value.
pub Outcome-ok :
    {A : Type 0} (Done : A → Disk → Type 0) (r : Result A × Disk) (a : A) (d : Disk)
    → r ≡ (ok a, d)
    → Outcome Done (λ e d. Unit {0}) r
    → Done a d
Outcome-ok Done r a d e h = subst (λ r. Outcome Done (λ e d. Unit {0}) r) e h

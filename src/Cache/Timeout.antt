-- ===== src/Cache/Timeout.antt =====
-- crates/cache/src/lib.rs: `TimeoutCache`. Each function runs under the map's lock. An entry counts
-- the handles to it besides the map's own, and whether one of them has it locked. Time stamps are
-- those from 1970 on.
use Prim.Native.String.{String}
use mathlib.Core.List.{reverse}
use moghtech_lib.Base.{
  ℕ, ◌+◌, Bool, true, false, not, Option, none, some, List, [], ◌∷◌, ltb, leb, if◌then◌else◌,
  retain,
}
use moghtech_lib.Base.Table.{Eq, lookup, insert, remove as remove_key}

-- An `anyhow::Error`: its chain of reasons, outermost first.
pub data AnyhowError : Type 0 where
  msg : String → AnyhowError
  context : String → AnyhowError → AnyhowError

pub data Result {ℓ} (A : Type ℓ) : Type ℓ where
  ok : A → Result A
  err : AnyhowError → Result A

abbrev pub reasons : AnyhowError → List String
reasons (msg reason) = reason ∷ []
reasons (context reason e) = reason ∷ reasons e

abbrev pub add_contexts : AnyhowError → List String → AnyhowError
add_contexts e [] = e
add_contexts e (reason ∷ more) = add_contexts (context reason e) more

-- The last reason first. Without one, the code panics.
abbrev pub of_reasons : List String → Option AnyhowError
of_reasons [] = none
of_reasons (reason ∷ more) = some (add_contexts (msg reason) more)

unfoldable pub clone_anyhow_error : AnyhowError → Option AnyhowError
clone_anyhow_error e = of_reasons (reverse (reasons e))

pub record CacheEntry {ℓ} (Res : Type ℓ) : Type ℓ where
  pub last_ts : ℕ
  pub res : Result Res

pub record Slot {ℓ} (Res : Type ℓ) : Type ℓ where
  pub entry : CacheEntry Res
  pub handles : ℕ
  pub locked : Bool

abbrev pub cloned {ℓ} : {Res : Type ℓ} → Result Res → Option (Result Res)
cloned (ok res) = some (ok res)
cloned (err e) = elim (clone_anyhow_error e) [ none ↦ none | some f ↦ some (err f) ]

module _ {ℓ} {Res : Type ℓ} where
  -- `CacheEntry::set`
  unfoldable pub set : Result Res → ℕ → CacheEntry Res → Option (CacheEntry Res)
  set res timestamp entry = elim (cloned res) [
    | none ↦ none
    | some copy ↦ some (record { last_ts = timestamp; res = copy })
  ]

  unfoldable pub clone_res : CacheEntry Res → Option (Result Res)
  clone_res entry = cloned entry.res

  abbrev pub is_held : Slot Res → Bool
  is_held slot = ltb 0 slot.handles

module _ {ℓ κ} {K : Type ℓ} {Res : Type κ} ⦃e : Eq K⦄ where
  -- The map, with one more handle to the entry; `default` is the value of a new one.
  unfoldable pub get_lock : Res → K → List (K × Slot Res) → List (K × Slot Res)
  get_lock default k m = elim (lookup k m) [
    | some slot ↦ insert k (record slot { handles = slot.handles + 1 }) m
    | none ↦
        insert k
          (record { entry = record { last_ts = 0; res = ok default }; handles = 1; locked = false })
          m
  ]

  unfoldable pub remove : K → List (K × Slot Res) → List (K × Slot Res) × Bool
  remove k m = elim (lookup k m) [
    | none ↦ (m, false)
    | some slot ↦ if not (is_held slot) then (remove_key k m, true) else (m, false)
  ]

  abbrev pub keeps : (K → CacheEntry Res → Bool) → K × Slot Res → Bool
  keeps keep (k, slot) =
      if is_held slot then true else if slot.locked then true else keep k slot.entry

  unfoldable pub retain_entries :
      (K → CacheEntry Res → Bool) → List (K × Slot Res) → List (K × Slot Res)
  retain_entries keep = retain (keeps keep)

  abbrev pub removed : (K → CacheEntry Res → Bool) → List (K × Slot Res) → ℕ
  removed keep [] = 0
  removed keep (p ∷ m) = (if keeps keep p then 0 else 1) + removed keep m

  -- The map, and how many entries `keep` was false for.
  unfoldable pub prune : ℕ → List (K × Slot Res) → List (K × Slot Res) × ℕ
  unfolding retain_entries
  prune older_than m =
      let keep : K → CacheEntry Res → Bool = λ k entry. leb older_than entry.last_ts in
      (retain_entries keep m, removed keep m)

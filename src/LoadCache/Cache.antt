-- ===== src/LoadCache/Cache.antt =====
-- auth/server/src/provider/load_cache.rs: the entries, their state, and a load. The loads of one
-- key follow one another (each holds the key's lock), so a load sees the entries as they are when
-- it is called, when it has the lock, and when it is done.
use Prim.Native.String.{String}
use moghtech_lib.Base.{
  ℕ, ◌+◌, ◌-◌, ◌*◌, ◌^◌, Bool, true, false, Option, none, some, List, [], ◌∷◌, ltb, ◌==◌,
  if◌then◌else◌, min, retain, all,
}
use moghtech_lib.Base.Table.{string_eq, lookup, insert, remove}
use moghtech_lib.Error.{Error, Note, Result, ok, err, fail, internal_server_error}

-- In nanoseconds: how long a load may take, how long a source that failed is left alone, and how
-- long a value stays in use after it went out of date.
abbrev pub load_timeout : ℕ
load_timeout = 15 * 1000000000

abbrev pub retry_failed_load_after : ℕ
retry_failed_load_after = 30 * 1000000000

abbrev pub max_stale_age : ℕ
max_stale_age = 60 * 60 * 1000000000

-- `Duration::MAX`
abbrev pub duration_max : ℕ
duration_max = 2 ^ 64 * 1000000000 - 1

pub record Entry {ℓ} (T : Type ℓ) : Type ℓ where
  pub fingerprint : ℕ
  pub value : Option (ℕ × T)
  pub failed_at : Option ℕ

pub data State : Type 0 where
  fresh stale failed_recently load : State

abbrev pub is_some_and {ℓ} : {A : Type ℓ} → Option A → (A → Bool) → Bool
is_some_and none p = false
is_some_and (some a) p = p a

abbrev pub is_none_or {ℓ} : {A : Type ℓ} → Option A → (A → Bool) → Bool
is_none_or none p = true
is_none_or (some a) p = p a

abbrev pub mapped {ℓ κ} : {A : Type ℓ} {B : Type κ} → (A → B) → Option A → Option B
mapped f none = none
mapped f (some a) = some (f a)

unfoldable pub usable_while_failing : Option ℕ → ℕ → Bool
usable_while_failing valid_for age =
    is_none_or valid_for (λ valid. ltb age (min (valid + max_stale_age) duration_max))

unfoldable pub state : Option ℕ → Option ℕ → Option ℕ → State
unfolding usable_while_failing
state valid_for value_age failed_ago =
    if is_some_and value_age (λ age. is_none_or valid_for (λ valid. ltb age valid))
    then State.fresh
    else if is_some_and failed_ago (λ ago. ltb ago retry_failed_load_after)
    then (if is_some_and value_age (λ age. usable_while_failing valid_for age)
        then State.stale
        else State.failed_recently)
    else State.load

-- The error of a load that was not attempted.
abbrev pub load_failed_recently : Error
load_failed_recently = record {
  status = internal_server_error;
  notes = Note.text "Loading failed less than 30 seconds ago, not trying again yet" ∷ [];
}

abbrev pub Entries {ℓ} : Type ℓ → Type ℓ
Entries T = List (String × Entry T)

module _ {ℓ} {T : Type ℓ} where
  -- The entry of a key, if it was loaded from this configuration.
  unfoldable pub matching : String → ℕ → Entries T → Option (Entry T)
  matching key fingerprint entries = elim (lookup key entries) [
    | none ↦ none
    | some e ↦ if e.fingerprint == fingerprint then some e else none
  ]

  abbrev pub value_of : Option (Entry T) → Option (ℕ × T)
  value_of none = none
  value_of (some e) = e.value

  abbrev pub failed_of : Option (Entry T) → Option ℕ
  failed_of none = none
  failed_of (some e) = e.failed_at

  abbrev pub age_at : ℕ → ℕ × T → ℕ
  age_at now v = now - v.0

  unfoldable pub cached : String → ℕ → Option ℕ → ℕ → Entries T → Result (Option T)
  cached key fingerprint valid_for now entries =
      let entry = matching key fingerprint entries in
      let value = value_of entry in
      elim (state valid_for (mapped (age_at now) value) (mapped (λ t. now - t) (failed_of entry))) [
        | State.fresh ↦ ok (mapped (λ v. v.1) value)
        | State.stale ↦ ok (mapped (λ v. v.1) value)
        | State.failed_recently ↦ err load_failed_recently
        | State.load ↦ ok none
      ]

  -- A load that takes longer than the timeout has failed.
  unfoldable pub timed : ℕ → ℕ → Result T → Result T
  timed timeout took loaded =
      if ltb timeout took
      then fail internal_server_error "Loading took longer than allowed"
      else loaded

  kept : Option ℕ → ℕ → Option (ℕ × T) → Option T
  kept valid_for now none = none
  kept valid_for now (some v) =
      if usable_while_failing valid_for (now - v.0) then some v.1 else none

  or_error : Option T → Error → Result T
  or_error none e = err e
  or_error (some v) e = ok v

  -- What is written when a load is done, and its answer.
  unfoldable pub finish : String → ℕ → Option ℕ → ℕ → Result T → Entries T → Entries T × Result T
  unfolding kept or_error usable_while_failing
  finish key fingerprint valid_for now (ok v) entries = (
    insert key (record { fingerprint = fingerprint; value = some (now, v); failed_at = none })
        entries,
    ok v,
  )
  finish key fingerprint valid_for now (err e) entries =
      let previous = value_of (matching key fingerprint entries) in
      (
        insert key (record { fingerprint = fingerprint; value = previous; failed_at = some now })
            entries,
        or_error (kept valid_for now previous) e,
      )

  -- A call at `called` on the entries `e0`; the lock is had at `locked` with the entries `e1`; the
  -- load, if there is one, takes `took`, and the entries are then `e2`. The answer, with the
  -- entries if they were written.
  unfoldable pub load_with_timeout :
      String
      → ℕ
      → Option ℕ
      → ℕ
      → (called : ℕ) (e0 : Entries T) (locked : ℕ) (e1 : Entries T) (took : ℕ) (loaded : Result T)
        (e2 : Entries T)
      → Option (Entries T) × Result T
  load_with_timeout key fingerprint valid_for timeout called e0 locked e1 took loaded e2 =
      let now = locked + min took timeout in
      let written = finish key fingerprint valid_for now (timed timeout took loaded) e2 in
      elim (cached key fingerprint valid_for called e0) [
        | err e ↦ (none, err e)
        | ok (some v) ↦ (none, ok v)
        | ok none ↦ elim (cached key fingerprint valid_for locked e1) [
          | err e ↦ (none, err e)
          | ok (some v) ↦ (none, ok v)
          | ok none ↦ (some written.0, written.1)
        ]
      ]

  unfoldable pub evict : String → Entries T → Entries T
  evict key entries = remove key entries

  unfoldable pub retain_keys : (String → Bool) → Entries T → Entries T
  retain_keys keep entries =
      if all (λ p. keep p.0) entries then entries else retain (λ p. keep p.0) entries

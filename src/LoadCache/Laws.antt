-- ===== src/LoadCache/Laws.antt =====
-- auth/server/src/provider/load_cache.rs: how old a value in use can be, and when a source is left
-- alone.
use Prim.Native.String.{String}
use text.Mathlib.TextEquality.{eq_iff}
use moghtech_lib.Base.{
  ℕ, ◌+◌, ◌-◌, ◌≤◌, ◌≡◌, refl, Bool, true, false, ◌&&◌, Option, none, some, ltb, ◌==◌,
  if◌then◌else◌, min, arith, Option-cases, Bool-cases, inl, inr, ◌⊎◌, ◌↔◌,
}
use moghtech_lib.Base.Table.{string_eq, insert, lookup-insert}
use moghtech_lib.Error.{Error, Result, ok, err}
use moghtech_lib.LoadCache.Cache.{
  Entry, Entries, matching, value_of, state, usable_while_failing, cached, timed, finish,
  load_with_timeout, retry_failed_load_after, max_stale_age, is_none_or, is_some_and,
}

-- At most an hour out of date.
abbrev pub is_usable : Option ℕ → ℕ → Bool
is_usable valid_for age = is_none_or valid_for (λ valid. ltb age (valid + max_stale_age))

module _ {ℓ} {T : Type ℓ} where
  -- The entries hold the value for this configuration, at most an hour out of date.
  abbrev pub IsUsable : String → ℕ → Option ℕ → ℕ → T → Entries T → Type ℓ
  IsUsable key fingerprint valid_for now v entries =
      (at : ℕ) × (value_of (matching key fingerprint entries) ≡ some (at, v))
      × (is_usable valid_for (now - at) ≡ true)

  cached-IsUsable :
      (key : String) (fingerprint : ℕ) (valid_for : Option ℕ) (now : ℕ) (entries : Entries T)
      (v : T)
      → cached key fingerprint valid_for now entries ≡ ok (some v)
      → IsUsable key fingerprint valid_for now v entries
  unfolding cached state usable_while_failing
  cached-IsUsable key fingerprint valid_for now entries v c =
      elim (Option-cases (value_of (matching key fingerprint entries))) [
        | inl missing ↦ absurd (ground (arith, missing))
        | inr ((at, w), found) ↦ (at, ground (arith, found), ground (arith, found))
      ]

  finish-IsUsable :
      (key : String) (fingerprint : ℕ) (valid_for : Option ℕ) (now : ℕ) (e : Error)
      (entries : Entries T) (v : T)
      → (finish key fingerprint valid_for now (err e) entries).1 ≡ ok v
      → IsUsable key fingerprint valid_for now v entries
  unfolding finish
  finish-IsUsable key fingerprint valid_for now e entries v h =
      elim (Option-cases (value_of (matching key fingerprint entries))) [
        | inl missing ↦ absurd (ground (arith, missing))
        | inr ((at, w), found) ↦ (at, ground (arith, found), ground (arith, found))
      ]

  answer-cases :
      (r : Result (Option T))
      → ((e : Error) × (r ≡ err e)) ⊎ ((r ≡ ok none) ⊎ ((v : T) × (r ≡ ok (some v))))
  answer-cases (err e) = inl (e, refl)
  answer-cases (ok none) = inr (inl refl)
  answer-cases (ok (some v)) = inr (inr (v, refl))

  finish_cases :
      (key : String) (fingerprint : ℕ) (valid_for : Option ℕ) (timeout took now : ℕ)
      (loaded : Result T) (entries : Entries T) (v : T)
      → (finish key fingerprint valid_for now (timed timeout took loaded) entries).1 ≡ ok v
      → ((loaded ≡ ok v) × (took ≤ timeout)) ⊎ IsUsable key fingerprint valid_for now v entries
  unfolding timed finish
  finish_cases key fingerprint valid_for timeout took now (err e) entries v h =
      inr (elim (Bool-cases (ltb timeout took)) [
        | inl late ↦
            finish-IsUsable key fingerprint valid_for now _ entries v (rw (late, timed) at h)
        | inr early ↦
            finish-IsUsable key fingerprint valid_for now e entries v (rw (early, timed) at h)
      ])
  finish_cases key fingerprint valid_for timeout took now (ok w) entries v h =
      elim (Bool-cases (ltb timeout took)) [
        | inl late ↦
            inr (finish-IsUsable key fingerprint valid_for now _ entries v (rw (late, timed) at h))
        | inr early ↦ inl (ground (arith, early), ground (arith, early))
      ]

  matching-insert :
      (key : String) (e : Entry T) (entries : Entries T)
      → matching key e.fingerprint (insert key e entries) ≡ some e
  unfolding matching
  matching-insert key e entries = ground (arith, eq_iff key key, lookup-insert key key e entries)

  -- Whatever a load returns was loaded by this very call, within the timeout, or stood in the
  -- entries for this configuration and was at most an hour out of date.
  pub load_with_timeout-IsUsable :
      (key : String) (fingerprint : ℕ) (valid_for : Option ℕ) (timeout called : ℕ) (e0 : Entries T)
      (locked : ℕ) (e1 : Entries T) (took : ℕ) (loaded : Result T) (e2 : Entries T) (v : T)
      → (load_with_timeout key fingerprint valid_for timeout called e0 locked e1 took loaded e2).1
        ≡ ok v
      → IsUsable key fingerprint valid_for called v e0
        ⊎ (IsUsable key fingerprint valid_for locked v e1
            ⊎ (((loaded ≡ ok v) × (took ≤ timeout))
                ⊎ IsUsable key fingerprint valid_for (locked + min took timeout) v e2))
  unfolding load_with_timeout
  load_with_timeout-IsUsable key fingerprint valid_for timeout called e0 locked e1 took loaded e2 v
        h =
      elim (answer-cases (cached key fingerprint valid_for called e0)) [
        | inl (e, failed) ↦ absurd (ground (arith, failed))
        | inr (inr (w, found)) ↦
            let same : w ≡ v = ground (arith, found) in
            inl (cached-IsUsable key fingerprint valid_for called e0 v (rw (← same) found))
        | inr (inl due) ↦ elim (answer-cases (cached key fingerprint valid_for locked e1)) [
          | inl (e, failed) ↦ absurd (ground (arith, due, failed))
          | inr (inr (w, found)) ↦
              let same : w ≡ v = ground (arith, due, found) in
              inr (inl (cached-IsUsable key fingerprint valid_for locked e1 v (rw (← same) found)))
          | inr (inl due') ↦ inr (
              inr (
                finish_cases key fingerprint valid_for timeout took (locked + min took timeout)
                  loaded e2 v (ground (arith, due, due'))))
        ]
      ]

  -- After a load, its value is what the key is answered with, without another load, as long as it
  -- is valid; and a load is due from then on. Another configuration has to load its own.
  pub cached-finish :
      (key : String) (fingerprint other : ℕ) (valid_for : Option ℕ) (now later : ℕ) (v : T)
      (entries : Entries T)
      → cached key other valid_for later (finish key fingerprint valid_for now (ok v) entries).0 ≡ (
          if fingerprint == other && is_none_or valid_for (λ valid. ltb (later - now) valid)
          then ok (some v)
          else ok none)
  unfolding cached state finish matching
  cached-finish key fingerprint other valid_for now later v entries = ground (
    arith,
    eq_iff key key,
    lookup-insert key key
        (record { fingerprint = fingerprint; value = some (now, v); failed_at = none }) entries,
  )

  -- After a failed load the source is left alone for thirty seconds: until then a call with the same
  -- configuration, for a value that is out of date or missing, loads nothing, and from then on it
  -- loads.
  pub cached-failed_iff :
      (key : String) (fingerprint : ℕ) (valid_for : Option ℕ) (now later : ℕ) (e : Error)
      (entries : Entries T)
      → is_some_and
          (value_of (matching key fingerprint entries))
          (λ v. is_none_or valid_for (λ valid. ltb (later - v.0) valid))
        ≡ false
      → (cached key fingerprint valid_for later
            (finish key fingerprint valid_for now (err e) entries).0
          ≡ ok none)
        ↔ (retry_failed_load_after ≤ later - now)
  unfolding cached state finish
  cached-failed_iff key fingerprint valid_for now later e entries h =
      let previous = value_of (matching key fingerprint entries) in
      let written : Entry T = record {
        fingerprint = fingerprint;
        value = previous;
        failed_at = some now;
      } in
      elim (Option-cases previous) [
        | inl missing ↦ ground (arith, h, missing, matching-insert key written entries)
        | inr ((at, w), found) ↦ ground (arith, h, found, matching-insert key written entries)
      ]

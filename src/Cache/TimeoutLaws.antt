-- ===== src/Cache/TimeoutLaws.antt =====
-- crates/cache/src/lib.rs: what a clean-up of `TimeoutCache` removes, and what a cached error keeps.
use Prim.Native.String.{String}
use mathlib.Core.List.{reverse, reverse-append}
use moghtech_lib.Base.{
  ℕ, ◌+◌, ◌≡◌, refl, ◌∙◌, ap, Bool, ◌||◌, none, some, List, [], ◌∷◌, ◌++◌, leb, if◌then◌else◌,
  length, arith, Bool-cases, inl, inr,
}
use moghtech_lib.Base.Table.{Eq, lookup, HasDistinctKeys, lookup_absent}
use moghtech_lib.Cache.Timeout.{
  AnyhowError, msg, context, Result, ok, err, reasons, add_contexts, of_reasons, clone_anyhow_error,
  CacheEntry, Slot, set, clone_res, is_held, keeps, retain_entries, removed, prune,
}

add_contexts-append :
    (e : AnyhowError) (rs : List String) (r : String)
    → add_contexts e (rs ++ r ∷ []) ≡ context r (add_contexts e rs)
add_contexts-append e [] r = refl
add_contexts-append e (s ∷ rs) r = add_contexts-append (context s e) rs r

of_reasons-append :
    (rs : List String) (r : String) (e : AnyhowError)
    → of_reasons rs ≡ some e
    → of_reasons (rs ++ r ∷ []) ≡ some (context r e)
of_reasons-append [] r e h = absurd (ground (arith, h))
of_reasons-append (s ∷ rs) r e h = ground (arith, h, add_contexts-append (msg s) rs r)

of_reasons-reasons : (e : AnyhowError) → of_reasons (reverse (reasons e)) ≡ some e
of_reasons-reasons (msg r) = refl
of_reasons-reasons (context r e) =
    ap of_reasons (reverse-append (r ∷ []) (reasons e))
    ∙ of_reasons-append (reverse (reasons e)) r e (of_reasons-reasons e)

-- A result that was set is what every caller gets from the cache, errors with all of their reasons
-- in order; and cloning an error never panics.
pub clone_res-set {ℓ} :
    {Res : Type ℓ} (res : Result Res) (timestamp : ℕ) (entry : CacheEntry Res)
    → (set res timestamp entry ≡ some (record { last_ts = timestamp; res = res }))
      × (clone_res (record { last_ts = timestamp; res = res }) ≡ some res)
unfolding set clone_res clone_anyhow_error
clone_res-set (ok r) timestamp entry = (refl, refl)
clone_res-set (err f) timestamp entry =
    (ground (arith, of_reasons-reasons f), ground (arith, of_reasons-reasons f))

module _ {ℓ κ} {K : Type ℓ} {Res : Type κ} ⦃q : Eq K⦄ where
  retained-none :
      (keep : K → CacheEntry Res → Bool) (k : K) (m : List (K × Slot Res))
      → lookup k m ≡ none
      → lookup k (retain_entries keep m) ≡ none
  unfolding lookup retain_entries
  retained-none keep k [] h = refl
  retained-none keep k ((j, s) ∷ m) h = ground (arith, retained-none keep k m)

  lookup-retain_entries :
      (keep : K → CacheEntry Res → Bool) (k : K) (m : List (K × Slot Res)) (slot : Slot Res)
      → HasDistinctKeys m
      → lookup k m ≡ some slot
      → lookup k (retain_entries keep m) ≡ (if keeps keep (k, slot) then some slot else none)
  unfolding lookup retain_entries
  lookup-retain_entries keep k [] slot d h = absurd (ground (arith, h))
  lookup-retain_entries keep k ((j, s) ∷ m) slot (a, d) h = elim (Bool-cases (q.beq j k)) [
    | inl same ↦
        let e : j ≡ k = (q.beq_iff j k).0 same in
        let absent = retained-none keep k m (lookup_absent k m (rw e at a)) in
        ground (arith, same, e, absent)
    | inr other ↦ ground (arith, other, lookup-retain_entries keep k m slot d)
  ]

  length-retain_entries :
      (keep : K → CacheEntry Res → Bool) (m : List (K × Slot Res))
      → length (retain_entries keep m) + removed keep m ≡ length m
  unfolding retain_entries
  length-retain_entries keep [] = refl
  length-retain_entries keep (p ∷ m) = ground (arith, length-retain_entries keep m)

  -- On a map that has each key once, a clean-up removes exactly the entries that nobody holds or has
  -- locked and whose time is before the given one, leaves all others as they are, and returns how
  -- many it removed.
  pub prune-lookup :
      (older_than : ℕ) (k : K) (m : List (K × Slot Res)) (slot : Slot Res)
      → HasDistinctKeys m
      → lookup k m ≡ some slot
      → (lookup k (prune older_than m).0 ≡ (
          if is_held slot || slot.locked || leb older_than slot.entry.last_ts
          then some slot
          else none))
        × (length (prune older_than m).0 + (prune older_than m).1 ≡ length m)
  unfolding prune
  prune-lookup older_than k m slot d h =
      let keep : K → CacheEntry Res → Bool = λ j entry. leb older_than entry.last_ts in
      (ground (arith, lookup-retain_entries keep k m slot d h), length-retain_entries keep m)

-- ===== src/Cache/Tests.antt =====
-- crates/cache/src/lib.rs: the versions of two images.
use Prim.Native.String.{String}
use moghtech_lib.Base.{ℕ, ◌+◌, ◌≡◌, refl, false, none, some, List, [], ◌∷◌, length}
use moghtech_lib.Base.Table.{string_eq, lookup}
use moghtech_lib.Cache.Timeout.{
  msg, context, Result, ok, err, CacheEntry, Slot, set, clone_res, prune,
}
use moghtech_lib.Cache.TimeoutLaws.{clone_res-set, prune-lookup}

abbrev failed : Result ℕ
failed = err (context "Failed to pull image" (msg "connection refused"))

abbrev first : CacheEntry ℕ
first = record { last_ts = 0; res = ok 0 }

clone_res-set_example :
    (set failed 70 first ≡ some (record { last_ts = 70; res = failed }))
    × (clone_res (record { last_ts = 70; res = failed }) ≡ some failed)
clone_res-set_example = clone_res-set failed 70 first

abbrev held : Slot ℕ
held = record { entry = first; handles = 1; locked = false }

abbrev old : Slot ℕ
old = record { entry = record { last_ts = 60; res = failed }; handles = 0; locked = false }

abbrev images : List (String × Slot ℕ)
images = ("nginx", held) ∷ ("redis", old) ∷ []

found : lookup "redis" images ≡ some old
unfolding lookup
found = refl

prune-lookup_example :
    (lookup "redis" (prune 65 images).0 ≡ none)
    × (length (prune 65 images).0 + (prune 65 images).1 ≡ 2)
prune-lookup_example = prune-lookup 65 "redis" images old ((refl, tt), (tt, tt)) found

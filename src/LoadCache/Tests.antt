-- ===== src/LoadCache/Tests.antt =====
-- auth/server/src/provider/load_cache.rs: a provider whose metadata was loaded, in nanoseconds.
use moghtech_lib.Base.{ℕ, ◌+◌, ◌-◌, ◌*◌, ◌≤◌, ◌≡◌, refl, ◌↔◌, ◌⊎◌, none, some, [], ◌∷◌, min}
use moghtech_lib.Base.Table.{lookup}
use moghtech_lib.Error.{Error, Note, Result, ok, err, internal_server_error}
use moghtech_lib.LoadCache.Cache.{
  Entries, state, usable_while_failing, matching, cached, timed, finish, load_with_timeout,
  load_timeout, retry_failed_load_after,
}
use moghtech_lib.LoadCache.Laws.{
  IsUsable, load_with_timeout-IsUsable, cached-finish, cached-failed_iff,
}

abbrev second : ℕ
second = 1000000000

abbrev loaded : Entries ℕ
loaded = ("idp", record { fingerprint = 4; value = some (100 * second, 7); failed_at = none }) ∷ []

abbrev unreachable : Error
unreachable = record { status = internal_server_error; notes = Note.text "connection refused" ∷ [] }

-- The value is out of date, its load fails, and it is kept.
kept :
    (load_with_timeout "idp" 4
      (some (60 * second))
      load_timeout
      (200 * second)
      loaded
      (201 * second)
      loaded
      second
      (err unreachable)
      loaded).1
    ≡ ok 7
unfolding load_with_timeout cached state matching lookup timed finish usable_while_failing
kept = refl

load_with_timeout-IsUsable_example :
    IsUsable "idp" 4 (some (60 * second)) (200 * second) 7 loaded
    ⊎ (IsUsable "idp" 4 (some (60 * second)) (201 * second) 7 loaded
        ⊎ (((◌≡◌ {A = Result ℕ} (err unreachable) (ok 7)) × (second ≤ load_timeout))
            ⊎ IsUsable "idp" 4
                (some (60 * second))
                (201 * second + min second load_timeout)
                7
                loaded))
load_with_timeout-IsUsable_example =
    load_with_timeout-IsUsable "idp" 4 (some (60 * second)) load_timeout (200 * second) loaded
      (201 * second) loaded second (err unreachable) loaded 7 kept

cached-finish_example :
    cached "idp" 4
      (some (60 * second))
      (230 * second)
      (finish "idp" 4 (some (60 * second)) (200 * second) (ok 8) loaded).0
    ≡ ok (some 8)
cached-finish_example =
    cached-finish "idp" 4 4 (some (60 * second)) (200 * second) (230 * second) 8 loaded

cached-failed_iff_example :
    (cached "idp" 4
        (some (60 * second))
        (230 * second)
        (finish "idp" 4 (some (60 * second)) (200 * second) (err unreachable) loaded).0
      ≡ ok none)
    ↔ (retry_failed_load_after ≤ 230 * second - 200 * second)
unfolding matching lookup
cached-failed_iff_example =
    cached-failed_iff "idp" 4 (some (60 * second)) (200 * second) (230 * second) unreachable loaded
      refl

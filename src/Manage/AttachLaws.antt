-- ===== src/Manage/AttachLaws.antt =====
-- auth/server/src/api/manage: who is answered by the management API, and what for.
use moghtech_lib.Base.{ℕ, ◌≡◌, ◌⊎◌, Bool, true, Option, some, List}
use moghtech_lib.Base.Text.{Text, codes}
use moghtech_lib.Base.Int.{ℤ}
use moghtech_lib.Error.{Result, ok}
use moghtech_lib.RateLimit.Attempts.{RateLimiter}
use moghtech_lib.RateLimit.Entries.{EntryMap}
use moghtech_lib.Middleware.Extract.{RequestAuthentication, Auth}
use moghtech_lib.Middleware.Request.{Request, SignedRequestBody}
use moghtech_lib.Middleware.Laws.{IsFrom}
use moghtech_lib.Middleware.Handled.{IsRead, signed_of}
use moghtech_lib.Middleware.Users.{Accounts}
use moghtech_lib.Middleware.UserLaws.{IsUserOf}
use moghtech_lib.Manage.Guards.{ManageRequestMethod, get_user_id, Reauthentication, handler}
use moghtech_lib.Manage.GuardLaws.{IsPermitted}
use moghtech_lib.Manage.Attach.{authenticated_at_of}

module _ (path : Text) (parse_request : List ℕ → Option ManageRequestMethod)
    (body : Result (List ℕ)) where
  -- The request asks who the user is, by its path or by its body.
  abbrev pub AsksForId : Type 0
  AsksForId =
      (path ≡ codes "/GetUserId")
      ⊎ ((path ≡ codes "/")
          × ((bytes : List ℕ) × (body ≡ ok bytes) × (parse_request bytes ≡ some get_user_id)))

module _ {User : Type 0} (A : Auth) (U : Accounts User) (full : Bool) (l : RateLimiter)
    (r : Request) (path : Text) (parse_request : List ℕ → Option ManageRequestMethod)
    (is_enabled : User → Bool) where
  -- What holds of a request that was answered.
  abbrev pub IsAnswered :
      (Reauthentication)
      → (User → Bool)
      → ManageRequestMethod
      → (read_at now : ℤ) → ℕ
      → SignedRequestBody
      → RequestAuthentication
      → User
      → Type 0
  IsAnswered R is_workload request read_at now decoded_at read found user =
      IsRead A full l r read_at read
      × IsFrom A r.headers (signed_of A full l r read) now read.timestamp found
      × IsUserOf U found r.ip user
      × ((is_enabled user ≡ true) ⊎ AsksForId path parse_request r.body)
      × IsPermitted R (is_workload user) (authenticated_at_of U decoded_at found) request

module _ {User Answer : Type 0} (A : Auth) (U : Accounts User) (full : Bool) (l : RateLimiter)
    (r : Request) (path : Text) (parse_request : List ℕ → Option ManageRequestMethod)
    (is_enabled : User → Bool) where
  module _ (next : User → Option ℕ → EntryMap → EntryMap × Result Answer) where
    -- The user is enabled, or asks for no more than the own id; and the answer is the router's.
    abbrev pub IsNext : Option ℕ → User → EntryMap → Answer → Type 0
    IsNext at user state x =
        ((is_enabled user ≡ true) ⊎ AsksForId path parse_request r.body)
        × ((next user at state).1 ≡ ok x)

  module _ (R : Reauthentication) (is_workload : User → Bool) (request : ManageRequestMethod)
      (resolve : User → EntryMap → EntryMap × Result Answer) where
    -- The handler of the request, as the router calls it.
    abbrev pub handle : User → Option ℕ → EntryMap → EntryMap × Result Answer
    handle user at = handler R (is_workload user) at request (resolve user)

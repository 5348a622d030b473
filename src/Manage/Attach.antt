-- ===== src/Manage/Attach.antt =====
-- auth/server/src/api/manage/middleware.rs, `attach_user`: the user of a request to the management
-- API. Of the body, only the method that it parses as matters here. What the router does next is a
-- parameter; each use of the limiter has its own times.
use moghtech_lib.Base.{ℕ, Bool, true, false, Option, none, some, List, if◌then◌else◌}
use moghtech_lib.Base.Text.{Text, codes, text_eq}
use moghtech_lib.Base.Int.{ℤ}
use moghtech_lib.Error.{Result, ok, err, fail, ◌>>=◌, forbidden}
use moghtech_lib.Jwt.Provider.{decode_claims, authenticated_at}
use moghtech_lib.RateLimit.Attempts.{RateLimiter}
use moghtech_lib.RateLimit.Entries.{EntryMap}
use moghtech_lib.RateLimit.Wrapper.{with_failure_rate_limit_using_ip}
use moghtech_lib.Middleware.Extract.{
  RequestAuthentication, jwt, api_key, public_key, Auth,
  extract_request_authentication_rate_limited,
}
use moghtech_lib.Middleware.Request.{Request, SignedRequestBody, Span, read_signed_request_body}
use moghtech_lib.Middleware.Users.{Accounts, get_user_from_request_authentication}
use moghtech_lib.Manage.Guards.{ManageRequestMethod, is_get_user_id}

module _ {User : Type 0} (U : Accounts User) where
  -- When the user logged in, with the token decoded at a time of its own.
  unfoldable pub authenticated_at_of : (decoded_at : ℕ) → RequestAuthentication → Option ℕ
  authenticated_at_of decoded_at (jwt token) =
      elim (decode_claims U.signing U.jwt_provider decoded_at token) [
        | ok claims ↦ some (authenticated_at claims)
        | err e ↦ none
      ]
  authenticated_at_of decoded_at (api_key key secret) = none
  authenticated_at_of decoded_at (public_key key) = none

-- The router's path, and what `serde_json` reads the body as.
module _ (path : Text) (parse_request : List ℕ → Option ManageRequestMethod)
    (body : Result (List ℕ)) where
  unfoldable pub is_get_user_id_request : List ℕ → Bool
  is_get_user_id_request bytes = elim (parse_request bytes) [
    | some request ↦ is_get_user_id request
    | none ↦ false
  ]

  unfoldable pub asks_for_id : Result Bool
  asks_for_id =
      if text_eq path (codes "/GetUserId")
      then ok true
      else if text_eq path (codes "/")
      then (do bytes ← body; ok (is_get_user_id_request bytes))
      else ok false

  unfoldable pub check_disabled_user_request : Result (Unit {0})
  check_disabled_user_request = do
    get_user_id ← asks_for_id
    if get_user_id then ok tt else fail forbidden "User is not enabled"

module _ {User Answer : Type 0} (A : Auth) (U : Accounts User) (full : Bool) (l : RateLimiter)
    (r : Request) (path : Text) (parse_request : List ℕ → Option ManageRequestMethod)
    (is_enabled : User → Bool) (next : User → Option ℕ → EntryMap → EntryMap × Result Answer) where
  unfoldable pub attach : Option ℕ → EntryMap × Result User → EntryMap × Result Answer
  attach at (m, err e) = (m, err e)
  attach at (m, ok user) =
      let run = next user at m in
      if is_enabled user
      then run
      else elim (check_disabled_user_request path parse_request r.body) [
        | err e ↦ (m, err e)
        | ok _ ↦ run
      ]

  unfoldable pub get_user_and_attach :
      (decoded_at : ℕ) → Span → EntryMap × Result RequestAuthentication → EntryMap × Result Answer
  get_user_and_attach decoded_at span (m, err e) = (m, err e)
  get_user_and_attach decoded_at (started, ended) (m, ok found) =
      attach (authenticated_at_of U decoded_at found) (
        with_failure_rate_limit_using_ip full l
          (λ others. (others, get_user_from_request_authentication U found r.ip)) r.ip started ended
          m)

  unfoldable pub extract_and_attach :
      ℤ → ℕ → Span → Span → EntryMap × Result SignedRequestBody → EntryMap × Result Answer
  extract_and_attach now decoded_at extracting getting (m, err e) = (m, err e)
  extract_and_attach now decoded_at (started, ended) getting (m, ok read) =
      get_user_and_attach decoded_at getting (
        extract_request_authentication_rate_limited A full l r.ip started ended r.headers
          (record { method = r.method; path_and_query = r.path_and_query; body = read.body }) now
          read.timestamp m)

  -- The clock stands at `read_at` when the headers arrived, at `now` when the body was read.
  unfoldable pub attach_user :
      (read_at now : ℤ)
      → (decoded_at : ℕ) → (reading extracting getting : Span) → EntryMap
      → EntryMap × Result Answer
  attach_user read_at now decoded_at reading extracting getting m =
      extract_and_attach now decoded_at extracting getting
        (read_signed_request_body A full l r read_at reading m)

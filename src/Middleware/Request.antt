-- ===== src/Middleware/Request.antt =====
-- auth/server/src/middleware.rs, `read_signed_request_body` and `authenticate_request`. Reading the
-- body and the app's handler are parameters; each use of the limiter has its own times.
use moghtech_lib.Base.{ℕ, ◌||◌, not, Bool, Option, none, some, List, [], is_some, if◌then◌else◌}
use moghtech_lib.Base.Text.{Text, codes, text_eq}
use moghtech_lib.Base.Int.{ℤ}
use moghtech_lib.Net.{IpAddr}
use moghtech_lib.Error.{Result, ok, err, ◌>>=◌}
use moghtech_lib.RateLimit.Attempts.{RateLimiter}
use moghtech_lib.RateLimit.Entries.{EntryMap}
use moghtech_lib.RateLimit.Wrapper.{with_failure_rate_limit_using_ip}
use moghtech_lib.Middleware.Extract.{
  Headers, RequestAuthentication, Auth, check_signed_request,
  extract_request_authentication_rate_limited,
}

pub record SignedRequestBody : Type 0 where
  pub body : List ℕ
  pub timestamp : Option ℤ

abbrev unread : Option ℤ → SignedRequestBody
unread timestamp = record { body = []; timestamp = timestamp }

pub record Request : Type 0 where
  pub ip : IpAddr
  pub headers : Headers
  pub method : Text
  pub path_and_query : Option Text
  -- What reading the body gives.
  pub body : Result (List ℕ)

-- When a use of the limiter starts, and when it ends.
abbrev pub Span : Type 0
Span = ℕ × ℕ

module _ (A : Auth) (full : Bool) (l : RateLimiter) (r : Request) where
  unfoldable pub read_body : ℤ → EntryMap × Result (Unit {0}) → EntryMap × Result SignedRequestBody
  read_body timestamp (m, allowed) = (
    m,
    do looked_up ← allowed; body ← r.body; ok (record { body = body; timestamp = some timestamp }),
  )

  unfoldable pub read_signed_request_body :
      ℤ → Span → EntryMap → EntryMap × Result SignedRequestBody
  read_signed_request_body now (started, ended) m =
      let h = r.headers in
      let look_up =
        with_failure_rate_limit_using_ip full l (λ others. (others, ok tt)) r.ip started ended m in
      if not (is_some h.x_api_signature) || is_some h.authorization || is_some h.x_api_key
      then (m, ok (unread none))
      else elim (check_signed_request A h now) [
        | err e ↦ (m, err e)
        | ok (keys, timestamp) ↦
            if text_eq r.method (codes "CONNECT")
            then (m, ok (unread (some timestamp)))
            else read_body timestamp look_up
      ]

  module _ {Answer : Type 0}
      (handle : RequestAuthentication → EntryMap → EntryMap × Result Answer) where
    unfoldable pub handle_authenticated :
        Span → EntryMap × Result RequestAuthentication → EntryMap × Result Answer
    handle_authenticated span (m, err e) = (m, err e)
    handle_authenticated (started, ended) (m, ok found) =
        with_failure_rate_limit_using_ip full l (handle found) r.ip started ended m

    unfoldable pub extract_and_handle :
        ℤ → Span → Span → EntryMap × Result SignedRequestBody → EntryMap × Result Answer
    extract_and_handle now extracting handling (m, err e) = (m, err e)
    extract_and_handle now (started, ended) handling (m, ok read) = handle_authenticated handling (
        extract_request_authentication_rate_limited A full l r.ip started ended r.headers
          (record { method = r.method; path_and_query = r.path_and_query; body = read.body }) now
          read.timestamp m)

    -- The clock stands at `read_at` when the headers arrived, at `now` when the body was read.
    unfoldable pub authenticate_request :
        (read_at now : ℤ)
        → (reading extracting handling : Span) → EntryMap
        → EntryMap × Result Answer
    authenticate_request read_at now reading extracting handling m =
        extract_and_handle now extracting handling (read_signed_request_body read_at reading m)

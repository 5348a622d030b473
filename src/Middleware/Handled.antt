-- ===== src/Middleware/Handled.antt =====
-- auth/server/src/middleware.rs, `authenticate_request`: for whom a request is handled.
use moghtech_lib.Base.{
  ℕ, ◌≡◌, ◌⊎◌, inl, inr, Bool, true, not, ◌||◌, Option, none, some, [], is_some, arith, Bool-cases,
}
use moghtech_lib.Base.Text.{codes, text_eq, text_eq_iff}
use moghtech_lib.Base.Int.{ℤ}
use moghtech_lib.Net.{IpAddr}
use moghtech_lib.Error.{Result, ok, err, Result-cases}
use moghtech_lib.RateLimit.Attempts.{RateLimiter, check}
use moghtech_lib.RateLimit.Entries.{EntryMap, get}
use moghtech_lib.RateLimit.Key.{key}
use moghtech_lib.RateLimit.Wrapper.{
  with_failure_rate_limit_using_ip, lenient_end, attempts_in, store_checked,
}
use moghtech_lib.Middleware.Extract.{
  RequestAuthentication, Auth, Signed, check_request_timestamp, check_signed_request,
  extract_request_authentication, extract_request_authentication_rate_limited,
}
use moghtech_lib.Middleware.Request.{
  Request, SignedRequestBody, Span, read_body, read_signed_request_body, handle_authenticated,
  extract_and_handle, authenticate_request,
}
use moghtech_lib.Middleware.Laws.{
  IsFrom, extract_request_authentication-IsFrom, check_signed_request-ok,
}

lenient_end-ok :
    {R : Type 0} (full : Bool) (l : RateLimiter) (k : IpAddr) (ended : ℕ) (r : EntryMap × Result R)
    (x : R)
    → (lenient_end full l k ended r).1 ≡ ok x
    → r.1 ≡ ok x
unfolding lenient_end
lenient_end-ok full l k ended (m, ok y) x h = h
lenient_end-ok full l k ended (m, err e) x h = absurd (ground (arith, h))

-- What the limiter lets through successfully was run.
pub limited-run :
    {R : Type 0} (full : Bool) (l : RateLimiter) (run : EntryMap → EntryMap × Result R)
    (ip : IpAddr) (started ended : ℕ) (m : EntryMap) (x : R)
    → (with_failure_rate_limit_using_ip full l run ip started ended m).1 ≡ ok x
    → (state : EntryMap) × ((run state).1 ≡ ok x)
unfolding with_failure_rate_limit_using_ip
limited-run full l run ip started ended m x h = elim (Bool-cases l.disabled) [
  | inl e ↦ (m, ground (arith, h, e))
  | inr e ↦
      let found = get (key l ip) m in
      let checked = check l started (attempts_in found.1) in
      let state = store_checked (key l ip) checked.0 found.0 in
      elim (Result-cases checked.1) [
        | inr (f, k) ↦ absurd (ground (arith, h, e, k))
        | inl (done, k) ↦
            (state, lenient_end-ok full l (key l ip) ended (run state) x (ground (arith, h, e, k)))
      ]
]

module _ (A : Auth) (full : Bool) (l : RateLimiter) (r : Request) where
  abbrev pub signed_of : SignedRequestBody → Signed
  signed_of read = record { method = r.method; path_and_query = r.path_and_query; body = read.body }

  -- The body of a signed request was read (a tunnel has none) once its time was found near the
  -- clock; any other request's was not.
  abbrev pub IsRead : ℤ → SignedRequestBody → Type 0
  IsRead read_at read =
      ((read.timestamp ≡ none)
        × ((not (is_some r.headers.x_api_signature)
              || is_some r.headers.authorization
              || is_some r.headers.x_api_key)
            ≡ true))
      ⊎ ((timestamp : ℤ) × (read.timestamp ≡ some timestamp)
          × (check_request_timestamp A r.headers read_at ≡ ok timestamp)
          × ((r.body ≡ ok read.body) ⊎ ((r.method ≡ codes "CONNECT") × (read.body ≡ []))))

  read_body-ok :
      (timestamp : ℤ) (looked : EntryMap × Result (Unit {0})) (read : SignedRequestBody)
      → (read_body A full l r timestamp looked).1 ≡ ok read
      → (read.timestamp ≡ some timestamp) × (r.body ≡ ok read.body)
  unfolding read_body
  read_body-ok timestamp (m, err e) read h = absurd (ground (arith, h))
  read_body-ok timestamp (m, ok done) read h = elim (Result-cases r.body) [
    | inr (f, k) ↦ absurd (ground (arith, h, k))
    | inl (body, k) ↦ (ground (arith, h, k), ground (arith, h, k))
  ]

  pub read_signed_request_body-IsRead :
      (read_at : ℤ) (span : Span) (m : EntryMap) (read : SignedRequestBody)
      → (read_signed_request_body A full l r read_at span m).1 ≡ ok read
      → IsRead read_at read
  unfolding read_signed_request_body
  read_signed_request_body-IsRead read_at (started, ended) m read h =
      let unsigned =
        not (is_some r.headers.x_api_signature)
        || is_some r.headers.authorization
        || is_some r.headers.x_api_key in
      elim (Bool-cases unsigned) [
        | inl e ↦ inl (ground (arith, h, e), e)
        | inr e ↦ elim (Result-cases (check_signed_request A r.headers read_at)) [
          | inr (f, k) ↦ absurd (ground (arith, h, e, k))
          | inl ((keys, timestamp), k) ↦
              let (configured, near) =
                check_signed_request-ok A r.headers read_at timestamp keys k in
              elim (Bool-cases (text_eq r.method (codes "CONNECT"))) [
                | inl c ↦ inr (
                  timestamp,
                  ground (arith, h, e, k, c),
                  near,
                  inr ((text_eq_iff r.method (codes "CONNECT")).0 c, ground (arith, h, e, k, c)),
                )
                | inr c ↦
                    let looked : EntryMap × Result (Unit {0}) =
                      with_failure_rate_limit_using_ip full l (λ others. (others, ok tt)) r.ip
                        started ended m in
                    let (timed, body) =
                      read_body-ok timestamp looked read (ground (arith, h, e, k, c)) in
                    inr (timestamp, timed, near, inl body)
              ]
        ]
      ]

  pub extracted-IsFrom :
      (now : ℤ) (checked : Option ℤ) (started ended : ℕ) (signed : Signed) (m : EntryMap)
      (found : RequestAuthentication)
      → (extract_request_authentication_rate_limited A full l r.ip started ended r.headers signed
          now checked m).1
        ≡ ok found
      → IsFrom A r.headers signed now checked found
  unfolding extract_request_authentication_rate_limited
  extracted-IsFrom now checked started ended signed m found h =
      let run : EntryMap → EntryMap × Result (Option RequestAuthentication) =
        λ others. (others, extract_request_authentication A r.headers signed now checked) in
      let limited = with_failure_rate_limit_using_ip full l run r.ip started ended m in
      elim (Result-cases limited.1) [
        | inr (f, k) ↦ absurd (ground (arith, h, k))
        | inl (none, k) ↦ absurd (ground (arith, h, k))
        | inl (some auth, k) ↦
            let (state, ran) = limited-run full l run r.ip started ended m (some auth) k in
            extract_request_authentication-IsFrom A r.headers signed now checked found
              (ground (arith, h, k, ran))
      ]

  module _ {Answer : Type 0}
      (handle : RequestAuthentication → EntryMap → EntryMap × Result Answer) where
    -- A request is answered only by the handler, with credentials that the request carries: a
    -- bearer token, else an API key, else a key that signed the request. A signature was checked
    -- for the request's method, path and the body that was read, at a time near the clock.
    pub authenticate_request-IsFrom :
        (read_at now : ℤ) (reading extracting handling : Span) (m : EntryMap) (x : Answer)
        → (authenticate_request A full l r handle read_at now reading extracting handling m).1
          ≡ ok x
        → (read : SignedRequestBody) × (found : RequestAuthentication) × (state : EntryMap) × IsRead
            read_at read
          × IsFrom A r.headers (signed_of read) now read.timestamp found
          × ((handle found state).1 ≡ ok x)
    unfolding authenticate_request extract_and_handle handle_authenticated
    authenticate_request-IsFrom read_at now reading (started, ended) (started', ended') m x h =
        let body = read_signed_request_body A full l r read_at reading m in
        elim (Result-cases body.1) [
          | inr (f, k) ↦ absurd (ground (arith, h, k))
          | inl (read, k) ↦
              let extracted =
                extract_request_authentication_rate_limited A full l r.ip started ended r.headers
                  (signed_of read) now read.timestamp body.0 in
              elim (Result-cases extracted.1) [
                | inr (f, e) ↦ absurd (ground (arith, h, k, e))
                | inl (found, e) ↦
                    let (state, ran) =
                      limited-run full l (handle found) r.ip started' ended' extracted.0 x
                        (ground (arith, h, k, e)) in
                    (
                      read,
                      found,
                      state,
                      read_signed_request_body-IsRead read_at reading m read k,
                      extracted-IsFrom now read.timestamp started ended (signed_of read) body.0
                          found e,
                      ran,
                    )
              ]
        ]

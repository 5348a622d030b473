-- ===== src/Error.antt =====
-- crates/error: the error of a request, and the result type of everything that can fail. An
-- `anyhow` chain is the list of its notes, outermost first; a number that a message formats is
-- kept as a number.
use Prim.Native.String.{String}
use moghtech_lib.Base.Text.{Text}
use moghtech_lib.Base.{
  ℕ, Bool, ◌&&◌, List, [], ◌∷◌, leb, ltb, Option, none, some, ◌≡◌, refl, ◌⊎◌, inl, inr,
}

pub data Note : Type 0 where
  text : String → Note
  -- `… | Try again in {retry_in:.0?}`: the whole wait, which only the text rounds.
  retry_in : ℕ → Note
  -- A `FailedAttempt` over the error below it: whether it repeats the causes, and what is left.
  failed_attempt : Bool → ℕ → Note
  -- A formatted message.
  formatted : Text → Note
  -- auth/server/src/api/token.rs: an `OauthError`, its code and description, and a `RoleNotFound`.
  oauth_error : String → Text → Note
  role_not_found : Text → Note

pub record Error : Type 0 where
  pub status : ℕ
  pub notes : List Note

pub data Result {ℓ} (T : Type ℓ) : Type ℓ where
  err : Error → Result T
  ok : T → Result T

infixl 5 ◌>>=◌ ◌>>◌
abbrev pub ◌>>=◌ {ℓ κ} : {T : Type ℓ} {U : Type κ} → Result T → (T → Result U) → Result U
err e >>= next = err e
ok t >>= next = next t

abbrev pub ◌>>◌ {ℓ} : {T : Type ℓ} → Result (Unit {0}) → Result T → Result T
done >> next = done >>= λ _. next

abbrev pub unauthorized : ℕ
unauthorized = 401

abbrev pub forbidden : ℕ
forbidden = 403

abbrev pub too_many_requests : ℕ
too_many_requests = 429

abbrev pub bad_request : ℕ
bad_request = 400

abbrev pub service_unavailable : ℕ
service_unavailable = 503

abbrev pub internal_server_error : ℕ
internal_server_error = 500

-- `anyhow!(…).status_code(…)`
abbrev pub fail {ℓ} : {A : Type ℓ} → ℕ → String → Result A
fail code message = err (record { status = code; notes = text message ∷ [] })

-- `anyhow!(…).status_code(…)`, of a formatted message.
abbrev pub fail_with {ℓ} : {A : Type ℓ} → ℕ → Text → Result A
fail_with code said = err (record { status = code; notes = formatted said ∷ [] })

-- `option.context(…).status_code(…)`
abbrev pub or_fail {ℓ} : {A : Type ℓ} → Option A → ℕ → String → Result A
or_fail none code message = fail code message
or_fail (some a) code message = ok a

abbrev pub context : Error → Note → Error
context e note = record e { notes = note ∷ e.notes }

abbrev pub is_server_error : ℕ → Bool
is_server_error status = leb 500 status && ltb status 600

abbrev pub is_ok {ℓ} : {A : Type ℓ} → Result A → Bool
is_ok (ok a) = Bool.true
is_ok (err e) = Bool.false

abbrev pub is_client_error : ℕ → Bool
is_client_error status = leb 400 status && ltb status 500

pub Result-cases {ℓ} :
    {A : Type ℓ} (r : Result A) → ((a : A) × (r ≡ ok a)) ⊎ ((e : Error) × (r ≡ err e))
Result-cases (ok a) = inl (a, refl)
Result-cases (err e) = inr (e, refl)

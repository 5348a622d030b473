-- ===== src/Middleware/Signature.antt =====
-- auth/client/rs/src/signature.rs: what the signature of a request covers. The digest of the body
-- is a parameter.
use moghtech_lib.Base.{ℕ, ◌+◌, ◌-◌, ◌/◌, ◌%◌, ◌&&◌, List, [], ◌∷◌, ◌++◌, ltb, leb, if◌then◌else◌}
use moghtech_lib.Base.Text.{Text}
use moghtech_lib.Base.Int.{ℤ}
use moghtech_lib.Base.Decimal.{display_i64}

unfoldable pub to_ascii_uppercase : Text → Text
to_ascii_uppercase [] = []
to_ascii_uppercase (c ∷ s) = (if leb b'a' c && leb c b'z' then c - 32 else c) ∷ to_ascii_uppercase s

abbrev pub hex_digit : ℕ → ℕ
hex_digit d = if ltb d 10 then b'0' + d else d - 10 + b'a'

-- `{byte:02x}` of each byte.
unfoldable pub to_hex : List ℕ → Text
to_hex [] = []
to_hex (byte ∷ bytes) = hex_digit (byte / 16) ∷ hex_digit (byte % 16) ∷ to_hex bytes

module _ (sha256 : List ℕ → List ℕ) where
  unfoldable pub body_sha256 : List ℕ → Text
  body_sha256 body = to_hex (sha256 body)

  unfoldable pub pki_auth_prologue : Text → Text → ℤ → List ℕ → Text
  pki_auth_prologue method path_and_query timestamp body =
      to_ascii_uppercase method
      ++ (b'|' ∷ (path_and_query ++ (b'|' ∷ (display_i64 timestamp ++ (b'|' ∷ body_sha256 body)))))

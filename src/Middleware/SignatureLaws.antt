-- ===== src/Middleware/SignatureLaws.antt =====
-- auth/client/rs/src/signature.rs: a signature covers one request only.
use moghtech_lib.Base.{
  ℕ, ◌+◌, ◌/◌, ◌%◌, ◌<◌, ◌≡◌, refl, sym, ap, ◌∙◌, Bool, true, not, some, List, [], ◌∷◌, ◌++◌,
  append_assoc, ◌==◌, all, All, arith,
}
use moghtech_lib.Base.Text.{Text}
use moghtech_lib.Base.Int.{ℤ, pos, negsuc}
use moghtech_lib.Base.Decimal.{
  display_i64, InI64, digits, all-digits, all-append, is_ascii_digit, parse_i64,
  parse_i64-display_i64,
}
use moghtech_lib.Middleware.Signature.{
  to_ascii_uppercase, hex_digit, to_hex, body_sha256, pki_auth_prologue,
}

cons_head : {a b : ℕ} {s t : Text} → a ∷ s ≡ b ∷ t → a ≡ b
cons_head {a} {b} e = ground (arith, e)

cons_tail : {a b : ℕ} {s t : Text} → a ∷ s ≡ b ∷ t → s ≡ t
cons_tail {a} {b} {s} {t} e = ground (arith, e)

some_inj : {y z : ℤ} → some y ≡ some z → y ≡ z
some_inj {y} {z} e = ground (arith, e)

abbrev pub lacks : ℕ → Text → Bool
lacks sep = all (λ c. not (c == sep))

-- The last separator stands before a text that has none.
last-split :
    (sep : ℕ) (a b s t : Text)
    → lacks sep s ≡ true
    → lacks sep t ≡ true
    → a ++ (sep ∷ s) ≡ b ++ (sep ∷ t)
    → (a ≡ b) × (s ≡ t)
last-split sep [] [] s t h k e = (refl, ground (arith, e))
last-split sep [] (d ∷ b) s t h k e =
    let tail : s ≡ b ++ (sep ∷ t) = ground (arith, e) in
    absurd (ground (arith, h, tail, all-append (λ c. not (c == sep)) b (sep ∷ t)))
last-split sep (c ∷ a) [] s t h k e =
    let tail : t ≡ a ++ (sep ∷ s) = ground (arith, e) in
    absurd (ground (arith, k, tail, all-append (λ c. not (c == sep)) a (sep ∷ s)))
last-split sep (c ∷ a) (d ∷ b) s t h k e =
    let (front, back) = last-split sep a b s t h k (ground (arith, e)) in
    (ground (arith, e, front), back)

-- The first slash stands behind a method and a bar.
first-split :
    (a b p q : Text)
    → lacks b'/' a ≡ true
    → lacks b'/' b ≡ true
    → a ++ (b'|' ∷ b'/' ∷ p) ≡ b ++ (b'|' ∷ b'/' ∷ q)
    → (a ≡ b) × (p ≡ q)
first-split [] [] p q h k e = (refl, ground (arith, e))
first-split [] (d ∷ []) p q h k e = absurd (ground (arith, e))
first-split [] (d ∷ d' ∷ b) p q h k e = absurd (ground (arith, e, k))
first-split (c ∷ []) [] p q h k e = absurd (ground (arith, e))
first-split (c ∷ c' ∷ a) [] p q h k e = absurd (ground (arith, e, h))
first-split (c ∷ a) (d ∷ b) p q h k e =
    let (front, back) =
      first-split a b p q (ground (arith, h)) (ground (arith, k)) (ground (arith, e)) in
    (ground (arith, e, front), back)

lacks-to_ascii_uppercase :
    (s : Text) → lacks b'/' s ≡ true → lacks b'/' (to_ascii_uppercase s) ≡ true
unfolding to_ascii_uppercase
lacks-to_ascii_uppercase [] h = refl
lacks-to_ascii_uppercase (c ∷ s) h = ground (arith, h, lacks-to_ascii_uppercase s)

lacks-digits : (s : Text) → all is_ascii_digit s ≡ true → lacks b'|' s ≡ true
lacks-digits [] h = refl
lacks-digits (c ∷ s) h = ground (arith, h, lacks-digits s)

lacks-display_i64 : (z : ℤ) → lacks b'|' (display_i64 z) ≡ true
unfolding display_i64
lacks-display_i64 (pos n) = lacks-digits (digits 20 n) (all-digits 20 n)
lacks-display_i64 (negsuc n) =
    ground (arith, lacks-digits (digits 20 (n + 1)) (all-digits 20 (n + 1)))

abbrev pub AreBytes : List ℕ → Type 0
AreBytes = All (λ b. b < 256)

lacks-to_hex : (bytes : List ℕ) → AreBytes bytes → lacks b'|' (to_hex bytes) ≡ true
unfolding to_hex
lacks-to_hex [] h = refl
lacks-to_hex (b ∷ bs) (lt, h) = ground (arith, lt, lacks-to_hex bs h)

hex_digit_inj : (d e : ℕ) → d < 16 → e < 16 → hex_digit d ≡ hex_digit e → d ≡ e
hex_digit_inj d e lt lt' h = ground (arith, lt, lt', h)

byte_inj :
    (b c : ℕ)
    → b < 256
    → c < 256
    → hex_digit (b / 16) ≡ hex_digit (c / 16)
    → hex_digit (b % 16) ≡ hex_digit (c % 16)
    → b ≡ c
byte_inj b c lt lt' h k =
    let high = hex_digit_inj (b / 16) (c / 16) (omega (arith, lt)) (omega (arith, lt')) h in
    let low = hex_digit_inj (b % 16) (c % 16) (omega arith) (omega arith) k in
    omega (arith, high, low)

to_hex_inj : (s t : List ℕ) → AreBytes s → AreBytes t → to_hex s ≡ to_hex t → s ≡ t
unfolding to_hex
to_hex_inj [] [] h k e = refl
to_hex_inj [] (c ∷ t) h k e = absurd (ground (arith, e))
to_hex_inj (b ∷ s) [] h k e = absurd (ground (arith, e))
to_hex_inj (b ∷ s) (c ∷ t) (lt, h) (lt', k) e =
    let rest = to_hex_inj s t h k (cons_tail (cons_tail e)) in
    let first = byte_inj b c lt lt' (cons_head e) (cons_head (cons_tail e)) in
    ground (arith, first, rest)

display_i64_inj : (y z : ℤ) → InI64 y → InI64 z → display_i64 y ≡ display_i64 z → y ≡ z
display_i64_inj y z h k e =
    some_inj (sym (parse_i64-display_i64 y h) ∙ ap parse_i64 e ∙ parse_i64-display_i64 z k)

-- The digest of every body is a list of bytes: what the prologue of a request says of it, its
-- method (in capitals, without a slash), its path and query (with the slash that it starts with),
-- its time (an `i64`) and the digest of its body, can be said of no other request.
pub pki_auth_prologue_inj :
    (sha256 : List ℕ → List ℕ) (method method' path path' : Text) (t t' : ℤ) (body body' : List ℕ)
    → ((b : List ℕ) → AreBytes (sha256 b))
    → lacks b'/' method ≡ true
    → lacks b'/' method' ≡ true
    → InI64 t
    → InI64 t'
    → pki_auth_prologue sha256 method (b'/' ∷ path) t body
      ≡ pki_auth_prologue sha256 method' (b'/' ∷ path') t' body'
    → (to_ascii_uppercase method ≡ to_ascii_uppercase method')
      × (path ≡ path')
      × (t ≡ t')
      × (sha256 body ≡ sha256 body')
unfolding pki_auth_prologue body_sha256
pki_auth_prologue_inj sha256 method method' path path' t t' body body' bytes h h' in_t in_t' e =
    let (same, rest) =
      first-split (to_ascii_uppercase method) (to_ascii_uppercase method') _ _
        (lacks-to_ascii_uppercase method h) (lacks-to_ascii_uppercase method' h') e in
    let (front, digest) =
      last-split b'|' (path ++ (b'|' ∷ display_i64 t)) (path' ++ (b'|' ∷ display_i64 t'))
        (to_hex (sha256 body)) (to_hex (sha256 body')) (lacks-to_hex (sha256 body) (bytes body))
        (lacks-to_hex (sha256 body') (bytes body'))
        (append_assoc path (b'|' ∷ display_i64 t) (b'|' ∷ to_hex (sha256 body))
          ∙ rest
          ∙ sym (append_assoc path' (b'|' ∷ display_i64 t') (b'|' ∷ to_hex (sha256 body')))) in
    let (paths, times) =
      last-split b'|' path path' (display_i64 t) (display_i64 t') (lacks-display_i64 t)
        (lacks-display_i64 t') front in
    (
      same,
      paths,
      display_i64_inj t t' in_t in_t' times,
      to_hex_inj (sha256 body) (sha256 body') (bytes body) (bytes body') digest,
    )

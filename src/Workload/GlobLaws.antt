-- ===== src/Workload/GlobLaws.antt =====
-- auth/server/src/provider/workload.rs, `glob_match`: against the meaning of a pattern.
use moghtech_lib.Base.{
  ℕ, zero, suc, ◌+◌, ◌≡◌, refl, sym, ap, ◌∙◌, subst, ◌≢◌, ◌↔◌, inl, inr, true, some, List, [], ◌∷◌,
  length, drop, arith, ◌==◌, ◌&&◌, Bool-cases, Option-cases,
}
use moghtech_lib.Base.Text.{Text, text_eq, text_eq_iff, split, split-same, split-other, split-cases}
use moghtech_lib.Workload.Glob.{
  strip_prefix, find_after, ends_with, match_parts, match_split, glob_match,
}

-- The values that a pattern describes: `*` stands for any run of characters.
pub data Glob : Text → Text → Type 0 where
  end : Glob [] []
  star : {p v : Text} → Glob p v → Glob (b'*' ∷ p) v
  star_more : {c : ℕ} {p v : Text} → Glob (b'*' ∷ p) v → Glob (b'*' ∷ p) (c ∷ v)
  literal : {c : ℕ} {p v : Text} → c ≢ b'*' → Glob p v → Glob (c ∷ p) (c ∷ v)

strip_prefix-drop : (part s r : Text) → strip_prefix part s ≡ some r → r ≡ drop (length part) s
unfolding strip_prefix
strip_prefix-drop [] s r h = ground (arith, h)
strip_prefix-drop (a ∷ part) [] r h = ground (arith, h)
strip_prefix-drop (a ∷ part) (b ∷ s) r h = ground (arith, h, strip_prefix-drop part s r)

find_after-drop :
    (part s r : Text)
    → find_after part s ≡ some r
    → (n : ℕ) × (strip_prefix part (drop n s) ≡ some r)
unfolding find_after
find_after-drop part [] r h = (0, h)
find_after-drop part (c ∷ s) r h = elim (Option-cases (strip_prefix part (c ∷ s))) [
  | inl e ↦ let (n, k) = find_after-drop part s r (ground (arith, h, e)) in (suc n, k)
  | inr (x, e) ↦ (0, ground (arith, h, e))
]

ends_with-drop : (part s : Text) → ends_with part s ≡ true → (n : ℕ) × (drop n s ≡ part)
unfolding ends_with
ends_with-drop part [] h = (0, ground (arith, h, text_eq_iff part []))
ends_with-drop part (c ∷ s) h = elim (Bool-cases (text_eq part (c ∷ s))) [
  | inl e ↦ (0, ground (arith, e, text_eq_iff part (c ∷ s)))
  | inr e ↦ let (n, k) = ends_with-drop part s (ground (arith, h, e)) in (suc n, k)
]

drop-nil : (n : ℕ) (s : Text) → s ≡ [] → drop n s ≡ []
drop-nil zero s h = h
drop-nil (suc n) [] h = refl
drop-nil (suc n) (c ∷ s) h = ground (arith, h)

drop-ap : (n m : ℕ) (s : Text) → n ≡ m → drop n s ≡ drop m s
drop-ap n m s e = ap (λ k. drop k s) e

drop-drop : (n m : ℕ) (s : Text) → drop n (drop m s) ≡ drop (m + n) s
drop-drop n zero s = drop-ap n (0 + n) s (omega arith)
drop-drop n (suc m) [] = drop-nil n [] refl ∙ sym (drop-nil (suc m + n) [] refl)
drop-drop n (suc m) (c ∷ s) =
    drop-drop n m s ∙ drop-ap (suc (m + n)) (suc m + n) (c ∷ s) (omega arith)

-- A later occurrence leaves an end of what an occurrence at the start leaves.
find_after-later :
    (part : Text) (c : ℕ) (s x y : Text) (n : ℕ)
    → x ≡ drop (length part) (c ∷ s)
    → y ≡ drop (length part) (drop n s)
    → y ≡ drop (suc n) x
find_after-later part c s x y n e k =
    k
    ∙ drop-drop (length part) n s
    ∙ drop-ap (suc (n + length part)) (length part + suc n) (c ∷ s) (omega arith)
    ∙ sym (drop-drop (suc n) (length part) (c ∷ s))
    ∙ ap (drop (suc n)) (sym e)

abbrev Stays : List Text → Type 0
Stays parts = (c : ℕ) (s : Text) → match_parts parts s ≡ true → match_parts parts (c ∷ s) ≡ true

match_parts-drop :
    (parts : List Text)
    → Stays parts
    → (n : ℕ) (s : Text) → match_parts parts (drop n s) ≡ true
    → match_parts parts s ≡ true
match_parts-drop parts stays zero s h = h
match_parts-drop parts stays (suc n) [] h = h
match_parts-drop parts stays (suc n) (c ∷ s) h = stays c s (match_parts-drop parts stays n s h)

-- More text in front of a match is taken by the star before the parts.
match_parts-cons : (parts : List Text) → Stays parts
unfolding match_parts find_after ends_with
match_parts-cons [] c s h = refl
match_parts-cons (part ∷ []) c s h = ground (arith, h)
match_parts-cons (part ∷ next ∷ parts) c s h = elim (Option-cases (strip_prefix part (c ∷ s))) [
  | inl e ↦ ground (arith, h, e)
  | inr (x, e) ↦ elim (Option-cases (find_after part s)) [
    | inl k ↦ absurd (ground (arith, h, k))
    | inr (y, k) ↦
        let (n, m) = find_after-drop part s y k in
        let behind =
          find_after-later part c s x y n (strip_prefix-drop part (c ∷ s) x e)
            (strip_prefix-drop part (drop n s) y m) in
        let matched = match_parts-drop (next ∷ parts) (match_parts-cons (next ∷ parts)) (suc n) x in
        ground (arith, h, e, k, behind, matched)
  ]
]

ends_with_self : (part : Text) → ends_with part part ≡ true
unfolding ends_with
ends_with_self [] = refl
ends_with_self (c ∷ part) = ground (arith, text_eq_iff (c ∷ part) (c ∷ part))

strip_prefix-find_after :
    (part s r : Text) → strip_prefix part s ≡ some r → find_after part s ≡ some r
unfolding find_after
strip_prefix-find_after part [] r h = h
strip_prefix-find_after part (c ∷ s) r h = ground (arith, h)

strip_prefix-all : (part s : Text) → strip_prefix part s ≡ some [] → s ≡ part
unfolding strip_prefix
strip_prefix-all [] s h = ground (arith, h)
strip_prefix-all (a ∷ part) [] h = ground (arith, h)
strip_prefix-all (a ∷ part) (b ∷ s) h = ground (arith, h, strip_prefix-all part s)

strip_prefix_self : (part : Text) → strip_prefix part part ≡ some []
unfolding strip_prefix
strip_prefix_self [] = refl
strip_prefix_self (a ∷ part) = ground (arith, strip_prefix_self part)

-- The parts that match a text match with a star before them.
match_split-match_parts :
    (part : Text) (parts : List Text) (s : Text)
    → match_split (part ∷ parts) s ≡ true
    → match_parts (part ∷ parts) s ≡ true
unfolding match_split match_parts
match_split-match_parts part [] s h = elim (Option-cases (strip_prefix part s)) [
  | inl e ↦ absurd (ground (arith, h, e))
  | inr ([], e) ↦
      subst (λ t. ends_with part t ≡ true) (sym (strip_prefix-all part s e)) (ends_with_self part)
  | inr (c ∷ r, e) ↦ absurd (ground (arith, h, e))
]
match_split-match_parts part (next ∷ parts) s h = elim (Option-cases (strip_prefix part s)) [
  | inl e ↦ absurd (ground (arith, h, e))
  | inr (r, e) ↦ ground (arith, h, e, strip_prefix-find_after part s r e)
]

match_parts-match_split :
    (part : Text) (parts : List Text) (s : Text)
    → match_parts (part ∷ parts) s ≡ true
    → (n : ℕ) × (match_split (part ∷ parts) (drop n s) ≡ true)
unfolding match_parts match_split
match_parts-match_split part [] s h =
    let (n, e) = ends_with-drop part s h in (n, ground (arith, e, strip_prefix_self part))
match_parts-match_split part (next ∷ parts) s h = elim (Option-cases (find_after part s)) [
  | inl k ↦ absurd (ground (arith, h, k))
  | inr (y, k) ↦ let (n, m) = find_after-drop part s y k in (n, ground (arith, h, k, m))
]

Glob-drop : (n : ℕ) (p v : Text) → Glob (b'*' ∷ p) (drop n v) → Glob (b'*' ∷ p) v
Glob-drop zero p v g = g
Glob-drop (suc n) p [] g = g
Glob-drop (suc n) p (c ∷ v) g = star_more (Glob-drop n p v g)

match_split-star :
    (p v : Text) → match_split (split b'*' (b'*' ∷ p)) v ≡ match_parts (split b'*' p) v
unfolding match_split strip_prefix
match_split-star p v = let (part, parts, k) = split-cases b'*' p in rw (split-same b'*' p, k) refl

match_split-literal :
    (c d : ℕ) (part : Text) (parts : List Text) (v : Text)
    → match_split ((c ∷ part) ∷ parts) (d ∷ v) ≡ (c == d && match_split (part ∷ parts) v)
unfolding match_split strip_prefix
match_split-literal c d part parts v = ground arith

literal-Glob :
    (c : ℕ) (p part : Text) (parts : List Text) (v : Text)
    → c ≢ b'*'
    → split b'*' p ≡ part ∷ parts
    → match_split ((c ∷ part) ∷ parts) v ≡ true
    → ((w : Text) → match_split (split b'*' p) w ≡ true → Glob p w)
    → Glob (c ∷ p) v
unfolding match_split strip_prefix
literal-Glob c p part parts [] ne k h rec = absurd (ground (arith, h))
literal-Glob c p part parts (d ∷ v) ne k h rec =
    let same : c ≡ d = ground (arith, h) in
    let tail : match_split (part ∷ parts) v ≡ true = ground (arith, h) in
    subst (λ x. Glob (c ∷ p) (x ∷ v)) same (literal ne (rec v (rw k tail)))

split-match_split :
    (p w : Text)
    → match_parts (split b'*' p) w ≡ true
    → (n : ℕ) × (match_split (split b'*' p) (drop n w) ≡ true)
split-match_split p w h =
    let (part, parts, k) = split-cases b'*' p in
    let (n, m) = match_parts-match_split part parts w (rw k at h) in (n, rw k m)

match_split-Glob : (p v : Text) → match_split (split b'*' p) v ≡ true → Glob p v
unfolding match_split strip_prefix split
match_split-Glob [] [] h = end
match_split-Glob [] (d ∷ v) h = absurd (ground (arith, h))
match_split-Glob (c ∷ p) v h = elim (Bool-cases (c == b'*')) [
  | inl e ↦
      let same : c ≡ b'*' = ground (arith, e) in
      let starred = subst (λ x. match_split (split b'*' (x ∷ p)) v ≡ true) same h in
      let (n, m) = split-match_split p v (rw (match_split-star p v) at starred) in
      subst (λ x. Glob (x ∷ p) v) (sym same)
        (Glob-drop n p v (star (match_split-Glob p (drop n v) m)))
  | inr e ↦
      let (part, parts, k) = split-cases b'*' p in
      let opened = rw (split-other b'*' c p part parts e k) at h in
      literal-Glob c p part parts v (ground (arith, e)) k opened (match_split-Glob p)
]

match_split-nil : match_split (split b'*' []) [] ≡ true
unfolding match_split strip_prefix split
match_split-nil = refl

Glob-match_split : (p v : Text) → Glob p v → match_split (split b'*' p) v ≡ true
Glob-match_split _ _ end = match_split-nil
Glob-match_split _ _ (star {p} {v} g) =
    let (part, parts, k) = split-cases b'*' p in
    let h = Glob-match_split p v g in
    rw (match_split-star p v, k) (match_split-match_parts part parts v (rw k at h))
Glob-match_split _ _ (star_more {c} {p} {v} g) =
    let h = Glob-match_split (b'*' ∷ p) v g in
    rw (match_split-star p (c ∷ v))
      (match_parts-cons (split b'*' p) c v (rw (match_split-star p v) at h))
Glob-match_split _ _ (literal {c} {p} {v} ne g) =
    let (part, parts, k) = split-cases b'*' p in
    let h = Glob-match_split p v g in
    let same = split-other b'*' c p part parts (ground (arith, ne)) k in
    rw (same, match_split-literal c c part parts v) (ground (arith, h, k))

-- `glob_match` accepts exactly the values that the pattern describes, `*` for any run of
-- characters and every other character for itself.
pub glob_match-Glob :
    (pattern value : Text) → (glob_match pattern value ≡ true) ↔ Glob pattern value
unfolding glob_match
glob_match-Glob pattern value = (match_split-Glob pattern value, Glob-match_split pattern value)

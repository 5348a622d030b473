-- ===== src/RateLimit/Choice.antt =====
-- crates/rate_limit/src/lib.rs: the clients that `make_room` chooses from.
use moghtech_lib.Base.{
  ℕ, zero, suc, ◌≤◌, ◌≡◌, refl, ap, ◌∙◌, inl, inr, List, [], ◌∷◌, Option, none, some, Bool, true,
  false, leb, length, take, All, arith, Bool-cases,
}
use moghtech_lib.Base.Table.{lookup}
use moghtech_lib.Net.{IpAddr, ip_addr_eq, ip_eq_iff, ip_eq}
use moghtech_lib.RateLimit.Entries.{EntryMap, age_rank, insert_by_age, select_by_age}

abbrev pub Choice : Type 0
Choice = Option ℕ × IpAddr

abbrev pub present : EntryMap → Choice → Bool
present m x = elim (lookup x.1 m) [ none ↦ false | some e ↦ true ]

abbrev pub IsPresent : EntryMap → List Choice → Type 0
IsPresent m = All (λ x. present m x ≡ true)

abbrev pub Avoids : IpAddr → List Choice → Type 0
Avoids k = All (λ x. ip_eq x.1 k ≡ false)

abbrev pub AreDistinct : List Choice → Type 0
AreDistinct [] = Unit
AreDistinct (x ∷ xs) = Avoids x.1 xs × AreDistinct xs

pub ip_eq_comm : (a b : IpAddr) → ip_eq a b ≡ false → ip_eq b a ≡ false
ip_eq_comm a b h = ground (arith, h, ip_eq_iff a b, ip_eq_iff b a)

insert_by_age-All :
    (P : Choice → Type 0) (x : Choice) (xs : List Choice)
    → P x
    → All P xs
    → All P (insert_by_age x xs)
unfolding insert_by_age
insert_by_age-All P (a, k) [] h hs = (h, tt)
insert_by_age-All P (a, k) ((b, j) ∷ xs) h (g, hs) =
    elim (Bool-cases (leb (age_rank a) (age_rank b))) [
      | inl older ↦ rw older (h, (g, hs))
      | inr newer ↦ rw newer (g, insert_by_age-All P (a, k) xs h hs)
    ]

pub select_by_age-All :
    (P : Choice → Type 0) (xs : List Choice) → All P xs → All P (select_by_age xs)
unfolding select_by_age
select_by_age-All P [] hs = tt
select_by_age-All P (x ∷ xs) (h, hs) =
    insert_by_age-All P x (select_by_age xs) h (select_by_age-All P xs hs)

pub take-All : (P : Choice → Type 0) (n : ℕ) (xs : List Choice) → All P xs → All P (take n xs)
take-All P zero xs hs = tt
take-All P (suc n) [] hs = tt
take-All P (suc n) (x ∷ xs) (h, hs) = (h, take-All P n xs hs)

insert_by_age-AreDistinct :
    (x : Choice) (xs : List Choice)
    → Avoids x.1 xs
    → AreDistinct xs
    → AreDistinct (insert_by_age x xs)
unfolding insert_by_age
insert_by_age-AreDistinct (a, k) [] h d = (tt, tt)
insert_by_age-AreDistinct (a, k) ((b, j) ∷ xs) (h, hs) (g, d) =
    elim (Bool-cases (leb (age_rank a) (age_rank b))) [
      | inl older ↦ rw older ((h, hs), (g, d))
      | inr newer ↦ rw newer (
        insert_by_age-All (λ x. ip_eq x.1 j ≡ false) (a, k) xs (ip_eq_comm j k h) g,
        insert_by_age-AreDistinct (a, k) xs hs d,
      )
    ]

pub select_by_age-AreDistinct : (xs : List Choice) → AreDistinct xs → AreDistinct (select_by_age xs)
unfolding select_by_age
select_by_age-AreDistinct [] d = tt
select_by_age-AreDistinct (x ∷ xs) (h, d) =
    insert_by_age-AreDistinct x (select_by_age xs)
      (select_by_age-All (λ y. ip_eq y.1 x.1 ≡ false) xs h) (select_by_age-AreDistinct xs d)

pub take-AreDistinct : (n : ℕ) (xs : List Choice) → AreDistinct xs → AreDistinct (take n xs)
take-AreDistinct zero xs d = tt
take-AreDistinct (suc n) [] d = tt
take-AreDistinct (suc n) (x ∷ xs) (h, d) =
    (take-All (λ y. ip_eq y.1 x.1 ≡ false) n xs h, take-AreDistinct n xs d)

length-insert_by_age :
    (x : Choice) (xs : List Choice) → length (insert_by_age x xs) ≡ suc (length xs)
unfolding insert_by_age
length-insert_by_age (a, k) [] = refl
length-insert_by_age (a, k) ((b, j) ∷ xs) = ground (arith, length-insert_by_age (a, k) xs)

pub length-select_by_age : (xs : List Choice) → length (select_by_age xs) ≡ length xs
unfolding select_by_age
length-select_by_age [] = refl
length-select_by_age (x ∷ xs) =
    length-insert_by_age x (select_by_age xs) ∙ ap suc (length-select_by_age xs)

pub length-take : (n : ℕ) (xs : List Choice) → n ≤ length xs → length (take n xs) ≡ n
length-take zero xs h = refl
length-take (suc n) [] h = absurd (omega arith)
length-take (suc n) (x ∷ xs) h = ap suc (length-take n xs (omega arith))

-- ===== src/Locks/Exclusive.antt =====
-- auth/server/src/provider/workload.rs: who holds the lock of a key at the same time.
use moghtech_lib.Base.{
  ℕ, suc, ◌+◌, ◌≡◌, refl, sym, subst, ◌≤◌, ◌⊎◌, inl, inr, ◌&&◌, Bool, true, false, none, some, List,
  [], ◌∷◌, ◌++◌, any, All, arith, Bool-cases, Option-cases, if◌then◌else◌,
}
use moghtech_lib.Base.Text.{Text, text_eq, text_eq_iff, text_key}
use moghtech_lib.Base.Table.{lookup, insert, remove, lookup-insert, lookup-remove}
use moghtech_lib.Locks.World.{
  Call, Locks, waiting, hold, blocks, is_free, refers, is_unused, drop_held, Step, begin, granted,
  dropped, cancelled, Reach, start, step,
}

-- The lock of every call is the one on the map.
abbrev pub IsMapped : List (Text × ℕ) → Call → Type 0
IsMapped map c = lookup c.key map ≡ some c.lock

abbrev pub holds : Text → Call → Bool
holds key c = c.held && text_eq c.key key

abbrev pub holds_alone : Text → Call → Bool
holds_alone key c = c.exclusive && holds key c

unfoldable pub count : (Call → Bool) → List Call → ℕ
count p [] = 0
count p (c ∷ cs) = if p c then suc (count p cs) else count p cs

-- Nobody holds the lock of the key exclusively, or nobody else holds it.
abbrev pub IsExclusive : List Call → Type 0
IsExclusive calls =
    (key : Text) → (count (holds_alone key) calls ≡ 0) ⊎ (count (holds key) calls ≡ 1)

count-append : (p : Call → Bool) (cs ds : List Call) → count p (cs ++ ds) ≡ count p cs + count p ds
unfolding count
count-append p [] ds = omega arith
count-append p (c ∷ cs) ds = ground (arith, count-append p cs ds)

count-insert :
    (p : Call → Bool) (c : Call) (before after : List Call)
    → count p (before ++ (c ∷ after)) ≡ (if p c then 1 else 0) + count p (before ++ after)
unfolding count
count-insert p c before after =
    ground (arith, count-append p before (c ∷ after), count-append p before after)

alone-le : (key : Text) (cs : List Call) → count (holds_alone key) cs ≤ count (holds key) cs
unfolding count
alone-le key [] = omega arith
alone-le key (c ∷ cs) = ground (arith, alone-le key cs)

IsMapped-insert :
    (map : List (Text × ℕ)) (key : Text) (lock : ℕ) (cs : List Call)
    → lookup key map ≡ none
    → All (IsMapped map) cs
    → All (IsMapped (insert key lock map)) cs
IsMapped-insert map key lock [] absent h = tt
IsMapped-insert map key lock (c ∷ cs) absent (mapped, h) = (
  ground (arith, absent, mapped, lookup-insert key c.key lock map, text_eq_iff key c.key),
  IsMapped-insert map key lock cs absent h,
)

IsMapped-remove :
    (map : List (Text × ℕ)) (key : Text) (lock : ℕ) (cs : List Call)
    → lookup key map ≡ some lock
    → any (refers lock) cs ≡ false
    → All (IsMapped map) cs
    → All (IsMapped (remove key map)) cs
IsMapped-remove map key lock [] found unused h = tt
IsMapped-remove map key lock (c ∷ cs) found unused (mapped, h) = (
  ground (arith, found, unused, mapped, lookup-remove key c.key map, text_eq_iff key c.key),
  IsMapped-remove map key lock cs found (ground (arith, unused)) h,
)

-- Nobody who keeps a call out holds the lock of its key.
free-holds :
    (map : List (Text × ℕ)) (key : Text) (lock : ℕ) (cs : List Call)
    → lookup key map ≡ some lock
    → any (blocks lock true) cs ≡ false
    → All (IsMapped map) cs
    → count (holds key) cs ≡ 0
unfolding count blocks
free-holds map key lock [] found free h = refl
free-holds map key lock (c ∷ cs) found free (mapped, h) = ground (
  arith,
  found,
  free,
  mapped,
  text_eq_iff c.key key,
  free-holds map key lock cs found (ground (arith, free)) h,
)

free-holds_alone :
    (map : List (Text × ℕ)) (key : Text) (lock : ℕ) (cs : List Call)
    → lookup key map ≡ some lock
    → any (blocks lock false) cs ≡ false
    → All (IsMapped map) cs
    → count (holds_alone key) cs ≡ 0
unfolding count blocks
free-holds_alone map key lock [] found free h = refl
free-holds_alone map key lock (c ∷ cs) found free (mapped, h) = ground (
  arith,
  found,
  free,
  mapped,
  text_eq_iff c.key key,
  free-holds_alone map key lock cs found (ground (arith, free)) h,
)

All-split :
    (P : Call → Type 0) (c : Call) (before after : List Call)
    → All P (before ++ (c ∷ after))
    → P c × All P (before ++ after)
All-split P c [] after (h, hs) = (h, hs)
All-split P c (d ∷ before) after (h, hs) =
    let (found, rest) = All-split P c before after hs in (found, (h, rest))

All-unsplit :
    (P : Call → Type 0) (c : Call) (before after : List Call)
    → P c
    → All P (before ++ after)
    → All P (before ++ (c ∷ after))
All-unsplit P c [] after h hs = (h, hs)
All-unsplit P c (d ∷ before) after h (g, hs) = (g, All-unsplit P c before after h hs)

IsExclusive-removed :
    (c : Call) (before after : List Call)
    → IsExclusive (before ++ (c ∷ after))
    → IsExclusive (before ++ after)
IsExclusive-removed c before after h key =
    let alone = count-insert (holds_alone key) c before after in
    let all = count-insert (holds key) c before after in
    let le = alone-le key (before ++ after) in
    elim (h key) [
      | inl e ↦ inl (ground (arith, alone, e))
      | inr e ↦ elim (Bool-cases (holds key c)) [
        | inl k ↦ inl (ground (arith, all, e, k, le))
        | inr k ↦ inr (ground (arith, all, e, k))
      ]
    ]

IsExclusive-granted :
    (map : List (Text × ℕ)) (c : Call) (before after : List Call)
    → c.held ≡ false
    → is_free c (before ++ after) ≡ true
    → lookup c.key map ≡ some c.lock
    → All (IsMapped map) (before ++ after)
    → IsExclusive (before ++ (c ∷ after))
    → IsExclusive (before ++ (record c { held = true } ∷ after))
unfolding is_free
IsExclusive-granted map c before after waits free found mapped h key =
    let others = before ++ after in
    let c' : Call = record c { held = true } in
    let alone = count-insert (holds_alone key) c before after in
    let all = count-insert (holds key) c before after in
    let alone' = count-insert (holds_alone key) c' before after in
    let all' = count-insert (holds key) c' before after in
    elim (Bool-cases (text_eq c.key key)) [
      | inr k ↦ elim (h key) [
        | inl e ↦ inl (ground (arith, alone, alone', e, k, waits))
        | inr e ↦ inr (ground (arith, all, all', e, k, waits))
      ]
      | inl k ↦
          let same : lookup key map ≡ some c.lock =
            subst (λ x. lookup x map ≡ some c.lock) ((text_eq_iff c.key key).0 k) found in
          elim (Bool-cases c.exclusive) [
            | inl x ↦
                let none_holds =
                  free-holds map key c.lock others same (ground (arith, free, x)) mapped in
                inr (ground (arith, all', none_holds, k))
            | inr x ↦
                let none_alone =
                  free-holds_alone map key c.lock others same (ground (arith, free, x)) mapped in
                inl (ground (arith, alone', none_alone, k, x))
          ]
    ]

abbrev IsSafe : Locks → Type 0
IsSafe l = All (IsMapped l.map) l.calls × IsExclusive l.calls

IsExclusive-waiting :
    (key : Text) (lock : ℕ) (exclusive : Bool) (cs : List Call)
    → IsExclusive cs
    → IsExclusive (waiting key lock exclusive ∷ cs)
unfolding count
IsExclusive-waiting key lock exclusive cs h k = ground (arith, h k)

hold-new :
    (key : Text) (exclusive : Bool) (l : Locks)
    → lookup key l.map ≡ none
    → hold key exclusive l ≡ record {
      map = insert key l.next l.map;
      calls = waiting key l.next exclusive ∷ l.calls;
      next = suc l.next;
    }
unfolding hold
hold-new key exclusive l e = ground (arith, e)

hold-known :
    (key : Text) (exclusive : Bool) (l : Locks) (lock : ℕ)
    → lookup key l.map ≡ some lock
    → hold key exclusive l ≡ record l { calls = waiting key lock exclusive ∷ l.calls }
unfolding hold
hold-known key exclusive l lock e = ground (arith, e)

hold-IsSafe : (key : Text) (exclusive : Bool) (l : Locks) → IsSafe l → IsSafe (hold key exclusive l)
hold-IsSafe key exclusive l (mapped, alone) = elim (Option-cases (lookup key l.map)) [
  | inl e ↦
      let new : lookup key (insert key l.next l.map) ≡ some l.next =
        ground (arith, lookup-insert key key l.next l.map, text_eq_iff key key) in
      subst IsSafe (sym (hold-new key exclusive l e)) (
        (new, IsMapped-insert l.map key l.next l.calls e mapped),
        IsExclusive-waiting key l.next exclusive l.calls alone,
      )
  | inr (lock, e) ↦
      subst IsSafe (sym (hold-known key exclusive l lock e))
        ((e, mapped), IsExclusive-waiting key lock exclusive l.calls alone)
]

drop_held-unused :
    (c : Call) (others : List Call) (l : Locks)
    → is_unused (lookup c.key l.map) others ≡ true
    → drop_held c others l ≡ record l { map = remove c.key l.map; calls = others }
unfolding drop_held
drop_held-unused c others l e = ground (arith, e)

drop_held-used :
    (c : Call) (others : List Call) (l : Locks)
    → is_unused (lookup c.key l.map) others ≡ false
    → drop_held c others l ≡ record l { calls = others }
unfolding drop_held
drop_held-used c others l e = ground (arith, e)

drop_held-IsSafe :
    (c : Call) (others : List Call) (l : Locks)
    → lookup c.key l.map ≡ some c.lock
    → All (IsMapped l.map) others
    → IsExclusive others
    → IsSafe (drop_held c others l)
drop_held-IsSafe c others l found mapped alone =
    elim (Bool-cases (is_unused (lookup c.key l.map) others)) [
      | inl e ↦
          let unused : any (refers c.lock) others ≡ false = ground (arith, e, found) in
          subst IsSafe (sym (drop_held-unused c others l e))
            (IsMapped-remove l.map c.key c.lock others found unused mapped, alone)
      | inr e ↦ subst IsSafe (sym (drop_held-used c others l e)) (mapped, alone)
    ]

Step-IsSafe : (l m : Locks) → Step l m → IsSafe l → IsSafe m
Step-IsSafe l _ (begin key exclusive) safe = hold-IsSafe key exclusive l safe
Step-IsSafe l _ (granted c before after calls waits free) (mapped, alone) =
    let (found, others) =
      All-split (IsMapped l.map) c before after (subst (All (IsMapped l.map)) calls mapped) in
    (
      All-unsplit (IsMapped l.map) (record c { held = true }) before after found others,
      IsExclusive-granted l.map c before after waits free found others
          (subst IsExclusive calls alone),
    )
Step-IsSafe l _ (dropped c before after calls held) (mapped, alone) =
    let (found, others) =
      All-split (IsMapped l.map) c before after (subst (All (IsMapped l.map)) calls mapped) in
    drop_held-IsSafe c (before ++ after) l found others
      (IsExclusive-removed c before after (subst IsExclusive calls alone))
Step-IsSafe l _ (cancelled c before after calls waits) (mapped, alone) =
    let (found, others) =
      All-split (IsMapped l.map) c before after (subst (All (IsMapped l.map)) calls mapped) in
    (others, IsExclusive-removed c before after (subst IsExclusive calls alone))

Reach-IsSafe : (l : Locks) → Reach l → IsSafe l
unfolding count
Reach-IsSafe _ start = (tt, λ key. inl refl)
Reach-IsSafe _ (step {l} {m} reach s) = Step-IsSafe l m s (Reach-IsSafe l reach)

-- However calls begin, are let in, end and are cancelled: every call waits for or holds the lock
-- of its key that is on the map, and while one holds a key exclusively, no other holds that key.
pub Reach-IsExclusive : (l : Locks) → Reach l → All (IsMapped l.map) l.calls × IsExclusive l.calls
Reach-IsExclusive l reach = Reach-IsSafe l reach

-- ===== src/Locks/World.antt =====
-- auth/server/src/provider/workload.rs, `hold` and the drop of `Held`: a map of locks by key, and the
-- calls that wait for one or hold it. A lock is known by its number; it is referred to by the map
-- and by each of these calls. A mutex is only held exclusively, a read-write lock is shared by its
-- readers; in which order calls are let in is up to tokio.
use moghtech_lib.Base.{
  ℕ, suc, ◌≡◌, ◌&&◌, ◌||◌, not, Bool, true, false, Option, none, some, List, [], ◌∷◌, ◌++◌, any,
  ◌==◌, if◌then◌else◌,
}
use moghtech_lib.Base.Text.{Text, text_key}
use moghtech_lib.Base.Table.{lookup, insert, remove}

pub record Call : Type 0 where
  pub key : Text
  pub lock : ℕ
  pub exclusive : Bool
  pub held : Bool

pub record Locks : Type 0 where
  pub map : List (Text × ℕ)
  pub calls : List Call
  -- The number of the next lock.
  pub next : ℕ

abbrev pub no_locks : Locks
no_locks = record { map = []; calls = []; next = 0 }

abbrev pub waiting : Text → ℕ → Bool → Call
waiting key lock exclusive = record { key = key; lock = lock; exclusive = exclusive; held = false }

-- `hold`, up to its wait: the lock of the key, or a new one.
unfoldable pub hold : Text → Bool → Locks → Locks
hold key exclusive l = elim (lookup key l.map) [
  | some lock ↦ record l { calls = waiting key lock exclusive ∷ l.calls }
  | none ↦ record {
    map = insert key l.next l.map;
    calls = waiting key l.next exclusive ∷ l.calls;
    next = suc l.next;
  }
]

-- Whether a call that holds the lock keeps another one out.
unfoldable pub blocks : ℕ → Bool → Call → Bool
blocks lock exclusive other = other.held && other.lock == lock && (exclusive || other.exclusive)

unfoldable pub is_free : Call → List Call → Bool
is_free c others = not (any (blocks c.lock c.exclusive) others)

abbrev pub refers : ℕ → Call → Bool
refers lock other = other.lock == lock

abbrev pub is_unused : Option ℕ → List Call → Bool
is_unused none others = false
is_unused (some lock) others = not (any (refers lock) others)

-- The drop of `Held`; `others`: the calls without it. Nobody but the map holds the lock: it is
-- taken out.
unfoldable pub drop_held : Call → List Call → Locks → Locks
drop_held c others l =
    if is_unused (lookup c.key l.map) others
    then record l { map = remove c.key l.map; calls = others }
    else record l { calls = others }

pub data Step : Locks → Locks → Type 0 where
  begin : {l : Locks} (key : Text) (exclusive : Bool) → Step l (hold key exclusive l)
  granted :
      {l : Locks} (c : Call) (before after : List Call)
      → l.calls ≡ before ++ (c ∷ after)
      → c.held ≡ false
      → is_free c (before ++ after) ≡ true
      → Step l (record l { calls = before ++ (record c { held = true } ∷ after) })
  dropped :
      {l : Locks} (c : Call) (before after : List Call)
      → l.calls ≡ before ++ (c ∷ after)
      → c.held ≡ true
      → Step l (drop_held c (before ++ after) l)
  -- A call that stops to wait only drops its reference.
  cancelled :
      {l : Locks} (c : Call) (before after : List Call)
      → l.calls ≡ before ++ (c ∷ after)
      → c.held ≡ false
      → Step l (record l { calls = before ++ after })

pub data Reach : Locks → Type 0 where
  start : Reach no_locks
  step : {l m : Locks} → Reach l → Step l m → Reach m

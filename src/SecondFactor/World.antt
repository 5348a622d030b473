-- ===== src/SecondFactor/World.antt =====
-- auth/server/src/api/login/totp.rs: codes of any users, sent and answered in any order.
use Prim.Native.String.{String}
use text.Mathlib.Text.{◌==◌ as str_eq}
use moghtech_lib.Base.{ℕ, zero, suc, ◌+◌, ◌≡◌, List, [], ◌∷◌, some, Bool, if◌then◌else◌, get_elem?}
use moghtech_lib.Error.{Result, ok, err}
use moghtech_lib.SecondFactor.Attempts.{SecondFactorAttempts, new, begin, end}

-- What the code does not store: the clock, the codes being checked (the user, and the lock that
-- the attempt was given), and every failure, newest first.
pub record World : Type 0 where
  pub clock : ℕ
  pub attempts : SecondFactorAttempts
  pub live : List (String × ℕ)
  pub log : List (String × ℕ)

abbrev pub remove_at : ℕ → List (String × ℕ) → List (String × ℕ)
remove_at i [] = []
remove_at zero (x ∷ xs) = xs
remove_at (suc i) (x ∷ xs) = x ∷ remove_at i xs

abbrev pub admitted : String → Result ℕ → List (String × ℕ) → List (String × ℕ)
admitted id (ok lock) live = (id, lock) ∷ live
admitted id (err e) live = live

unfoldable pub start : ℕ → ℕ → ℕ → World
start max_failures window now = record {
  clock = now;
  attempts = new max_failures window;
  live = [];
  log = [];
}

unfoldable pub begins : String → World → World
begins id w =
    let (s, answer) = begin id w.clock w.attempts in
    record w { attempts = s; live = admitted id answer w.live }

unfoldable pub ends : ℕ → String → Bool → World → World
ends i id failed w = record w {
  attempts = end id failed w.clock w.attempts;
  live = remove_at i w.live;
  log = if failed then (id, w.clock) ∷ w.log else w.log;
}

pub data Step (w : World) : World → Type 0 where
  time_passes : (d : ℕ) → Step w (record w { clock = w.clock + d })
  begin_code : (id : String) → Step w (begins id w)
  -- One of the live attempts ends, refused or not.
  end_code :
      (i : ℕ) (id : String) (lock : ℕ) (failed : Bool)
      → get_elem? w.live i ≡ some (id, lock)
      → Step w (ends i id failed w)

pub data Reach (max_failures window : ℕ) : World → Type 0 where
  starts : (now : ℕ) → Reach max_failures window (start max_failures window now)
  steps : {v w : World} → Reach max_failures window v → Step v w → Reach max_failures window w

-- The times of one user's failures, and how many codes of the user are being checked.
abbrev pub times : String → List (String × ℕ) → List ℕ
times u [] = []
times u ((v, t) ∷ log) = if str_eq v u then t ∷ times u log else times u log

abbrev pub held : String → List (String × ℕ) → ℕ
held u [] = 0
held u ((v, lock) ∷ live) = (if str_eq v u then 1 else 0) + held u live

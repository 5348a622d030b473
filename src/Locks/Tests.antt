-- ===== src/Locks/Tests.antt =====
-- auth/server/src/provider/workload.rs: two exchanges of the same rule.
use moghtech_lib.Base.{refl, true, [], ◌∷◌, All}
use moghtech_lib.Base.Text.{codes, text_key}
use moghtech_lib.Base.Table.{lookup, insert}
use moghtech_lib.Locks.World.{
  Locks, waiting, hold, blocks, is_free, begin, granted, Reach, start, step,
}
use moghtech_lib.Locks.Exclusive.{IsMapped, IsExclusive, Reach-IsExclusive}

abbrev first_holds : Locks
first_holds = record {
  map = (codes "ci", 0) ∷ [];
  calls = record { key = codes "ci"; lock = 0; exclusive = true; held = true } ∷ [];
  next = 1;
}

abbrev second_waits : Locks
second_waits = record first_holds { calls = waiting (codes "ci") 0 true ∷ first_holds.calls }

first_holds-Reach : Reach first_holds
unfolding hold lookup insert is_free blocks
first_holds-Reach =
    step (step start (begin (codes "ci") true))
      (granted (waiting (codes "ci") 0 true) [] [] refl refl refl)

second_waits-Reach : Reach second_waits
unfolding hold lookup
second_waits-Reach = step first_holds-Reach (begin (codes "ci") true)

Reach-IsExclusive_example :
    All (IsMapped second_waits.map) second_waits.calls × IsExclusive second_waits.calls
Reach-IsExclusive_example = Reach-IsExclusive second_waits second_waits-Reach

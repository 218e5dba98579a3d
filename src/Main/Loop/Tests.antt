-- ===== src/Main/Loop/Tests.antt =====
-- Runs of the loop of sf_main.c with its timers, and the theorem on them at a concrete instance.
use lmq.Prelude.{ℕ, refl, some, [], ◌∷◌, if◌then◌else◌, ◌==◌, arith}
use lmq.Dlist.{null}
use lmq.Dlist.Seg.{nil, cons}
use lmq.Timer.{TimeVal, Timers, session_timeout}
use lmq.Timer.Chain.{last}
use lmq.Timer.Removing.{IsListed}
use lmq.Socket.Instance.{Instance}
use lmq.Main.Tests.{blank}
use lmq.Main.Loop.{with_timers, execute}
use lmq.Main.Loop.Firing.{Fired, execute-Fired}

abbrev due : TimeVal
due = record { sec = 5; usec = 0 }

abbrev clock : TimeVal
clock = record { sec = 6; usec = 500000 }

-- The timers of two sessions, of which the first is due.
abbrev two_timers : Timers
two_timers = record {
  head = 8;
  tail = 16;
  links =
      λ p. if p == 8 then record { next = 16; prev = null } else record { next = null; prev = 8 };
  time = λ p. if p == 8 then due else record { sec = 7; usec = 0 };
  func = λ p. some session_timeout;
}

two_timers-IsListed : IsListed two_timers (8 ∷ 16 ∷ [])
unfolding last
two_timers-IsListed = record {
  chain = cons {p = 8} (omega arith) refl refl (cons {p = 16} (omega arith) refl refl nil);
  ends = refl;
}

abbrev waiting : Instance ℕ
waiting = with_timers two_timers blank

execute-Fired_example : Fired 3 clock (8 ∷ 16 ∷ []) waiting (execute 3 waiting clock)
execute-Fired_example =
    execute-Fired 3 clock (8 ∷ 16 ∷ []) waiting two_timers-IsListed tt (omega arith)

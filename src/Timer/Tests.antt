-- ===== src/Timer/Tests.antt =====
-- Runs of sf_timer.c, and its theorems at concrete timers.
use Prim.Native.Nat.{compare}
use lmq.Prelude.{◌≡◌, refl, none, some, [], ◌∷◌, arith}
use lmq.Dlist.Seg.{Seg, nil, cons}
use lmq.Timer.{TimeVal, Timers, close, tv_after, tv_compare, register, request}
use lmq.Timer.Time.{total, IsAfter, tv_after_lem, tv_compare_lem}
use lmq.Timer.Chain.{last}
use lmq.Timer.Removing.{IsListed}
use lmq.Timer.Requesting.{Requested, request-Requested}
use lmq.Timer.Listed.{register-lost}

abbrev early : TimeVal
early = record { sec = 5; usec = 900000 }

abbrev late : TimeVal
late = record { sec = 7; usec = 100000 }

abbrev spilled : TimeVal
spilled = record { sec = 6; usec = 2400000 }

tv_after_lem_example : IsAfter early 2500 (tv_after early 2500)
tv_after_lem_example = tv_after_lem early 2500 (omega arith)

tv_after_run : tv_after early 2500 ≡ some spilled
unfolding tv_after
tv_after_run = refl

tv_after_overflow : tv_after early 2147484 ≡ none
unfolding tv_after
tv_after_overflow = refl

tv_compare_lem_example : tv_compare early late ≡ compare (total early) (total late)
tv_compare_lem_example =
    tv_compare_lem early late (omega arith) (omega arith) (omega arith, omega arith)

abbrev single : Timers
single = record {
  head = 8;
  tail = 8;
  links = λ p. record { next = 0; prev = 0 };
  time = λ p. early;
  func = λ p. none;
}

single-Seg : Seg single.links 0 8 (8 ∷ [])
single-Seg = cons (omega arith) refl refl nil

single-IsListed : IsListed single (8 ∷ [])
unfolding last
single-IsListed = record { chain = single-Seg; ends = refl }

request-Requested_example :
    Requested single 16 spilled close (8 ∷ []) (request 2 single 16 early 2500 close)
request-Requested_example =
    request-Requested 2 16 early 2500 close single-IsListed (omega arith) tv_after_run (omega arith)

-- A timer for the time of the only other one is lost.
register_lost : register 2 single 16 ≡ some single
unfolding tv_compare
register_lost =
    register-lost 2 single 16 (8 ∷ []) single-Seg (omega arith) refl refl (λ t m. refl)
      (omega arith)

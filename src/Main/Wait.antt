-- ===== src/Main/Wait.antt =====
-- That the loop of libsf/sf_main.c waits for its first timer.
use lmq.Prelude.{
  ◌%◌, ◌^◌, true, ltb, ℕ, ◌+◌, ◌*◌, ◌≤◌, ◌<◌, ◌≡◌, ◌≢◌, ◌/◌, refl, Option, none, some, false,
  Bool-cases, inl, inr, ◌==◌, arith,
}
use lmq.Dlist.{null}
use lmq.Timer.{Timers, TimeVal, timetonext, time_left, earlier}
use lmq.Timer.Time.{total, IsNormal, Close, Left, time_left_lem, not_earlier}
use lmq.Socket.Poll.{millisec}
use lmq.Main.{wait}

-- The wait ends no earlier than the first timer, as long as an `int` of seconds is between them, and
-- less than a millisecond later; without a timer it does not end.
pub data Waits (ti : Timers) (now : TimeVal) : Option ℕ → Type 0 where
  for_ever : ti.head ≡ null → Waits ti now none
  until :
      (ms : ℕ)
      → ti.head ≢ null
      → ((later : TimeVal)
          → IsNormal later
          → Close later (ti.time ti.head)
          → total now + ms * 1000 ≤ total later
          → earlier later (ti.time ti.head) ≡ false)
      → (total now < total (ti.time ti.head)
          → total now + ms * 1000 < total (ti.time ti.head) + 1000)
      → (total (ti.time ti.head) ≤ total now → ms ≤ 1)
      → Waits ti now (some ms)

-- The milliseconds are the time, rounded up, where they fit into an `int`.
millisec_up :
    (t : TimeVal)
    → total t + 1000 ≤ 2 ^ 31 * 1000
    → (ms : ℕ) × (millisec (some t) ≡ some ms)
      × (total t ≤ ms * 1000)
      × (ms * 1000 < total t + 1000)
unfolding millisec total
millisec_up t fits =
    let low : (t.sec * 1000 + (t.usec + 999) / 1000) % 2 ^ 32
        ≡ t.sec * 1000 + (t.usec + 999) / 1000 =
      omega arith in
    let pos : ltb (t.sec * 1000 + (t.usec + 999) / 1000) (2 ^ 31) ≡ true = ground arith in
    (t.sec * 1000 + (t.usec + 999) / 1000, rw low (rw pos refl), omega arith, omega arith)

Left-covers : (next now r : TimeVal) → Left next now r → total next ≤ total now + total r
Left-covers next now r left = ground (arith, left.ahead, left.passed)

-- Without a timer, the loop waits for ever. Otherwise, if the clock and the time of the first timer
-- are normal and the timer is less than 2 ^ 31 - 1 milliseconds ahead, or behind by an `int` of
-- seconds, it waits so many milliseconds that the timer is not ahead any more when they are over: less
-- than a millisecond too long, and one at most if the timer is due.
pub wait-Waits :
    (ti : Timers) (now : TimeVal)
    → IsNormal now
    → IsNormal (ti.time ti.head)
    → Close (ti.time ti.head) now
    → total (ti.time ti.head) + 1000 ≤ total now + 2 ^ 31 * 1000
    → Waits ti now (wait ti now)
unfolding wait timetonext
wait-Waits ti now n m close fits = elim (Bool-cases (ti.head == null)) [
  | inl t ↦ rw t (for_ever (ground arith))
  | inr t ↦
      let left = time_left_lem (ti.time ti.head) now m n close in
      let small : total (time_left (ti.time ti.head) now) + 1000 ≤ 2 ^ 31 * 1000 =
        ground (arith, left.ahead, left.passed) in
      let (ms, e, low, high) = millisec_up (time_left (ti.time ti.head) now) small in
      let covers = Left-covers (ti.time ti.head) now _ left in
      rw (t, e)
        (until ms (ground arith)
          (λ later nl c le. not_earlier later (ti.time ti.head) nl m c (omega arith))
          (λ lt. omega (arith, left.ahead)) λ le. ground (arith, left.ahead, left.passed))
]

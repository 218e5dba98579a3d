-- ===== src/Timer/Time.antt =====
-- The arithmetic on times in libsf/sf_timer.c.
use Prim.Native.Nat.{compare}
use lmq.Prelude.{
  ◌^◌, ◌==◌, ltb, leb, Option, none, some, inl, inr, Bool-cases, ℕ, ◌+◌, ◌-◌, ◌*◌, ◌≤◌, ◌<◌, ◌≡◌,
  false, arith,
}
use lmq.Timer.{TimeVal, usec_per_sec, tv_after, int_diff, int_sign, tv_compare, earlier, time_left}

-- A time in microseconds.
unfoldable pub total : TimeVal → ℕ
total t = t.sec * usec_per_sec + t.usec

abbrev pub IsNormal : TimeVal → Type 0
IsNormal t = t.usec < usec_per_sec

pub record After (tv : TimeVal) (msec : ℕ) (r : TimeVal) : Type 0 where
  pub fits : msec * 1000 < 2 ^ 31
  pub exact : total r ≡ total tv + msec * 1000
  pub normal : msec ≤ 1000 → r.usec ≤ usec_per_sec
  pub spilled : 2000 ≤ msec → usec_per_sec ≤ r.usec

abbrev pub IsAfter : TimeVal → ℕ → Option TimeVal → Type 0
IsAfter tv msec none = 2 ^ 31 ≤ msec * 1000
IsAfter tv msec (some r) = After tv msec r

-- The time after some milliseconds overflows if their microseconds do not fit into an `int`.
-- Otherwise it is exact as a number of microseconds. From a normal time, its microseconds are at
-- most a second's if there is at most a second to wait; since only one second is carried over, they
-- are a second's or more from two seconds on.
pub tv_after_lem : (tv : TimeVal) (msec : ℕ) → IsNormal tv → IsAfter tv msec (tv_after tv msec)
unfolding tv_after total
tv_after_lem tv msec n = elim (Bool-cases (leb (2 ^ 31) (msec * 1000))) [
  | inl over ↦ let product : 2 ^ 31 ≤ msec * 1000 = ground (arith, over) in rw over product
  | inr fits ↦ elim (Bool-cases (ltb usec_per_sec (tv.usec + msec * 1000))) [
    | inl more ↦ rw fits (
        rw more (record {
          fits = ground arith;
          exact = ground arith;
          normal = ground arith;
          spilled = ground arith;
        }))
    | inr less ↦ rw fits (
        rw less (record {
          fits = ground arith;
          exact = ground arith;
          normal = ground arith;
          spilled = ground arith;
        }))
  ]
]

-- The difference of the seconds fits into an `int`.
abbrev pub Close : TimeVal → TimeVal → Type 0
Close a b = (a.sec < b.sec + 2 ^ 31) × (b.sec < a.sec + 2 ^ 31)

int_sign-compare :
    (a b : ℕ) → a < b + 2 ^ 31 → b < a + 2 ^ 31 → int_sign (int_diff a b) ≡ compare a b
int_sign-compare a b lo hi = ground arith

same_sec : (a b : ℕ) → a < b + 2 ^ 31 → b < a + 2 ^ 31 → (int_diff a b == 0) ≡ (a == b)
same_sec a b lo hi = ground arith

-- On normal times whose seconds differ by an `int`, the comparison is that of the numbers of
-- microseconds.
pub tv_compare_lem :
    (a b : TimeVal)
    → IsNormal a
    → IsNormal b
    → Close a b
    → tv_compare a b ≡ compare (total a) (total b)
unfolding tv_compare total
tv_compare_lem a b na nb c =
    rw (int_sign-compare a.usec b.usec (omega arith) (omega arith))
      (rw (int_sign-compare a.sec b.sec c.0 c.1) (rw (same_sec a.sec b.sec c.0 c.1) (ground arith)))

pub not_earlier :
    (a b : TimeVal) → IsNormal a → IsNormal b → Close a b → total b ≤ total a → earlier a b ≡ false
unfolding earlier
not_earlier a b na nb c le = ground (arith, tv_compare_lem a b na nb c)

pub record Left (next now r : TimeVal) : Type 0 where
  pub normal : IsNormal r
  pub ahead : total now ≤ total next → total r ≡ total next - total now
  pub passed : total next < total now → total r ≡ 1

-- The seconds that are left
left_sec :
    (next now borrow : ℕ)
    → next < now + 2 ^ 31
    → now < next + 2 ^ 31
    → borrow ≤ 1
    → (now + borrow ≤ next → int_diff (int_diff next now) borrow ≡ next - now - borrow)
      × (next < now + borrow → 2 ^ 31 ≤ int_diff (int_diff next now) borrow)
left_sec next now borrow lo hi le = ((λ e. omega arith), λ e. omega arith)

-- The time left until a normal time, from a normal time on, is the difference of the two, and one
-- microsecond if the first is over, as long as their seconds differ by an `int`.
pub time_left_lem :
    (next now : TimeVal)
    → IsNormal next
    → IsNormal now
    → Close next now
    → Left next now (time_left next now)
unfolding time_left total
time_left_lem next now nn nw c = elim (Bool-cases (ltb next.usec now.usec)) [
  | inl e ↦
      let (ahead, over) = left_sec next.sec now.sec 1 c.0 c.1 (omega arith) in
      rw e (record {
        normal = ground (arith, ahead, over);
        ahead = ground (arith, ahead, over);
        passed = ground (arith, ahead, over);
      })
  | inr e ↦
      let (ahead, over) = left_sec next.sec now.sec 0 c.0 c.1 (omega arith) in
      rw e (record {
        normal = ground (arith, ahead, over);
        ahead = ground (arith, ahead, over);
        passed = ground (arith, ahead, over);
      })
]

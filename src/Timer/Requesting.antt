-- ===== src/Timer/Requesting.antt =====
-- What `sf_timer_request` of libsf/sf_timer.c makes of the list of the timers.
use lmq.Prelude.{
  ℕ, ◌≤◌, ◌<◌, ◌≡◌, ◌≢◌, refl, ap, ◌∙◌, inl, inr, false, Option, none, some, List, [], ◌∷◌, ◌==◌,
  if◌then◌else◌, Bool-cases, arith, length,
}
use lmq.Dlist.{Ptr, null, Heap, mem}
use lmq.Dlist.Seg.{Seg, nil, cons}
use lmq.Dlist.Unlink.{erase}
use lmq.Timer.{Timers, TimeVal, Func, timed, tv_after, register, request}
use lmq.Timer.Removing.{IsListed, cancel-IsListed}
use lmq.Timer.Adding.{Placed, Registers, register-Registers}

module _ {h : Heap} (timer : Ptr) where
  not-mem-erase_self :
      {prev p : Ptr} {ps : List Ptr} → Seg h prev p ps → mem timer (erase timer ps) ≡ false
  unfolding erase
  not-mem-erase_self nil = refl
  not-mem-erase_self (cons {p = x} {ps = xs} nn back o s) = elim (Bool-cases (x == timer)) [
    | inl e ↦ ground (arith, o)
    | inr e ↦ ground (arith, not-mem-erase_self s)
  ]

length-erase : (timer : Ptr) (ps : List Ptr) → length (erase timer ps) ≤ length ps
unfolding erase
length-erase timer [] = omega arith
length-erase timer (x ∷ xs) = ground (arith, length-erase timer xs)

-- What a request makes of the timers `ts`.
pub record Requested (ti : Timers) (timer : Ptr) (at : TimeVal) (f : Func) (ts : List Ptr)
    (o : Option Timers) : Type 0 where
  pub after : Timers
  pub ends : o ≡ some after
  pub timers : List Ptr
  pub times : after.time ≡ λ t. if t == timer then at else ti.time t
  pub funcs : after.func ≡ λ t. if t == timer then some f else ti.func t
  pub placed : Placed after.time timer (erase timer ts) timers
  pub listed : IsListed after timers

registered-Requested :
    (ti : Timers) (timer : Ptr) (at : TimeVal) (f : Func) (ts : List Ptr) (ti1 : Timers)
    (o : Option Timers)
    → ti1.time ≡ (λ t. if t == timer then at else ti.time t)
    → ti1.func ≡ (λ t. if t == timer then some f else ti.func t)
    → (l : IsListed ti1 (erase timer ts)) (ne : timer ≢ null)
      (new : mem timer (erase timer ts) ≡ false)
    → Registers timer l ne new o
    → Requested ti timer at f ts o
registered-Requested ti timer at f ts ti1 none times funcs l ne new r = absurd r
registered-Requested ti timer at f ts ti1 (some ti') times funcs l ne new r = record {
  after = ti';
  ends = refl;
  timers = r.timers;
  times = r.times ∙ times;
  funcs = r.funcs ∙ funcs;
  placed = rw r.times r.placed;
  listed = r.listed;
}

-- On a list of fewer timers than there is fuel, and where the time `at` that lies the milliseconds
-- ahead is computed without an overflow, `sf_timer_request` ends, and leaves such a list, with its
-- head and tail. The timer is taken out of where it was, and its time is `at`, with the requested
-- function. If it is now earlier than the first of the others, it is put in front of them, and
-- else, if it is later than one of them, behind one such timer; if there are no others, it is
-- alone; and otherwise it is not on the list. The others stay, in their order, with their times and functions.
pub request-Requested :
    (fuel : ℕ) {ti : Timers} {ts : List Ptr} {at : TimeVal} (timer : Ptr) (now : TimeVal) (msec : ℕ)
    (f : Func)
    → IsListed ti ts
    → timer ≢ null
    → tv_after now msec ≡ some at
    → length ts < fuel
    → Requested ti timer at f ts (request fuel ti timer now msec f)
unfolding request lmq.Timer.register_at
request-Requested fuel {ti} {ts} {at} timer now msec f l ne after enough =
    let (ti', e, same, same_func, l') = cancel-IsListed timer l fuel enough in
    let room : length (erase timer ts) < fuel = omega (arith, length-erase timer ts) in
    let ti1 : Timers = timed ti' timer at f in
    let listed : IsListed ti1 (erase timer ts) = record { chain = l'.chain; ends = l'.ends } in
    let new = not-mem-erase_self timer l.chain in
    let times = ap (λ (g : Ptr → TimeVal). λ (t : Ptr). if t == timer then at else g t) same in
    let funcs =
      ap (λ (g : Ptr → Option Func). λ (t : Ptr). if t == timer then some f else g t) same_func in
    rw e (
      rw after (
        registered-Requested ti timer at f ts ti1 (register fuel ti1 timer) times funcs listed ne
          new (register-Registers timer listed ne new fuel room)))

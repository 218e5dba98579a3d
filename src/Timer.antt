-- ===== src/Timer.antt =====
-- The timers of libsf/sf_timer.c: a doubly linked list with a head and a tail, meant to be in the
-- order of the times. A timer is a pointer, 0 for NULL; `gettimeofday` is an argument.
pub mod Time
pub mod Listed
pub mod Chain
pub mod Removing
pub mod Adding
pub mod Requesting
mod Tests
use Prim.Native.Nat.{compare, Ordering}
use lmq.Prelude.{
  ℕ, zero, suc, ◌+◌, ◌-◌, ◌*◌, ◌<◌, Bool, true, false, Option, none, some, ◌==◌, ltb, if◌then◌else◌,
  not, leb, ◌%◌, ◌^◌,
}
use lmq.Dlist.{Ptr, null, Links, Heap, set_next, set_prev, unlink, find}

-- `struct timeval`
pub record TimeVal : Type 0 where
  pub sec : ℕ
  pub usec : ℕ

abbrev pub usec_per_sec : ℕ
usec_per_sec = 1000000

-- `timer_tv_after`, for a number of milliseconds that is not negative: none if the product of `int`
-- overflows.
unfoldable pub tv_after : TimeVal → ℕ → Option TimeVal
tv_after tv msec =
    let usec = tv.usec + msec * 1000 in
    if leb (2 ^ 31) (msec * 1000)
    then none
    else if ltb usec_per_sec usec
    then some (record { sec = tv.sec + 1; usec = usec - usec_per_sec })
    else some (record { sec = tv.sec; usec = usec })

-- The low 32 bits of `a - b`, which is what an `int` keeps of it; from 2 ^ 31 on it is negative.
abbrev pub int_diff : ℕ → ℕ → ℕ
int_diff a b = (a + (2 ^ 32 - b % 2 ^ 32)) % 2 ^ 32

-- The sign of the `int`
abbrev pub int_sign : ℕ → Ordering
int_sign r = if r == 0 then Ordering.eq else if ltb r (2 ^ 31) then Ordering.gt else Ordering.lt

-- `timer_tv_compare`: the sign of what it returns
unfoldable pub tv_compare : TimeVal → TimeVal → Ordering
tv_compare a b =
    let s = int_diff a.sec b.sec in if s == 0 then int_sign (int_diff a.usec b.usec) else int_sign s

abbrev pub earlier : TimeVal → TimeVal → Bool
unfolding tv_compare
earlier a b = elim (tv_compare a b) [ Ordering.lt ↦ true | _ ↦ false ]

abbrev pub later : TimeVal → TimeVal → Bool
unfolding tv_compare
later a b = elim (tv_compare a b) [ Ordering.gt ↦ true | _ ↦ false ]

-- `sf_timer_timetonext`, for a timer, where the microseconds fit into an `int`. The seconds are an
-- `int`, which goes below zero only to be set to zero then.
unfoldable pub time_left : TimeVal → TimeVal → TimeVal
time_left next now =
    let borrow = if ltb next.usec now.usec then 1 else 0 in
    let s = int_diff (int_diff next.sec now.sec) borrow in
    if leb (2 ^ 31) s
    then record { sec = 0; usec = 1 }
    else record { sec = s; usec = (next.usec + borrow * usec_per_sec) - now.usec }

-- `t_func`, of the functions that the program gives to timers: `sf_session_timeout` and
-- `destroy_session`, with the instance and the session of the timer
pub data Func : Type 0 where
  session_timeout : Func
  close : Func

-- `sf_timer_inst_t`, with the links, the times and the functions of the timers
pub record Timers : Type 0 where
  pub head : Ptr
  pub tail : Ptr
  pub links : Heap
  pub time : Ptr → TimeVal
  pub func : Ptr → Option Func

-- `return -1` is `none`.
unfoldable pub timetonext : Timers → TimeVal → Option TimeVal
unfolding time_left
timetonext ti now = if ti.head == null then none else some (time_left (ti.time ti.head) now)

-- `timer_chain_next`
unfoldable pub chain_next : Heap → Ptr → Ptr → Heap
unfolding set_next set_prev
chain_next h parent timer =
    let h1 = set_next (set_prev h timer parent) timer (h parent).next in
    let h2 = if (h1 parent).next == null then h1 else set_prev h1 (h1 parent).next timer in
    set_next h2 parent timer

-- The last loop of `timer_register`, from `t` on. `none` where the fuel runs out.
unfoldable pub chain_behind : ℕ → Timers → Ptr → Ptr → Option Timers
unfolding chain_next
chain_behind zero ti t timer = none
chain_behind (suc fuel) ti t timer =
    let rest = chain_behind fuel ti (ti.links t).next timer in
    if t == null
    then some ti
    else if later (ti.time timer) (ti.time t)
    then some (record ti { links = chain_next ti.links t timer })
    else rest

abbrev pub lone : Heap → Ptr → Heap
unfolding set_next set_prev
lone h timer = set_next (set_prev h timer null) timer null

unfoldable pub register : ℕ → Timers → Ptr → Option Timers
unfolding chain_next chain_behind set_next set_prev
register fuel ti timer =
    if ti.head == null
    then some (record ti { links = lone ti.links timer; head = timer; tail = timer })
    else if earlier (ti.time timer) (ti.time ti.head)
    then some (record ti {
      links = set_prev (set_next (set_prev ti.links timer null) timer ti.head) ti.head timer;
      head = timer;
    })
    else if later (ti.time timer) (ti.time ti.tail)
    then some (record ti { links = chain_next ti.links ti.tail timer; tail = timer })
    else chain_behind fuel ti ti.head timer

-- `timer_unregister`
unfoldable pub unregister : Timers → Ptr → Timers
unfolding unlink
unregister ti timer =
    let r = unlink ti.links ti.head timer in
    record ti {
      links = r.0;
      head = r.1;
      tail = if ti.tail == timer then (r.0 timer).prev else ti.tail;
    }

abbrev pub found : Option Ptr → Option Bool
found none = none
found (some p) = some (not (p == null))

-- `sf_timer_isregd`
unfoldable pub isregd : ℕ → Timers → Ptr → Option Bool
unfolding find
isregd fuel ti timer = found (find (λ t. t == timer) fuel ti.links ti.head)

abbrev pub unregister_if : Timers → Ptr → Option Bool → Option Timers
unfolding unregister
unregister_if ti timer none = none
unregister_if ti timer (some registered) = some (if registered then unregister ti timer else ti)

-- `sf_timer_cancel`
unfoldable pub cancel : ℕ → Timers → Ptr → Option Timers
unfolding isregd
cancel fuel ti timer = unregister_if ti timer (isregd fuel ti timer)

abbrev pub timed : Timers → Ptr → TimeVal → Func → Timers
timed ti timer at f = record ti {
  time = λ t. if t == timer then at else ti.time t;
  func = λ t. if t == timer then some f else ti.func t;
}

abbrev pub register_at : ℕ → Ptr → Option TimeVal → Func → Option Timers → Option Timers
unfolding register
register_at fuel timer at f none = none
register_at fuel timer none f (some ti) = none
register_at fuel timer (some at) f (some ti) = register fuel (timed ti timer at f) timer

-- `sf_timer_request`
unfoldable pub request : ℕ → Timers → Ptr → TimeVal → ℕ → Func → Option Timers
unfolding cancel register_at tv_after
request fuel ti timer now msec f =
    register_at fuel timer (tv_after now msec) f (cancel fuel ti timer)

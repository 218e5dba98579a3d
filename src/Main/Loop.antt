-- ===== src/Main/Loop.antt =====
-- The loop of `sf_main` in libsf/sf_main.c, and `sf_timer_execute` of libsf/sf_timer.c with the
-- functions that it calls.
pub mod Calm
pub mod Firing
mod Tests
use lmq.Prelude.{ℕ, zero, suc, Bool, true, Option, none, some, List, [], ◌∷◌, ◌==◌, if◌then◌else◌}
use lmq.Dlist.{Ptr, null}
use lmq.Timer.{Timers, TimeVal, Func, session_timeout, close, earlier, unregister}
use lmq.Session.Traffic
use lmq.Socket.Instance.{Instance, pcb_of}
use lmq.Socket.Events.{Run, done, short, and_then, with_sessions}
use lmq.Socket.Poll.{Event, poll_wait}
use lmq.Main.{wait, destroy_session}

-- What the system gives in one round of the loop: the clock before the wait, the events that it
-- returns from a wait of so many milliseconds, and the clock behind it.
pub record Turn : Type 0 where
  pub now : TimeVal
  pub events : Option ℕ → Option (List Event)
  pub later : TimeVal

module _ {ℓ} {S : Type ℓ} where
  abbrev pub with_timers : Timers → Instance S → Instance S
  with_timers ti w = with_sessions (record w.sessions { timers = ti }) w

module _ {ℓ} {S : Type ℓ} (fuel : ℕ) where
  -- The function of a timer, with the instance and the session of the timer
  unfoldable pub call : Instance S → Ptr → Option Func → Run (Instance S)
  unfolding destroy_session Traffic.session_timeout
  call w t none = done w true
  call w t (some session_timeout) =
      done (with_sessions (Traffic.session_timeout (pcb_of w.sockets) w.sessions t).0 w) true
  call w t (some close) = destroy_session fuel w t

  unfoldable pub fire : Instance S → Ptr → Run (Instance S)
  unfolding call unregister
  fire w t = call (with_timers (unregister w.sessions.timers t) w) t (w.sessions.timers.func t)

  -- The loop of `sf_timer_execute`. The link of a timer is read behind the call of its function,
  -- which may have freed it: the model reads what it held.
  unfoldable pub execute_from : ℕ → Instance S → TimeVal → Ptr → Run (Instance S)
  unfolding fire
  execute_from zero w now t = short
  execute_from (suc rounds) w now t =
      let rest =
        and_then (fire w t) λ w' ok. execute_from rounds w' now (w'.sessions.timers.links t).next in
      if t == null
      then done w true
      else if earlier now (w.sessions.timers.time t)
      then done w true
      else rest

  -- `sf_timer_execute`
  unfoldable pub execute : Instance S → TimeVal → Run (Instance S)
  unfolding execute_from
  execute w now = execute_from fuel w now w.sessions.timers.head

  unfoldable pub turn : Instance S → Turn → Run (Instance S)
  unfolding execute poll_wait wait
  turn w t =
      and_then (poll_wait fuel (t.events (wait w.sessions.timers t.now)) w)
        λ w' ok. execute w' t.later

  -- `sf_main`, as far as there are rounds
  unfoldable pub main_loop : List Turn → Instance S → Run (Instance S)
  unfolding turn
  main_loop [] w = done w true
  main_loop (t ∷ ts) w = and_then (turn w t) λ w' ok. main_loop ts w'

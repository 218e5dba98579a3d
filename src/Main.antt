-- ===== src/Main.antt =====
-- The functions of libsf/sf_main.c, which the protocols and the program call. The functions of the
-- timers and the loop itself are not part of the model.
pub mod Wait
pub mod Loop
pub mod Reach
pub mod Tests
use lmq.Prelude.{ℕ, Bool, true, false, Option, none, some, if◌then◌else◌}
use lmq.Pbuf.{Bytes}
use lmq.Dlist.{Ptr}
use lmq.Timer.{Timers, TimeVal, session_timeout, close, timetonext, cancel, request}
use lmq.Session.{Sessions}
use lmq.Session.Address.{SockAddr}
use lmq.Socket.{Sent, socket_send}
use lmq.Socket.Instance.{Object, listening, whole, Instance, Sock, at, pcb_of, destroy, init_socket}
use lmq.Socket.Events.{Run, done, crash, short, with_sessions}
use lmq.Socket.Poll.{millisec}

-- How long `sf_main` lets the system wait. `none` is for ever.
unfoldable pub wait : Timers → TimeVal → Option ℕ
unfolding timetonext millisec
wait ti now = millisec (timetonext ti now)

module _ {ℓ} {S : Type ℓ} where
  abbrev pub polled : Bool → Instance S → Option (Sessions S) → Option (Instance S)
  polled poll_create w none = none
  polled poll_create w (some s) = if poll_create then some (with_sessions s w) else none

  -- `sf_init`: whether there is memory for the table of the sessions, and whether `epoll_create`
  -- succeeds. `none` is `return -1`.
  unfoldable pub init : Bool → Bool → Instance S → Option (Instance S)
  unfolding init_socket lmq.Session.init
  init allocated poll_create w =
      polled poll_create (init_socket w) (lmq.Session.init allocated w.sessions)

  -- `sf_send`, of a session
  unfoldable pub send : (Ptr → SockAddr → Bytes → Sent) → Sessions S → Ptr → Bytes → Option ℕ
  unfolding socket_send
  send system w session bytes =
      socket_send (system (w.info session).sock (w.info session).peer) bytes

  abbrev pub timers_set : Sessions S → Option Timers → Option (Sessions S)
  timers_set w none = none
  timers_set w (some ti) = some (record w { timers = ti })

  -- `sf_set_timeout`
  unfoldable pub set_timeout : ℕ → Sessions S → Ptr → TimeVal → ℕ → Option (Sessions S)
  unfolding request
  set_timeout fuel w session now msec =
      timers_set w (request fuel w.timers session now msec session_timeout)

  abbrev pub closing : ℕ → Sessions S → Ptr → TimeVal → Option Timers → Option (Sessions S)
  unfolding request
  closing fuel w session now none = none
  closing fuel w session now (some ti) = timers_set w (request fuel ti session now 0 close)

  -- `sf_close_session`
  unfoldable pub close_session : ℕ → Sessions S → Ptr → TimeVal → Option (Sessions S)
  unfolding closing cancel
  close_session fuel w session now = closing fuel w session now (cancel fuel w.timers session)

  -- `sf_get_peer`
  unfoldable pub get_peer : Instance S → Ptr → Option SockAddr
  unfolding at
  get_peer w session = elim (at (w.sessions.info session).sock w.sockets) [
    | none ↦ none
    | some (listening b) ↦ none
    | some (whole so) ↦ some so.last_from
  ]

  abbrev pub destroy_object : Instance S → Ptr → Option (Object S) → Run (Instance S)
  unfolding destroy
  destroy_object w p none = crash
  destroy_object w p (some (listening b)) = crash
  destroy_object w p (some (whole so)) = done (destroy w p so) true

  unfoldable pub destroy_sock : Instance S → Ptr → Option (Sessions S) → Run (Instance S)
  unfolding destroy_object at
  destroy_sock w session none = short
  destroy_sock w session (some s) =
      let p = (s.info session).sock in destroy_object (with_sessions s w) p (at p w.sockets)

  -- `destroy_session`. The socket is read from the session after that has been freed: the model reads
  -- what it held.
  unfoldable pub destroy_session : ℕ → Instance S → Ptr → Run (Instance S)
  unfolding destroy_sock lmq.Session.destroy
  destroy_session fuel w session =
      destroy_sock w session (lmq.Session.destroy (pcb_of w.sockets) fuel w.sessions session)

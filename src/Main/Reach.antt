-- ===== src/Main/Reach.antt =====
-- The states that the sockets of libsf/sf_socket.c come to while the program of libsf/sf_main.c runs.
use lmq.Prelude.{
  ℕ, zero, suc, ◌==◌, ◌+◌, ◌≤◌, ◌≡◌, refl, subst, Option, none, some, Bool, List, [], ◌∷◌, if-both,
  if◌then◌else◌, arith,
}
use lmq.Dlist.{Ptr, null}
use lmq.Proto.{ProtoCb}
use lmq.Session.{Sessions}
use lmq.Session.Address.{SockAddr}
use lmq.Socket.Instance.{
  Object, listening, whole, Instance, Calls, at, tcp_listen, udp_listen, init_socket,
}
use lmq.Socket.Events.{Run, done, with_sessions, udp_connect}
use lmq.Socket.Poll.{Event, write_each, read_each, poll_wait}
use lmq.Socket.Balance.{IsSound, init_socket-IsSound, destroy-IsSound}
use lmq.Socket.Listening.{FreshFd, Listens, unchanged, lost, listens, tcp_listen-Listens}
use lmq.Socket.Sound.{IsFair, Keeps, and_then-Keeps, udp_listen-IsSound}
use lmq.Socket.Sound.Events.{AllFair, udp_connect-Keeps, read_event-Keeps, write_event-Keeps}
use lmq.Timer.{TimeVal, Func, session_timeout, close, earlier, unregister}
use lmq.Main.{destroy_object, destroy_sock, destroy_session}
use lmq.Main.Loop.{with_timers, call, fire, execute_from, execute}

-- The system is fair in all rounds of some events.
abbrev pub FairEvents : List Event → Type 0
FairEvents [] = Unit {0}
FairEvents (e ∷ es) = AllFair e.rounds × FairEvents es

module _ {ℓ} {S : Type ℓ} (fuel : ℕ) where
  -- What the program does with the instance, and how often listening failed. A protocol changes the
  -- sessions only.
  pub data Step (w : Instance S) : ℕ → Instance S → Type ℓ where
    listen :
        (c : Calls) (pcb : Option (ProtoCb (Sessions S)))
        → FreshFd c.new_fd
        → Step w (if (tcp_listen w c pcb).1 then 0 else 1) (tcp_listen w c pcb).0
    listen_udp :
        (c : Calls) (pcb : Option (ProtoCb (Sessions S)))
        → IsFair c
        → Step w 0 (udp_listen w c pcb).0
    connect_udp :
        (c : Calls) (addr : SockAddr) (pcb : Option (ProtoCb (Sessions S))) {w' : Instance S}
        (ok : Bool)
        → IsFair c
        → udp_connect fuel w c addr pcb ≡ done w' ok
        → Step w 0 w'
    poll :
        (es : Option (List Event)) {w' : Instance S} (ok : Bool)
        → ((l : List Event) → es ≡ some l → FairEvents l)
        → poll_wait fuel es w ≡ done w' ok
        → Step w 0 w'
    end_session :
        (session : Ptr) {w' : Instance S} (ok : Bool)
        → destroy_session fuel w session ≡ done w' ok
        → Step w 0 w'
    timers :
        (now : TimeVal) {w' : Instance S} (ok : Bool)
        → execute fuel w now ≡ done w' ok
        → Step w 0 w'
    protocol : (s : Sessions S) → Step w 0 (with_sessions s w)

  -- The states from the start on, and how often listening failed on the way.
  pub data Reach : ℕ → Instance S → Type ℓ where
    start : (w : Instance S) → w.sockets ≡ [] → w.descriptors ≡ [] → Reach 0 (init_socket w)
    next : {n m : ℕ} {w w' : Instance S} → Reach n w → Step w m w' → Reach (n + m) w'

  write_each-Keeps :
      (k : ℕ) (es : List Event) (w : Instance S) → IsSound k w → Keeps k (write_each fuel es w)
  unfolding write_each
  write_each-Keeps k [] w v = v
  write_each-Keeps k (e ∷ es) w v =
      if-both (Keeps k) e.writable _ _
        (λ t.
          and_then-Keeps k _ _ (write_event-Keeps k fuel w e.sock v)
            λ w' ok v'. write_each-Keeps k es w' v')
        λ t. write_each-Keeps k es w v

  read_each-Keeps :
      (k : ℕ) (es : List Event) (w : Instance S)
      → FairEvents es
      → IsSound k w
      → Keeps k (read_each fuel es w)
  unfolding read_each
  read_each-Keeps k [] w fresh v = v
  read_each-Keeps k (e ∷ es) w fresh v =
      if-both (Keeps k) e.readable _ _
        (λ t.
          and_then-Keeps k _ _ (read_event-Keeps k fuel e.rounds w e.sock fresh.0 v)
            λ w' ok v'. read_each-Keeps k es w' fresh.1 v')
        λ t. read_each-Keeps k es w fresh.1 v

  pub poll_wait-Keeps :
      (k : ℕ) (es : Option (List Event)) (w : Instance S)
      → ((l : List Event) → es ≡ some l → FairEvents l)
      → IsSound k w
      → Keeps k (poll_wait fuel es w)
  unfolding poll_wait
  poll_wait-Keeps k none w fresh v = v
  poll_wait-Keeps k (some es) w fresh v =
      and_then-Keeps k _ _ (write_each-Keeps k es w v)
        λ w' ok v'. read_each-Keeps k es w' (fresh es refl) v'

  destroy_object-Keeps :
      (k : ℕ) (w : Instance S) (p : Ptr) (o : Option (Object S))
      → IsSound k w
      → at p w.sockets ≡ o
      → Keeps k (destroy_object w p o)
  unfolding destroy_object
  destroy_object-Keeps k w p none v e = tt
  destroy_object-Keeps k w p (some (listening b)) v e = tt
  destroy_object-Keeps k w p (some (whole so)) v e = destroy-IsSound k w p so v e

  destroy_sock-Keeps :
      (k : ℕ) (w : Instance S) (session : Ptr) (o : Option (Sessions S))
      → IsSound k w
      → Keeps k (destroy_sock w session o)
  unfolding destroy_sock
  destroy_sock-Keeps k w session none v = tt
  destroy_sock-Keeps k w session (some s) v =
      destroy_object-Keeps k (with_sessions s w) (s.info session).sock _ v refl

  destroy_session-Keeps :
      (k : ℕ) (w : Instance S) (session : Ptr)
      → IsSound k w
      → Keeps k (destroy_session fuel w session)
  unfolding destroy_session
  destroy_session-Keeps k w session v = destroy_sock-Keeps k w session _ v

  call-Keeps :
      (k : ℕ) (w : Instance S) (t : Ptr) (f : Option Func) → IsSound k w → Keeps k (call fuel w t f)
  unfolding call
  call-Keeps k w t none v = v
  call-Keeps k w t (some session_timeout) v = v
  call-Keeps k w t (some close) v = destroy_session-Keeps k w t v

  execute_from-Keeps :
      (k rounds : ℕ) (w : Instance S) (now : TimeVal) (t : Ptr)
      → IsSound k w
      → Keeps k (execute_from fuel rounds w now t)
  unfolding execute_from fire
  execute_from-Keeps k zero w now t v = tt
  execute_from-Keeps k (suc rounds) w now t v =
      if-both (Keeps k) (t == null) _ _ (λ e. v)
        λ e.
          if-both (Keeps k) (earlier now (w.sessions.timers.time t)) _ _ (λ a. v)
            λ a.
              and_then-Keeps k _ _
                (call-Keeps k (with_timers (unregister w.sessions.timers t) w) t
                  (w.sessions.timers.func t) v)
                λ w' ok v'. execute_from-Keeps k rounds w' now (w'.sessions.timers.links t).next v'

  pub execute-Keeps :
      (k : ℕ) (w : Instance S) (now : TimeVal) → IsSound k w → Keeps k (execute fuel w now)
  unfolding execute
  execute-Keeps k w now v = execute_from-Keeps k fuel w now w.sessions.timers.head v

  Listens-IsSound :
      {k : ℕ} {w : Instance S} {c : Calls} {pcb : Option (ProtoCb (Sessions S))}
      (r : Instance S × Bool)
      → IsSound k w
      → Listens k w c pcb r
      → (j : ℕ) × (j ≤ k + (if r.1 then 0 else 1)) × IsSound j r.0
  Listens-IsSound {k} r v (unchanged why) = (k, omega arith, v)
  Listens-IsSound {k} r v (lost why sound) = (suc k, omega arith, sound)
  Listens-IsSound {k} r v (listens fd e l sound) = (k, omega arith, sound)

  Keeps-done :
      (k : ℕ) {o : Run (Instance S)} {w : Instance S} {ok : Bool}
      → Keeps k o
      → o ≡ done w ok
      → (j : ℕ) × (j ≤ k + 0) × IsSound j w
  Keeps-done k v e = (k, omega arith, subst (Keeps k) e v)

  Step-IsSound :
      {k : ℕ} {w w' : Instance S} {m : ℕ}
      → IsSound k w
      → Step w m w'
      → (j : ℕ) × (j ≤ k + m) × IsSound j w'
  Step-IsSound {k} {w = w} v (listen c pcb fresh) =
      Listens-IsSound (tcp_listen w c pcb) v (tcp_listen-Listens k w c pcb fresh v)
  Step-IsSound {k} {w = w} v (listen_udp c pcb fresh) =
      (k, omega arith, udp_listen-IsSound k w c pcb fresh v)
  Step-IsSound {k} {w = w} v (connect_udp c addr pcb ok fresh e) =
      Keeps-done k (udp_connect-Keeps k fuel w c addr pcb fresh v) e
  Step-IsSound {k} {w = w} v (poll es ok fresh e) = Keeps-done k (poll_wait-Keeps k es w fresh v) e
  Step-IsSound {k} {w = w} v (end_session session ok e) =
      Keeps-done k (destroy_session-Keeps k w session v) e
  Step-IsSound {k} {w = w} v (timers now ok e) = Keeps-done k (execute-Keeps k w now v) e
  Step-IsSound {k} v (protocol s) = (k, omega arith, v)

  -- In every state that an instance comes to from the start, the count of the sockets is within the
  -- limit, and it is the number of sockets and of those that were lost: at most one for each time that
  -- listening for TCP failed. The descriptors that are open are those of the sockets, each once. The
  -- buffers of the sockets are valid, with their data at the start of the block. The system gives no
  -- descriptor that is open, no more bytes than it is asked for, and blocks of the size that it is
  -- asked for; and a protocol changes the sessions only.
  pub Reach-IsSound :
      {n : ℕ} {w : Instance S} → Reach n w → (leaked : ℕ) × (leaked ≤ n) × IsSound leaked w
  Reach-IsSound (start w none_yet none_open) =
      (0, omega arith, init_socket-IsSound w none_yet none_open)
  Reach-IsSound (next r s) =
      let (k, le, v) = Reach-IsSound r in
      let (j, le', v') = Step-IsSound v s in (j, omega arith, v')

-- ===== src/Socket/Events.antt =====
-- The connections and the events of libsf/sf_socket.c, and the loop over them in libsf/sf_epoll.c.
-- What the system calls return is a parameter, for each round of a loop.
use lmq.Prelude.{ℕ, Bool, true, false, Option, none, some, List, [], ◌∷◌, ◌==◌, if◌then◌else◌}
use lmq.Pbuf.{Pbuf, Bytes}
use lmq.Dlist.{Ptr, null}
use lmq.Proto.{ProtoCb}
use lmq.Session.{Sessions}
use lmq.Session.Address.{SockAddr}
use lmq.Session.Traffic.{session_output, output_bcast}
use lmq.Socket.{Received, Outcome, refused, nothing, got, overrun, stuck, receive, shrink_rbuf}
use lmq.Socket.Instance.{
  Sock, Object, listening, whole, Instance, Calls, nonblock, at, pcb_of, opened_fd, closed_fd,
  written, create, new_sock, destroy, socket_udp,
}

-- What the system calls return in one round of a read event: what a socket and its connection need,
-- what `accept` returns, and what `recvfrom` and `malloc` do while a message is received.
pub record Round : Type 0 where
  pub calls : Calls
  pub accept : List ℕ → Option (ℕ × SockAddr)
  pub peek : ℕ → Received
  pub recv : ℕ → Received
  pub from : SockAddr
  pub block : ℕ → Option Bytes

-- How an operation ends: with a state, and false for `return -1`; with an access to a socket that is
-- not there or outside a block; or without the fuel or the rounds that it needs.
pub data Run {ℓ} (W : Type ℓ) : Type ℓ where
  done : W → Bool → Run W
  crash : Run W
  short : Run W

module _ {ℓ} {W : Type ℓ} where
  abbrev pub and_then : Run W → (W → Bool → Run W) → Run W
  and_then (done w ok) next = next w ok
  and_then crash next = crash
  and_then short next = short

module _ {ℓ} {S : Type ℓ} where
  abbrev pub with_sessions : Sessions S → Instance S → Instance S
  with_sessions s w = record w { sessions = s }

  abbrev pub go_on : Run (Instance S) → (Instance S → Run (Instance S)) → Run (Instance S)
  go_on (done w true) next = next w
  go_on (done w false) next = done w true
  go_on crash next = crash
  go_on short next = short

  abbrev pub output_ran : Instance S → Option (Sessions S × Bool) → Run (Instance S)
  output_ran w none = short
  output_ran w (some (s, ok)) = done (with_sessions s w) ok

  -- The socket when a receive has failed; `so_last_from` is written before the end of some.
  abbrev pub given_up : Round → Sock S → Pbuf → Bool → Sock S
  given_up r so q known = record so { rbuf = q; last_from = if known then r.from else so.last_from }

module _ {ℓ} {S : Type ℓ} (fuel : ℕ) where
  -- A session was made for a socket, or NULL came back.
  unfoldable pub connected :
      Ptr → Sock S → Sock S → Instance S → Option (Sessions S × Ptr) → Run (Instance S)
  unfolding destroy written
  connected p so so' w none = short
  connected p so so' w (some (s, session)) =
      let w' = with_sessions s w in
      if session == null
      then done (destroy w' p so) false
      else done (written p (record so' { session = session }) w') true

  unfoldable pub udp_started : Calls → SockAddr → Instance S × Option (Sock S) → Run (Instance S)
  unfolding lmq.Session.find_create_start connected
  udp_started c addr (w, none) = done w false
  udp_started c addr (w, some so) = connected c.memory so so w (
      lmq.Session.find_create_start (pcb_of w.sockets) fuel w.sessions c.session_memory addr
        c.memory [])

  -- `sf_socket_udp_connect`
  unfoldable pub udp_connect :
      Instance S → Calls → SockAddr → Option (ProtoCb (Sessions S)) → Run (Instance S)
  unfolding udp_started socket_udp
  udp_connect w c addr pcb = udp_started c addr (socket_udp w c pcb)

  unfoldable pub session_on :
      Calls
      → ℕ
      → SockAddr
      → Option (ProtoCb (Sessions S))
      → Instance S
      → Option (Instance S)
      → Run (Instance S)
  unfolding closed_fd nonblock destroy connected lmq.Session.create_start
  session_on c fd addr pcb w none = done (closed_fd fd w) false
  session_on c fd addr pcb w (some w') =
      let so = new_sock c fd pcb in
      if nonblock c
      then if c.keepalive
        then if c.poll_add
          then connected c.memory so (record so { is_connected = true }) w'
              (lmq.Session.create_start (pcb_of w'.sockets) fuel w'.sessions c.session_memory addr
                c.memory [])
          else done (destroy w' c.memory so) false
        else done (destroy w' c.memory so) false
      else done (destroy w' c.memory so) false

  -- `socket_tcp_session`
  unfoldable pub tcp_session :
      Instance S → Calls → ℕ → SockAddr → Option (ProtoCb (Sessions S)) → Run (Instance S)
  unfolding session_on create
  tcp_session w c fd addr pcb = session_on c fd addr pcb w (create w c fd pcb)

  -- `socket_tcp_accept`, which does not fail when the session does.
  unfoldable pub tcp_accept :
      Instance S → Calls → Option (ℕ × SockAddr) → Option (ProtoCb (Sessions S)) → Run (Instance S)
  unfolding tcp_session
  tcp_accept w c none pcb = done w false
  tcp_accept w c (some (fd, addr)) pcb =
      and_then (tcp_session (opened_fd fd w) c fd addr pcb) λ w' ok. done w' true

  unfoldable pub gone : Instance S → Ptr → Sock S → Option (Sessions S) → Run (Instance S)
  unfolding destroy written
  gone w p so none = short
  gone w p so (some s) = done (destroy (written p so (with_sessions s w)) p so) false

  unfoldable pub received :
      Round → Instance S → Ptr → Sock S → Outcome (Sessions S) → Run (Instance S)
  unfolding gone lmq.Session.destroy written shrink_rbuf
  received r w p so (refused q known s) =
      gone w p (given_up r so q known) (lmq.Session.destroy (pcb_of w.sockets) fuel s so.session)
  received r w p so (nothing s) = done (with_sessions s w) false
  received r w p so (got q s len) =
      done
        (written p (record so { rbuf = shrink_rbuf r.calls.small q; last_from = r.from })
          (with_sessions s w))
        true
  received r w p so overrun = crash
  received r w p so stuck = short

  -- `socket_read_event_receive`, of a socket `so` at `p`
  unfoldable pub read_event_receive : Round → Instance S → Ptr → Sock S → Run (Instance S)
  unfolding received receive
  read_event_receive r w p so = received r w p so (
      receive (pcb_of w.sockets) fuel p r.peek r.recv w.max_msgsize r.block so.session
        r.calls.session_memory r.from so.rbuf w.sessions)

  -- `sb_func_read`: `socket_read_event_accept` or `socket_read_event_receive`
  unfoldable pub read_func : Round → Instance S → Ptr → Option (Object S) → Run (Instance S)
  unfolding tcp_accept read_event_receive
  read_func r w p none = crash
  read_func r w p (some (listening b)) = tcp_accept w r.calls (r.accept w.descriptors) b.pcb
  read_func r w p (some (whole so)) = read_event_receive r w p so

  -- `sf_socket_read_event`, with a round of the system for each round of the loop
  unfoldable pub read_event : List Round → Instance S → Ptr → Run (Instance S)
  unfolding read_func at
  read_event [] w p = short
  read_event (r ∷ rs) w p = go_on (read_func r w p (at p w.sockets)) λ w'. read_event rs w' p

  -- `socket_write_event`
  unfoldable pub socket_write_event : Instance S → Ptr → Sock S → Run (Instance S)
  unfolding session_output output_bcast
  socket_write_event w p so =
      if so.session == null
      then output_ran w (output_bcast (pcb_of w.sockets) fuel w.sessions p)
      else output_ran w (some (session_output (pcb_of w.sockets) w.sessions so.session))

  unfoldable pub write_func : Instance S → Ptr → Option (Object S) → Run (Instance S)
  unfolding socket_write_event
  write_func w p none = crash
  write_func w p (some (listening b)) = done w true
  write_func w p (some (whole so)) = socket_write_event w p so

  -- `sf_socket_write_event`
  unfoldable pub write_event : Instance S → Ptr → Run (Instance S)
  unfolding write_func at
  write_event w p = if p == null then done w true else write_func w p (at p w.sockets)

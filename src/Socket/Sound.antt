-- ===== src/Socket/Sound.antt =====
-- That the operations on the sockets of libsf/sf_socket.c keep the count and the descriptors.
pub mod Events
use lmq.Prelude.{
  ℕ, ◌≡◌, refl, sym, subst, true, false, Option, none, some, Bool, List, [], ◌∷◌, ◌==◌, if-both,
  arith, length,
}
use lmq.Pbuf.{Bytes, small_bufsize, init_small, sethdr}
use lmq.Socket.Safety.{IsAtStart}
use lmq.Dlist.{Ptr, null, mem}
use lmq.Proto.{ProtoCb}
use lmq.Session.{Sessions}
use lmq.Session.Address.{SockAddr}
use lmq.Session.Traffic.{session_output, output_bcast}
use lmq.Socket.{Outcome, refused, nothing, got, overrun, stuck}
use lmq.Socket.Instance.{
  Sock, Object, listening, whole, Instance, Calls, nonblock, at, pcb_of, opened_fd, create,
  new_sock, socket_udp, udp_on, polled_udp, bound, udp_listen,
}
use lmq.Socket.Events.{
  Round, Run, done, crash, short, and_then, with_sessions, connected, udp_started, udp_connect,
  session_on, tcp_session, tcp_accept, gone, received, read_event_receive, read_func, go_on,
  output_ran, read_event, socket_write_event, write_func, write_event,
}
use lmq.Socket.Balance.{
  IsSound, with_object, Creates, made, create_object-Creates, unopened, destroy_new,
  destroy-IsSound, written-IsSound, at_new,
}
use lmq.Socket.Listening.{FreshFd}

-- The system gives no descriptor that is open, and a socket has its own small block.
pub record IsFair (c : Calls) : Type 0 where
  pub fresh : FreshFd c.new_fd
  pub small : length c.small ≡ small_bufsize

pub init_small-IsAtStart :
    (small : Bytes) → length small ≡ small_bufsize → IsAtStart (init_small small)
unfolding init_small sethdr
init_small-IsAtStart small e = record {
  valid = record { block = e; ordered = omega arith; within = omega arith };
  at_start = refl;
}

module _ {ℓ} {S : Type ℓ} (k : ℕ) where
  -- A run that ends in a state ends in a sound one.
  abbrev pub Keeps : Run (Instance S) → Type ℓ
  Keeps (done w ok) = IsSound k w
  Keeps crash = Unit
  Keeps short = Unit

  pub and_then-Keeps :
      (o : Run (Instance S)) (next : Instance S → Bool → Run (Instance S))
      → Keeps o
      → ((w : Instance S) (ok : Bool) → IsSound k w → Keeps (next w ok))
      → Keeps (and_then o next)
  and_then-Keeps (done w ok) next v f = f w ok v
  and_then-Keeps crash next v f = tt
  and_then-Keeps short next v f = tt

  -- `socket_udp` changes nothing, or there is one more socket, which is closed like any other.
  pub data Opens (w : Instance S) (p : Ptr) : Instance S × Option (Sock S) → Type ℓ where
    unchanged : Opens w p (w, none)
    opens :
        (so : Sock S)
        → so.dont_close ≡ false
        → IsAtStart so.rbuf
        → IsSound k (with_object so.base.fd p (whole so) w)
        → Opens w p (with_object so.base.fd p (whole so) w, some so)

  module _ (w : Instance S) (c : Calls) (pcb : Option (ProtoCb (Sessions S))) where
    polled-Opens :
        (fd : ℕ) (o : Option (Instance S))
        → IsFair c
        → Creates k fd w c.memory (whole (new_sock c fd pcb)) o
        → Opens w c.memory (polled_udp c fd pcb (opened_fd fd w) o)
    unfolding polled_udp new_sock
    polled-Opens fd none fair (Creates.refused why) = rw (unopened fd w) unchanged
    polled-Opens fd (some w') fair (made lt sound) =
        let so = new_sock c fd pcb in
        if-both (Opens w c.memory) c.poll_add _ _
          (λ t. opens so refl (init_small-IsAtStart c.small fair.small) sound)
          λ t. rw (destroy_new c.memory so w refl) unchanged

    udp_on-Opens :
        (new : Option ℕ)
        → IsFair c
        → IsSound k w
        → ((fd : ℕ) → new ≡ some fd → mem fd w.descriptors ≡ false)
        → Opens w c.memory (udp_on w c pcb new)
    unfolding udp_on create new_sock
    udp_on-Opens none fair v fresh = unchanged
    udp_on-Opens (some fd) fair v fresh =
        let so = new_sock c fd pcb in
        let m =
          create_object-Creates k fd w c (whole so) v (fresh fd refl) refl
            (init_small-IsAtStart c.small fair.small) in
        if-both (Opens w c.memory) (nonblock c) _ _ (λ t. polled-Opens fd _ fair m)
          λ t. rw (unopened fd w) unchanged

    pub socket_udp-Opens : IsFair c → IsSound k w → Opens w c.memory (socket_udp w c pcb)
    unfolding socket_udp
    socket_udp-Opens fair v =
        udp_on-Opens (c.new_fd w.descriptors) fair v (fair.fresh w.descriptors)

  bound-IsSound :
      (w : Instance S) (c : Calls) (r : Instance S × Option (Sock S))
      → IsSound k w
      → Opens w c.memory r
      → IsSound k (bound c r).0
  unfolding bound
  bound-IsSound w c r v unchanged = v
  bound-IsSound w c r v (opens so e start sound) =
      let here = at_new c.memory (whole so) w.sockets in
      let w' = with_object so.base.fd c.memory (whole so) w in
      if-both (λ (x : Instance S × Bool). IsSound k x.0) c.bind _ _
        (λ t.
          written-IsSound k w' c.memory so (record so { dont_close = true }) sound here refl start)
        λ t. destroy-IsSound k w' c.memory so sound here

  pub udp_listen-IsSound :
      (w : Instance S) (c : Calls) (pcb : Option (ProtoCb (Sessions S)))
      → IsFair c
      → IsSound k w
      → IsSound k (udp_listen w c pcb).0
  unfolding udp_listen
  udp_listen-IsSound w c pcb fair v =
      bound-IsSound w c (socket_udp w c pcb) v (socket_udp-Opens w c pcb fair v)

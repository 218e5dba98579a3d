-- ===== src/Socket/Sound/Events.antt =====
-- That the events of the sockets in libsf/sf_socket.c keep the count and the descriptors.
use lmq.Prelude.{
  ℕ, ◌≡◌, refl, sym, subst, true, false, Option, none, some, Bool, List, [], ◌∷◌, ◌==◌, if-both,
  length,
}
use lmq.Pbuf.{Pbuf, Bytes, small_bufsize, data_len}
use lmq.Pbuf.Resize.{Allocates}
use lmq.Socket.Receiving.{GivesBounded}
use lmq.Socket.Safety.{IsAtStart, Safe, gave_up, kept, receive-Safe}
use lmq.Dlist.{Ptr, null, mem}
use lmq.Proto.{ProtoCb}
use lmq.Session.{Sessions}
use lmq.Session.Address.{SockAddr}
use lmq.Session.Traffic.{session_output, output_bcast}
use lmq.Socket.{Outcome, refused, nothing, got, overrun, stuck, shrink_rbuf}
use lmq.Socket.Instance.{
  written, Sock, Object, listening, whole, Instance, Calls, nonblock, at, pcb_of, opened_fd, create,
  new_sock, socket_udp,
}
use lmq.Socket.Events.{
  Round, Run, done, crash, short, with_sessions, connected, udp_started, udp_connect, session_on,
  tcp_session, tcp_accept, gone, given_up, received, read_event_receive, read_func, go_on,
  output_ran, read_event, socket_write_event, write_func, write_event,
}
use lmq.Socket.Balance.{
  IsSound, with_object, Creates, made, create_object-Creates, unopened, destroy-IsSound,
  written-IsSound, at_new, at-put, at-IsOrdered,
}
use lmq.Socket.Sound.{
  IsFair, init_small-IsAtStart, Keeps, Opens, unchanged, opens, socket_udp-Opens, and_then-Keeps,
}

abbrev pub FreshAccept : (List ℕ → Option (ℕ × SockAddr)) → Type 0
FreshAccept accept =
    (fds : List ℕ) (fd : ℕ) (a : SockAddr) → accept fds ≡ some (fd, a) → mem fd fds ≡ false

-- In a round, the system gives no descriptor that is open, no more bytes than it is asked for, and
-- blocks of the size that it is asked for; and a socket has its own small block.
pub record IsFairRound (r : Round) : Type 0 where
  pub accepts : FreshAccept r.accept
  pub peeks : GivesBounded r.peek
  pub receives : GivesBounded r.recv
  pub allocates : (n : ℕ) → Allocates (r.block n) n
  pub small : length r.calls.small ≡ small_bufsize

abbrev pub AllFair : List Round → Type 0
AllFair [] = Unit {0}
AllFair (r ∷ rs) = IsFairRound r × AllFair rs

shrink_rbuf-IsAtStart :
    (small : Bytes) (q : Pbuf)
    → length small ≡ small_bufsize
    → IsAtStart q
    → IsAtStart (shrink_rbuf small q)
unfolding shrink_rbuf
shrink_rbuf-IsAtStart small q e v =
    if-both IsAtStart (data_len q == 0) _ _ (λ t. init_small-IsAtStart small e) λ t. v

module _ {ℓ} {S : Type ℓ} (k fuel : ℕ) where
  connected-Keeps :
      (p : Ptr) (so so' : Sock S) (w : Instance S) (r : Option (Sessions S × Ptr))
      → IsSound k w
      → at p w.sockets ≡ some (whole so)
      → so'.base.fd ≡ so.base.fd
      → IsAtStart so'.rbuf
      → Keeps k (connected fuel p so so' w r)
  unfolding connected
  connected-Keeps p so so' w none v e same start = tt
  connected-Keeps p so so' w (some (s, session)) v e same start =
      if-both (Keeps k) (session == null) _ _ (λ t. destroy-IsSound k (with_sessions s w) p so v e)
        λ t. written-IsSound k (with_sessions s w) p so _ v e same start

  udp_started-Keeps :
      (w : Instance S) (c : Calls) (addr : SockAddr) (r : Instance S × Option (Sock S))
      → IsSound k w
      → Opens k w c.memory r
      → Keeps k (udp_started fuel c addr r)
  unfolding udp_started
  udp_started-Keeps w c addr r v unchanged = v
  udp_started-Keeps w c addr r v (opens so e start sound) =
      let w' = with_object so.base.fd c.memory (whole so) w in
      connected-Keeps c.memory so so w'
        (lmq.Session.find_create_start (pcb_of w'.sockets) fuel w'.sessions c.session_memory addr
          c.memory [])
        sound (at_new c.memory (whole so) w.sockets) refl start

  pub udp_connect-Keeps :
      (w : Instance S) (c : Calls) (addr : SockAddr) (pcb : Option (ProtoCb (Sessions S)))
      → IsFair c
      → IsSound k w
      → Keeps k (udp_connect fuel w c addr pcb)
  unfolding udp_connect
  udp_connect-Keeps w c addr pcb fair v =
      udp_started-Keeps w c addr (socket_udp w c pcb) v (socket_udp-Opens k w c pcb fair v)

  session_on-Keeps :
      (w : Instance S) (c : Calls) (fd : ℕ) (addr : SockAddr) (pcb : Option (ProtoCb (Sessions S)))
      (o : Option (Instance S))
      → length c.small ≡ small_bufsize
      → IsSound k w
      → Creates k fd w c.memory (whole (new_sock c fd pcb)) o
      → Keeps k (session_on fuel c fd addr pcb (opened_fd fd w) o)
  unfolding session_on new_sock
  session_on-Keeps w c fd addr pcb none small v (Creates.refused why) =
      subst (IsSound k) (sym (unopened fd w)) v
  session_on-Keeps w c fd addr pcb (some w') small v (made lt sound) =
      let so = new_sock c fd pcb in
      let here = at_new c.memory (whole so) w.sockets in
      let w1 = with_object fd c.memory (whole so) w in
      let gone = destroy-IsSound k w1 c.memory so sound here in
      if-both (Keeps k) (nonblock c) _ _
        (λ t.
          if-both (Keeps k) c.keepalive _ _
            (λ t.
              if-both (Keeps k) c.poll_add _ _
                (λ t.
                  connected-Keeps c.memory so (record so { is_connected = true }) w1
                    (lmq.Session.create_start (pcb_of w1.sockets) fuel w1.sessions c.session_memory
                      addr c.memory [])
                    sound here refl (init_small-IsAtStart c.small small))
                λ t. gone)
            λ t. gone)
        λ t. gone

  pub tcp_accept-Keeps :
      (w : Instance S) (c : Calls) (a : Option (ℕ × SockAddr)) (pcb : Option (ProtoCb (Sessions S)))
      → length c.small ≡ small_bufsize
      → ((fd : ℕ) (addr : SockAddr) → a ≡ some (fd, addr) → mem fd w.descriptors ≡ false)
      → IsSound k w
      → Keeps k (tcp_accept fuel w c a pcb)
  unfolding tcp_accept tcp_session create new_sock
  tcp_accept-Keeps w c none pcb small fresh v = v
  tcp_accept-Keeps w c (some (fd, addr)) pcb small fresh v =
      let so = new_sock c fd pcb in
      let m =
        create_object-Creates k fd w c (whole so) v (fresh fd addr refl) refl
          (init_small-IsAtStart c.small small) in
      and_then-Keeps k _ _ (session_on-Keeps w c fd addr pcb _ small v m) λ w' ok s. s

  gone-Keeps :
      (w : Instance S) (p : Ptr) (so so' : Sock S) (o : Option (Sessions S))
      → IsSound k w
      → at p w.sockets ≡ some (whole so)
      → so'.base.fd ≡ so.base.fd
      → IsAtStart so'.rbuf
      → Keeps k (gone fuel w p so' o)
  unfolding gone written
  gone-Keeps w p so so' none v e same start = tt
  gone-Keeps w p so so' (some s) v e same start =
      destroy-IsSound k (written p so' (with_sessions s w)) p so'
        (written-IsSound k (with_sessions s w) p so so' v e same start)
        (at-put p (whole so) (whole so') w.sockets e)

  received-Keeps :
      (r : Round) (w : Instance S) (p : Ptr) (so : Sock S) (o : Outcome (Sessions S))
      → IsSound k w
      → at p w.sockets ≡ some (whole so)
      → IsFairRound r
      → Safe (pcb_of w.sockets) fuel p so.rbuf o
      → Keeps k (received fuel r w p so o)
  unfolding received
  received-Keeps r w p so (refused q known s) v e fair (gave_up _ _ start) =
      gone-Keeps w p so (given_up r so q known)
        (lmq.Session.destroy (pcb_of w.sockets) fuel s so.session) v e refl start
  received-Keeps r w p so (nothing s) v e fair safe = v
  received-Keeps r w p so (got q s len) v e fair (kept _ _ start) =
      written-IsSound k (with_sessions s w) p so _ v e refl
        (shrink_rbuf-IsAtStart r.calls.small q fair.small start)
  received-Keeps r w p so overrun v e fair safe = tt
  received-Keeps r w p so stuck v e fair safe = tt

  read_func-Keeps :
      (r : Round) (w : Instance S) (p : Ptr) (o : Option (Object S))
      → IsFairRound r
      → IsSound k w
      → at p w.sockets ≡ o
      → Keeps k (read_func fuel r w p o)
  unfolding read_func read_event_receive
  read_func-Keeps r w p none fair v e = tt
  read_func-Keeps r w p (some (listening b)) fair v e =
      tcp_accept-Keeps w r.calls (r.accept w.descriptors) b.pcb fair.small
        (fair.accepts w.descriptors) v
  read_func-Keeps r w p (some (whole so)) fair v e = received-Keeps r w p so _ v e fair (
      receive-Safe (pcb_of w.sockets) fuel p r.recv fair.receives w.max_msgsize r.block
        fair.allocates r.peek so.session r.calls.session_memory r.from so.rbuf w.sessions fair.peeks
        (at-IsOrdered p (whole so) w.sockets e v.buffers))

  go_on-Keeps :
      (o : Run (Instance S)) (next : Instance S → Run (Instance S))
      → Keeps k o
      → ((w : Instance S) → IsSound k w → Keeps k (next w))
      → Keeps k (go_on o next)
  go_on-Keeps (done w true) next v f = f w v
  go_on-Keeps (done w false) next v f = v
  go_on-Keeps crash next v f = tt
  go_on-Keeps short next v f = tt

  pub read_event-Keeps :
      (rs : List Round) (w : Instance S) (p : Ptr)
      → AllFair rs
      → IsSound k w
      → Keeps k (read_event fuel rs w p)
  unfolding read_event
  read_event-Keeps [] w p fair v = tt
  read_event-Keeps (r ∷ rs) w p fair v =
      go_on-Keeps _ _ (read_func-Keeps r w p (at p w.sockets) fair.0 v refl)
        λ w' v'. read_event-Keeps rs w' p fair.1 v'

  output_ran-Keeps :
      (w : Instance S) (o : Option (Sessions S × Bool)) → IsSound k w → Keeps k (output_ran w o)
  output_ran-Keeps w none v = tt
  output_ran-Keeps w (some (s, ok)) v = v

  write_func-Keeps :
      (w : Instance S) (p : Ptr) (o : Option (Object S))
      → IsSound k w
      → Keeps k (write_func fuel w p o)
  unfolding write_func socket_write_event
  write_func-Keeps w p none v = tt
  write_func-Keeps w p (some (listening b)) v = v
  write_func-Keeps w p (some (whole so)) v =
      if-both (Keeps k) (so.session == null) _ _
        (λ t. output_ran-Keeps w (output_bcast (pcb_of w.sockets) fuel w.sessions p) v)
        λ t. output_ran-Keeps w (some (session_output (pcb_of w.sockets) w.sessions so.session)) v

  pub write_event-Keeps : (w : Instance S) (p : Ptr) → IsSound k w → Keeps k (write_event fuel w p)
  unfolding write_event
  write_event-Keeps w p v =
      if-both (Keeps k) (p == null) _ _ (λ t. v) λ t. write_func-Keeps w p (at p w.sockets) v

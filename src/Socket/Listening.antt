-- ===== src/Socket/Listening.antt =====
-- What `sf_socket_tcp_listen` and `sf_socket_udp_listen` of libsf/sf_socket.c do.
use lmq.Prelude.{
  ℕ, suc, ◌+◌, ◌≤◌, ◌<◌, ◌≡◌, ◌⊎◌, refl, sym, subst, true, false, Option, none, some, Bool,
  Bool-cases, inl, inr, if◌then◌else◌, arith, List,
}
use lmq.Dlist.{null, mem}
use lmq.Proto.{ProtoCb}
use lmq.Session.{Sessions}
use lmq.Socket.Instance.{
  listening, Instance, Calls, nonblock, listen_on, opened_fd, create_base, socket_tcp, tcp_on,
  polled_base, listened, tcp_listen, closed_fd, freed,
}
use lmq.Socket.Balance.{
  IsSound, with_object, Creates, refused, made, create_object-Creates, unpolled, unlistened,
  unopened,
}

-- `socket` and `accept` never return a descriptor that is open.
abbrev pub FreshFd : (List ℕ → Option ℕ) → Type 0
FreshFd new_fd = (fds : List ℕ) (fd : ℕ) → new_fd fds ≡ some fd → mem fd fds ≡ false

module _ {ℓ} {S : Type ℓ} (k : ℕ) (w : Instance S) (c : Calls)
    (pcb : Option (ProtoCb (Sessions S))) where
  -- Nothing has changed, or the socket that did not come to listen is still counted, or there is one
  -- more socket.
  pub data Listens : Instance S × Bool → Type ℓ where
    unchanged :
        ((c.new_fd w.descriptors ≡ none) ⊎ (nonblock c ≡ false))
          ⊎ ((w.max_sockets ≤ w.sock_count) ⊎ (c.memory ≡ null))
        → Listens (w, false)
    lost :
        (c.poll_add ≡ false) ⊎ (listen_on c ≡ false)
        → IsSound (suc k) (record w { sock_count = w.sock_count + 1 })
        → Listens (record w { sock_count = w.sock_count + 1 }, false)
    listens :
        (fd : ℕ)
        → c.new_fd w.descriptors ≡ some fd
        → listen_on c ≡ true
        → IsSound k (with_object fd c.memory (listening (record { fd = fd; pcb = pcb })) w)
        → Listens (with_object fd c.memory (listening (record { fd = fd; pcb = pcb })) w, true)

  lost-IsSound :
      IsSound k w
      → w.sock_count < w.max_sockets
      → IsSound (suc k) (record w { sock_count = w.sock_count + 1 })
  lost-IsSound v lt = record {
    counted = omega (arith, v.counted);
    below = omega arith;
    opened = v.opened;
    distinct = v.distinct;
    buffers = v.buffers;
  }

  lost-Listens :
      (w' : Instance S)
      → IsSound k w
      → w.sock_count < w.max_sockets
      → (c.poll_add ≡ false) ⊎ (listen_on c ≡ false)
      → w' ≡ record w { sock_count = w.sock_count + 1 }
      → Listens (w', false)
  lost-Listens w' v lt why e =
      subst (λ x. Listens (x, false)) (sym e) (lost why (lost-IsSound v lt))

  listened-Listens :
      (fd : ℕ) (ok : Bool)
      → IsSound k w
      → w.sock_count < w.max_sockets
      → c.new_fd w.descriptors ≡ some fd
      → IsSound k (with_object fd c.memory (listening (record { fd = fd; pcb = pcb })) w)
      → listen_on c ≡ ok
      → Listens (
          if ok
          then (with_object fd c.memory (listening (record { fd = fd; pcb = pcb })) w, true)
          else (
            freed c.memory (
                closed_fd fd
                  (with_object fd c.memory (listening (record { fd = fd; pcb = pcb })) w)),
            false,
          ))
  listened-Listens fd true v lt e sound l = listens fd e l sound
  listened-Listens fd false v lt e sound l =
      lost-Listens _ v lt (inr l)
        (unlistened fd c.memory (listening (record { fd = fd; pcb = pcb })) w)

  polled-Listens :
      (fd : ℕ) (ok : Bool)
      → IsSound k w
      → w.sock_count < w.max_sockets
      → c.new_fd w.descriptors ≡ some fd
      → IsSound k (with_object fd c.memory (listening (record { fd = fd; pcb = pcb })) w)
      → c.poll_add ≡ ok
      → Listens (
          listened c (
            if ok
            then (with_object fd c.memory (listening (record { fd = fd; pcb = pcb })) w, some fd)
            else (
              closed_fd fd (
                  freed c.memory
                    (with_object fd c.memory (listening (record { fd = fd; pcb = pcb })) w)),
              none,
            )))
  unfolding listened
  polled-Listens fd true v lt e sound l = listened-Listens fd (listen_on c) v lt e sound refl
  polled-Listens fd false v lt e sound l =
      lost-Listens _ v lt (inl l)
        (unpolled fd c.memory (listening (record { fd = fd; pcb = pcb })) w)

  created-Listens :
      (fd : ℕ) (o : Option (Instance S))
      → IsSound k w
      → c.new_fd w.descriptors ≡ some fd
      → Creates k fd w c.memory (listening (record { fd = fd; pcb = pcb })) o
      → Listens (listened c (polled_base c fd (opened_fd fd w) o))
  unfolding polled_base listened
  created-Listens fd none v e (refused why) = rw (unopened fd w) (unchanged (inr why))
  created-Listens fd (some w') v e (made lt sound) = polled-Listens fd c.poll_add v lt e sound refl

  tcp_on-Listens :
      (new : Option ℕ)
      → IsSound k w
      → ((fd : ℕ) → new ≡ some fd → mem fd w.descriptors ≡ false)
      → c.new_fd w.descriptors ≡ new
      → Listens (listened c (tcp_on w c pcb new))
  unfolding tcp_on listened create_base
  tcp_on-Listens none v fresh e = unchanged (inl (inl e))
  tcp_on-Listens (some fd) v fresh e = elim (Bool-cases (nonblock c)) [
    | inl t ↦
        let made =
          create_object-Creates k fd w c (listening (record { fd = fd; pcb = pcb })) v
            (fresh fd refl) refl tt in
        rw t (created-Listens fd _ v e made)
    | inr t ↦ rw (t, unopened fd w) (unchanged (inl (inr t)))
  ]

  -- If the count of the sockets is right but for `k` lost ones, then `sf_socket_tcp_listen` either
  -- succeeds, and there is one more socket that listens with the given protocol; or it fails without a
  -- socket or memory, or since there are too many, and changes nothing; or it fails to have the socket
  -- polled or listening, and changes nothing but the count, which has one lost socket more. The system
  -- gives no descriptor that is open.
  pub tcp_listen-Listens : FreshFd c.new_fd → IsSound k w → Listens (tcp_listen w c pcb)
  unfolding tcp_listen socket_tcp
  tcp_listen-Listens fresh v = tcp_on-Listens (c.new_fd w.descriptors) v (fresh w.descriptors) refl

-- ===== src/Socket/Instance.antt =====
-- The sockets of an instance in libsf/sf_socket.c and libsf/sf_socket.h: how they are made, and how
-- they go away. The system calls are parameters: what they return while an operation runs. The heap
-- is an association list of the sockets that are allocated.
use Prim.Native.Nat.{bit_or}
use lmq.Prelude.{
  ℕ, ◌+◌, ◌-◌, ◌*◌, Bool, true, false, Option, none, some, List, [], ◌∷◌, ◌==◌, leb, if◌then◌else◌,
}
use lmq.Pbuf.{Pbuf, Bytes, init_small}
use lmq.Dlist.{Ptr, null}
use lmq.Proto.{ProtoCb}
use lmq.Session.{Sessions}
use lmq.Session.Address.{SockAddr, other}

-- `sf_socket_base_t`, without its two functions: those of a base socket accept, and those of a whole
-- one receive and send.
pub record Base {ℓ} (S : Type ℓ) : Type ℓ where
  pub fd : ℕ
  pub pcb : Option (ProtoCb (Sessions S))

-- `sf_socket_t`, with the flags as truth values
pub record Sock {ℓ} (S : Type ℓ) : Type ℓ where
  pub base : Base S
  pub rbuf : Pbuf
  pub last_from : SockAddr
  pub session : Ptr
  pub dont_close : Bool
  pub is_connected : Bool

-- What a pointer to a socket leads to
pub data Object {ℓ} (S : Type ℓ) : Type ℓ where
  listening : Base S → Object S
  whole : Sock S → Object S

-- `sf_instance_t`: `sf_socket_inst_t`, the sockets and the sessions; and the descriptors that are open
pub record Instance {ℓ} (S : Type ℓ) : Type ℓ where
  pub sock_count : ℕ
  pub max_sockets : ℕ
  pub max_msgsize : ℕ
  pub sockets : List (Ptr × Object S)
  pub descriptors : List ℕ
  pub sessions : Sessions S

-- What the system calls return while one operation runs: a descriptor, given those that are open; the
-- flags of one; memory for a socket and for a session; and whether the others succeed.
pub record Calls : Type 0 where
  pub new_fd : List ℕ → Option ℕ
  pub getfl : Option ℕ
  pub setfl : ℕ → Bool
  pub keepalive : Bool
  pub reuseaddr : Bool
  pub bind : Bool
  pub listen : Bool
  pub poll_add : Bool
  pub memory : Ptr
  pub small : Bytes
  pub session_memory : Ptr

-- `O_NONBLOCK`
abbrev pub o_nonblock : ℕ
o_nonblock = 2048

-- `socket_nonblock`
unfoldable pub nonblock : Calls → Bool
nonblock c = elim c.getfl [ none ↦ false | some flags ↦ c.setfl (bit_or flags o_nonblock) ]

-- `socket_listen` and `socket_bind`
unfoldable pub listen_on : Calls → Bool
listen_on c = if c.reuseaddr then if c.bind then c.listen else false else false

-- The descriptors after `close`
unfoldable pub close : ℕ → List ℕ → List ℕ
close fd [] = []
close fd (f ∷ fs) = let rest = close fd fs in if f == fd then fs else f ∷ rest

module _ {ℓ} {S : Type ℓ} where
  abbrev pub base_of : Object S → Base S
  base_of (listening b) = b
  base_of (whole so) = so.base

  unfoldable pub at : Ptr → List (Ptr × Object S) → Option (Object S)
  at p [] = none
  at p ((q, o) ∷ r) = let rest = at p r in if q == p then some o else rest

  -- The heap after `free`
  unfoldable pub free : Ptr → List (Ptr × Object S) → List (Ptr × Object S)
  free p [] = []
  free p ((q, o) ∷ r) = let rest = free p r in if q == p then r else (q, o) ∷ rest

  -- The heap after a socket has been written
  unfoldable pub put : Ptr → Object S → List (Ptr × Object S) → List (Ptr × Object S)
  put p new [] = []
  put p new ((q, o) ∷ r) = let rest = put p new r in if q == p then (q, new) ∷ r else (q, o) ∷ rest

  -- `so_base.sb_pcb` of a socket
  unfoldable pub pcb_of : List (Ptr × Object S) → Ptr → Option (ProtoCb (Sessions S))
  unfolding at
  pcb_of os p = elim (at p os) [ none ↦ none | some o ↦ (base_of o).pcb ]

  abbrev pub opened_fd : ℕ → Instance S → Instance S
  opened_fd fd w = record w { descriptors = fd ∷ w.descriptors }

  unfoldable pub closed_fd : ℕ → Instance S → Instance S
  unfolding close
  closed_fd fd w = record w { descriptors = close fd w.descriptors }

  unfoldable pub freed : Ptr → Instance S → Instance S
  unfolding free
  freed p w = record w { sockets = free p w.sockets }

  unfoldable pub written : Ptr → Sock S → Instance S → Instance S
  unfolding put
  written p so w = record w { sockets = put p (whole so) w.sockets }

  -- `sf_init_socket`
  unfoldable pub init_socket : Instance S → Instance S
  init_socket w = record w { sock_count = 0; max_sockets = 64; max_msgsize = 1024 * 1024 }

  -- A socket is allocated and counted, unless there are too many or there is no memory.
  abbrev pub create_object : Instance S → Calls → Object S → Option (Instance S)
  create_object w c o =
      if leb w.max_sockets w.sock_count
      then none
      else if c.memory == null
      then none
      else some (record w { sock_count = w.sock_count + 1; sockets = (c.memory, o) ∷ w.sockets })

  -- `socket_create_base`: the socket is at `memory`.
  unfoldable pub create_base :
      Instance S → Calls → ℕ → Option (ProtoCb (Sessions S)) → Option (Instance S)
  create_base w c fd pcb = create_object w c (listening (record { fd = fd; pcb = pcb }))

  unfoldable pub new_sock : Calls → ℕ → Option (ProtoCb (Sessions S)) → Sock S
  unfolding init_small
  new_sock c fd pcb = record {
    base = record { fd = fd; pcb = pcb };
    rbuf = init_small c.small;
    last_from = other 0;
    session = null;
    dont_close = false;
    is_connected = false;
  }

  -- `socket_create`
  unfoldable pub create :
      Instance S → Calls → ℕ → Option (ProtoCb (Sessions S)) → Option (Instance S)
  unfolding new_sock
  create w c fd pcb = create_object w c (whole (new_sock c fd pcb))

  -- `sf_socket_destroy`, of a socket `so` at `p`
  unfoldable pub destroy : Instance S → Ptr → Sock S → Instance S
  unfolding closed_fd freed
  destroy w p so =
      if so.dont_close
      then w
      else let w' = freed p (closed_fd so.base.fd w) in record w' { sock_count = w'.sock_count - 1 }

  -- The end of `socket_tcp`: a socket that cannot be polled is freed, but not counted back.
  unfoldable pub polled_base : Calls → ℕ → Instance S → Option (Instance S) → Instance S × Option ℕ
  unfolding freed closed_fd
  polled_base c fd w none = (closed_fd fd w, none)
  polled_base c fd w (some w') =
      if c.poll_add then (w', some fd) else (closed_fd fd (freed c.memory w'), none)

  unfoldable pub tcp_on :
      Instance S → Calls → Option (ProtoCb (Sessions S)) → Option ℕ → Instance S × Option ℕ
  unfolding polled_base create_base nonblock
  tcp_on w c pcb none = (w, none)
  tcp_on w c pcb (some fd) =
      let w1 = opened_fd fd w in
      if nonblock c then polled_base c fd w1 (create_base w1 c fd pcb) else (closed_fd fd w1, none)

  -- `socket_tcp`: the socket is at `memory`, and its descriptor the result. `none` is NULL.
  unfoldable pub socket_tcp :
      Instance S → Calls → Option (ProtoCb (Sessions S)) → Instance S × Option ℕ
  unfolding tcp_on
  socket_tcp w c pcb = tcp_on w c pcb (c.new_fd w.descriptors)

  unfoldable pub listened : Calls → Instance S × Option ℕ → Instance S × Bool
  unfolding listen_on freed closed_fd
  listened c (w, none) = (w, false)
  listened c (w, some fd) =
      if listen_on c then (w, true) else (freed c.memory (closed_fd fd w), false)

  -- `sf_socket_tcp_listen`
  unfoldable pub tcp_listen : Instance S → Calls → Option (ProtoCb (Sessions S)) → Instance S × Bool
  unfolding listened socket_tcp
  tcp_listen w c pcb = listened c (socket_tcp w c pcb)

  unfoldable pub polled_udp :
      Calls
      → ℕ
      → Option (ProtoCb (Sessions S))
      → Instance S
      → Option (Instance S)
      → Instance S × Option (Sock S)
  unfolding new_sock destroy closed_fd
  polled_udp c fd pcb w none = (closed_fd fd w, none)
  polled_udp c fd pcb w (some w') =
      if c.poll_add
      then (w', some (new_sock c fd pcb))
      else (destroy w' c.memory (new_sock c fd pcb), none)

  unfoldable pub udp_on :
      Instance S → Calls → Option (ProtoCb (Sessions S)) → Option ℕ → Instance S × Option (Sock S)
  unfolding polled_udp create nonblock
  udp_on w c pcb none = (w, none)
  udp_on w c pcb (some fd) =
      let w1 = opened_fd fd w in
      if nonblock c then polled_udp c fd pcb w1 (create w1 c fd pcb) else (closed_fd fd w1, none)

  -- `socket_udp`: the socket, at `memory`
  unfoldable pub socket_udp :
      Instance S → Calls → Option (ProtoCb (Sessions S)) → Instance S × Option (Sock S)
  unfolding udp_on
  socket_udp w c pcb = udp_on w c pcb (c.new_fd w.descriptors)

  unfoldable pub bound : Calls → Instance S × Option (Sock S) → Instance S × Bool
  unfolding destroy written
  bound c (w, none) = (w, false)
  bound c (w, some so) =
      if c.bind
      then (written c.memory (record so { dont_close = true }) w, true)
      else (destroy w c.memory so, false)

  -- `sf_socket_udp_listen`
  unfoldable pub udp_listen : Instance S → Calls → Option (ProtoCb (Sessions S)) → Instance S × Bool
  unfolding bound socket_udp
  udp_listen w c pcb = bound c (socket_udp w c pcb)

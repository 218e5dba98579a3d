-- ===== src/Socket.antt =====
-- The sending and the receiving of libsf/sf_socket.c. The system calls are parameters: what `send`
-- and `recvfrom` return.
pub mod Receiving
pub mod Safety
pub mod Instance
pub mod Events
pub mod Balance
pub mod Listening
pub mod Sound
pub mod Poll
pub mod Multicast
mod Tests
use lmq.Prelude.{
  ℕ, ◌+◌, ◌-◌, Bool, true, false, Option, none, some, List, [], ◌∷◌, ◌==◌, ltb, if◌then◌else◌,
  length,
}
use lmq.Prelude.Int.{ℤ, pos, negsuc}
use lmq.Pbuf.{
  Pbuf, Bytes, Ret, ok, failed, fault, data_len, free_len, write_at, contents, extend_tail,
  retract_tail, resize, init_small, release,
}
use lmq.Dlist.{Ptr, null}
use lmq.Proto.{ProtoCb}
use lmq.Session.{Sessions, Info, find_create_start}
use lmq.Session.Address.{SockAddr}
use lmq.Session.Traffic.{session_estlen, session_input}

-- How `send` ends: with a number of bytes, with `EAGAIN`, or with another error.
pub data Sent : Type 0 where
  taken : ℕ → Sent
  would_block : Sent
  broken : Sent

-- `sf_socket_send`, where `none` is `return -1`
unfoldable pub socket_send : (Bytes → Sent) → Bytes → Option ℕ
socket_send send [] = some 0
socket_send send (c ∷ cs) = elim (send (c ∷ cs)) [
  | taken n ↦ some n
  | would_block ↦ some 0
  | broken ↦ none
]

-- How `recvfrom` ends: with bytes, none of them if the peer has closed; with `EAGAIN`; or with
-- another error.
pub data Received : Type 0 where
  bytes : Bytes → Received
  no_bytes_yet : Received
  reset : Received

-- `socket_do_receive2`: the bytes that were received, or `none` for `return -1`
unfoldable pub do_receive2 : Received → Option Bytes
do_receive2 (bytes []) = none
do_receive2 (bytes (c ∷ cs)) = some (c ∷ cs)
do_receive2 no_bytes_yet = some []
do_receive2 reset = none

-- The bytes behind the tail, in a block that has room for them.
abbrev pub received_into : Pbuf → Option Bytes → Ret (Pbuf × ℕ)
unfolding write_at extend_tail
received_into p none = failed
received_into p (some b) =
    if ltb (length p.buf) (p.tail + length b)
    then fault
    else ok (extend_tail (record p { buf = write_at p.buf p.tail b }) (length b), length b)

-- `socket_do_receive`: `recv` is what `recvfrom` returns for a number of bytes at most.
unfoldable pub do_receive : (ℕ → Received) → Pbuf → Ret (Pbuf × ℕ)
unfolding received_into do_receive2
do_receive recv p = received_into p (do_receive2 (recv (free_len p)))

-- The buffer after `sf_pbuf_resize`, whose failure is not looked at.
abbrev pub resized : Pbuf → Ret Pbuf → Ret Pbuf
resized p (ok q) = ok q
resized p failed = ok p
resized p fault = fault

-- `socket_extend_rbuf`; `block` is what `malloc` returns for a size.
unfoldable pub extend_rbuf : ℕ → (ℕ → Option Bytes) → Pbuf → ℕ → Ret Pbuf
unfolding resize
extend_rbuf max_msgsize block p new_len =
    if ltb max_msgsize new_len then failed else resized p (resize (block new_len) p new_len)

-- `socket_shrink_rbuf`; `small` is the block inside the socket.
unfoldable pub shrink_rbuf : Bytes → Pbuf → Pbuf
unfolding init_small
shrink_rbuf small p = if data_len p == 0 then init_small small else p

-- `msg_len > len`, and the extension then
unfoldable pub extend_to : ℕ → (ℕ → Option Bytes) → Pbuf → ℤ → ℕ → Ret Pbuf
unfolding extend_rbuf
extend_to max_msgsize block p (negsuc k) len = ok p
extend_to max_msgsize block p (pos n) len =
    if ltb len n then extend_rbuf max_msgsize block p n else ok p

-- How `socket_receive` ends: `return -1` with the buffer and whether the sender was noted in
-- `so_last_from`; `return 0`; a number of bytes, with the buffer; an access outside a block; or
-- without the fuel that it needs.
pub data Outcome {ℓ} (W : Type ℓ) : Type ℓ where
  refused : Pbuf → Bool → W → Outcome W
  nothing : W → Outcome W
  got : Pbuf → W → ℕ → Outcome W
  overrun : Outcome W
  stuck : Outcome W

module _ {ℓ} {S : Type ℓ} (pcb : Ptr → Option (ProtoCb (Sessions S))) (fuel : ℕ) (sock : Ptr) where
  abbrev pub input_all : Sessions S → ℕ → Option (Pbuf × Sessions S) → Outcome (Sessions S)
  input_all w len none = stuck
  input_all w len (some (p, w')) = got p w' len

  -- The second `recvfrom`, and the messages
  abbrev pub take_bytes : Ptr → Sessions S → Pbuf → Ret (Pbuf × ℕ) → Outcome (Sessions S)
  unfolding session_input
  take_bytes s w p failed = refused p true w
  take_bytes s w p fault = overrun
  take_bytes s w p (ok (q, len)) =
      if len == 0 then refused q true w else input_all w len (session_input (pcb sock) s fuel q w)

  abbrev pub take_extended :
      (ℕ → Received) → Ptr → Sessions S → Pbuf → Ret Pbuf → Outcome (Sessions S)
  unfolding take_bytes do_receive
  take_extended recv s w p failed = refused p true w
  take_extended recv s w p fault = overrun
  take_extended recv s w p (ok q) = take_bytes s w q (do_receive recv q)

  -- What follows once the session is there: `p` has the bytes that were looked at.
  abbrev pub with_found :
      (ℕ → Received)
      → ℕ
      → (ℕ → Option Bytes)
      → Pbuf
      → ℕ
      → Option (Sessions S × Ptr)
      → Outcome (Sessions S)
  unfolding take_extended session_estlen retract_tail extend_to
  with_found recv max_msgsize block p len none = stuck
  with_found recv max_msgsize block p len (some (w, s)) =
      if s == null
      then refused p false w
      else take_extended recv s w (retract_tail p len)
          (extend_to max_msgsize block (retract_tail p len) (session_estlen pcb w s p) len)

  abbrev pub after_peek :
      (ℕ → Received)
      → ℕ
      → (ℕ → Option Bytes)
      → (Bytes → Option (Sessions S × Ptr))
      → Sessions S
      → Pbuf
      → Ret (Pbuf × ℕ)
      → Outcome (Sessions S)
  unfolding with_found contents
  after_peek recv max_msgsize block get_session w p failed = refused p false w
  after_peek recv max_msgsize block get_session w p fault = overrun
  after_peek recv max_msgsize block get_session w p (ok (q, len)) =
      if len == 0
      then nothing w
      else with_found recv max_msgsize block q len (get_session (contents q))

  -- `session->se_sock = sock`, unless there is no session.
  abbrev pub with_sock : Option (Sessions S × Ptr) → Option (Sessions S × Ptr)
  with_sock none = none
  with_sock (some (w, s)) = some (
    if s == null then w else record w {
      info = λ q. if q == s then record (w.info q) { sock = sock } else w.info q;
    },
    s,
  )

  -- `socket_get_session`, with `so_session`, what `calloc` returns, and the data in the buffer
  unfoldable pub get_session : Ptr → Ptr → SockAddr → Sessions S → Bytes → Option (Sessions S × Ptr)
  unfolding find_create_start
  get_session so_session new from w held =
      if so_session == null
      then with_sock (find_create_start pcb fuel w new from sock held)
      else some (w, so_session)

  -- `socket_receive`: `peek` and `recv` are what `recvfrom` returns, first with `MSG_PEEK`.
  unfoldable pub receive :
      (ℕ → Received)
      → (ℕ → Received)
      → ℕ
      → (ℕ → Option Bytes)
      → Ptr
      → Ptr
      → SockAddr
      → Pbuf
      → Sessions S
      → Outcome (Sessions S)
  unfolding after_peek do_receive get_session
  receive peek recv max_msgsize block so_session new from p w =
      after_peek recv max_msgsize block (get_session so_session new from w) w p (do_receive peek p)

-- ===== src/Socket/Poll.antt =====
-- The events of libsf/sf_epoll.c: which are wanted of a socket, how long `epoll_wait` waits, and the calls for the events that it
-- returns, all those to write before all those to read.
pub mod Kqueue
use Prim.Native.Nat.{bit_or}
use lmq.Prelude.{
  ltb, ◌%◌, ℕ, ◌+◌, ◌*◌, ◌/◌, ◌^◌, Bool, true, false, Option, none, some, List, [], ◌∷◌,
  if◌then◌else◌,
}
use lmq.Dlist.{Ptr}
use lmq.Timer.{TimeVal}
use lmq.Socket.Instance.{Instance}
use lmq.Socket.Events.{Round, Run, done, crash, short, and_then, read_event, write_event}

-- `struct epoll_event`, with the rounds of the system while the socket is read
pub record Event : Type 0 where
  pub writable : Bool
  pub readable : Bool
  pub sock : Ptr
  pub rounds : List Round

-- `timeout` in milliseconds, as an `int`. `none` is a negative one, with which `epoll_wait` waits for
-- ever.
unfoldable pub millisec : Option TimeVal → Option ℕ
millisec none = none
millisec (some t) =
    let ms = (t.sec * 1000 + (t.usec + 999) / 1000) % 2 ^ 32 in
    if ltb ms (2 ^ 31) then some ms else none

-- The `struct epoll_event` for a socket, with the events that are wanted
pub record Interest : Type 0 where
  pub events : ℕ
  pub sock : Ptr

-- `EPOLLIN`, `EPOLLOUT`, `EPOLLET` and `EPOLL_CTL_ADD`
abbrev pub epollin : ℕ
epollin = 1

abbrev pub epollout : ℕ
epollout = 4

abbrev pub epollet : ℕ
epollet = 2 ^ 31

abbrev pub epoll_ctl_add : ℕ
epoll_ctl_add = 1

-- `epoll_ctl` takes the descriptor of the poll, the command, the one of the socket and the events, and
-- says whether it succeeded.
module _ (epoll_ctl : ℕ → ℕ → ℕ → Interest → Bool) where
  unfoldable pub socket_epoll : ℕ → ℕ → ℕ → Ptr → ℕ → Bool
  socket_epoll poll_fd fd events sock epcmd =
      epoll_ctl poll_fd epcmd fd (record { events = events; sock = sock })

  unfoldable pub socket_epoll_add : ℕ → ℕ → ℕ → Ptr → Bool
  unfolding socket_epoll
  socket_epoll_add poll_fd fd events sock = socket_epoll poll_fd fd events sock epoll_ctl_add

  -- `sf_socket_poll_add`
  unfoldable pub poll_add : ℕ → ℕ → Ptr → Bool
  unfolding socket_epoll_add
  poll_add poll_fd fd sock =
      socket_epoll_add poll_fd fd (bit_or (bit_or epollin epollout) epollet) sock

module _ {ℓ} {S : Type ℓ} (fuel : ℕ) where
  unfoldable pub write_each : List Event → Instance S → Run (Instance S)
  unfolding write_event
  write_each [] w = done w true
  write_each (e ∷ es) w =
      if e.writable
      then (and_then (write_event fuel w e.sock) λ w' ok. write_each es w')
      else write_each es w

  unfoldable pub read_each : List Event → Instance S → Run (Instance S)
  unfolding read_event
  read_each [] w = done w true
  read_each (e ∷ es) w =
      if e.readable
      then (and_then (read_event fuel e.rounds w e.sock) λ w' ok. read_each es w')
      else read_each es w

  -- `sf_socket_poll_wait`, with what `epoll_wait` returns
  unfoldable pub poll_wait : Option (List Event) → Instance S → Run (Instance S)
  unfolding write_each read_each
  poll_wait none w = done w false
  poll_wait (some es) w = and_then (write_each es w) λ w' ok. read_each es w'

-- ===== src/Main/Tests.antt =====
-- Runs of sf_main.c and sf_socket.c, and the theorems on them at concrete instances.
use lmq.Prelude.{
  Option, ℕ, suc, max, ◌+◌, ◌≤◌, ◌<◌, ◌≡◌, refl, subst, true, false, none, some, List, [], ◌∷◌,
  if◌then◌else◌, arith, leb, Bool-cases, inl, inr, replicate, length-replicate,
}
use lmq.Dlist.{Ptr, null, mem}
use lmq.Timer.Time.{total}
use lmq.Timer.{TimeVal, Timers}
use lmq.Session.{Sessions}
use lmq.Session.Address.{inet}
use lmq.Pbuf.{Pbuf, Bytes, init_small}
use lmq.Proto.{ProtoCb}
use lmq.Socket.{Received, bytes, no_bytes_yet, do_receive2, receive}
use lmq.Socket.Receiving.{GivesBounded}
use lmq.Socket.Safety.{IsAtStart, Safe, receive-Safe}
use lmq.Socket.Sound.{init_small-IsAtStart}
use lmq.Socket.Instance.{Instance, Calls, init_socket, tcp_listen, pcb_of}
use lmq.Socket.Balance.{IsSound, fds_of}
use lmq.Socket.Listening.{FreshFd, Listens, tcp_listen-Listens}
use lmq.Socket.Events.{Run, Round, done, crash, short}
use lmq.Socket.Poll.{Event, poll_wait}
use lmq.Socket.Sound.Events.{FreshAccept, IsFairRound}
use lmq.Main.{wait}
use lmq.Main.Wait.{Waits, wait-Waits}
use lmq.Main.Reach.{FairEvents, start, next, listen, poll, Reach-IsSound}

abbrev no_sessions : Sessions ℕ
no_sessions = record {
  max_sessions = 1024;
  session_count = 0;
  size = 1033;
  table = record { head = λ i. null; links = λ p. record { next = null; prev = null } };
  info = λ p. record { sid = 0; peer = inet 0 []; sock = null };
  timers = record {
    head = null;
    tail = null;
    links = λ p. record { next = null; prev = null };
    time = λ p. record { sec = 0; usec = 0 };
    func = λ p. none;
  };
  state = 0;
}

abbrev pub blank : Instance ℕ
blank = record {
  sock_count = 0;
  max_sockets = 0;
  max_msgsize = 0;
  sockets = [];
  descriptors = [];
  sessions = no_sessions;
}

-- A descriptor above all that are open.
abbrev unused : List ℕ → ℕ
unused [] = 3
unused (f ∷ fs) = max (suc f) (unused fs)

mem-unused : (f : ℕ) (fs : List ℕ) → mem f fs ≡ true → f < unused fs
mem-unused f [] e = absurd (cc)
mem-unused f (g ∷ fs) e = ground (arith, mem-unused f fs)

-- A system that gives a socket the memory at 16; whether it lets the socket be polled.
abbrev pub calls : Calls
calls = record {
  new_fd = λ fds. some (unused fds);
  getfl = some 2;
  setfl = λ flags. true;
  keepalive = true;
  reuseaddr = true;
  bind = true;
  listen = true;
  poll_add = true;
  memory = 16;
  small = replicate 2048 0;
  session_memory = 32;
}

abbrev unpolled : Calls
unpolled = record calls { poll_add = false }

pub unused-FreshFd : FreshFd λ fds. some (unused fds)
unused-FreshFd fds fd e = ground (arith, mem-unused (unused fds) fds, e)

abbrev started : Instance ℕ
started = init_socket blank

started-IsSound : IsSound 0 started
unfolding init_socket fds_of
started-IsSound = record {
  counted = refl;
  below = omega arith;
  opened = refl;
  distinct = tt;
  buffers = tt;
}

tcp_listen-Listens_example : Listens 0 started unpolled none (tcp_listen started unpolled none)
tcp_listen-Listens_example =
    tcp_listen-Listens 0 started unpolled none unused-FreshFd started-IsSound

tcp_listen_lost : (tcp_listen started unpolled none).0 ≡ record started { sock_count = 1 }
unfolding tcp_listen init_socket
tcp_listen_lost = refl

abbrev one_timer : Timers
one_timer = record {
  head = 8;
  tail = 8;
  links = λ p. record { next = null; prev = null };
  time = λ p. record { sec = 7; usec = 100000 };
  func = λ p. none;
}

abbrev clock : TimeVal
clock = record { sec = 5; usec = 900000 }

wait-Waits_example : Waits one_timer clock (wait one_timer clock)
unfolding total
wait-Waits_example =
    wait-Waits one_timer clock (omega arith) (omega arith) (omega arith, omega arith) (omega arith)

wait_run : wait one_timer clock ≡ some 1200
unfolding wait
wait_run = refl

-- Two connections that come and go.
abbrev pub accepting : Round
accepting = record {
  calls = record calls { memory = 48 };
  accept = λ fds. some (unused fds, inet 40000 (127 ∷ 0 ∷ 0 ∷ 1 ∷ []));
  peek = λ n. no_bytes_yet;
  recv = λ n. no_bytes_yet;
  from = inet 0 [];
  block = λ n. none;
}

abbrev pub no_more : Round
no_more = record accepting { accept = λ fds. none }

abbrev pub readable : Event
readable = record { writable = true; readable = true; sock = 16; rounds = accepting ∷ no_more ∷ [] }

abbrev pub with_listener : Instance ℕ
with_listener = (tcp_listen started calls none).0

abbrev state_of : Run (Instance ℕ) → Instance ℕ
state_of (done w ok) = w
state_of crash = blank
state_of short = blank

abbrev after_poll : Run (Instance ℕ)
after_poll = poll_wait 1 (some (readable ∷ [])) with_listener

-- A connection is accepted, and a second call of `accept` fails.
after_poll-done : after_poll ≡ done (state_of after_poll) true
unfolding poll_wait tcp_listen init_socket pcb_of
after_poll-done = refl

after_poll_descriptors : (state_of after_poll).descriptors ≡ 4 ∷ 3 ∷ []
unfolding poll_wait tcp_listen init_socket pcb_of
after_poll_descriptors = refl

unused-FreshAccept : FreshAccept accepting.accept
unused-FreshAccept fds fd a e = ground (arith, mem-unused (unused fds) fds, e)

none-FreshAccept : FreshAccept no_more.accept
none-FreshAccept fds fd a e = absurd (cc)

accepting-IsFairRound : IsFairRound accepting
unfolding do_receive2
accepting-IsFairRound = record {
  accepts = unused-FreshAccept;
  peeks = λ n b e. ground (arith, e);
  receives = λ n b e. ground (arith, e);
  allocates = λ n. tt;
  small = length-replicate {A = ℕ} 2048 0;
}

no_more-IsFairRound : IsFairRound no_more
unfolding do_receive2
no_more-IsFairRound = record {
  accepts = none-FreshAccept;
  peeks = λ n b e. ground (arith, e);
  receives = λ n b e. ground (arith, e);
  allocates = λ n. tt;
  small = length-replicate {A = ℕ} 2048 0;
}

pub events_fair : (l : List Event) → some (readable ∷ []) ≡ some l → FairEvents l
events_fair l e =
    let same : readable ∷ [] ≡ l = cc in
    subst FairEvents same ((accepting-IsFairRound, (no_more-IsFairRound, tt)), tt)

Reach-IsSound_example :
    (leaked : ℕ) × (leaked ≤ 0 + (if (tcp_listen started calls none).1 then 0 else 1) + 0)
    × IsSound leaked (state_of after_poll)
Reach-IsSound_example = Reach-IsSound 1 (
    next (next (start blank refl refl) (listen calls none unused-FreshFd))
      (poll (some (readable ∷ [])) true events_fair after_poll-done))

-- A peer that sends one byte.
abbrev single : ℕ → Received
single n = if leb 1 n then bytes (7 ∷ []) else no_bytes_yet

single-GivesBounded : GivesBounded single
unfolding do_receive2
single-GivesBounded n b e = elim (Bool-cases (leb 1 n)) [
  | inl t ↦ let f : some (7 ∷ []) ≡ some b = rw t at e in ground (arith, t, f)
  | inr t ↦ let f : some [] ≡ some b = rw t at e in ground (arith, t, f)
]

abbrev no_protocol : Ptr → Option (ProtoCb (Sessions ℕ))
no_protocol s = none

abbrev small_buffer : Pbuf
small_buffer = init_small (replicate 2048 0)

small_buffer-IsAtStart : IsAtStart small_buffer
small_buffer-IsAtStart = init_small-IsAtStart (replicate 2048 0) (length-replicate {A = ℕ} 2048 0)

abbrev no_block : ℕ → Option Bytes
no_block n = none

receive-Safe_example : Safe no_protocol 1 16 small_buffer (
    receive no_protocol 1 16 single single 1048576 no_block 32 null
      (inet 0 [])
      small_buffer
      no_sessions)
receive-Safe_example =
    receive-Safe no_protocol 1 16 single single-GivesBounded 1048576 no_block (λ n. tt) single 32
      null (inet 0 []) small_buffer no_sessions single-GivesBounded small_buffer-IsAtStart

-- ===== src/Session/Tests.antt =====
-- Runs of sf_session.c, and its theorems at concrete sessions.
use lmq.Prelude.{
  ℕ, suc, ◌≡◌, ◌≤◌, refl, true, none, some, List, [], ◌∷◌, arith, length, ltb, if◌then◌else◌,
}
use lmq.Prelude.Int.{ℤ, pos}
use lmq.Pbuf.{Pbuf, Bytes}
use lmq.Pbuf.Inv.{IsValid}
use lmq.Dlist.{Ptr, null}
use lmq.Dlist.Seg.{nil}
use lmq.Proto.{ProtoCb, proto_msglen}
use lmq.Session.{Sessions, Info, create, lookup}
use lmq.Session.Address.{SockAddr, inet, euler_prime}
use lmq.Session.Keys.{Holds, Finds, lookup-Finds}
use lmq.Session.Limit.{Creates, create-Creates}
use lmq.Session.Traffic.{session_input}
use lmq.Session.Input.{Ends, session_input-Ends}

abbrev empty : Sessions ℕ
empty = record {
  max_sessions = 1024;
  session_count = 0;
  size = 1033;
  table = record { head = λ i. null; links = λ p. record { next = null; prev = null } };
  info = λ p. record { sid = 0; peer = inet 0 []; sock = null };
  timers = record {
    head = null;
    tail = null;
    links = λ p. record { next = null; prev = null };
    time = λ p. record { sec = 0; usec = 0 };
    func = λ p. none;
  };
  state = 0;
}

euler_prime_run : euler_prime 1024 ≡ 1033
unfolding euler_prime
euler_prime_run = refl

abbrev peer : SockAddr
peer = inet 61613 (127 ∷ 0 ∷ 0 ∷ 1 ∷ [])

abbrev no_chains : ℕ → List Ptr
no_chains i = []

empty-Holds : Holds empty no_chains
empty-Holds = record { chain = λ i. nil; placed = λ i p m. absurd (cc) }

lookup-Finds_example : Finds empty no_chains peer 7 (lookup 1 empty peer 7)
lookup-Finds_example = lookup-Finds 1 empty no_chains peer 7 empty-Holds (omega arith)

abbrev info : Info
info = record { sid = 7; peer = peer; sock = 8 }

create-Creates_example : Creates empty no_chains info 64 (create empty 64 peer 8 7)
create-Creates_example = create-Creates empty no_chains 64 info empty-Holds λ i. refl

-- A protocol whose messages are single bytes.
abbrev byte_length : Ptr → Bytes → ℕ → ℤ
byte_length s bytes w = pos (if ltb 0 (length bytes) then 1 else 0)

abbrev byte_protocol : ProtoCb ℕ
byte_protocol = record {
  session_id = none;
  session_start = none;
  session_end = none;
  msg_estlen = none;
  msg_length = some byte_length;
  msg_input = some λ s bytes n w. (suc w, true);
  msg_output = none;
  timeout = none;
}

byte_bounded :
    (bytes : Bytes) (w n : ℕ)
    → proto_msglen (some byte_protocol) 8 bytes w ≡ pos n
    → n ≤ length bytes
unfolding proto_msglen
byte_bounded [] w n e = absurd (cc)
byte_bounded (c ∷ cs) w n e = ground arith

abbrev buffer : Pbuf
buffer = record { len = 4; buf = 1 ∷ 2 ∷ 3 ∷ 4 ∷ []; head = 1; tail = 4; owned = true }

buffer-IsValid : IsValid buffer
buffer-IsValid = record { block = refl; ordered = omega arith; within = omega arith }

session_input-Ends_example :
    Ends (some byte_protocol) 8 buffer 0 (session_input (some byte_protocol) 8 4 buffer 0)
session_input-Ends_example =
    session_input-Ends (some byte_protocol) 8 4 buffer 0 byte_bounded buffer-IsValid (omega arith)

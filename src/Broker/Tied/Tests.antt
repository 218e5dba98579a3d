-- ===== src/Broker/Tied/Tests.antt =====
-- A session of stomp/stomp_proto.c that connects and subscribes, from the start of the broker on.
use lmq.Prelude.{ℕ, suc, ◌≡◌, refl, true, Option, none, some, [], ◌∷◌, arith, replicate, length}
use lmq.Pbuf.{Bytes}
use lmq.Dlist.{Ptr, null}
use lmq.Binding.{Binding, topic}
use lmq.Binding.Growing.{times-null}
use lmq.Binding.Members.{count, times}
use lmq.Stomp.Text.{codes}
use lmq.Broker.{Broker, Outcome, done, crash, stuck}
use lmq.Broker.Subscribing.{Fresh}
use lmq.Broker.Handlers.{session_start, session_end, msg_input}
use lmq.Stomp.Parse.{connected}
use lmq.Broker.{SessionData}
use lmq.Broker.Tied.Ending.{Ends, session_end-Ends}
use lmq.Broker.Tied.{Tied}
use lmq.Broker.Tied.Making.{IsFresh}
use lmq.Broker.Tied.Reach.{Reach, IsEmpty, empty, next, start, input, Reach-Tied}

abbrev no_binding : Binding
no_binding = record {
  kind = topic;
  name = [];
  members_max = 8;
  members_count = 0;
  members = replicate 8 null;
}

abbrev pub at_first : Broker ℕ
at_first = record {
  sessions = λ sf. none;
  queues =
      λ p. record { pbufs = []; pbuf_r = 0; pbuf_w = 0; queue_total_size = 0; callback = none };
  bindings = λ p. no_binding;
  table = record { head = λ i. null; links = λ p. record { next = null; prev = null } };
  session_id = 0;
  message_id = 0;
  env = 0;
}

abbrev pub send_all : Ptr → Bytes → ℕ → ℕ × Option ℕ
send_all sf bytes n = (suc n, some (length bytes))

abbrev pub memory : ℕ → ℕ → Option Bytes
memory n i = some (replicate 32 0)

pub at_first-IsEmpty : IsEmpty send_all memory 4 at_first
unfolding count times
at_first-IsEmpty = record {
  sessions = λ sf. refl;
  valid = λ b. record { places = refl; counted = refl; turn = tt };
  members = λ b q ne. times-null q 8 ne;
}

abbrev pub fresh : Fresh
fresh = record {
  queue = 32;
  block = some (replicate 64 0);
  binding = 16;
  junk = λ n. some (replicate n 0);
}

abbrev pub state_of : Outcome (Broker ℕ) → Broker ℕ
state_of (done w r) = w
state_of crash = at_first
state_of stuck = at_first

abbrev pub one_session : Broker ℕ
one_session = (session_start true at_first 8).0

pub one_session-IsFresh : IsFresh fresh one_session
unfolding session_start
one_session-IsFresh = record {
  queue = λ s x there ne. ground (arith, there);
  binding = λ s x there ne. ground (arith, there);
  room = λ b. omega arith;
}

abbrev pub greeting : Bytes
greeting = codes "CONNECT\n\n"

abbrev pub greeted : Broker ℕ
greeted = state_of (msg_input send_all memory 4 fresh one_session 8 greeting 9)

pub greeted_lem : msg_input send_all memory 4 fresh one_session 8 greeting 9 ≡ done greeted true
unfolding msg_input session_start
greeted_lem = refl

greeted-IsFresh : IsFresh fresh greeted
unfolding msg_input session_start
greeted-IsFresh = record {
  queue = λ s x there ne. ground (arith, there);
  binding = λ s x there ne. ground (arith, there);
  room = λ b. omega arith;
}

abbrev pub request : Bytes
request = codes "SUBSCRIBE\ndestination:/topic/a\n\n"

abbrev subscribed : Broker ℕ
subscribed = state_of (msg_input send_all memory 4 fresh greeted 8 request 33)

subscribed_lem : msg_input send_all memory 4 fresh greeted 8 request 33 ≡ done subscribed true
unfolding msg_input session_start
subscribed_lem = refl

subscribed_member : (subscribed.bindings 16).members ≡ 32 ∷ replicate 7 0
unfolding msg_input session_start
subscribed_member = refl

subscribed-Reach : Reach send_all memory 4 subscribed
subscribed-Reach =
    next
      (next (next (empty at_first at_first-IsEmpty) (start true 8))
        (input fresh 8 greeting 9 true one_session-IsFresh greeted_lem))
      (input fresh 8 request 33 true greeted-IsFresh subscribed_lem)

Reach-Tied_example : Tied subscribed
Reach-Tied_example = Reach-Tied send_all memory 4 subscribed-Reach

abbrev data_of : SessionData
data_of = record {
  state = connected;
  bind = 16;
  msgq = 32;
  sbuf = record { slot = 0; offset = 0 };
  slen = 0;
}

has_data : subscribed.sessions 8 ≡ some data_of
unfolding msg_input session_start
has_data = refl

session_end-Ends_example : Ends subscribed 8 data_of (session_end subscribed 8)
session_end-Ends_example =
    session_end-Ends send_all memory 4 subscribed 8 data_of subscribed-Reach has_data

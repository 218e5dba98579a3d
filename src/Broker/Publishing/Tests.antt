-- ===== src/Broker/Publishing/Tests.antt =====
-- A SEND of stomp/stomp_proto.c to a topic with two subscribers.
use lmq.Prelude.{
  ℕ, ◌≡◌, ◌≢◌, refl, true, none, some, [], ◌∷◌, arith, replicate, length-replicate, suc, min,
  length, Option,
}
use lmq.Pbuf.{Bytes, ok}
use lmq.Dlist.{Ptr, null}
use lmq.MsgQueue.{MsgQueue, create}
use lmq.MsgQueue.Rep.{Holds, create-Holds}
use lmq.Binding.{Binding, topic, queue}
use lmq.Binding.Delivery.{turn, members_of}
use lmq.BindingHash
use lmq.Stomp.Text.{codes}
use lmq.Stomp.Parse.{Msg, connected}
use lmq.Stomp.Header.{skip_command, read_header}
use lmq.Broker.{Broker, SessionData, names}
use lmq.Broker.Resume.{TakesBounded}
use lmq.Broker.Handlers.{destination, make_message, connected_send}
use lmq.Broker.Topic.{Subscriber, Ready, Ready-Spared}
use lmq.Broker.Dispatching.{Dispatched, connected_send-Dispatched}
use lmq.Broker.Publishing.{passed_on, Published, connected_send-Published}

abbrev roomy : ℕ → MsgQueue
roomy callback = record {
  pbufs =
      record { len = 128; buf = replicate 128 0; head = 0; tail = 0; owned = true }
      ∷ record { len = 0; buf = []; head = 0; tail = 0; owned = true }
      ∷ record { len = 0; buf = []; head = 0; tail = 0; owned = true }
      ∷ record { len = 0; buf = []; head = 0; tail = 0; owned = true }
      ∷ [];
  pbuf_r = 0;
  pbuf_w = 0;
  queue_total_size = 512;
  callback = some callback;
}

roomy-Holds : (callback : ℕ) → Holds (roomy callback) []
unfolding create
roomy-Holds callback =
    create-Holds (some (replicate 128 0)) 512 (some callback) (omega arith) (omega arith)
      (length-replicate {A = ℕ} 128 0)

abbrev data_of : Ptr → SessionData
data_of mq = record {
  state = connected;
  bind = 16;
  msgq = mq;
  sbuf = record { slot = 0; offset = 0 };
  slen = 0;
}

abbrev news : Binding
news = record {
  kind = topic;
  name = codes "/topic/a";
  members_max = 8;
  members_count = 2;
  members = 32 ∷ null ∷ 48 ∷ replicate 5 null;
}

-- The session `n` has the queue at `n`.
abbrev broker : Broker ℕ
broker = record {
  sessions = λ n. some (data_of n);
  queues = λ n. roomy n;
  bindings = λ n. news;
  table = record { head = λ i. 16; links = λ n. record { next = null; prev = null } };
  session_id = 0;
  message_id = 0;
  env = 0;
}

abbrev subscriber : Ptr → Subscriber
subscriber n = record { sf = n; queue = n; held = [] }

abbrev send_some : Ptr → Bytes → ℕ → ℕ × Option ℕ
send_some sf bytes n = (suc n, some (min 3 (length bytes)))

send_some-bounded : TakesBounded send_some
send_some-bounded sf b env n e = ground arith

abbrev no_memory : ℕ → ℕ → Option Bytes
no_memory n i = none

abbrev send_msg : Msg
send_msg = record {
  cmd = none;
  buf = codes "SEND\ndestination:/topic/a\n\nhi";
  hdr = codes "destination:/topic/a\n\nhi" ∷ [];
  body = some (codes "hi");
  len = 29;
}

abbrev behind_command : Bytes
behind_command = codes "destination:/topic/a\n\nhi"

send_destination : destination send_msg ≡ ok (codes "/topic/a")
unfolding read_header
send_destination = refl

send_behind : skip_command send_msg.buf ≡ some behind_command
unfolding skip_command
send_behind = refl

found_news : BindingHash.lookup (names broker) 2 broker.table (codes "/topic/a") ≡ some 16
unfolding BindingHash.lookup
found_news = refl

news_members : members_of news.members ≡ 32 ∷ 48 ∷ []
unfolding members_of
news_members = refl

ready :
    (n : Ptr)
    → n ≢ null
    → Ready send_some no_memory send_some-bounded
        (passed_on send_some no_memory send_some-bounded broker send_msg behind_command)
        broker
        (subscriber n)
unfolding make_message
ready n ne = record {
  ss = data_of n;
  session = refl;
  own = refl;
  some_queue = ne;
  quiet = refl;
  callback = refl;
  holds = roomy-Holds n;
  full = tt;
  room = omega arith;
}

connected_send-Published_example :
    Published send_some no_memory send_some-bounded
      (passed_on send_some no_memory send_some-bounded broker send_msg behind_command)
      broker
      (subscriber 32 ∷ subscriber 48 ∷ [])
      (connected_send send_some no_memory 2 broker send_msg)
connected_send-Published_example =
    connected_send-Published send_some no_memory send_some-bounded 2 broker send_msg
      (codes "/topic/a") behind_command 16 (subscriber 32 ∷ subscriber 48 ∷ []) send_destination
      send_behind found_news (omega arith) refl news_members
      ((((omega arith), (omega arith)), tt), (tt, tt))
      (ready 32 (omega arith), (ready 48 (omega arith), tt))

-- The same with a queue, whose first member is next.
abbrev work : Binding
work = record news { kind = queue 0 }

abbrev workers : Broker ℕ
workers = record broker { bindings = λ n. work }

connected_send-Dispatched_example :
    Dispatched send_some no_memory send_some-bounded
      (passed_on send_some no_memory send_some-bounded workers send_msg behind_command)
      workers
      (subscriber 32)
      16
      0
      0
      (connected_send send_some no_memory 2 workers send_msg)
connected_send-Dispatched_example =
    connected_send-Dispatched send_some no_memory send_some-bounded 2 workers send_msg
      (codes "/topic/a") behind_command 16 (subscriber 32) 0 0 send_destination send_behind
      found_news (omega arith) refl (omega arith) (λ e lt. absurd (omega arith))
      (unfold turn in refl)
      (Ready-Spared send_some no_memory send_some-bounded
        (passed_on send_some no_memory send_some-bounded workers send_msg behind_command) broker
        workers (subscriber 32) (refl, refl) (ready 32 (omega arith)))

-- ===== src/Broker/Tests.antt =====
-- Runs of the broker's handlers, and its theorems at concrete states.
use lmq.Prelude.{
  Bool, true, List, inl, min, ℕ, suc, ◌≡◌, refl, Option, none, some, [], ◌∷◌, arith, length,
  replicate,
}
use lmq.Pbuf.{Bytes}
use lmq.Dlist.{Ptr, null}
use lmq.MsgQueue.Tests.{one, one-Holds, one_callback, one_room}
use lmq.Binding.{Binding, topic}
use lmq.Stomp.Text.{codes}
use lmq.Stomp.Parse.{disconnect, initial, connected, Command, command, commands, Msg, parse}
use lmq.Broker.{done, Broker, SessionData, crash, send_resume}
use lmq.Broker.Subscribing.{Fresh}
use lmq.Broker.Handlers.{msg_input, make_message}
use lmq.Broker.Subscribing.{deliver}
use lmq.Broker.Delivering.{deliver-Resumes}
use lmq.Broker.Leaving.{msg_input-disconnect}
use lmq.Broker.Frame.{Framed}
use lmq.Broker.Draining.{Takes, Works, TakesSome, idle, outputs, outputs-Works}
use lmq.Broker.Resume.{TakesBounded, Resumes, send_resume-Resumes}

abbrev data_of : SessionData
data_of = record {
  state = connected;
  bind = 16;
  msgq = 32;
  sbuf = record { slot = 0; offset = 0 };
  slen = 0;
}

abbrev subscribed : Binding
subscribed = record {
  kind = topic;
  name = codes "/topic/a";
  members_max = 8;
  members_count = 1;
  members = 32 ∷ replicate 7 0;
}

-- One session, whose queue holds one message and is the only member of a topic.
abbrev broker : Broker ℕ
broker = record {
  sessions = λ sf. some data_of;
  queues = λ p. one;
  bindings = λ p. subscribed;
  table = record { head = λ i. null; links = λ p. record { next = null; prev = null } };
  session_id = 0;
  message_id = 0;
  env = 0;
}

-- A socket that takes everything and counts its calls.
abbrev send_all : Ptr → Bytes → ℕ → ℕ × Option ℕ
send_all sf bytes n = (suc n, some (length bytes))

abbrev no_memory : ℕ → ℕ → Option Bytes
no_memory n i = none

abbrev nothing_fresh : Fresh
nothing_fresh = record { queue = null; block = none; binding = null; junk = λ n. none }

abbrev bye : Bytes
bye = codes "DISCONNECT\n\n"

abbrev bye_command : Command
bye_command = command disconnect (codes "DISCONNECT") initial

abbrev bye_msg : Msg
bye_msg = record { cmd = some bye_command; buf = bye; hdr = []; body = none; len = 12 }

bye_parsed : parse bye 12 (some (commands connected)) ≡ some (some bye_msg)
unfolding parse
bye_parsed = refl

msg_input-disconnect_example : msg_input send_all no_memory 1 nothing_fresh broker 8 bye 12 ≡ crash
msg_input-disconnect_example =
    msg_input-disconnect send_all no_memory 1 nothing_fresh broker 8 bye 12 data_of bye_msg refl
      refl bye_parsed bye_command refl refl

-- A socket that takes three bytes at most.
abbrev send_three : Ptr → Bytes → ℕ → ℕ × Option ℕ
send_three sf bytes n = (suc n, some (min 3 (length bytes)))

send_three-bounded : TakesBounded send_three
send_three-bounded sf b env n e = ground arith

send_resume-Resumes_example :
    Resumes send_three 32 8 0 (codes "hello") 0 [] (send_resume send_three broker 8)
    × Framed send_three 32 8 broker (send_resume send_three broker 8)
send_resume-Resumes_example =
    send_resume-Resumes send_three send_three-bounded broker 8 data_of (codes "hello") 0 [] refl
      (omega arith) (inl (refl, refl)) one-Holds (omega arith)

abbrev memory : ℕ → ℕ → Option Bytes
memory n i = some (replicate 32 0)

abbrev hello : List Bytes
hello = codes "he" ∷ codes "llo" ∷ []

deliver-Resumes_example :
    (w' : Broker ℕ) × (r : Bool) × (deliver send_three memory hello 32 (some broker)
      ≡ (some w', true))
    × Resumes send_three 32 7 0 (codes "hello") 0 (codes "hello" ∷ []) (done w' r)
deliver-Resumes_example =
    deliver-Resumes send_three memory send_three-bounded hello 7 broker data_of (codes "hello" ∷ [])
      (codes "hello") (codes "hello" ∷ []) refl (omega arith) refl one_callback one-Holds one_room
      refl (omega arith)

-- The same broker before its session has connected.
abbrev unconnected : Broker ℕ
unconnected = record broker { sessions = λ sf. some (record data_of { state = initial }) }

make_message_run : make_message 120 ≡ codes "MESSAGE\nmessage-id:120\n"
unfolding make_message
make_message_run = refl

send_three-TakesSome : TakesSome send_three
send_three-TakesSome sf b env lt = (min 3 (length b), refl, ground arith)

waiting : Works send_three broker 8 32 (codes "hello" ∷ []) 0
waiting = record {
  ss = data_of;
  session = refl;
  own = refl;
  some_queue = omega arith;
  holds = one-Holds;
  full = (omega arith, tt);
  progress = idle refl;
}

outputs-Works_example :
    (w' : Broker ℕ) × (outputs send_three 5 broker 8 ≡ done w' true)
    × Works send_three w' 8 32 [] 0
    × Takes send_three 8 0 (codes "hello") w'.env
outputs-Works_example =
    outputs-Works send_three send_three-bounded send_three-TakesSome 5 broker 8 32
      (codes "hello" ∷ []) 0 waiting (omega arith)

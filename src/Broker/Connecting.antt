-- ===== src/Broker/Connecting.antt =====
-- What a session of stomp/stomp_proto.c may do before it has connected.
use lmq.Prelude.{[], ◌∷◌, ◌++◌, true, ℕ, ◌≡◌, false, Option, none, some}
use lmq.Pbuf.{Bytes}
use lmq.Dlist.{Ptr}
use lmq.Stomp.Text.{codes}
use lmq.Stomp.Parse.{connect, initial, connected, Command, command, commands, parse_command}
use lmq.Broker.{Broker, SessionData, Outcome, with_session, done}
use lmq.Broker.Handlers.{make_connected, count_up}

abbrev connect_command : Command
connect_command = command connect (codes "CONNECT") connected

module _ {ℓ} {N : Type ℓ} (send : Ptr → Bytes → N → N × Option ℕ)
    (malloc : N → ℕ → Option Bytes) where
  -- What the socket answers to the message CONNECTED for the session, with its NUL
  abbrev answer : Broker N → Ptr → N × Option ℕ
  answer w sf = send sf (make_connected (count_up w.session_id) ++ 0 ∷ []) w.env

  abbrev greeted : Broker N → Ptr → Broker N
  greeted w sf = record w { session_id = count_up w.session_id; env = (answer w sf).0 }

  pub data Greets (w : Broker N) (sf : Ptr) (ss : SessionData) (buf : Bytes) (len : ℕ)
      : Outcome (Broker N) → Type ℓ where
    refused :
        parse_command buf len (commands initial) ≡ none → Greets w sf ss buf len (done w false)
    unanswered :
        parse_command buf len (commands initial) ≡ some connect_command
        → (answer w sf).1 ≡ none
        → Greets w sf ss buf len (done (greeted w sf) false)
    connects :
        parse_command buf len (commands initial) ≡ some connect_command
        → (n : ℕ) → (answer w sf).1 ≡ some n
        → Greets w sf ss buf len
            (done (with_session (greeted w sf) sf (some (record ss { state = connected }))) true)

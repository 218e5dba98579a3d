-- ===== src/Broker/Handlers.antt =====
-- The handlers of stomp/stomp_proto.c: what each command does with a message of a session.
use lmq.Prelude.{
  ℕ, zero, suc, ◌+◌, ◌-◌, ◌/◌, ◌%◌, ◌^◌, Bool, true, false, Option, none, some, [], ◌∷◌, ◌++◌, ltb,
  if◌then◌else◌, length, take,
}
use lmq.Pbuf.{Bytes, Ret, ok, failed, fault}
use lmq.Dlist.{Ptr}
use lmq.Stomp.Text.{codes}
use lmq.Stomp.Parse.{Code, connect, disconnect, State, Command, commands, Msg, parse}
use lmq.Stomp.Header.{read_header, skip_command}
use lmq.Broker.{
  Broker, Outcome, done, crash, stuck, and_then, create_session, destroy_session, get_state,
  set_state, send_resume,
}
use lmq.Broker.Subscribing.{Fresh, subscribe, unsubscribe, enqueue}

-- `%u`: the decimal digits of a number below 10 ^ fuel
unfoldable pub decimal : ℕ → ℕ → Bytes
decimal zero n = []
decimal (suc fuel) n =
    let rest = decimal fuel (n / 10) in (if ltb n 10 then [] else rest) ++ (48 + n % 10) ∷ []

abbrev pub digits_max : ℕ
digits_max = 10

-- `stomp_make_connected`, without the NUL; the text is shorter than the buffer of 256 bytes.
unfoldable pub make_connected : ℕ → Bytes
unfolding decimal
make_connected session_id =
    codes "CONNECTED\nsession-id:" ++ decimal digits_max session_id ++ codes "\n\n"

-- `stomp_make_message`, likewise
unfoldable pub make_message : ℕ → Bytes
unfolding decimal
make_message message_id =
    codes "MESSAGE\nmessage-id:" ++ decimal digits_max message_id ++ codes "\n"

abbrev pub dest_size : ℕ
dest_size = 256

-- `++SessionId` and `++MessageId`
abbrev pub count_up : ℕ → ℕ
count_up n = (n + 1) % 2 ^ 32

abbrev pub destination : Msg → Ret Bytes
unfolding read_header
destination msg = read_header dest_size msg.hdr (codes "destination:")

module _ {ℓ} {N : Type ℓ} where
  -- `stomp_session_start`
  unfoldable pub session_start : Bool → Broker N → Ptr → Broker N × Bool
  unfolding create_session
  session_start allocated w sf = create_session allocated w sf

  -- `stomp_session_end` and `stomp_connected_disconnect`
  unfoldable pub session_end : Broker N → Ptr → Outcome (Broker N)
  unfolding destroy_session
  session_end w sf = destroy_session w sf

  unfoldable pub connected_disconnect : Broker N → Ptr → Outcome (Broker N)
  unfolding destroy_session
  connected_disconnect w sf = destroy_session w sf

  -- The rest of a handler, with the destination. A header that overruns its buffer is a crash.
  abbrev pub with_dest : Broker N → Ret Bytes → (Bytes → Outcome (Broker N)) → Outcome (Broker N)
  with_dest w (ok dest) f = f dest
  with_dest w failed f = done w false
  with_dest w fault f = crash

  -- `stomp_connected_subscribe`
  unfoldable pub connected_subscribe : ℕ → Fresh → Broker N → Ptr → Msg → Outcome (Broker N)
  unfolding subscribe destination
  connected_subscribe fuel fr w sf msg =
      with_dest w (destination msg) λ dest. subscribe fuel fr w sf dest

  -- `stomp_connected_unsubscribe`
  unfoldable pub connected_unsubscribe : ℕ → Broker N → Ptr → Msg → Outcome (Broker N)
  unfolding unsubscribe destination
  connected_unsubscribe fuel w sf msg =
      with_dest w (destination msg) λ dest. unsubscribe fuel w sf dest

  -- The end of `stomp_msg_input`: a handler that succeeds, and then the next state.
  unfoldable pub handled : Ptr → State → Broker N → Bool → Outcome (Broker N)
  unfolding set_state
  handled sf next w false = done w false
  handled sf next w true = set_state w sf next

  -- `stomp_msg_output`
  unfoldable pub msg_output : (Ptr → Bytes → N → N × Option ℕ) → Broker N → Ptr → Outcome (Broker N)
  unfolding send_resume
  msg_output send w sf = send_resume send w sf

  module _ (send : Ptr → Bytes → N → N × Option ℕ) (malloc : N → ℕ → Option Bytes) where
    abbrev pub answered : Broker N → Option ℕ → Outcome (Broker N)
    answered w none = done w false
    answered w (some n) = done w true

    -- `stomp_initial_connect`: the answer with its NUL
    unfoldable pub initial_connect : Broker N → Ptr → Outcome (Broker N)
    unfolding make_connected
    initial_connect w sf =
        let id = count_up w.session_id in
        let r = send sf (make_connected id ++ 0 ∷ []) w.env in
        answered (record w { session_id = id; env = r.0 }) r.1

    -- The part of a message that is passed on, from behind the line of the command.
    abbrev pub body_of : Msg → Bytes → Bytes
    body_of msg body = take (msg.len - (length msg.buf - length body)) body

    unfoldable pub send_body : ℕ → Broker N → Msg → Bytes → Option Bytes → Outcome (Broker N)
    unfolding make_message enqueue
    send_body fuel w msg dest none = done w false
    send_body fuel w msg dest (some body) =
        let id = count_up w.message_id in
        enqueue send malloc fuel (record w { message_id = id }) dest
          (make_message id ∷ body_of msg body ∷ [])

    -- `stomp_connected_send`
    unfoldable pub connected_send : ℕ → Broker N → Msg → Outcome (Broker N)
    unfolding send_body skip_command destination
    connected_send fuel w msg =
        with_dest w (destination msg) λ dest. send_body fuel w msg dest (skip_command msg.buf)

    -- `sm_cmd->sc_func`
    unfoldable pub handle : ℕ → Fresh → Broker N → Ptr → Msg → Code → Outcome (Broker N)
    unfolding initial_connect connected_disconnect connected_send connected_subscribe
        connected_unsubscribe
    handle fuel fr w sf msg connect = initial_connect w sf
    handle fuel fr w sf msg disconnect = connected_disconnect w sf
    handle fuel fr w sf msg Code.send = connected_send fuel w msg
    handle fuel fr w sf msg Code.subscribe = connected_subscribe fuel fr w sf msg
    handle fuel fr w sf msg Code.unsubscribe = connected_unsubscribe fuel w sf msg

    unfoldable pub run_command :
        ℕ → Fresh → Broker N → Ptr → Msg → Option Command → Outcome (Broker N)
    unfolding handle handled
    run_command fuel fr w sf msg none = crash
    run_command fuel fr w sf msg (some c) =
        and_then (handle fuel fr w sf msg c.code) (handled sf c.next_state)

    unfoldable pub parsed : ℕ → Fresh → Broker N → Ptr → Option (Option Msg) → Outcome (Broker N)
    unfolding run_command
    parsed fuel fr w sf none = stuck
    parsed fuel fr w sf (some none) = done w false
    parsed fuel fr w sf (some (some msg)) = run_command fuel fr w sf msg msg.cmd

    unfoldable pub input_from :
        ℕ → Fresh → Broker N → Ptr → Bytes → ℕ → Option State → Outcome (Broker N)
    unfolding parsed parse
    input_from fuel fr w sf buf len none = done w false
    input_from fuel fr w sf buf len (some state) =
        parsed fuel fr w sf (parse buf len (some (commands state)))

    -- `stomp_msg_input`; `udata` is the session's.
    unfoldable pub msg_input : ℕ → Fresh → Broker N → Ptr → Bytes → ℕ → Outcome (Broker N)
    unfolding input_from get_state
    msg_input fuel fr w sf buf len = input_from fuel fr w sf buf len (get_state w sf)

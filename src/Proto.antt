-- ===== src/Proto.antt =====
-- The calls of a protocol's functions in libsf/sf_proto.c and libsf/sf_proto.h. `pcb` is NULL or has
-- NULLs for functions that a protocol does not have; the functions themselves are parameters, on a
-- state `W`. A result below zero is `none` or a false flag.
use lmq.Prelude.{ℕ, Bool, true, false, Option, none, some, [], ◌∷◌, length}
use lmq.Prelude.Int.{ℤ, pos, negsuc}
use lmq.Pbuf.{Bytes}
use lmq.Dlist.{Ptr}

-- `sf_protocb_t`
pub record ProtoCb {ℓ} (W : Type ℓ) : Type ℓ where
  pub session_id : Option (Bytes → Option ℕ)
  pub session_start : Option (Ptr → W → W × Bool)
  pub session_end : Option (Ptr → W → W × Bool)
  pub msg_estlen : Option (Ptr → Bytes → W → ℤ)
  pub msg_length : Option (Ptr → Bytes → W → ℤ)
  pub msg_input : Option (Ptr → Bytes → ℕ → W → W × Bool)
  pub msg_output : Option (Ptr → W → W × Bool)
  pub timeout : Option (Ptr → W → W × Bool)

-- `return -1`
abbrev pub failure : ℤ
failure = negsuc 0

abbrev pub sid_of : Option (Bytes → Option ℕ) → Bytes → Option ℕ
sid_of none bytes = none
sid_of (some f) [] = none
sid_of (some f) (c ∷ cs) = f (c ∷ cs)

module _ {ℓ} {W : Type ℓ} where
  -- A function without arguments from the buffer: `absent` is what the code returns without it.
  abbrev pub call : Option (Ptr → W → W × Bool) → Ptr → W → W × Bool
  call none session w = (w, true)
  call (some f) session w = f session w

  -- `sf_proto_sid`, of the data in the buffer of the socket
  unfoldable pub proto_sid : Option (ProtoCb W) → Bytes → Option ℕ
  proto_sid none bytes = none
  proto_sid (some pcb) bytes = sid_of pcb.session_id bytes

  -- `sf_proto_start`
  unfoldable pub proto_start : Option (ProtoCb W) → Ptr → W → W × Bool
  proto_start none session w = (w, true)
  proto_start (some pcb) session w = call pcb.session_start session w

  -- `sf_proto_end`
  unfoldable pub proto_end : Option (ProtoCb W) → Ptr → W → W × Bool
  proto_end none session w = (w, true)
  proto_end (some pcb) session w = call pcb.session_end session w

  -- `sf_proto_output`
  unfoldable pub proto_output : Option (ProtoCb W) → Ptr → W → W × Bool
  proto_output none session w = (w, true)
  proto_output (some pcb) session w = call pcb.msg_output session w

  -- `sf_proto_timeout`
  unfoldable pub proto_timeout : Option (ProtoCb W) → Ptr → W → W × Bool
  proto_timeout none session w = (w, true)
  proto_timeout (some pcb) session w = call pcb.timeout session w

  abbrev pub measure : Option (Ptr → Bytes → W → ℤ) → ℤ → Ptr → Bytes → W → ℤ
  measure f absent session [] w = failure
  measure none absent session (c ∷ cs) w = absent
  measure (some f) absent session (c ∷ cs) w = f session (c ∷ cs) w

  -- `sf_proto_estlen`
  unfoldable pub proto_estlen : Option (ProtoCb W) → Ptr → Bytes → W → ℤ
  proto_estlen none session bytes w = failure
  proto_estlen (some pcb) session bytes w = measure pcb.msg_estlen failure session bytes w

  -- `sf_proto_msglen`: without the function, all the data is one message.
  unfoldable pub proto_msglen : Option (ProtoCb W) → Ptr → Bytes → W → ℤ
  proto_msglen none session bytes w = measure none (pos (length bytes)) session bytes w
  proto_msglen (some pcb) session bytes w =
      measure pcb.msg_length (pos (length bytes)) session bytes w

  abbrev pub input : Option (Ptr → Bytes → ℕ → W → W × Bool) → Ptr → Bytes → ℕ → W → W × Bool
  input none session bytes len w = (w, false)
  input (some f) session bytes len w = f session bytes len w

  -- `sf_proto_input`
  unfoldable pub proto_input : Option (ProtoCb W) → Ptr → Bytes → ℕ → W → W × Bool
  proto_input none session bytes len w = (w, false)
  proto_input (some pcb) session bytes len w = input pcb.msg_input session bytes len w

-- ===== src/Session/Input.antt =====
-- That the loop of `sf_session_input` in libsf/sf_session.c takes the messages off a stream of bytes.
use lmq.Prelude.{
  ℕ, zero, suc, ◌≤◌, ◌<◌, ◌≡◌, ◌≢◌, refl, ap, subst, ◌∙◌, true, false, Option, some, ◌==◌, leb,
  arith, length, drop, length-drop,
}
use lmq.Prelude.Int.{ℤ, pos, negsuc}
use lmq.Pbuf.{Pbuf, Bytes, contents, adjust, data_len}
use lmq.Pbuf.Inv.{IsValid, length-contents}
use lmq.Pbuf.Contents.{adjust_lem}
use lmq.Dlist.{Ptr}
use lmq.Proto.{ProtoCb, proto_msglen, proto_input}
use lmq.Session.Traffic.{while_positive, session_input}

module _ {ℓ} {W : Type ℓ} (pcb : Option (ProtoCb W)) (session : Ptr) where
  -- The protocol never finds a message that is longer than the data.
  abbrev pub Bounded : Type ℓ
  Bounded =
      (bytes : Bytes) (w : W) (n : ℕ) → proto_msglen pcb session bytes w ≡ pos n → n ≤ length bytes

  -- The messages at the front of a stream are input one by one, each with the data from it on, until
  -- the protocol finds none.
  pub data Reads : Bytes → W → Bytes → W → Type ℓ where
    stop :
        {bytes : Bytes} {w : W}
        → ((n : ℕ) → proto_msglen pcb session bytes w ≢ pos (suc n))
        → Reads bytes w bytes w
    message :
        {bytes rest : Bytes} {w w' : W} (n : ℕ)
        → proto_msglen pcb session bytes w ≡ pos (suc n)
        → Reads (drop (suc n) bytes) (proto_input pcb session bytes (suc n) w).0 rest w'
        → Reads bytes w rest w'

  pub record Ends (p : Pbuf) (w : W) (r : Option (Pbuf × W)) : Type ℓ where
    pub buffer : Pbuf
    pub state : W
    pub result : r ≡ some (buffer, state)
    pub valid : IsValid buffer
    pub reads : Reads (contents p) w (contents buffer) state

  stop-Ends :
      (p : Pbuf) (w : W)
      → IsValid p
      → ((n : ℕ) → proto_msglen pcb session (contents p) w ≢ pos (suc n))
      → Ends p w (some (p, w))
  stop-Ends p w v no_more = record {
    buffer = p;
    state = w;
    result = refl;
    valid = v;
    reads = stop no_more;
  }

  message-Ends :
      (p : Pbuf) (w : W) (n : ℕ) (r : Option (Pbuf × W))
      → proto_msglen pcb session (contents p) w ≡ pos (suc n)
      → contents (adjust p (suc n)) ≡ drop (suc n) (contents p)
      → Ends (adjust p (suc n)) (proto_input pcb session (contents p) (suc n) w).0 r
      → Ends p w r
  message-Ends p w n r e c ends = record {
    buffer = ends.buffer;
    state = ends.state;
    result = ends.result;
    valid = ends.valid;
    reads = message n e (
        subst
          (λ b.
            Reads b (proto_input pcb session (contents p) (suc n) w).0 (contents ends.buffer)
              ends.state)
          c ends.reads);
  }

  while_positive-Ends :
      (p : Pbuf) (w : W) (z : ℤ) (more : ℕ → Option (Pbuf × W))
      → IsValid p
      → proto_msglen pcb session (contents p) w ≡ z
      → ((n : ℕ) → proto_msglen pcb session (contents p) w ≡ pos (suc n) → Ends p w (more (suc n)))
      → Ends p w (while_positive z (some (p, w)) more)
  while_positive-Ends p w (negsuc k) more v e next = stop-Ends p w v λ n f. absurd (cc)
  while_positive-Ends p w (pos zero) more v e next = stop-Ends p w v λ n f. absurd (ground arith)
  while_positive-Ends p w (pos (suc n)) more v e next =
      let t : (suc n == 0) ≡ false = ground arith in rw t (next n e)

  -- If the protocol never finds a message longer than the data, then on a valid buffer with less
  -- data than there is fuel the loop ends, has read the messages of the stream of the data one by
  -- one, and leaves a valid buffer with the rest, in which the protocol finds no message.
  pub session_input-Ends :
      (fuel : ℕ) (p : Pbuf) (w : W)
      → Bounded
      → IsValid p
      → data_len p < fuel
      → Ends p w (session_input pcb session fuel p w)
  unfolding session_input
  session_input-Ends zero p w bounded v lt = absurd (omega arith)
  session_input-Ends (suc fuel) p w bounded v lt =
      while_positive-Ends p w (proto_msglen pcb session (contents p) w) _ v refl λ n e.
        let a = adjust_lem p (suc n) v in
        let within : suc n ≤ length (contents p) = bounded (contents p) w (suc n) e in
        let same = length-contents p v in
        let test : leb (suc n) (data_len p) ≡ true = ground (arith, within, same) in
        let dropped : contents (adjust p (suc n)) ≡ drop (suc n) (contents p) =
          a.bytes ∙ rw test refl in
        let less : data_len (adjust p (suc n)) < fuel = ground (
          arith,
          length-contents (adjust p (suc n)) a.valid,
          length-drop (suc n) (contents p),
          ap length dropped,
          same,
        ) in
        message-Ends p w n _ e dropped (
          session_input-Ends fuel (adjust p (suc n))
            (proto_input pcb session (contents p) (suc n) w).0 bounded a.valid less)

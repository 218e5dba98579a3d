-- ===== src/Socket/Safety.antt =====
-- That a receive of libsf/sf_socket.c stays in the buffer of its socket.
use lmq.Prelude.{
  Bool, true, false, ℕ, zero, suc, ◌<◌, ◌≡◌, refl, sym, ap, ◌∙◌, Option, none, some, ◌==◌, ltb,
  if-both, arith, length,
}
use lmq.Prelude.Int.{ℤ, pos, negsuc}
use lmq.Pbuf.{Pbuf, Bytes, Ret, ok, failed, fault, data_len, contents, adjust, retract_tail}
use lmq.Pbuf.Inv.{IsValid, length-contents}
use lmq.Pbuf.Contents.{adjust_lem}
use lmq.Pbuf.Resize.{Allocates, Resizes, resize_lem}
use lmq.Dlist.{Ptr, null}
use lmq.Proto.{ProtoCb, proto_msglen, proto_input}
use lmq.Session.{Sessions}
use lmq.Session.Address.{SockAddr}
use lmq.Session.Traffic.{while_positive, session_input, session_estlen}
use lmq.Socket.{
  Received, Outcome, refused, nothing, got, overrun, stuck, extend_rbuf, resized, extend_to,
  input_all, take_bytes, take_extended, with_found, after_peek, get_session, receive,
}
use lmq.Socket.Receiving.{GivesBounded, Receives, ended, received, Appended, do_receive-Receives}

-- A buffer whose data starts at the start of its block.
pub record IsAtStart (p : Pbuf) : Type 0 where
  pub valid : IsValid p
  pub at_start : p.head ≡ 0

-- What is left after the messages have been taken.
abbrev Left {ℓ} : {W : Type ℓ} → Option (Pbuf × W) → Type 0
Left none = Unit
Left (some (p, w)) = IsAtStart p

module _ {ℓ} {W : Type ℓ} (pcb : Option (ProtoCb W)) (session : Ptr) where
  while_positive-Left :
      (z : ℤ) (p : Pbuf) (w : W) (more : ℕ → Option (Pbuf × W))
      → IsAtStart p
      → ((n : ℕ) → Left (more n))
      → Left (while_positive z (some (p, w)) more)
  while_positive-Left (negsuc k) p w more v f = v
  while_positive-Left (pos n) p w more v f = if-both Left (n == 0) _ _ (λ t. v) λ t. f n

  session_input-Left :
      (fuel : ℕ) (p : Pbuf) (w : W) → IsAtStart p → Left (session_input pcb session fuel p w)
  unfolding session_input
  session_input-Left zero p w v = tt
  session_input-Left (suc fuel) p w v =
      while_positive-Left (proto_msglen pcb session (contents p) w) p w _ v λ n.
        let a = adjust_lem p n v.valid in
        session_input-Left fuel (adjust p n) (proto_input pcb session (contents p) n w).0
          (record { valid = a.valid; at_start = a.at_start })

-- The buffer when it has been made larger, or the estimate that overran the new block.
data Extends (p : Pbuf) (z : ℤ) (len : ℕ) : Ret Pbuf → Type 0 where
  too_long : Extends p z len failed
  extended : {q : Pbuf} → IsAtStart q → Extends p z len (ok q)
  too_small : (n : ℕ) → z ≡ pos n → len < n → n < data_len p → Extends p z len fault

resized-Extends :
    (p : Pbuf) (n len : ℕ) (block : Option Bytes) (r : Ret Pbuf)
    → IsAtStart p
    → len < n
    → Resizes block p n r
    → Extends p (pos n) len (resized p r)
resized-Extends p n len block (ok q) v lt r = extended (record { valid = r.0; at_start = r.2 })
resized-Extends p n len block failed v lt r = extended v
resized-Extends p n len block fault v lt r = too_small n refl lt r

extend_to-Extends :
    (max_msgsize : ℕ) (block : ℕ → Option Bytes) (p : Pbuf) (z : ℤ) (len : ℕ)
    → ((n : ℕ) → Allocates (block n) n)
    → IsAtStart p
    → Extends p z len (extend_to max_msgsize block p z len)
unfolding extend_to extend_rbuf
extend_to-Extends max_msgsize block p (negsuc k) len a v = extended v
extend_to-Extends max_msgsize block p (pos n) len a v =
    if-both (Extends p (pos n) len) (ltb len n) _ _
      (λ t.
        if-both (Extends p (pos n) len) (ltb max_msgsize n) _ _ (λ u. too_long)
          λ u.
            resized-Extends p n len (block n) _ v (ground arith)
              (resize_lem (block n) p n v.valid v.at_start (a n)))
      λ t. extended v

module _ {ℓ} {S : Type ℓ} (pcb : Ptr → Option (ProtoCb (Sessions S))) (fuel : ℕ) (sock : Ptr) where
  -- After a receive into `p`, whatever its end, the buffer is in order, or the protocol estimated a
  -- message that is longer than the bytes that came but shorter than the data that was there.
  pub data Safe (p : Pbuf) : Outcome (Sessions S) → Type ℓ where
    gave_up : {q : Pbuf} (known : Bool) (w : Sessions S) → IsAtStart q → Safe p (refused q known w)
    idle : (w : Sessions S) → Safe p (nothing w)
    kept : {q : Pbuf} (w : Sessions S) (len : ℕ) → IsAtStart q → Safe p (got q w len)
    overran :
        {q : Pbuf} (w : Sessions S) (s : Ptr) (b : Bytes) (n : ℕ)
        → Appended p b q
        → session_estlen pcb w s q ≡ pos n
        → length b < n
        → n < data_len p
        → Safe p overrun
    out_of_fuel : Safe p stuck

  input_all-Safe :
      (p : Pbuf) (w : Sessions S) (len : ℕ) (r : Option (Pbuf × Sessions S))
      → Left r
      → Safe p (input_all pcb fuel sock w len r)
  input_all-Safe p w len none v = out_of_fuel
  input_all-Safe p w len (some (q, w')) v = kept w' len v

  take_bytes-Safe :
      (p q : Pbuf) (s : Ptr) (w : Sessions S) (r : Received) (o : Ret (Pbuf × ℕ))
      → IsAtStart q
      → Receives q r o
      → Safe p (take_bytes pcb fuel sock s w q o)
  unfolding take_bytes
  take_bytes-Safe p q s w r fault v x = elim x [ ]
  take_bytes-Safe p q s w r failed v (ended e) = gave_up true w v
  take_bytes-Safe p q s w r (ok (q', len)) v (received b e a) =
      let start : IsAtStart q' = record { valid = a.valid; at_start = a.at_start } in
      if-both (Safe p) (length b == 0) _ _ (λ t. gave_up true w start)
        λ t.
          input_all-Safe p w (length b) (session_input (pcb sock) s fuel q' w)
            (session_input-Left (pcb sock) s fuel q' w start)

  module _ (recv : ℕ → Received) (bounded : GivesBounded recv) where
    take_extended-Safe :
        (p q : Pbuf) (b : Bytes) (s : Ptr) (w : Sessions S) (o : Ret Pbuf)
        → Appended p b q
        → IsAtStart (retract_tail q (length b))
        → data_len (retract_tail q (length b)) ≡ data_len p
        → Extends (retract_tail q (length b)) (session_estlen pcb w s q) (length b) o
        → Safe p (take_extended pcb fuel sock recv s w (retract_tail q (length b)) o)
    unfolding take_extended
    take_extended-Safe p q b s w failed a back same too_long = gave_up true w back
    take_extended-Safe p q b s w (ok q') a back same (extended v) =
        take_bytes-Safe p q' s w _ _ v (do_receive-Receives recv q' bounded v.valid v.at_start)
    take_extended-Safe p q b s w fault a back same (too_small n e lt less) =
        overran w s b n a e lt (omega (arith, same))

    module _ (max_msgsize : ℕ) (block : ℕ → Option Bytes)
        (allocates : (n : ℕ) → Allocates (block n) n) where
      with_found-Safe :
          (p q : Pbuf) (b : Bytes) (o : Option (Sessions S × Ptr))
          → IsAtStart p
          → Appended p b q
          → Safe p (with_found pcb fuel sock recv max_msgsize block q (length b) o)
      unfolding with_found retract_tail
      with_found-Safe p q b none v a = out_of_fuel
      with_found-Safe p q b (some (w, s)) v a =
          let back : IsAtStart (retract_tail q (length b)) = record {
            valid = a.taken_back.0;
            at_start = a.at_start;
          } in
          let same : data_len (retract_tail q (length b)) ≡ data_len p =
            sym (length-contents (retract_tail q (length b)) a.taken_back.0)
            ∙ ap length a.taken_back.1
            ∙ length-contents p v.valid in
          if-both (Safe p) (s == null) _ _
            (λ t. gave_up false w (record { valid = a.valid; at_start = a.at_start }))
            λ t. take_extended-Safe p q b s w _ a back same (
              extend_to-Extends max_msgsize block (retract_tail q (length b))
                (session_estlen pcb w s q) (length b) allocates back)

      after_peek-Safe :
          (p : Pbuf) (r : Received) (find : Bytes → Option (Sessions S × Ptr)) (w : Sessions S)
          (o : Ret (Pbuf × ℕ))
          → IsAtStart p
          → Receives p r o
          → Safe p (after_peek pcb fuel sock recv max_msgsize block find w p o)
      unfolding after_peek
      after_peek-Safe p r find w fault v x = elim x [ ]
      after_peek-Safe p r find w failed v (ended e) = gave_up false w v
      after_peek-Safe p r find w (ok (q, len)) v (received b e a) =
          if-both (Safe p) (length b == 0) _ _ (λ t. idle w)
            λ t. with_found-Safe p q b (find (contents q)) v a

      -- On a valid buffer whose data starts at the start of its block, a receive leaves such a buffer
      -- again, also where it fails; where it gets nothing, the buffer stays. It leaves the block only if
      -- the protocol estimates that the message is longer than the bytes that came but shorter than the
      -- data that was there before. The system gives no more bytes than it is asked for, and blocks of
      -- the size that it is asked for.
      pub receive-Safe :
          (peek : ℕ → Received) (so_session new : Ptr) (from : SockAddr) (p : Pbuf) (w : Sessions S)
          → GivesBounded peek
          → IsAtStart p
          → Safe p (receive pcb fuel sock peek recv max_msgsize block so_session new from p w)
      unfolding receive
      receive-Safe peek so_session new from p w peeks v =
          after_peek-Safe p _ (get_session pcb fuel sock so_session new from w) w _ v
            (do_receive-Receives peek p peeks v.valid v.at_start)

-- ===== src/Socket/Receiving.antt =====
-- What a call of `recvfrom` leaves in the buffer of a socket of libsf/sf_socket.c.
use lmq.Prelude.{
  ℕ, ◌+◌, ◌-◌, ◌≤◌, ◌≡◌, refl, sym, ap, ◌∙◌, false, Option, none, some, ◌++◌, ltb, arith, length,
  take, drop, take-take, take-append_exact,
}
use lmq.Pbuf.{
  Pbuf, Bytes, Ret, ok, failed, data_len, free_len, contents, store, retract_tail, write_at,
}
use lmq.Pbuf.Inv.{IsValid, length-contents}
use lmq.Pbuf.Contents.{store-Writes}
use lmq.Socket.{Received, do_receive2, received_into, do_receive}

-- `recvfrom` never gives more bytes than it is asked for.
abbrev pub GivesBounded : (ℕ → Received) → Type 0
GivesBounded recv = (n : ℕ) (b : Bytes) → do_receive2 (recv n) ≡ some b → length b ≤ n

-- The buffer with the bytes behind its data; taken back, they leave the data as it was.
pub record Appended (p : Pbuf) (b : Bytes) (q : Pbuf) : Type 0 where
  pub valid : IsValid q
  pub at_start : q.head ≡ 0
  pub appended : contents q ≡ contents p ++ b
  pub taken_back :
      IsValid (retract_tail q (length b)) × (contents (retract_tail q (length b)) ≡ contents p)

pub data Receives (p : Pbuf) (r : Received) : Ret (Pbuf × ℕ) → Type 0 where
  ended : do_receive2 r ≡ none → Receives p r failed
  received :
      {q : Pbuf} (b : Bytes)
      → do_receive2 r ≡ some b
      → Appended p b q
      → Receives p r (ok (q, length b))

contents-retract_tail :
    (p : Pbuf) (b : Bytes)
    → IsValid p
    → contents (store p b) ≡ contents p ++ b
    → contents (retract_tail (store p b) (length b)) ≡ contents p
unfolding retract_tail store contents
contents-retract_tail p b v e =
    let l = length-contents p v in
    ap (λ k. take k (drop p.head (write_at p.buf p.tail b))) (omega arith)
    ∙ sym (
        take-take (data_len p) (p.tail + length b - p.head) (drop p.head (write_at p.buf p.tail b))
          (omega (arith, v.ordered)))
    ∙ ap (λ xs. take (data_len p) xs) e
    ∙ take-append_exact (data_len p) (contents p) b (sym l)

retract_tail-IsValid :
    (p : Pbuf) (b : Bytes)
    → IsValid p
    → IsValid (store p b)
    → IsValid (retract_tail (store p b) (length b))
unfolding retract_tail store
retract_tail-IsValid p b v s = record {
  block = s.block;
  ordered = omega (arith, v.ordered);
  within = omega (arith, v.within);
}

received_into-Receives :
    (p : Pbuf) (r : Received) (o : Option Bytes)
    → do_receive2 r ≡ o
    → ((b : Bytes) → o ≡ some b → length b ≤ free_len p)
    → IsValid p
    → p.head ≡ 0
    → Receives p r (received_into p o)
unfolding received_into store retract_tail
received_into-Receives p r none e le v z = ended e
received_into-Receives p r (some b) e le v z =
    let fits : p.tail + length b ≤ p.len = omega (arith, le b refl, z, v.ordered, v.within) in
    let t : ltb (length p.buf) (p.tail + length b) ≡ false = ground (arith, v.block, fits) in
    let w = store-Writes p b v fits in
    rw t (
      received b e (record {
        valid = w.0;
        at_start = z;
        appended = w.1;
        taken_back = (retract_tail-IsValid p b v w.0, contents-retract_tail p b v w.1);
      }))

-- On a valid buffer whose data starts at the start of the block, a receive never leaves the block.
-- It fails if the peer has closed or on an error, and otherwise puts the bytes behind the data of
-- the buffer, which is valid still. If the tail then goes back by as many bytes, as it does after
-- `MSG_PEEK`, the data is what it was. `recvfrom` gives no more bytes than it is asked for.
pub do_receive-Receives :
    (recv : ℕ → Received) (p : Pbuf)
    → GivesBounded recv
    → IsValid p
    → p.head ≡ 0
    → Receives p (recv (free_len p)) (do_receive recv p)
unfolding do_receive
do_receive-Receives recv p bounded v z =
    received_into-Receives p (recv (free_len p)) (do_receive2 (recv (free_len p))) refl
      (bounded (free_len p)) v z

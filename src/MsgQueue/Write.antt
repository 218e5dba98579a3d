-- ===== src/MsgQueue/Write.antt =====
-- The writes of `msgqueue_push_msg` in msgqueue.c into a buffer with room.
use lmq.Prelude.{
  ℕ, ◌^◌, ◌≤◌, ◌<◌, ◌≡◌, refl, sym, ap, ◌∙◌, inl, inr, true, some, List, [], ◌∷◌, ◌++◌, append-nil,
  append_assoc, Option-cases, arith, length, length-append,
}
use lmq.Pbuf.{Pbuf, Bytes, contents, free_len, write}
use lmq.Pbuf.Inv.{IsValid}
use lmq.Pbuf.Contents.{Writes, write_lem}
use lmq.MsgQueue.{iov_bytes, total_len, write_all}
use lmq.MsgQueue.Frames.{encode-append, frame}
use lmq.MsgQueue.Rep.{Live}

-- The sum of an `int` is the true one where that is small.
pub total_len-iov_bytes :
    (iov : List Bytes) → length (iov_bytes iov) < 2 ^ 32 → total_len iov ≡ length (iov_bytes iov)
unfolding total_len
total_len-iov_bytes [] h = refl
total_len-iov_bytes (b ∷ bs) h =
    let sum = length-append b (iov_bytes bs) in
    omega (arith, sum, total_len-iov_bytes bs (omega (arith, sum)))

write_all_next :
    (p p' : Pbuf) (b : Bytes) (bs : List Bytes)
    → write p b ≡ some p'
    → write_all p (b ∷ bs) ≡ write_all p' bs
unfolding write_all
write_all_next p p' b bs e = ground arith

-- A buffer with room takes all of the bytes, behind its data.
pub record Filled (p : Pbuf) (bytes : Bytes) (p' : Pbuf) : Type 0 where
  pub valid : IsValid p'
  pub at_start : p'.head ≡ 0
  pub same_len : p'.len ≡ p.len
  pub data_is : contents p' ≡ contents p ++ bytes

pub write_all-Filled :
    (bs : List Bytes) (p : Pbuf)
    → IsValid p
    → p.head ≡ 0
    → length (iov_bytes bs) ≤ free_len p
    → (p' : Pbuf) × (write_all p bs ≡ (p', true)) × Filled p (iov_bytes bs) p'
unfolding write_all
write_all-Filled [] p v h room = (
  p,
  refl,
  record { valid = v; at_start = h; same_len = refl; data_is = sym (append-nil (contents p)) },
)
write_all-Filled (b ∷ bs) p v h room =
    let sum = length-append b (iov_bytes bs) in
    elim (Option-cases (write p b)) [
      | inl e ↦ absurd (omega (arith, sum, rw e at (write_lem p b v)))
      | inr (p', e) ↦
          let w : Writes p b (some p') = rw e at (write_lem p b v) in
          let (p'', same, f) =
            write_all-Filled bs p' w.0 (w.5 h) (omega (arith, sum, w.2, w.3, w.4)) in
          (
            p'',
            write_all_next p p' b bs e ∙ same,
            record {
              valid = f.valid;
              at_start = f.at_start;
              same_len = f.same_len ∙ w.3;
              data_is =
                  f.data_is
                  ∙ ap (λ c. c ++ iov_bytes bs) w.1
                  ∙ append_assoc (contents p) b (iov_bytes bs);
            },
          )
    ]

-- A message written behind its header is one more message of the buffer.
pub Filled-Live :
    (size : ℕ) (p p' : Pbuf) (ms : List Bytes) (m : Bytes)
    → Live size p ms
    → Filled p (frame m) p'
    → Live size p' (ms ++ m ∷ [])
Filled-Live size p p' ms m l f = record {
  valid = f.valid;
  at_start = f.at_start;
  same_len = f.same_len ∙ l.same_len;
  data_is = f.data_is ∙ ap (λ c. c ++ frame m) l.data_is ∙ sym (encode-append ms m);
}

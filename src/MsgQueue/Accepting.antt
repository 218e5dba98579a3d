-- ===== src/MsgQueue/Accepting.antt =====
-- When `msgqueue_push_msg` of msgqueue.c accepts a message.
use lmq.Prelude.{
  ℕ, ◌+◌, ◌≤◌, ◌≡◌, refl, ap, ◌∙◌, false, Option, none, some, List, [], ◌∷◌, ◌++◌, ltb, arith,
  length, length-append,
}
use lmq.Pbuf.{Bytes, free_len}
use lmq.MsgQueue.{
  MsgQueue, accepted, pbuf_size, header_size, header_bytes, iov_bytes, total_len, too_big,
  store_msg, push_from, push_msg,
}
use lmq.MsgQueue.Frames.{length-header_bytes}
use lmq.MsgQueue.Rep.{Rep, Holds}
use lmq.MsgQueue.Room.{pbuf_w_of, at_w, make_room_here}
use lmq.MsgQueue.Write.{total_len-iov_bytes, write_all-Filled}
use lmq.MsgQueue.Pushing.{Pushes, push_sized, push_msg-Pushes}

module _ (q : MsgQueue) (msgs : ℕ → List Bytes) (v : Rep q msgs) (iov : List Bytes)
    (room : header_size + length (iov_bytes iov) ≤ free_len (pbuf_w_of q)) where
  small : header_size + length (iov_bytes iov) ≤ pbuf_size q
  small = omega (arith, room, (at_w q msgs v).same_len)

  total : total_len iov ≡ length (iov_bytes iov)
  total = total_len-iov_bytes iov (omega (arith, small, v.int_size))

  not_too_big : too_big q (total_len iov) ≡ false
  unfolding too_big
  not_too_big = ground (arith, small, total, v.int_size)

  stored : (q' : MsgQueue) × (store_msg q (total_len iov) iov ≡ (q', accepted q.callback))
  unfolding store_msg
  stored =
      let n = total_len iov in
      let l = at_w q msgs v in
      let (p', e, f) = write_all-Filled (header_bytes n ∷ iov) (pbuf_w_of q) l.valid l.at_start (
        omega
          (arith, room, length-append (header_bytes n) (iov_bytes iov), length-header_bytes n)) in
      rw e (_, refl)

  push_stored :
      (malloc : ℕ → Option Bytes) → push_msg malloc q iov ≡ some (store_msg q (total_len iov) iov)
  unfolding push_from
  push_stored malloc =
      let fits : ltb (free_len (pbuf_w_of q)) (header_size + total_len iov) ≡ false =
        ground (arith, room, total) in
      push_sized malloc q iov not_too_big
      ∙ ap (push_from (total_len iov) iov)
          (make_room_here 4 malloc q (header_size + total_len iov) (at_w q msgs v).at_start fits)

-- A queue accepts a message that fits, with its header, into the free space of the buffer that it
-- writes to. It then holds the message behind the others, and the callback is the queue's.
pub push_msg-accepts :
    (malloc : ℕ → Option Bytes) (q : MsgQueue) (xs : List Bytes) (iov : List Bytes)
    → Holds q xs
    → header_size + length (iov_bytes iov) ≤ free_len (pbuf_w_of q)
    → (q' : MsgQueue) × (push_msg malloc q iov ≡ some (q', accepted q.callback))
      × Holds q' (xs ++ iov_bytes iov ∷ [])
push_msg-accepts malloc q xs iov h room =
    let (q', s) = stored q h.msgs h.rep iov room in
    let e = push_stored q h.msgs h.rep iov room (λ i. none) ∙ ap (λ r. some r) s in
    let within = small q h.msgs h.rep iov room in
    let w : Pushes xs (iov_bytes iov) q.callback (some (q', accepted q.callback)) =
      rw e at (
        push_msg-Pushes (λ i. none) q xs iov h (λ i. tt) (omega (arith, within, h.rep.int_size))) in
    (q', push_stored q h.msgs h.rep iov room malloc ∙ ap (λ r. some r) s, w.0)

-- ===== src/MsgQueue/Callback.antt =====
-- That the operations of mqcore/msgqueue.c keep the callback of a queue, and make no other.
use lmq.Prelude.{
  ℕ, zero, suc, ◌+◌, ◌≡◌, refl, inl, inr, Bool, true, false, Option, none, some, List, ◌∷◌, if-both,
  option-both, Option-cases, not, set, ◌%◌, ◌/◌, ◌==◌, ltb,
}
use lmq.Pbuf.{Pbuf, Bytes, Ret, ok, failed, fault, data_len, buffer_len, write_prepare, init}
use lmq.MsgQueue.{
  MsgQueue, create_from, create, Pushed, rejected, accepted, pbuf_at, pbufs_count, pbuf_size,
  header_size, header_bytes, redo_fuel, rnext, with_next, wnext, seek, at_front, peek,
  without_front, pop_msg, total_len, too_big, make_room, write_all, store_msg, push_from, push_msg,
}

-- A queue that an operation leaves has this callback.
abbrev pub Calls {ℓ} : {A : Type ℓ} → Option ℕ → Option (MsgQueue × A) → Type 0
Calls c none = Unit
Calls c (some (q, a)) = q.callback ≡ c

abbrev pub CallsNext : Option ℕ → Option MsgQueue → Type 0
CallsNext c none = Unit
CallsNext c (some q) = q.callback ≡ c

create_from-CallsNext :
    (a b : Ret Pbuf) (size : ℕ) (c : Option ℕ) → CallsNext c (create_from a b size c)
unfolding create_from
create_from-CallsNext (ok a) (ok b) size c = refl
create_from-CallsNext (ok a) failed size c = tt
create_from-CallsNext (ok a) fault size c = tt
create_from-CallsNext failed b size c = tt
create_from-CallsNext fault b size c = tt

pub create-CallsNext :
    (block : Option Bytes) (size : ℕ) (c : Option ℕ) → CallsNext c (create block size c)
unfolding create
create-CallsNext block size c =
    create_from-CallsNext (init none 0) (init block (size / pbufs_count)) size c

rnext-CallsNext : (c : Option ℕ) (q : MsgQueue) → q.callback ≡ c → CallsNext c (rnext q)
unfolding rnext
rnext-CallsNext c q e = if-both (CallsNext c) (q.pbuf_r == q.pbuf_w) _ _ (λ t. tt) λ t. e

seek-Calls : (fuel : ℕ) (c : Option ℕ) (q : MsgQueue) → q.callback ≡ c → Calls c (seek fuel q)
unfolding seek
seek-Calls zero c q e = tt
seek-Calls (suc fuel) c q e =
    if-both (Calls c) (ltb (data_len (pbuf_at q q.pbuf_r)) header_size) _ _
      (λ t. elim (Option-cases (rnext q)) [
        | inl n ↦ rw n e
        | inr (q', n) ↦ rw n (seek-Calls fuel c q' (rw n at (rnext-CallsNext c q e)))
      ])
      λ t. e

at_front-Calls : (c : Option ℕ) (o : Option (MsgQueue × Bool)) → Calls c o → Calls c (at_front o)
unfolding at_front
at_front-Calls c none v = tt
at_front-Calls c (some (q, true)) v = v
at_front-Calls c (some (q, false)) v = v

pub peek-Calls : (q : MsgQueue) → Calls q.callback (peek q)
unfolding peek
peek-Calls q = at_front-Calls q.callback _ (seek-Calls redo_fuel q.callback q refl)

without_front-Calls :
    (c : Option ℕ) (o : Option (MsgQueue × Bool)) → Calls c o → Calls c (without_front o)
unfolding without_front
without_front-Calls c none v = tt
without_front-Calls c (some (q, true)) v = v
without_front-Calls c (some (q, false)) v = v

pub pop_msg-Calls : (q : MsgQueue) → Calls q.callback (pop_msg q)
unfolding pop_msg
pop_msg-Calls q = without_front-Calls q.callback _ (seek-Calls redo_fuel q.callback q refl)

module _ (malloc : ℕ → Option Bytes) where
  with_next-CallsNext :
      (c : Option ℕ) (q : MsgQueue) (next : ℕ) (r : Ret Pbuf)
      → q.callback ≡ c
      → CallsNext c (with_next q next r)
  unfolding with_next
  with_next-CallsNext c q next (ok p) e = e
  with_next-CallsNext c q next failed e = tt
  with_next-CallsNext c q next fault e = tt

  wnext-CallsNext : (c : Option ℕ) (q : MsgQueue) → q.callback ≡ c → CallsNext c (wnext malloc q)
  unfolding wnext
  wnext-CallsNext c q e =
      let next = (q.pbuf_w + 1) % pbufs_count in
      if-both (CallsNext c) (not (buffer_len (pbuf_at q next) == 0)) none
        (with_next q next (init (malloc next) (pbuf_size q))) (λ t. tt)
        λ t. with_next-CallsNext c q next (init (malloc next) (pbuf_size q)) e

  make_room-Calls :
      (fuel n : ℕ) (c : Option ℕ) (q : MsgQueue)
      → q.callback ≡ c
      → Calls c (make_room fuel malloc q n)
  unfolding make_room
  make_room-Calls zero n c q e = tt
  make_room-Calls (suc fuel) n c q e =
      let p = pbuf_at q q.pbuf_w in
      let rest : Option (MsgQueue × Bool) = elim (wnext malloc q) [
        | none ↦ some (q, false)
        | some q' ↦ make_room fuel malloc q' n
      ] in
      option-both (Calls c) (write_prepare p n) rest
        (λ p'. some (record q { pbufs = set q.pbufs q.pbuf_w p' }, true))
        (λ t.
          option-both (Calls c) (wnext malloc q) (some (q, false))
            (λ q'. make_room fuel malloc q' n) (λ m. e)
            λ q' m. make_room-Calls fuel n c q' (rw m at (wnext-CallsNext c q e)))
        λ p' t. e

  -- What a push returns: the queue with its callback, which is also the one that it makes.
  abbrev pub CallsBack : Option ℕ → Option (MsgQueue × Pushed) → Type 0
  CallsBack c none = Unit
  CallsBack c (some (q, rejected)) = q.callback ≡ c
  CallsBack c (some (q, accepted f)) = (q.callback ≡ c) × (f ≡ c)

  store_msg-CallsBack :
      (n : ℕ) (iov : List Bytes) (c : Option ℕ) (q : MsgQueue)
      → q.callback ≡ c
      → CallsBack c (some (store_msg q n iov))
  unfolding store_msg
  store_msg-CallsBack n iov c q e =
      let r = write_all (pbuf_at q q.pbuf_w) (header_bytes n ∷ iov) in
      if-both (λ f. CallsBack c (some (record q { pbufs = set q.pbufs q.pbuf_w r.0 }, f))) r.1
        (accepted q.callback) rejected (λ t. (e, e)) λ t. e

  push_from-CallsBack :
      (n : ℕ) (iov : List Bytes) (c : Option ℕ) (o : Option (MsgQueue × Bool))
      → Calls c o
      → CallsBack c (push_from n iov o)
  unfolding push_from
  push_from-CallsBack n iov c none v = tt
  push_from-CallsBack n iov c (some (q, true)) v = store_msg-CallsBack n iov c q v
  push_from-CallsBack n iov c (some (q, false)) v = v

  pub push_msg-CallsBack :
      (q : MsgQueue) (iov : List Bytes) → CallsBack q.callback (push_msg malloc q iov)
  unfolding push_msg
  push_msg-CallsBack q iov =
      if-both (CallsBack q.callback) (too_big q (total_len iov)) _ _ (λ t. refl)
        λ t. push_from-CallsBack _ iov q.callback _ (make_room-Calls redo_fuel _ q.callback q refl)

-- ===== src/Broker/Delivering.antt =====
-- How a message of stomp/stomp_subr.c gets from a binding to the socket of a subscriber.
use lmq.Prelude.{
  ℕ, ◌+◌, ◌≤◌, ◌<◌, ◌≡◌, ◌≢◌, refl, subst, sym, ap, ◌∙◌, inl, Bool, true, false, Option, some, List,
  [], ◌∷◌, ◌++◌, ◌==◌, arith, length,
}
use lmq.Pbuf.{Bytes, free_len}
use lmq.Dlist.{Ptr, null}
use lmq.MsgQueue.{MsgQueue, Pushed, accepted, pbuf_size, header_size, iov_bytes}
use lmq.MsgQueue
use lmq.MsgQueue.Rep.{Holds}
use lmq.MsgQueue.Room.{pbuf_w_of}
use lmq.MsgQueue.Accepting.{push_msg-accepts}
use lmq.Broker.{Broker, SessionData, Outcome, done, with_queue, send_resume}
use lmq.Broker.Subscribing.{notified, pushed, deliver}
use lmq.Broker.Resume.{TakesBounded, Resumes, refused, partly, wholly, send_resume-Resumes}

module _ {ℓ} {N : Type ℓ} (send : Ptr → Bytes → N → N × Option ℕ)
    (malloc : N → ℕ → Option Bytes) where
  deliver_accepted :
      (iov : List Bytes) (p sf : Ptr) (w : Broker N) (q' : MsgQueue)
      → MsgQueue.push_msg (malloc w.env) (w.queues p) iov ≡ some (q', accepted (some sf))
      → deliver send malloc iov p (some w)
        ≡ notified send malloc (send_resume send (with_queue w p q') sf)
  unfolding deliver pushed
  deliver_accepted iov p sf w q' e = rw e refl

  queue_here : (w : Broker N) (p : Ptr) (q : MsgQueue) → (with_queue w p q).queues p ≡ q
  queue_here w p q = let here : (p == p) ≡ true = ground arith in rw here refl

  -- A queue takes a message that fits, and its session is called.
  pub deliver-accepts :
      (iov : List Bytes) (p sf : Ptr) (w : Broker N) (xs : List Bytes)
      → (w.queues p).callback ≡ some sf
      → Holds (w.queues p) xs
      → header_size + length (iov_bytes iov) ≤ free_len (pbuf_w_of (w.queues p))
      → (q' : MsgQueue) × (deliver send malloc iov p (some w)
          ≡ notified send malloc (send_resume send (with_queue w p q') sf))
        × Holds ((with_queue w p q').queues p) (xs ++ iov_bytes iov ∷ [])
  deliver-accepts iov p sf w xs cb h room =
      let (q', pushes, h') = push_msg-accepts (malloc w.env) (w.queues p) xs iov h room in
      let accepts = pushes ∙ ap (λ c. some (q', accepted c)) cb in
      (
        q',
        deliver_accepted iov p sf w q' accepts,
        subst (λ q. Holds q (xs ++ iov_bytes iov ∷ [])) (sym (queue_here w p q')) h',
      )

  -- The session that is called ends in a state, and the sink succeeds.
  succeeds :
      (mq sf : Ptr) (env : N) (x : Bytes) (rest : List Bytes) (d : Option (Broker N) × Bool)
      (o : Outcome (Broker N))
      → d ≡ notified send malloc o
      → Resumes send mq sf env x 0 rest o
      → (w' : Broker N) × (r : Bool) × (d ≡ (some w', true))
        × Resumes send mq sf env x 0 rest (done w' r)
  succeeds mq sf env x rest d _ e (refused {w = w'} ss a moves is own v h) =
      (w', false, e, refused ss a moves is own v h)
  succeeds mq sf env x rest d _ e (partly {w = w'} ss n a moves is own v h) =
      (w', true, e, partly ss n a moves is own v h)
  succeeds mq sf env x rest d _ e (wholly {w = w'} ss n a moves all is own end h) =
      (w', true, e, wholly ss n a moves all is own end h)

  -- A message that fits into the buffer that the queue of a subscriber is writing, while the session
  -- sends none, joins the messages of the queue, and the session tries at once to send the oldest of them, which is not
  -- empty. The sink succeeds whatever becomes of this, also if the socket fails. The socket takes no more than it is given.
  pub deliver-Resumes :
      TakesBounded send
      → (iov : List Bytes) (sf : Ptr) (w : Broker N) (ss : SessionData) (xs : List Bytes)
        (x : Bytes) (rest : List Bytes)
      → w.sessions sf ≡ some ss
      → ss.msgq ≢ null
      → ss.slen ≡ 0
      → (w.queues ss.msgq).callback ≡ some sf
      → Holds (w.queues ss.msgq) xs
      → header_size + length (iov_bytes iov) ≤ free_len (pbuf_w_of (w.queues ss.msgq))
      → xs ++ iov_bytes iov ∷ [] ≡ x ∷ rest
      → 0 < length x
      → (w' : Broker N) × (r : Bool) × (deliver send malloc iov ss.msgq (some w) ≡ (some w', true))
        × Resumes send ss.msgq sf w.env x 0 rest (done w' r)
  deliver-Resumes bounded iov sf w ss xs x rest e nq idle cb h room oldest lt =
      let (q', calls, h') = deliver-accepts iov ss.msgq sf w xs cb h room in
      let held = subst (λ ys. Holds ((with_queue w ss.msgq q').queues ss.msgq) ys) oldest h' in
      succeeds ss.msgq sf w.env x rest _ (send_resume send (with_queue w ss.msgq q') sf) calls
        (send_resume-Resumes send bounded (with_queue w ss.msgq q') sf ss x 0 rest e nq
          (inl (idle, refl)) held lt).0

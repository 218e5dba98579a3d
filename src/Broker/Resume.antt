-- ===== src/Broker/Resume.antt =====
-- How `stomp_send_resume` of stomp/stomp_subr.c works off the queue of a session.
use lmq.Prelude.{
  ℕ, ◌+◌, ◌-◌, ◌≤◌, ◌<◌, ◌≡◌, ◌≢◌, ◌⊎◌, refl, sym, ap, subst, ◌∙◌, inl, inr, Bool, true, false,
  Option, none, some, List, ◌∷◌, ◌==◌, ltb, Bool-cases, arith, length, take, drop, drop-take,
  drop-drop, length-drop,
}
use lmq.Pbuf.{Bytes}
use lmq.Dlist.{Ptr, null}
use lmq.MsgQueue.{MsgQueue, Place, pbuf_at, peek, pop_msg, bytes_at}
use lmq.MsgQueue.Rep.{Holds}
use lmq.MsgQueue.Read.{Peeks, peek-Peeks, Pops, pop_msg-Pops}
use lmq.Broker.{
  Broker, SessionData, Outcome, done, with_session, with_queue, popped, sent, send_part, peeked,
  send_resume,
}
use lmq.Broker.Frame.{Framed, send_resume-Framed}

-- The session sends the message `m`, of which `k` bytes went out already: `ss_sbuf` and `ss_slen`
-- are the others.
pub record IsSending (q : MsgQueue) (ss : SessionData) (m : Bytes) (k : ℕ) : Type 0 where
  pub others : bytes_at q ss.sbuf ss.slen ≡ drop k m
  pub some_left : 0 < ss.slen
  pub total : ss.slen + k ≡ length m

-- The bytes behind the `n` that went out next.
bytes_at_behind :
    (q : MsgQueue) (a : Place) (len k n : ℕ) (m : Bytes)
    → bytes_at q a len ≡ drop k m
    → n ≤ len
    → bytes_at q (record { slot = a.slot; offset = a.offset + n }) (len - n) ≡ drop (k + n) m
bytes_at_behind q a len k n m e le =
    let buf = (pbuf_at q a.slot).buf in
    ap (λ xs. take (len - n) xs) (sym (drop-drop n a.offset (a.offset + n) buf refl))
    ∙ sym (drop-take n (len - n) len (drop a.offset buf) (omega arith))
    ∙ ap (λ xs. drop n xs) e
    ∙ drop-drop n k (k + n) m refl

module _ {ℓ} {N : Type ℓ} (send : Ptr → Bytes → N → N × Option ℕ) where
  -- What becomes of the message: nothing of it goes out, a part, or all that is left.
  pub data Resumes (mq sf : Ptr) (env : N) (m : Bytes) (k : ℕ) (rest : List Bytes)
      : Outcome (Broker N) → Type ℓ where
    refused :
        {w : Broker N} (ss : SessionData)
        → (send sf (drop k m) env).1 ≡ none
        → w.env ≡ (send sf (drop k m) env).0
        → w.sessions sf ≡ some ss
        → ss.msgq ≡ mq
        → IsSending (w.queues mq) ss m k
        → Holds (w.queues mq) (m ∷ rest)
        → Resumes mq sf env m k rest (done w false)
    partly :
        {w : Broker N} (ss : SessionData) (n : ℕ)
        → (send sf (drop k m) env).1 ≡ some n
        → w.env ≡ (send sf (drop k m) env).0
        → w.sessions sf ≡ some ss
        → ss.msgq ≡ mq
        → IsSending (w.queues mq) ss m (k + n)
        → Holds (w.queues mq) (m ∷ rest)
        → Resumes mq sf env m k rest (done w true)
    wholly :
        {w : Broker N} (ss : SessionData) (n : ℕ)
        → (send sf (drop k m) env).1 ≡ some n
        → w.env ≡ (send sf (drop k m) env).0
        → k + n ≡ length m
        → w.sessions sf ≡ some ss
        → ss.msgq ≡ mq
        → ss.slen ≡ 0
        → Holds (w.queues mq) rest
        → Resumes mq sf env m k rest (done w true)

  popped-Resumes :
      (w : Broker N) (sf mq : Ptr) (env : N) (m : Bytes) (k : ℕ) (rest : List Bytes)
      (ss : SessionData) (n : ℕ) (o : Option (MsgQueue × Bool))
      → (send sf (drop k m) env).1 ≡ some n
      → w.env ≡ (send sf (drop k m) env).0
      → k + n ≡ length m
      → w.sessions sf ≡ some ss
      → ss.msgq ≡ mq
      → ss.slen ≡ 0
      → Pops (m ∷ rest) o
      → Resumes mq sf env m k rest (popped send w mq o)
  popped-Resumes w sf mq env m k rest ss n none took same_env all is own end p = absurd p
  popped-Resumes w sf mq env m k rest ss n (some (q, false)) took same_env all is own end p =
      absurd (cc)
  popped-Resumes w sf mq env m k rest ss n (some (q, true)) took same_env all is own end
        (m', rest', eq, h) =
      let here : (mq == mq) ≡ true = ground arith in
      let same : rest' ≡ rest = cc in
      wholly ss n took same_env all is own end (rw here (subst (λ xs. Holds q xs) same h))

  module _ (w : Broker N) (sf : Ptr) (ss : SessionData) (m : Bytes) (k : ℕ)
      (rest : List Bytes) where
    stored : (ss' : SessionData) → (with_session w sf (some ss')).sessions sf ≡ some ss'
    stored ss' = let here : (sf == sf) ≡ true = ground arith in rw here refl

    sent-Resumes :
        (env : N) (o : Option ℕ)
        → (send sf (drop k m) env).1 ≡ o
        → w.env ≡ (send sf (drop k m) env).0
        → ((n : ℕ) → o ≡ some n → n ≤ ss.slen)
        → w.sessions sf ≡ some ss
        → IsSending (w.queues ss.msgq) ss m k
        → Holds (w.queues ss.msgq) (m ∷ rest)
        → Resumes ss.msgq sf env m k rest (sent send w sf ss o)
    unfolding sent
    sent-Resumes env none e same_env le is v h = refused ss e same_env is refl v h
    sent-Resumes env (some n) e same_env le is v h = elim (Bool-cases (ss.slen - n == 0)) [
      | inl z ↦ rw z (
          popped-Resumes _ sf ss.msgq env m k rest _ n (pop_msg (w.queues ss.msgq)) e same_env
            (ground (arith, le n refl, v.total)) (stored _) refl (ground arith)
            (pop_msg-Pops (w.queues ss.msgq) (m ∷ rest) h))
      | inr z ↦ rw z (
          partly _ n e same_env (stored _) refl
            (record {
              others =
                  bytes_at_behind (w.queues ss.msgq) ss.sbuf ss.slen k n m v.others (le n refl);
              some_left = ground arith;
              total = ground (arith, le n refl, v.total);
            })
            h)
    ]

  -- The socket never takes more than it is given.
  abbrev pub TakesBounded : Type ℓ
  TakesBounded =
      (sf : Ptr) (b : Bytes) (env : N) (n : ℕ) → (send sf b env).1 ≡ some n → n ≤ length b

  module _ (bounded : TakesBounded) where
    send_part-Resumes :
        (w : Broker N) (sf : Ptr) (ss : SessionData) (m : Bytes) (k : ℕ) (rest : List Bytes)
        → IsSending (w.queues ss.msgq) ss m k
        → Holds (w.queues ss.msgq) (m ∷ rest)
        → Resumes ss.msgq sf w.env m k rest (send_part send w sf ss)
    unfolding send_part
    send_part-Resumes w sf ss m k rest v h =
        let long : ltb 0 ss.slen ≡ true = ground (arith, v.some_left) in
        let r = send sf (drop k m) w.env in
        let stored_first = stored w sf ss m k rest ss in
        rw long (
          rw v.others (
            sent-Resumes (record (with_session w sf (some ss)) { env = r.0 }) sf ss m k rest w.env
              r.1 refl refl
              (λ n e. ground (arith, bounded sf (drop k m) w.env n e, length-drop k m, v.total))
              stored_first v h))

    peeked-Resumes :
        (w : Broker N) (sf : Ptr) (ss : SessionData) (m : Bytes) (rest : List Bytes)
        (o : Option (MsgQueue × Option (Place × ℕ)))
        → Peeks (m ∷ rest) o
        → 0 < length m
        → Resumes ss.msgq sf w.env m 0 rest (peeked send w sf ss o)
    unfolding peeked send_part
    peeked-Resumes w sf ss m rest none p lt = absurd p
    peeked-Resumes w sf ss m rest (some (q, none)) p lt = absurd (cc)
    peeked-Resumes w sf ss m rest (some (q, some (place, n))) (m', rest', eq, len, bytes, h) lt =
        let here : (ss.msgq == ss.msgq) ≡ true = ground arith in
        let same : m' ≡ m = cc in
        let long = len ∙ ap length same in
        send_part-Resumes (with_queue w ss.msgq q) sf (record ss { sbuf = place; slen = n }) m 0
          rest
          (record {
            others = rw here (bytes ∙ same);
            some_left = omega (arith, long, lt);
            total = omega (arith, long);
          })
          (rw here h)

    resumes :
        (w : Broker N) (sf : Ptr) (ss : SessionData) (m : Bytes) (k : ℕ) (rest : List Bytes)
        → w.sessions sf ≡ some ss
        → ss.msgq ≢ null
        → ((ss.slen ≡ 0) × (k ≡ 0)) ⊎ IsSending (w.queues ss.msgq) ss m k
        → Holds (w.queues ss.msgq) (m ∷ rest)
        → 0 < length m
        → Resumes ss.msgq sf w.env m k rest (send_resume send w sf)
    unfolding send_resume
    resumes w sf ss m k rest e nq (inl (idle, none_sent)) h lt =
        let t : (ss.msgq == null) ≡ false = ground arith in
        let z : (ss.slen == 0) ≡ true = ground arith in
        rw e (
          rw t (
            rw z (
              rw none_sent (
                peeked-Resumes w sf ss m rest (peek (w.queues ss.msgq))
                  (peek-Peeks (w.queues ss.msgq) (m ∷ rest) h) lt))))
    resumes w sf ss m k rest e nq (inr v) h lt =
        let t : (ss.msgq == null) ≡ false = ground arith in
        let z : (ss.slen == 0) ≡ false = ground (arith, v.some_left) in
        rw e (rw t (rw z (send_part-Resumes w sf ss m k rest v h)))

    -- `stomp_send_resume` on a session whose queue holds messages, of which the oldest is not empty:
    -- either none is being sent, or `k` bytes of the oldest one went out before. The socket is asked
    -- once, to take the rest of this message. If it fails, all of this rest is still to be sent; if it
    -- takes some, the session goes on behind them; when it takes the last one, the message leaves the
    -- queue and none is being sent. The other messages of the queue stay, in their order, and every
    -- other queue and session, and all bindings, are as before. The socket takes no more than it is
    -- given.
    pub send_resume-Resumes :
        (w : Broker N) (sf : Ptr) (ss : SessionData) (m : Bytes) (k : ℕ) (rest : List Bytes)
        → w.sessions sf ≡ some ss
        → ss.msgq ≢ null
        → ((ss.slen ≡ 0) × (k ≡ 0)) ⊎ IsSending (w.queues ss.msgq) ss m k
        → Holds (w.queues ss.msgq) (m ∷ rest)
        → 0 < length m
        → Resumes ss.msgq sf w.env m k rest (send_resume send w sf)
          × Framed send ss.msgq sf w (send_resume send w sf)
    send_resume-Resumes w sf ss m k rest e nq state h lt = (
      resumes w sf ss m k rest e nq state h lt,
      send_resume-Framed send ss.msgq sf w w ss e refl
          (record { queues = λ q ne. refl; sessions = λ s ne. refl; bindings = refl }),
    )

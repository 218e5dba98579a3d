-- ===== src/Broker/Tied/Sending.antt =====
-- That sending leaves the sessions, the queues and the bindings of stomp/stomp_subr.c tied.
use lmq.Prelude.{
  ℕ, ◌+◌, ◌-◌, ◌≡◌, refl, sym, inl, inr, Bool, true, Option, none, some, ◌==◌, ltb, if-both,
  Bool-cases, arith,
}
use lmq.Pbuf.{Bytes}
use lmq.Dlist.{Ptr, null}
use lmq.MsgQueue.{MsgQueue, Place, bytes_at}
use lmq.MsgQueue.Callback.{Calls, peek-Calls, pop_msg-Calls}
use lmq.Broker.{
  Broker, SessionData, with_session, with_queue, popped, sent, send_part, peeked, resume_from,
  send_resume,
}
use lmq.Broker.Tied.{Like-trans, Same, After}

module _ {ℓ} {N : Type ℓ} (w0 : Broker N) where
  pub with_env-Same : (w : Broker N) (e : N) → Same w0 w → Same w0 (record w { env = e })
  with_env-Same w e v = record {
    sessions = v.sessions;
    queues = v.queues;
    members = v.members;
    limits = v.limits;
    counts = v.counts;
    turns = v.turns;
  }

  pub with_queue-Same :
      (w : Broker N) (p : Ptr) (q : MsgQueue)
      → q.callback ≡ (w.queues p).callback
      → Same w0 w
      → Same w0 (with_queue w p q)
  with_queue-Same w p q e v = record {
    sessions = v.sessions;
    queues = λ r. elim (Bool-cases (p == r)) [
      | inl t ↦ rw t (ground (arith, v.queues r, e, t))
      | inr t ↦ rw t (v.queues r)
    ];
    members = v.members;
    limits = v.limits;
    counts = v.counts;
    turns = v.turns;
  }

  pub with_session-Same :
      (w : Broker N) (sf : Ptr) (ss ss' : SessionData)
      → w.sessions sf ≡ some ss
      → ss.msgq ≡ ss'.msgq
      → ss.bind ≡ ss'.bind
      → Same w0 w
      → Same w0 (with_session w sf (some ss'))
  with_session-Same w sf ss ss' is mq bi v = record {
    sessions = λ s. elim (Bool-cases (sf == s)) [
      | inl t ↦
          let e : sf ≡ s = ground arith in
          rw t (
            Like-trans (w0.sessions s) (w.sessions s) (some ss') (v.sessions s)
              (rw (sym e) (rw is (mq, bi))))
      | inr t ↦ rw t (v.sessions s)
    ];
    queues = v.queues;
    members = v.members;
    limits = v.limits;
    counts = v.counts;
    turns = v.turns;
  }

  module _ (send : Ptr → Bytes → N → N × Option ℕ) where
    popped-After :
        (w : Broker N) (p : Ptr) (o : Option (MsgQueue × Bool))
        → Calls (w.queues p).callback o
        → Same w0 w
        → After w0 (popped send w p o)
    popped-After w p none c v = tt
    popped-After w p (some (q, r)) c v = with_queue-Same w p q c v

    sent-After :
        (w : Broker N) (sf : Ptr) (ss : SessionData) (o : Option ℕ)
        → w.sessions sf ≡ some ss
        → Same w0 w
        → After w0 (sent send w sf ss o)
    unfolding sent
    sent-After w sf ss none is v = v
    sent-After w sf ss (some n) is v =
        let ss' : SessionData = record ss {
          sbuf = record { slot = ss.sbuf.slot; offset = ss.sbuf.offset + n };
          slen = ss.slen - n;
        } in
        let v' = with_session-Same w sf ss ss' is refl refl v in
        if-both (After w0) (ss.slen - n == 0) _ _
          (λ t.
            popped-After (with_session w sf (some ss')) ss.msgq _ (pop_msg-Calls (w.queues ss.msgq))
              v')
          λ t. v'

    now_there :
        (w : Broker N) (sf : Ptr) (ss : SessionData)
        → (with_session w sf (some ss)).sessions sf ≡ some ss
    now_there w sf ss = let t : (sf == sf) ≡ true = ground arith in rw t refl

    send_part-After :
        (w : Broker N) (sf : Ptr) (ss : SessionData)
        → Same w0 (with_session w sf (some ss))
        → After w0 (send_part send w sf ss)
    unfolding send_part
    send_part-After w sf ss v =
        if-both (After w0) (ltb 0 ss.slen) _ _
          (λ t.
            let r = send sf (bytes_at (w.queues ss.msgq) ss.sbuf ss.slen) w.env in
            sent-After (record (with_session w sf (some ss)) { env = r.0 }) sf ss r.1
              (now_there w sf ss) (with_env-Same (with_session w sf (some ss)) r.0 v))
          λ t. v

    peeked-After :
        (w : Broker N) (sf : Ptr) (ss : SessionData) (o : Option (MsgQueue × Option (Place × ℕ)))
        → w.sessions sf ≡ some ss
        → Calls (w.queues ss.msgq).callback o
        → Same w0 w
        → After w0 (peeked send w sf ss o)
    unfolding peeked
    peeked-After w sf ss none is c v = tt
    peeked-After w sf ss (some (q, none)) is c v = with_queue-Same w ss.msgq q c v
    peeked-After w sf ss (some (q, some (place, n))) is c v =
        let ss' : SessionData = record ss { sbuf = place; slen = n } in
        send_part-After (with_queue w ss.msgq q) sf ss' (
          with_session-Same (with_queue w ss.msgq q) sf ss ss' is refl refl
            (with_queue-Same w ss.msgq q c v))

    resume_from-After :
        (w : Broker N) (sf : Ptr) (o : Option SessionData)
        → w.sessions sf ≡ o
        → Same w0 w
        → After w0 (resume_from send w sf o)
    unfolding resume_from
    resume_from-After w sf none is v = v
    resume_from-After w sf (some ss) is v =
        if-both (After w0) (ss.msgq == null) _ _ (λ t. v)
          λ t.
            if-both (After w0) (ss.slen == 0) _ _
              (λ t. peeked-After w sf ss _ is (peek-Calls (w.queues ss.msgq)) v)
              λ t. send_part-After w sf ss (with_session-Same w sf ss ss is refl refl v)

    pub send_resume-After : (w : Broker N) (sf : Ptr) → Same w0 w → After w0 (send_resume send w sf)
    unfolding send_resume
    send_resume-After w sf v = resume_from-After w sf (w.sessions sf) refl v

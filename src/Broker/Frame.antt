-- ===== src/Broker/Frame.antt =====
-- What `stomp_send_resume` and `msgqueue_push_msg` of one session leave alone in stomp/stomp_subr.c.
use lmq.Prelude.{ℕ, ◌+◌, ◌-◌, ◌≡◌, ◌≢◌, Bool, false, Option, none, some, ◌==◌, ltb, if-both, arith}
use lmq.Pbuf.{Bytes}
use lmq.Dlist.{Ptr, null}
use lmq.MsgQueue.{MsgQueue, Place, peek, pop_msg, bytes_at}
use lmq.Broker.{
  Broker, SessionData, Outcome, done, crash, stuck, with_session, with_queue, popped, sent,
  send_part, peeked, resume_from, send_resume,
}

module _ {ℓ} {N : Type ℓ} (send : Ptr → Bytes → N → N × Option ℕ) (p sf : Ptr) (w0 : Broker N) where
  -- Only the queue `p` and the session `sf` may have changed.
  pub record Near (w : Broker N) : Type ℓ where
    pub queues : (q : Ptr) → q ≢ p → w.queues q ≡ w0.queues q
    pub sessions : (s : Ptr) → s ≢ sf → w.sessions s ≡ w0.sessions s
    pub bindings : w.bindings ≡ w0.bindings

  abbrev pub Framed : Outcome (Broker N) → Type ℓ
  Framed (done w r) = Near w
  Framed crash = Unit
  Framed stuck = Unit

  pub with_queue-Near :
      (w : Broker N) (own : Ptr) (q : MsgQueue) → own ≡ p → Near w → Near (with_queue w own q)
  with_queue-Near w own q e v = record {
    queues = λ r ne. let t : (own == r) ≡ false = ground (arith, e) in rw t (v.queues r ne);
    sessions = v.sessions;
    bindings = v.bindings;
  }

  pub with_session-Near :
      (w : Broker N) (ss : Option SessionData) → Near w → Near (with_session w sf ss)
  with_session-Near w ss v = record {
    queues = v.queues;
    sessions = λ r ne. let t : (sf == r) ≡ false = ground arith in rw t (v.sessions r ne);
    bindings = v.bindings;
  }

  popped-Framed :
      (w : Broker N) (own : Ptr) (o : Option (MsgQueue × Bool))
      → own ≡ p
      → Near w
      → Framed (popped send w own o)
  popped-Framed w own none e v = tt
  popped-Framed w own (some (q, r)) e v = with_queue-Near w own q e v

  sent-Framed :
      (w : Broker N) (ss : SessionData) (o : Option ℕ)
      → ss.msgq ≡ p
      → Near w
      → Framed (sent send w sf ss o)
  unfolding sent
  sent-Framed w ss none e v = v
  sent-Framed w ss (some n) e v =
      let v' =
        with_session-Near w
          (some (record ss {
            sbuf = record { slot = ss.sbuf.slot; offset = ss.sbuf.offset + n };
            slen = ss.slen - n;
          }))
          v in
      if-both Framed (ss.slen - n == 0) _ _
        (λ t. popped-Framed _ ss.msgq (pop_msg (w.queues ss.msgq)) e v') λ t. v'

  send_part-Framed :
      (w : Broker N) (ss : SessionData) → ss.msgq ≡ p → Near w → Framed (send_part send w sf ss)
  unfolding send_part
  send_part-Framed w ss e v =
      let v' = with_session-Near w (some ss) v in
      if-both Framed (ltb 0 ss.slen) _ _
        (λ t.
          let r = send sf (bytes_at (w.queues ss.msgq) ss.sbuf ss.slen) w.env in
          sent-Framed (record (with_session w sf (some ss)) { env = r.0 }) ss r.1 e
            (record { queues = v'.queues; sessions = v'.sessions; bindings = v'.bindings }))
        λ t. v'

  peeked-Framed :
      (w : Broker N) (ss : SessionData) (o : Option (MsgQueue × Option (Place × ℕ)))
      → ss.msgq ≡ p
      → Near w
      → Framed (peeked send w sf ss o)
  unfolding peeked
  peeked-Framed w ss none e v = tt
  peeked-Framed w ss (some (q, none)) e v = with_queue-Near w ss.msgq q e v
  peeked-Framed w ss (some (q, some (place, n))) e v =
      send_part-Framed (with_queue w ss.msgq q) (record ss { sbuf = place; slen = n }) e
        (with_queue-Near w ss.msgq q e v)

  -- The session whose queue is `p` touches that queue and its own data only.
  pub send_resume-Framed :
      (w : Broker N) (ss : SessionData)
      → w.sessions sf ≡ some ss
      → ss.msgq ≡ p
      → Near w
      → Framed (send_resume send w sf)
  unfolding send_resume resume_from
  send_resume-Framed w ss is e v = rw is (
      if-both Framed (ss.msgq == null) _ _ (λ t. v)
        λ t.
          if-both Framed (ss.slen == 0) _ _ (λ t. peeked-Framed w ss (peek (w.queues ss.msgq)) e v)
            λ t. send_part-Framed w ss e v)

-- ===== src/Broker/Dispatching.antt =====
-- What a SEND to a queue of stomp/stomp_proto.c does to the subscribers.
use lmq.Prelude.{
  suc, sym, ◌∙◌, ap, get_or, ℕ, ◌<◌, ◌≡◌, ◌≢◌, refl, true, false, Option, some, List, ◌==◌, arith,
  length,
}
use lmq.Pbuf.{Bytes, ok}
use lmq.Dlist.{Ptr, null}
use lmq.MsgQueue.{iov_bytes}
use lmq.Binding.{Binding, queue, next_member, push_msg}
use lmq.Binding.Delivery.{push_msg-queue, turn, Passed, next_member-first}
use lmq.BindingHash
use lmq.Stomp.Parse.{Msg}
use lmq.Stomp.Header.{skip_command}
use lmq.Broker.{Broker, Outcome, done, with_binding, names}
use lmq.Broker.Subscribing.{deliver, enqueue, enqueue_to, enqueued}
use lmq.Broker.Resume.{TakesBounded}
use lmq.Broker.Handlers.{destination, count_up, send_body, connected_send}
use lmq.Broker.Topic.{
  Subscriber, Ready, Delivered, Spared, Ready-Spared, Delivered-Spared, Near-Spared,
}
use lmq.Broker.Topic.Pushing.{deliver-Delivered}
use lmq.Broker.Publishing.{passed_on, passed_on_full}

module _ {ℓ} {N : Type ℓ} (send : Ptr → Bytes → N → N × Option ℕ) (malloc : N → ℕ → Option Bytes)
    (bounded : TakesBounded send) where
  -- The chosen subscriber has the message, the queue has turned, and every session and queue apart
  -- from the subscriber's is as before.
  pub record Dispatched (iov : List Bytes) (w : Broker N) (s : Subscriber) (bi : Ptr) (round d : ℕ)
      (o : Outcome (Broker N)) : Type ℓ where
    pub after : Broker N
    pub ends : o ≡ done after true
    pub got : Delivered send malloc bounded iov w.env after s
    pub others :
        (t : Subscriber)
        → s.sf ≢ t.sf
        → s.queue ≢ t.queue
        → Spared send malloc bounded iov w after t
    pub turns : (after.bindings bi).kind ≡ queue (turn (w.bindings bi).members_max round (suc d))

  enqueued-Dispatched :
      (iov : List Bytes) (w : Broker N) (bi : Ptr) (s : Subscriber) (round d : ℕ)
      → 0 < length (iov_bytes iov)
      → (w.bindings bi).kind ≡ queue round
      → d < (w.bindings bi).members_max
      → Passed (w.bindings bi).members_max (w.bindings bi).members round d
      → get_or (w.bindings bi).members (turn (w.bindings bi).members_max round d) null ≡ s.queue
      → Ready send malloc bounded iov w s
      → Dispatched iov w s bi round d
          (enqueued send malloc bi (push_msg (deliver send malloc iov) (w.bindings bi) (some w)))
  enqueued-Dispatched iov w bi s round d lt k within passed here_is v =
      let (w', ends, got, near, moves) = deliver-Delivered send malloc bounded iov w s lt v in
      let b = w.bindings bi in
      let turned = turn b.members_max round (suc d) in
      let first =
        next_member-first b.members_max b.members b.members_max round d within passed
          (λ e. v.some_queue (sym here_is ∙ e)) in
      let chosen : next_member b.members_max b.members b.members_max round ≡ (turned, s.queue) =
        first ∙ ap (λ q. (turned, q)) here_is in
      let b' : Binding = record b { kind = queue turned } in
      let here : (bi == bi) ≡ true = ground arith in
      rw
        (push_msg-queue (deliver send malloc iov) b (some w) (some w') round turned s.queue true k
          chosen v.some_queue ends)
        (record {
          after = with_binding w' bi b';
          ends = refl;
          got =
              Delivered-Spared send malloc bounded iov w.env w' (with_binding w' bi b') s
                (refl, refl) got;
          others = λ t ns nq. Near-Spared send malloc bounded iov w w' s t (ns, nq) near;
          turns = rw here refl;
        })

  -- Let a SEND have a destination that is a queue in the table, and let the first place from the
  -- queue's turn on that has a member, `d` places further in cyclic order, be that of a subscriber
  -- that sends nothing at the moment and whose message queue has room for the message in the buffer
  -- that it is writing. Then the handler succeeds and this subscriber alone gets the message: its
  -- socket is asked once, for the oldest message, and what is to be sent then is what the message
  -- queue held and the message behind, but for the bytes that the socket says to have taken. Every
  -- session and message queue but its own is as before, and the turn moves to the place behind the
  -- subscriber's. None of the messages of the subscriber is empty, and the socket takes no more than
  -- it is given.
  pub connected_send-Dispatched :
      (fuel : ℕ) (w : Broker N) (msg : Msg) (dest body : Bytes) (bi : Ptr) (s : Subscriber)
      (round d : ℕ)
      → destination msg ≡ ok dest
      → skip_command msg.buf ≡ some body
      → BindingHash.lookup (names w) fuel w.table dest ≡ some bi
      → bi ≢ null
      → (w.bindings bi).kind ≡ queue round
      → d < (w.bindings bi).members_max
      → Passed (w.bindings bi).members_max (w.bindings bi).members round d
      → get_or (w.bindings bi).members (turn (w.bindings bi).members_max round d) null ≡ s.queue
      → Ready send malloc bounded (passed_on send malloc bounded w msg body) w s
      → Dispatched
          (passed_on send malloc bounded w msg body)
          w
          s
          bi
          round
          d
          (connected_send send malloc fuel w msg)
  unfolding connected_send send_body enqueue enqueue_to
  connected_send-Dispatched fuel w msg dest body bi s round d to starts found nb k within passed
        here_is v =
      let counted = record w { message_id = count_up w.message_id } in
      let iov = passed_on send malloc bounded w msg body in
      let some_binding : (bi == null) ≡ false = ground arith in
      let p =
        enqueued-Dispatched iov counted bi s round d (passed_on_full send malloc bounded w msg body)
          k within passed here_is
          (Ready-Spared send malloc bounded iov w counted s (refl, refl) v) in
      rw (to, starts, found, some_binding)
        (record { after = p.after; ends = p.ends; got = p.got; others = p.others; turns = p.turns })

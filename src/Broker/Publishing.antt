-- ===== src/Broker/Publishing.antt =====
-- What a SEND to a topic of stomp/stomp_proto.c does to the subscribers.
mod Tests
use lmq.Prelude.{
  ℕ, ◌+◌, ◌<◌, ◌≡◌, ◌≢◌, refl, ap, ◌∙◌, Bool, true, false, Option, none, some, List, [], ◌∷◌, ◌==◌,
  leb, arith, length,
}
use lmq.Pbuf.{Bytes, ok}
use lmq.Dlist.{Ptr, null}
use lmq.MsgQueue.{iov_bytes}
use lmq.Binding.{Binding, topic, topic_push, push_msg}
use lmq.Binding.Delivery.{members_of, push_msg-topic}
use lmq.BindingHash
use lmq.Stomp.Parse.{Msg}
use lmq.Stomp.Header.{skip_command}
use lmq.Broker.{Broker, Outcome, done, with_binding, names}
use lmq.Broker.Subscribing.{deliver, enqueue, enqueue_to, enqueued}
use lmq.Broker.Resume.{TakesBounded}
use lmq.Broker.Handlers.{
  destination, with_dest, make_message, body_of, count_up, send_body, connected_send,
}
use lmq.Broker.Topic.{
  Subscriber, queues_of, Apart, Disjoint, AllReady, AllDelivered, AllDelivered-Spared,
  AllReady-same, Spared,
}
use lmq.Broker.Topic.Pushing.{Pushed, push_all-Pushed}

module _ {ℓ} {N : Type ℓ} (send : Ptr → Bytes → N → N × Option ℕ) (malloc : N → ℕ → Option Bytes)
    (bounded : TakesBounded send) where
  -- All subscribers have the message, and every session and queue apart from them is as before.
  pub record Published (iov : List Bytes) (w : Broker N) (subs : List Subscriber)
      (o : Outcome (Broker N)) : Type ℓ where
    pub after : Broker N
    pub ends : o ≡ done after true
    pub all : AllDelivered send malloc bounded iov w.env after subs
    pub others : (s : Subscriber) → Apart s subs → Spared send malloc bounded iov w after s

  enqueued-Published :
      (iov : List Bytes) (w : Broker N) (bi : Ptr) (b : Binding) (subs : List Subscriber)
      (r : Option (Broker N) × ℕ)
      → Pushed send malloc bounded iov w subs 0 r
      → Published iov w subs (enqueued send malloc bi ((b, r.0), leb r.1 0))
  enqueued-Published iov w bi b subs r p = rw p.ends (record {
    after = with_binding p.after bi b;
    ends = refl;
    all =
        AllDelivered-Spared send malloc bounded iov w.env p.after (with_binding p.after bi b) subs
          (λ s. (refl, refl)) p.all;
    others = p.others;
  })

  pushed-Published :
      (iov : List Bytes) (w : Broker N) (bi : Ptr) (subs : List Subscriber)
      → 0 < length (iov_bytes iov)
      → (w.bindings bi).kind ≡ topic
      → members_of (w.bindings bi).members ≡ queues_of subs
      → Disjoint subs
      → AllReady send malloc bounded iov w subs
      → Published iov w subs
          (enqueued send malloc bi (push_msg (deliver send malloc iov) (w.bindings bi) (some w)))
  unfolding topic_push
  pushed-Published iov w bi subs lt t same d v =
      rw (push_msg-topic (deliver send malloc iov) (w.bindings bi) (some w) t) (
        enqueued-Published iov w bi (w.bindings bi) subs _
          (push_all-Pushed send malloc bounded iov (w.bindings bi).members subs 0 w lt same d v))

  enqueue-Published :
      (iov : List Bytes) (fuel : ℕ) (w : Broker N) (dest : Bytes) (bi : Ptr)
      (subs : List Subscriber)
      → 0 < length (iov_bytes iov)
      → BindingHash.lookup (names w) fuel w.table dest ≡ some bi
      → bi ≢ null
      → (w.bindings bi).kind ≡ topic
      → members_of (w.bindings bi).members ≡ queues_of subs
      → Disjoint subs
      → AllReady send malloc bounded iov w subs
      → Published iov w subs (enqueue send malloc fuel w dest iov)
  unfolding enqueue enqueue_to
  enqueue-Published iov fuel w dest bi subs lt found nb t same d v =
      let some_binding : (bi == null) ≡ false = ground arith in
      rw found (rw some_binding (pushed-Published iov w bi subs lt t same d v))

  -- What a SEND passes on: a header with the new number of the message, and the body.
  abbrev pub passed_on : Broker N → Msg → Bytes → List Bytes
  passed_on w msg body = make_message (count_up w.message_id) ∷ body_of send malloc msg body ∷ []

  pub passed_on_full :
      (w : Broker N) (msg : Msg) (body : Bytes) → 0 < length (iov_bytes (passed_on w msg body))
  unfolding make_message
  passed_on_full w msg body = omega arith

  -- Let a SEND have a destination that is a topic in the table, and let each subscriber of the
  -- topic send nothing at the moment and have room for the message in the buffer that its queue is
  -- writing. Then the handler succeeds and each subscriber gets the message, one after another: its
  -- socket is asked once, for the oldest message, and what is to be sent then is what its queue held
  -- and the message behind, but for the bytes that the socket says to have taken. Sessions and queues
  -- that are not those of a subscriber are as before. The subscribers have different sessions and
  -- queues, none of their messages is empty, and the socket takes no more than it is given.
  pub connected_send-Published :
      (fuel : ℕ) (w : Broker N) (msg : Msg) (dest body : Bytes) (bi : Ptr) (subs : List Subscriber)
      → destination msg ≡ ok dest
      → skip_command msg.buf ≡ some body
      → BindingHash.lookup (names w) fuel w.table dest ≡ some bi
      → bi ≢ null
      → (w.bindings bi).kind ≡ topic
      → members_of (w.bindings bi).members ≡ queues_of subs
      → Disjoint subs
      → AllReady send malloc bounded (passed_on w msg body) w subs
      → Published (passed_on w msg body) w subs (connected_send send malloc fuel w msg)
  unfolding connected_send send_body
  connected_send-Published fuel w msg dest body bi subs to starts found nb t same d v =
      let counted = record w { message_id = count_up w.message_id } in
      let iov = passed_on w msg body in
      let p =
        enqueue-Published iov fuel counted dest bi subs (passed_on_full w msg body) found nb t same
          d (AllReady-same send malloc bounded iov w counted subs (λ s. (refl, refl)) v) in
      rw (to, starts) (record { after = p.after; ends = p.ends; all = p.all; others = p.others })

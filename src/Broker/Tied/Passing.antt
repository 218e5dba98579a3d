-- ===== src/Broker/Tied/Passing.antt =====
-- That passing a message on to the sinks leaves stomp/stomp_subr.c tied.
use lmq.Prelude.{
  subst, ℕ, ◌≡◌, refl, sym, ◌∙◌, inl, inr, Bool, true, Option, none, some, List, ◌∷◌, [], ◌==◌,
  if-both, Bool-cases, arith,
}
use lmq.Pbuf.{Bytes, Ret, ok, failed, fault}
use lmq.Dlist.{Ptr, null}
use lmq.MsgQueue.{MsgQueue, Pushed, rejected, accepted, push_msg}
use lmq.MsgQueue.Callback.{CallsBack, push_msg-CallsBack}
use lmq.Binding
use lmq.Binding.{Binding}
use lmq.Binding.Keeping.{Kept, push_msg-Kept}
use lmq.BindingHash
use lmq.Stomp.Parse.{Msg}
use lmq.Stomp.Header.{skip_command}
use lmq.Broker.{Broker, Outcome, done, crash, stuck, with_queue, with_binding, names, send_resume}
use lmq.Broker.Subscribing.{notified, pushed, deliver, enqueued, enqueue_to, enqueue}
use lmq.Broker.Handlers.{
  make_message, count_up, destination, with_dest, body_of, send_body, connected_send, answered,
  initial_connect,
}
use lmq.Binding.Turns.{InTurn}
use lmq.Broker.Tied.{Same, After}
use lmq.Broker.Tied.Parting.{same_of}
use lmq.Broker.Tied.Sending.{with_queue-Same, send_resume-After}

module _ {ℓ} {N : Type ℓ} (w0 : Broker N) where
  with_binding-Same :
      (w : Broker N) (bi : Ptr) (b : Binding)
      → b.members ≡ (w.bindings bi).members
      → b.members_max ≡ (w.bindings bi).members_max
      → b.members_count ≡ (w.bindings bi).members_count
      → (InTurn (w0.bindings bi).kind (w0.bindings bi).members_max → InTurn b.kind b.members_max)
      → Same w0 w
      → Same w0 (with_binding w bi b)
  with_binding-Same w bi b ms mx c tn v = record {
    sessions = v.sessions;
    queues = v.queues;
    members = λ r. elim (Bool-cases (bi == r)) [
      | inl t ↦ rw t (ground (arith, v.members r, ms, t))
      | inr t ↦ rw t (v.members r)
    ];
    limits = λ r. elim (Bool-cases (bi == r)) [
      | inl t ↦ rw t (ground (arith, v.limits r, mx, t))
      | inr t ↦ rw t (v.limits r)
    ];
    counts = λ r. elim (Bool-cases (bi == r)) [
      | inl t ↦ rw t (ground (arith, v.counts r, c, t))
      | inr t ↦ rw t (v.counts r)
    ];
    turns = λ r k. elim (Bool-cases (bi == r)) [
      | inl t ↦ rw t (
          tn (
            subst (λ p. InTurn (w0.bindings p).kind (w0.bindings p).members_max)
              (sym (same_of bi r t)) k))
      | inr t ↦ rw t (v.turns r k)
    ];
  }

  with_message_id-Same : (w : Broker N) (n : ℕ) → Same w0 w → Same w0 (record w { message_id = n })
  with_message_id-Same w n v = record {
    sessions = v.sessions;
    queues = v.queues;
    members = v.members;
    limits = v.limits;
    counts = v.counts;
    turns = v.turns;
  }

  abbrev AfterAll : Option (Broker N) → Type 0
  AfterAll none = Unit
  AfterAll (some w) = Same w0 w

  module _ (send : Ptr → Bytes → N → N × Option ℕ) (malloc : N → ℕ → Option Bytes) where
    notified-AfterAll : (o : Outcome (Broker N)) → After w0 o → AfterAll (notified send malloc o).0
    notified-AfterAll (done w r) v = v
    notified-AfterAll crash v = tt
    notified-AfterAll stuck v = tt

    pushed-AfterAll :
        (w : Broker N) (p : Ptr) (c : Option ℕ) (o : Option (MsgQueue × Pushed))
        → c ≡ (w.queues p).callback
        → CallsBack (malloc w.env) c o
        → Same w0 w
        → AfterAll (pushed send malloc w p o).0
    unfolding pushed
    pushed-AfterAll w p c none e k v = tt
    pushed-AfterAll w p c (some (q, rejected)) e k v = with_queue-Same w0 w p q (k ∙ e) v
    pushed-AfterAll w p c (some (q, accepted none)) e k v = with_queue-Same w0 w p q (k.0 ∙ e) v
    pushed-AfterAll w p c (some (q, accepted (some sf))) e k v =
        notified-AfterAll (send_resume send (with_queue w p q) sf)
          (send_resume-After w0 send (with_queue w p q) sf (with_queue-Same w0 w p q (k.0 ∙ e) v))

    deliver-AfterAll :
        (iov : List Bytes) (p : Ptr) (o : Option (Broker N))
        → AfterAll o
        → AfterAll (deliver send malloc iov p o).0
    unfolding deliver
    deliver-AfterAll iov p none v = tt
    deliver-AfterAll iov p (some w) v =
        pushed-AfterAll w p (w.queues p).callback (push_msg (malloc w.env) (w.queues p) iov) refl
          (push_msg-CallsBack (malloc w.env) (w.queues p) iov) v

    enqueued-After :
        (w : Broker N) (bi : Ptr) (r : (Binding × Option (Broker N)) × Bool)
        → Same w0 w
        → Kept AfterAll (w.bindings bi) r
        → After w0 (enqueued send malloc bi r)
    enqueued-After w bi ((b, none), r) v k = tt
    enqueued-After w bi ((b, some w'), r) v k =
        with_binding-Same w' bi b (k.members ∙ v.members bi ∙ sym (k.state.members bi))
          (k.limit ∙ v.limits bi ∙ sym (k.state.limits bi))
          (k.count ∙ v.counts bi ∙ sym (k.state.counts bi)) (λ t. k.turn (v.turns bi t)) k.state

    enqueue_to-After :
        (iov : List Bytes) (w : Broker N) (o : Option Ptr)
        → Same w0 w
        → After w0 (enqueue_to send malloc iov w o)
    unfolding enqueue_to
    enqueue_to-After iov w none v = tt
    enqueue_to-After iov w (some bi) v =
        if-both (After w0) (bi == null) (done w true) _ (λ t. v)
          λ t.
            enqueued-After w bi
              (Binding.push_msg (deliver send malloc iov) (w.bindings bi) (some w)) v
              (push_msg-Kept AfterAll (deliver send malloc iov) (deliver-AfterAll iov)
                (w.bindings bi) (some w) v)

    enqueue-After :
        (fuel : ℕ) (w : Broker N) (dest : Bytes) (iov : List Bytes)
        → Same w0 w
        → After w0 (enqueue send malloc fuel w dest iov)
    unfolding enqueue
    enqueue-After fuel w dest iov v =
        enqueue_to-After iov w (BindingHash.lookup (names w) fuel w.table dest) v

    with_dest-After :
        (w : Broker N) (d : Ret Bytes) (f : Bytes → Outcome (Broker N))
        → Same w0 w
        → ((dest : Bytes) → After w0 (f dest))
        → After w0 (with_dest w d f)
    with_dest-After w (ok dest) f v g = g dest
    with_dest-After w failed f v g = v
    with_dest-After w fault f v g = tt

    send_body-After :
        (fuel : ℕ) (w : Broker N) (msg : Msg) (dest : Bytes) (o : Option Bytes)
        → Same w0 w
        → After w0 (send_body send malloc fuel w msg dest o)
    unfolding send_body
    send_body-After fuel w msg dest none v = v
    send_body-After fuel w msg dest (some body) v =
        let id = count_up w.message_id in
        enqueue-After fuel (record w { message_id = id }) dest
          (make_message id ∷ body_of send malloc msg body ∷ []) (with_message_id-Same w id v)

    pub connected_send-After :
        (fuel : ℕ) (w : Broker N) (msg : Msg)
        → Same w0 w
        → After w0 (connected_send send malloc fuel w msg)
    unfolding connected_send
    connected_send-After fuel w msg v =
        with_dest-After w (destination msg) _ v
          λ dest. send_body-After fuel w msg dest (skip_command msg.buf) v

    answered-After : (w : Broker N) (o : Option ℕ) → Same w0 w → After w0 (answered send malloc w o)
    answered-After w none v = v
    answered-After w (some n) v = v

    pub initial_connect-After :
        (w : Broker N) (sf : Ptr) → Same w0 w → After w0 (initial_connect send malloc w sf)
    unfolding initial_connect
    initial_connect-After w sf v = answered-After _ _ (record {
      sessions = v.sessions;
      queues = v.queues;
      members = v.members;
      limits = v.limits;
      counts = v.counts;
      turns = v.turns;
    })

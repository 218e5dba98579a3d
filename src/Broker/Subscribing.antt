-- ===== src/Broker/Subscribing.antt =====
-- The subscriptions of stomp/stomp_subr.c, and the way of a message from a destination to the sinks.
use lmq.Prelude.{ℕ, ◌*◌, ◌/◌, Bool, true, false, Option, none, some, List, ◌==◌, if◌then◌else◌}
use lmq.Pbuf.{Bytes}
use lmq.Dlist.{Ptr, null}
use lmq.MsgQueue
use lmq.MsgQueue.{MsgQueue, Place, Pushed, rejected, accepted}
use lmq.Binding
use lmq.Binding.{Binding, Kind, topic, queue, first_members_max, create_subscribed}
use lmq.BindingHash
use lmq.Stomp.Text.{codes, has_prefix}
use lmq.Broker.{
  Broker, SessionData, Outcome, done, crash, stuck, and_then, with_session, with_queue,
  with_binding, names, leave, send_resume,
}

-- `1024 * 1024 * 8`
abbrev pub queue_size : ℕ
queue_size = 1024 * 1024 * 8

-- What the allocations of one `stomp_subscribe` return; `junk n` are the pointers that `realloc`
-- leaves behind the old ones for `n` more, or `none` where it fails.
pub record Fresh : Type 0 where
  pub queue : Ptr
  pub block : Option Bytes
  pub binding : Ptr
  pub junk : ℕ → Option (List Ptr)

-- `msgqueue_create`, for the session's `sf`
abbrev pub made_queue : Option MsgQueue → Ptr → Option (Ptr × MsgQueue)
made_queue none p = none
made_queue (some q) p = if p == null then none else some (p, q)

-- `stomp_new_binding`: which kind the name asks for
unfoldable pub kind_of : Bytes → Option Kind
unfolding has_prefix
kind_of dest =
    if has_prefix (codes "/queue/") dest
    then some (queue 0)
    else if has_prefix (codes "/topic/") dest
    then some topic
    else none

module _ {ℓ} {N : Type ℓ} where
  -- The queue of the session, or a new one.
  unfoldable pub queue_for : Fresh → Broker N → Ptr → SessionData → Option (Broker N × Ptr)
  unfolding MsgQueue.create
  queue_for fr w sf ss =
      if ss.msgq == null
      then elim (made_queue (MsgQueue.create fr.block queue_size (some sf)) fr.queue) [
        | none ↦ none
        | some (p, q) ↦ some (with_queue w p q, p)
      ]
      else some (w, ss.msgq)

  -- The end of `stomp_subscribe` with the binding, and its end where there is none, when the queue
  -- is destroyed.
  abbrev pub bound : Broker N → Ptr → SessionData → Ptr → Ptr → Outcome (Broker N)
  bound w sf ss bi mq = done (with_session w sf (some (record ss { bind = bi; msgq = mq }))) true

  abbrev pub unbound : Broker N → Ptr → SessionData → Outcome (Broker N)
  unbound w sf ss = done (with_session w sf (some (record ss { msgq = null }))) false

  unfoldable pub new_from : Broker N → Ptr → Option Binding → Option (Broker N)
  unfolding BindingHash.register
  new_from w p none = none
  new_from w p (some b) =
      let w' = with_binding w p b in
      some (record w' { table = BindingHash.register (names w') w'.table p })

  unfoldable pub new_binding : Fresh → Broker N → Ptr → Bytes → Option (Broker N)
  unfolding new_from create_subscribed kind_of
  new_binding fr w mq dest = elim (kind_of dest) [
    | none ↦ none
    | some k ↦ new_from w fr.binding (
        create_subscribed (if fr.binding == null then false else true)
          (fr.junk (first_members_max / 2)) k dest mq)
  ]

  unfoldable pub joined :
      Fresh → Broker N → Ptr → SessionData → Ptr → Bytes → Option Ptr → Outcome (Broker N)
  unfolding Binding.subscribe new_binding
  joined fr w sf ss mq dest none = stuck
  joined fr w sf ss mq dest (some bi) =
      if bi == null
      then elim (new_binding fr w mq dest) [
        | none ↦ unbound w sf ss
        | some w' ↦ bound w' sf ss fr.binding mq
      ]
      else (let r =
            Binding.subscribe (fr.junk ((w.bindings bi).members_max / 2)) (w.bindings bi) mq in
          let w' = with_binding w bi r.0 in if r.1 then bound w' sf ss bi mq else unbound w' sf ss)

  unfoldable pub subscribe_from :
      ℕ → Fresh → Broker N → Ptr → Bytes → Option SessionData → Outcome (Broker N)
  unfolding joined queue_for BindingHash.lookup
  subscribe_from fuel fr w sf dest none = done w false
  subscribe_from fuel fr w sf dest (some ss) =
      if ss.bind == null
      then elim (queue_for fr w sf ss) [
        | none ↦ done w false
        | some (w', mq) ↦
            joined fr w' sf ss mq dest (BindingHash.lookup (names w') fuel w'.table dest)
      ]
      else done w false

  -- `stomp_subscribe`
  unfoldable pub subscribe : ℕ → Fresh → Broker N → Ptr → Bytes → Outcome (Broker N)
  unfolding subscribe_from
  subscribe fuel fr w sf dest = subscribe_from fuel fr w sf dest (w.sessions sf)

  abbrev pub unbind : Broker N → Ptr → SessionData → Option Ptr → Outcome (Broker N)
  unfolding leave
  unbind w sf ss none = stuck
  unbind w sf ss (some bi) =
      if bi == null
      then done w true
      else if ss.bind == bi
      then if ss.msgq == null
        then done w true
        else (and_then (leave w bi ss.msgq)
            λ w' r. done (with_session w' sf (some (record ss { bind = null }))) true)
      else done w true

  abbrev pub unsubscribe_from : ℕ → Broker N → Ptr → Bytes → Option SessionData → Outcome (Broker N)
  unfolding unbind BindingHash.lookup
  unsubscribe_from fuel w sf dest none = done w false
  unsubscribe_from fuel w sf dest (some ss) =
      unbind w sf ss (BindingHash.lookup (names w) fuel w.table dest)

  -- `stomp_unsubscribe`
  unfoldable pub unsubscribe : ℕ → Broker N → Ptr → Bytes → Outcome (Broker N)
  unfolding unsubscribe_from
  unsubscribe fuel w sf dest = unsubscribe_from fuel w sf dest (w.sessions sf)

  -- What `malloc` returns for a buffer of a queue depends on the environment.
  module _ (send : Ptr → Bytes → N → N × Option ℕ) (malloc : N → ℕ → Option Bytes) where
    abbrev pub notified : Outcome (Broker N) → Option (Broker N) × Bool
    notified (done w r) = (some w, true)
    notified crash = (none, false)
    notified stuck = (none, false)

    -- The sink of a queue: `msgqueue_push_msg`, and the callback `stomp_push_notify`.
    unfoldable pub pushed : Broker N → Ptr → Option (MsgQueue × Pushed) → Option (Broker N) × Bool
    unfolding send_resume
    pushed w p none = (none, false)
    pushed w p (some (q, rejected)) = (some (with_queue w p q), false)
    pushed w p (some (q, accepted none)) = (some (with_queue w p q), true)
    pushed w p (some (q, accepted (some sf))) = notified (send_resume send (with_queue w p q) sf)

    unfoldable pub deliver : List Bytes → Ptr → Option (Broker N) → Option (Broker N) × Bool
    unfolding pushed MsgQueue.push_msg
    deliver iov p none = (none, false)
    deliver iov p (some w) = pushed w p (MsgQueue.push_msg (malloc w.env) (w.queues p) iov)

    abbrev pub enqueued : Ptr → (Binding × Option (Broker N)) × Bool → Outcome (Broker N)
    enqueued bi ((b, none), r) = stuck
    enqueued bi ((b, some w), r) = done (with_binding w bi b) true

    unfoldable pub enqueue_to : List Bytes → Broker N → Option Ptr → Outcome (Broker N)
    unfolding Binding.push_msg deliver
    enqueue_to iov w none = stuck
    enqueue_to iov w (some bi) =
        if bi == null
        then done w true
        else enqueued bi (Binding.push_msg (deliver iov) (w.bindings bi) (some w))

    -- `stomp_enqueue`: a message that finds no binding, or that is refused, is lost silently.
    unfoldable pub enqueue : ℕ → Broker N → Bytes → List Bytes → Outcome (Broker N)
    unfolding enqueue_to BindingHash.lookup
    enqueue fuel w dest iov = enqueue_to iov w (BindingHash.lookup (names w) fuel w.table dest)

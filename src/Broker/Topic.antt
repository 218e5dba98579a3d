-- ===== src/Broker/Topic.antt =====
-- How a message of stomp/stomp_subr.c gets to all subscribers of a topic.
pub mod Pushing
use lmq.Prelude.{
  none, ℕ, ◌+◌, ◌≤◌, ◌<◌, ◌≡◌, ◌≢◌, refl, sym, ap, subst, ◌∙◌, inl, true, Option, some, List, [],
  ◌∷◌, ◌++◌, ◌==◌, length, drop, drop-append_exact, Bool-cases, inr,
}
use lmq.Pbuf.{Bytes, free_len}
use lmq.Dlist.{Ptr, null}
use lmq.MsgQueue.{MsgQueue, header_size, iov_bytes}
use lmq.MsgQueue.Rep.{Holds}
use lmq.MsgQueue.Room.{pbuf_w_of}
use lmq.Binding.{push_all}
use lmq.Binding.Delivery.{members_of}
use lmq.Broker.{Broker, SessionData, Outcome, with_queue, send_resume}
use lmq.Broker.Subscribing.{notified, deliver}
use lmq.Broker.Resume.{TakesBounded, Resumes, refused, partly, wholly, send_resume-Resumes}
use lmq.Broker.Draining.{AllFull, Progress, idle, sending, Works}
use lmq.Broker.Delivering.{deliver-accepts}
use lmq.Broker.Frame.{Near, Framed, with_queue-Near, send_resume-Framed}

-- A session, its queue, and the messages in it.
pub record Subscriber : Type 0 where
  pub sf : Ptr
  pub queue : Ptr
  pub held : List Bytes

abbrev pub queues_of : List Subscriber → List Ptr
queues_of [] = []
queues_of (s ∷ r) = s.queue ∷ queues_of r

-- No other has its session or its queue.
abbrev pub Apart : Subscriber → List Subscriber → Type 0
Apart s [] = Unit {0}
Apart s (t ∷ r) = ((s.sf ≢ t.sf) × (s.queue ≢ t.queue)) × Apart s r

abbrev pub Disjoint : List Subscriber → Type 0
Disjoint [] = Unit {0}
Disjoint (s ∷ r) = Apart s r × Disjoint r

module _ {ℓ} {N : Type ℓ} (send : Ptr → Bytes → N → N × Option ℕ) (malloc : N → ℕ → Option Bytes)
    (bounded : TakesBounded send) (iov : List Bytes) where
  -- The session sends nothing now, and its queue has room for the message.
  pub record Ready (w : Broker N) (s : Subscriber) : Type ℓ where
    pub ss : SessionData
    pub session : w.sessions s.sf ≡ some ss
    pub own : ss.msgq ≡ s.queue
    pub some_queue : s.queue ≢ null
    pub quiet : ss.slen ≡ 0
    pub callback : (w.queues s.queue).callback ≡ some s.sf
    pub holds : Holds (w.queues s.queue) s.held
    pub full : AllFull s.held
    pub room : header_size + length (iov_bytes iov) ≤ free_len (pbuf_w_of (w.queues s.queue))

  -- The oldest message when the new one has joined
  abbrev pub oldest : List Bytes → Bytes
  oldest [] = iov_bytes iov
  oldest (x ∷ xs) = x

  -- What the socket answers in the environment `env`, and how many bytes it took
  abbrev pub asked : N → Subscriber → N × Option ℕ
  asked env s = send s.sf (oldest s.held) env

  abbrev pub count_of : Option ℕ → ℕ
  count_of none = 0
  count_of (some n) = n

  -- The socket was asked in `env` to take the oldest message. What is left to send is all of the
  -- messages and the new one behind them, but for the bytes that it took.
  pub record Delivered (env : N) (w : Broker N) (s : Subscriber) : Type ℓ where
    pub left : List Bytes
    pub k : ℕ
    pub works : Works send w s.sf s.queue left k
    pub order :
        drop k (iov_bytes left)
        ≡ drop (count_of (asked env s).1) (iov_bytes (s.held ++ iov_bytes iov ∷ []))

  abbrev pub AllReady : Broker N → List Subscriber → Type ℓ
  AllReady w [] = Unit
  AllReady w (s ∷ r) = Ready w s × AllReady w r

  -- The sockets were asked one after another, the first of them in `env`.
  abbrev pub AllDelivered : N → Broker N → List Subscriber → Type ℓ
  AllDelivered env w [] = Unit
  AllDelivered env w (s ∷ r) = Delivered env w s × AllDelivered (asked env s).0 w r

  -- A subscriber is as before.
  abbrev pub Spared : Broker N → Broker N → Subscriber → Type 0
  Spared w w' s = (w'.queues s.queue ≡ w.queues s.queue) × (w'.sessions s.sf ≡ w.sessions s.sf)

  pub Ready-Spared : (w w' : Broker N) (s : Subscriber) → Spared w w' s → Ready w s → Ready w' s
  Ready-Spared w w' s same v = record {
    ss = v.ss;
    session = same.1 ∙ v.session;
    own = v.own;
    some_queue = v.some_queue;
    quiet = v.quiet;
    callback = subst (λ (q : MsgQueue). q.callback ≡ some s.sf) (sym same.0) v.callback;
    holds = subst (λ q. Holds q s.held) (sym same.0) v.holds;
    full = v.full;
    room =
        subst (λ q. header_size + length (iov_bytes iov) ≤ free_len (pbuf_w_of q)) (sym same.0)
          v.room;
  }

  pub Delivered-Spared :
      (env : N) (w w' : Broker N) (s : Subscriber)
      → Spared w w' s
      → Delivered env w s
      → Delivered env w' s
  Delivered-Spared env w w' s same v = record {
    left = v.left;
    k = v.k;
    works = record {
      ss = v.works.ss;
      session = same.1 ∙ v.works.session;
      own = v.works.own;
      some_queue = v.works.some_queue;
      holds = subst (λ q. Holds q v.left) (sym same.0) v.works.holds;
      full = v.works.full;
      progress = subst (λ q. Progress q v.works.ss v.left v.k) (sym same.0) v.works.progress;
    };
    order = v.order;
  }

  pub AllDelivered-Spared :
      (env : N) (w w' : Broker N) (subs : List Subscriber)
      → ((s : Subscriber) → Spared w w' s)
      → AllDelivered env w subs
      → AllDelivered env w' subs
  AllDelivered-Spared env w w' [] same v = tt
  AllDelivered-Spared env w w' (s ∷ r) same v = (
    Delivered-Spared env w w' s (same s) v.0,
    AllDelivered-Spared (asked env s).0 w w' r same v.1,
  )

  pub Near-Spared :
      (w w' : Broker N) (s t : Subscriber)
      → (s.sf ≢ t.sf) × (s.queue ≢ t.queue)
      → Near send s.queue s.sf w w'
      → Spared w w' t
  Near-Spared w w' s t ne v =
      (v.queues t.queue (λ e. ne.1 (sym e)), v.sessions t.sf (λ e. ne.0 (sym e)))

  pub AllReady-same :
      (w w' : Broker N) (subs : List Subscriber)
      → ((s : Subscriber) → Spared w w' s)
      → AllReady w subs
      → AllReady w' subs
  AllReady-same w w' [] same v = tt
  AllReady-same w w' (s ∷ r) same v =
      (Ready-Spared w w' s (same s) v.0, AllReady-same w w' r same v.1)

  pub AllReady-Spared :
      (w w' : Broker N) (s : Subscriber) (subs : List Subscriber)
      → Apart s subs
      → Near send s.queue s.sf w w'
      → AllReady w subs
      → AllReady w' subs
  AllReady-Spared w w' s [] a near v = tt
  AllReady-Spared w w' s (t ∷ r) a near v = (
    Ready-Spared w w' t (Near-Spared w w' s t a.0 near) v.0,
    AllReady-Spared w w' s r a.1 near v.1,
  )

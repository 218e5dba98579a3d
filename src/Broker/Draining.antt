-- ===== src/Broker/Draining.antt =====
-- That a session of stomp/stomp_subr.c works off its queue when its socket keeps taking bytes.
use lmq.Prelude.{
  take-drop_append, take-drop_append_exact, ℕ, zero, suc, ◌+◌, ◌-◌, ◌≤◌, ◌<◌, ◌≡◌, ◌≢◌, ◌⊎◌, refl,
  sym, subst, ◌∙◌, inl, inr, true, false, Option, none, some, List, [], ◌∷◌, ◌++◌, ◌==◌, arith,
  length, length-append, drop, length-drop, take, drop-nil, if◌then◌else◌,
}
use lmq.Pbuf.{Bytes}
use lmq.Dlist.{Ptr, null}
use lmq.MsgQueue.{MsgQueue, Place, peek, iov_bytes}
use lmq.MsgQueue.Rep.{Holds}
use lmq.MsgQueue.Read.{Peeks, peek-Peeks}
use lmq.Broker.{Broker, SessionData, Outcome, done, and_then, with_queue, peeked, send_resume}
use lmq.Broker.Handlers.{msg_output}
use lmq.Broker.Resume.{
  IsSending, TakesBounded, Resumes, refused, partly, wholly, send_resume-Resumes,
}

-- No message is empty.
abbrev pub AllFull : List Bytes → Type 0
AllFull [] = Unit {0}
AllFull (m ∷ ms) = (0 < length m) × AllFull ms

-- What the session has of the oldest message: nothing yet, or the bytes behind the first `k`.
pub data Progress (q : MsgQueue) (ss : SessionData) : List Bytes → ℕ → Type 0 where
  idle : {xs : List Bytes} → ss.slen ≡ 0 → Progress q ss xs 0
  sending :
      {m : Bytes} {rest : List Bytes} (k : ℕ) → IsSending q ss m k → Progress q ss (m ∷ rest) k

module _ {ℓ} {N : Type ℓ} (send : Ptr → Bytes → N → N × Option ℕ) where
  -- The session `sf` has the queue `p`, which holds the messages `xs`, and `k` bytes of the oldest one
  -- went out.
  pub record Works (w : Broker N) (sf p : Ptr) (xs : List Bytes) (k : ℕ) : Type ℓ where
    pub ss : SessionData
    pub session : w.sessions sf ≡ some ss
    pub own : ss.msgq ≡ p
    pub some_queue : p ≢ null
    pub holds : Holds (w.queues p) xs
    pub full : AllFull xs
    pub progress : Progress (w.queues p) ss xs k

  -- The socket takes at least one of the bytes that it is given.
  abbrev pub TakesSome : Type ℓ
  TakesSome =
      (sf : Ptr) (b : Bytes) (env : N)
      → 0 < length b
      → (n : ℕ) × ((send sf b env).1 ≡ some n) × (0 < n)

  -- `n` write events of the socket, with nothing else between them, as long as they succeed.
  unfoldable pub outputs : ℕ → Broker N → Ptr → Outcome (Broker N)
  unfolding msg_output
  outputs zero w sf = done w true
  outputs (suc n) w sf =
      and_then (msg_output send w sf) λ w' r. if r then outputs n w' sf else done w' false

  -- The bytes that calls of the socket take, one behind the other
  pub data Takes (sf : Ptr) : N → Bytes → N → Type ℓ where
    stop : (env : N) → Takes sf env [] env
    takes :
        {env env' : N} {bs : Bytes} (b : Bytes) (n : ℕ)
        → (send sf b env).1 ≡ some n
        → Takes sf (send sf b env).0 bs env'
        → Takes sf env (take n b ++ bs) env'

  -- One write event takes less to send, and keeps the rest in order.
  pub record Advances (w : Broker N) (sf p : Ptr) (bs : Bytes) (left : ℕ) (o : Outcome (Broker N))
      : Type ℓ where
    pub after : Broker N
    pub ends : o ≡ done after true
    pub rest : List Bytes
    pub k : ℕ
    pub works : Works after sf p rest k
    pub asked : Bytes
    pub taken : ℕ
    pub answers : (send sf asked w.env).1 ≡ some taken
    pub moves : after.env ≡ (send sf asked w.env).0
    pub gives : bs ≡ take taken asked ++ drop k (iov_bytes rest)
    pub less : length (iov_bytes rest) - k < left

  module _ (bounded : TakesBounded send) (some_bytes : TakesSome) where
    Resumes-Advances :
        (w : Broker N) (sf p : Ptr) (m : Bytes) (k : ℕ) (rest : List Bytes) (o : Outcome (Broker N))
        → p ≢ null
        → AllFull (m ∷ rest)
        → k < length m
        → Resumes send p sf w.env m k rest o
        → Advances w sf p (drop k (iov_bytes (m ∷ rest))) (length (iov_bytes (m ∷ rest)) - k) o
    Resumes-Advances w sf p m k rest o np full lt (refused ss e moves is own v h) =
        let t = some_bytes sf (drop k m) w.env (ground (arith, length-drop k m)) in
        absurd (ground (arith, e, t.1))
    Resumes-Advances w sf p m k rest o np full lt (partly {w = w'} ss n e moves is own v h) =
        let t = some_bytes sf (drop k m) w.env (ground (arith, length-drop k m)) in
        let pos : 0 < n = ground (arith, e, t.1, t.2) in
        record {
          after = w';
          ends = refl;
          rest = m ∷ rest;
          k = k + n;
          works = record {
            ss = ss;
            session = is;
            own = own;
            some_queue = np;
            holds = h;
            full = full;
            progress = sending (k + n) v;
          };
          asked = drop k m;
          taken = n;
          answers = e;
          moves = moves;
          gives = take-drop_append m (iov_bytes rest) k n (k + n) refl (omega (arith, v.total));
          less = omega (arith, v.total, v.some_left, length-append m (iov_bytes rest));
        }
    Resumes-Advances w sf p m k rest o np full lt (wholly {w = w'} ss n e moves all is own end h) =
        record {
          after = w';
          ends = refl;
          rest = rest;
          k = 0;
          works = record {
            ss = ss;
            session = is;
            own = own;
            some_queue = np;
            holds = h;
            full = full.1;
            progress = idle end;
          };
          asked = drop k m;
          taken = n;
          answers = e;
          moves = moves;
          gives = take-drop_append_exact m (iov_bytes rest) k n all;
          less = omega (arith, length-append m (iov_bytes rest));
        }

    Progress-state :
        {q : MsgQueue} {ss : SessionData} {m : Bytes} {rest : List Bytes} {k : ℕ}
        → Progress q ss (m ∷ rest) k
        → ((ss.slen ≡ 0) × (k ≡ 0)) ⊎ IsSending q ss m k
    Progress-state (idle z) = inl (z, refl)
    Progress-state (sending k v) = inr v

    Progress-lt :
        {q : MsgQueue} {ss : SessionData} {m : Bytes} {rest : List Bytes} {k : ℕ}
        → Progress q ss (m ∷ rest) k
        → 0 < length m
        → k < length m
    Progress-lt (idle z) lt = lt
    Progress-lt (sending k v) lt = omega (arith, v.some_left, v.total)

    send_resume-Advances :
        (w : Broker N) (sf p : Ptr) (m : Bytes) (rest : List Bytes) (k : ℕ)
        → Works w sf p (m ∷ rest) k
        → Advances w sf p
            (drop k (iov_bytes (m ∷ rest)))
            (length (iov_bytes (m ∷ rest)) - k)
            (send_resume send w sf)
    send_resume-Advances w sf p m rest k v =
        let h = subst (λ q. Holds (w.queues q) (m ∷ rest)) (sym v.own) v.holds in
        let at_own = subst (λ q. Progress (w.queues q) v.ss (m ∷ rest) k) (sym v.own) v.progress in
        let r =
          send_resume-Resumes send bounded w sf v.ss m k rest v.session
            (λ z. v.some_queue (sym v.own ∙ z)) (Progress-state at_own) h v.full.0 in
        let r = r.0 in
        Resumes-Advances w sf p m k rest (send_resume send w sf) v.some_queue v.full
          (Progress-lt v.progress v.full.0)
          (subst (λ q. Resumes send q sf w.env m k rest (send_resume send w sf)) v.own r)

    Progress-idle :
        {q : MsgQueue} {ss : SessionData} {xs : List Bytes} {k : ℕ}
        → Progress q ss xs k
        → xs ≡ []
        → ss.slen ≡ 0
    Progress-idle (idle z) e = z
    Progress-idle (sending k v) e = cc

    peeked-rests :
        (w : Broker N) (sf : Ptr) (ss : SessionData) (o : Option (MsgQueue × Option (Place × ℕ)))
        → w.sessions sf ≡ some ss
        → ss.msgq ≢ null
        → ss.slen ≡ 0
        → Peeks [] o
        → (w' : Broker N) × (peeked send w sf ss o ≡ done w' true)
          × Works w' sf ss.msgq [] 0
          × (w'.env ≡ w.env)
    unfolding peeked
    peeked-rests w sf ss none e nq z p = absurd p
    peeked-rests w sf ss (some (q, some (place, n))) e nq z (m, rest, eq, p, b, h) = absurd (cc)
    peeked-rests w sf ss (some (q, none)) e nq z (eq, h) =
        let here : (ss.msgq == ss.msgq) ≡ true = ground arith in
        (
          with_queue w ss.msgq q,
          refl,
          record {
            ss = ss;
            session = e;
            own = refl;
            some_queue = nq;
            holds = rw here h;
            full = tt;
            progress = idle z;
          },
          refl,
        )

    -- On an empty queue, nothing happens.
    rests :
        (w : Broker N) (sf p : Ptr) (k : ℕ)
        → Works w sf p [] k
        → (w' : Broker N) × (send_resume send w sf ≡ done w' true)
          × Works w' sf p [] 0
          × (w'.env ≡ w.env)
    unfolding send_resume
    rests w sf p k v =
        let nq : v.ss.msgq ≢ null = λ z. v.some_queue (sym v.own ∙ z) in
        let t : (v.ss.msgq == null) ≡ false = ground arith in
        let empty = Progress-idle v.progress refl in
        let z : (v.ss.slen == 0) ≡ true = ground arith in
        let h = subst (λ q. Holds (w.queues q) []) (sym v.own) v.holds in
        let (w', ends, works, still) =
          peeked-rests w sf v.ss (peek (w.queues v.ss.msgq)) v.session nq empty
            (peek-Peeks (w.queues v.ss.msgq) [] h) in
        (w', rw v.session (rw t (rw z ends)), subst (λ q. Works w' sf q [] 0) v.own works, still)

    at_rest : {w : Broker N} {sf p : Ptr} {k : ℕ} → Works w sf p [] k → Works w sf p [] 0
    at_rest v = record {
      ss = v.ss;
      session = v.session;
      own = v.own;
      some_queue = v.some_queue;
      holds = v.holds;
      full = tt;
      progress = idle (Progress-idle v.progress refl);
    }

    -- If the socket of a session takes at least one byte whenever it is asked, and its queue holds
    -- messages that are not empty, then as many write events as there are bytes to send, or more,
    -- empty the queue. Each of them succeeds, the calls of the socket have taken all these bytes, one
    -- behind the other in the order of the messages, and at the end the session sends nothing.
    pub outputs-Works :
        (n : ℕ) (w : Broker N) (sf p : Ptr) (xs : List Bytes) (k : ℕ)
        → Works w sf p xs k
        → length (iov_bytes xs) - k ≤ n
        → (w' : Broker N) × (outputs n w sf ≡ done w' true)
          × Works w' sf p [] 0
          × Takes sf w.env (drop k (iov_bytes xs)) w'.env
    unfolding outputs
    outputs-Works zero w sf p [] k v le =
        (w, refl, at_rest v, rw (drop-nil {A = ℕ} k [] (omega arith)) (stop w.env))
    outputs-Works zero w sf p (m ∷ rest) k v le =
        let lt = Progress-lt v.progress v.full.0 in
        absurd (omega (arith, length-append m (iov_bytes rest), lt))
    outputs-Works (suc n) w sf p [] k v le =
        let (w', ends, works, still) = rests w sf p k v in
        let (last, all, end, took) = outputs-Works n w' sf p [] 0 works (omega arith) in
        (
          last,
          rw ends all,
          end,
          rw (drop-nil {A = ℕ} k [] (omega arith)) (subst (λ e. Takes sf e [] last.env) still took),
        )
    outputs-Works (suc n) w sf p (m ∷ rest) k v le =
        let a = send_resume-Advances w sf p m rest k v in
        let (last, all, end, took) =
          outputs-Works n a.after sf p a.rest a.k a.works (omega (arith, a.less)) in
        (
          last,
          rw a.ends all,
          end,
          rw a.gives (
              takes a.asked a.taken a.answers
                (subst (λ e. Takes sf e (drop a.k (iov_bytes a.rest)) last.env) a.moves took)),
        )

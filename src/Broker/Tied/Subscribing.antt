-- ===== src/Broker/Tied/Subscribing.antt =====
-- That `stomp_subscribe` of stomp/stomp_subr.c keeps it tied.
use lmq.Prelude.{
  subst, ℕ, ◌/◌, ◌≡◌, ◌≢◌, refl, sym, ◌∙◌, false, Option, none, some, ◌==◌, if-both, arith,
}
use lmq.Pbuf.{Bytes}
use lmq.Dlist.{Ptr, null}
use lmq.Binding
use lmq.Binding.{Binding, Kind, first_members_max, create_subscribed}
use lmq.Binding.Growing.{subscribe-Joins}
use lmq.BindingHash
use lmq.Broker.{Broker, SessionData, done, names}
use lmq.Broker.Subscribing.{
  Fresh, queue_for, bound, unbound, new_binding, joined, subscribe_from, subscribe,
}
use lmq.Broker.Tied.{Tied}
use lmq.Broker.Tied.Parting.{KeepsTied}
use lmq.Broker.Tied.Adding.{unbound-KeepsTied, added-Tied, new-Tied}
use lmq.Broker.Tied.Making.{
  IsFresh, Queued, queued, Made, made, with_table-Tied, new_binding-Made, queue_for-Queued,
}

module _ {ℓ} {N : Type ℓ} where
  module _ (fr : Fresh) (w : Broker N) (sf : Ptr) (ss : SessionData) (t : Tied w)
      (is : w.sessions sf ≡ some ss) (free : ss.bind ≡ null) (mq : Ptr) (some_queue : mq ≢ null)
      (calls_it : (w.queues mq).callback ≡ some sf) (fresh : IsFresh fr w) where
    Made-KeepsTied :
        (o : Option (Broker N))
        → Made fr w sf ss mq o
        → KeepsTied (elim o [ none ↦ unbound w sf ss | some w' ↦ bound w' sf ss fr.binding mq ])
    Made-KeepsTied none _ = unbound-KeepsTied w sf ss t is free
    Made-KeepsTied (some _) (made b table ne l) = with_table-Tied _ table (
        new-Tied w sf ss t is free mq some_queue calls_it fr.binding b ne
          (λ s x there. fresh.binding s x there ne) l)

    joined-KeepsTied : (dest : Bytes) (o : Option Ptr) → KeepsTied (joined fr w sf ss mq dest o)
    unfolding joined
    joined-KeepsTied dest none = tt
    joined-KeepsTied dest (some bi) =
        let b = w.bindings bi in
        let junk = fr.junk (b.members_max / 2) in
        if-both KeepsTied (bi == null) _ _
          (λ e.
            Made-KeepsTied (new_binding fr w mq dest)
              (new_binding-Made fr w sf ss mq dest some_queue))
          λ e.
            added-Tied w sf ss t is free mq some_queue calls_it bi (Binding.subscribe junk b mq)
              (ground arith) (subscribe-Joins mq some_queue junk b (t.valid bi) (fresh.room bi))

  module _ (fr : Fresh) (w : Broker N) (sf : Ptr) (t : Tied w) (fresh : IsFresh fr w) (fuel : ℕ)
      (dest : Bytes) where
    Queued-KeepsTied :
        (ss : SessionData) (o : Option (Broker N × Ptr))
        → w.sessions sf ≡ some ss
        → ss.bind ≡ null
        → Queued fr w sf ss o
        → KeepsTied (elim o [
          | none ↦ done w false
          | some r ↦
              joined fr r.0 sf ss r.1 dest (BindingHash.lookup (names r.0) fuel r.0.table dest)
        ])
    Queued-KeepsTied ss none is free q = t
    Queued-KeepsTied ss (some _) is free (queued w' mq t' same same_bindings ne calls_it) =
        joined-KeepsTied fr w' sf ss t' (same sf ∙ is) free mq ne calls_it
          (record {
            queue = λ s x there k. fresh.queue s x (sym (same s) ∙ there) k;
            binding = λ s x there k. fresh.binding s x (sym (same s) ∙ there) k;
            room = λ b k.
                fresh.room b
                  (subst (λ (c : Binding). c.members_count ≡ c.members_max) (same_bindings b) k);
          })
          dest (BindingHash.lookup (names w') fuel w'.table dest)

    subscribe_from-KeepsTied :
        (o : Option SessionData)
        → w.sessions sf ≡ o
        → KeepsTied (subscribe_from fuel fr w sf dest o)
    unfolding subscribe_from
    subscribe_from-KeepsTied none is = t
    subscribe_from-KeepsTied (some ss) is =
        if-both KeepsTied (ss.bind == null) _ (done w false)
          (λ e.
            Queued-KeepsTied ss (queue_for fr w sf ss) is (ground arith)
              (queue_for-Queued fr w sf ss t is fresh))
          λ e. t

    pub subscribe-KeepsTied : KeepsTied (subscribe fuel fr w sf dest)
    unfolding subscribe
    subscribe-KeepsTied = subscribe_from-KeepsTied (w.sessions sf) refl

-- ===== src/Broker/Tied/Leaving.antt =====
-- That the operations of stomp/stomp_subr.c that end a subscription or a session keep it tied.
use lmq.Prelude.{ℕ, ◌≡◌, ◌≢◌, refl, subst, true, Option, none, some, ◌==◌, if-both, arith}
use lmq.Pbuf.{Bytes}
use lmq.Dlist.{Ptr, null}
use lmq.Binding
use lmq.Binding.{Unsubscribed, reads_freed, kept}
use lmq.Binding.Delivery.{Unsubscribes, unsubscribe-Unsubscribes}
use lmq.BindingHash
use lmq.Broker.{
  Broker, SessionData, Outcome, done, and_then, names, with_session, left, leave, destroy_from,
  destroy_session,
}
use lmq.Broker.Subscribing.{unbind, unsubscribe_from, unsubscribe}
use lmq.Binding.Turns.{InOrder-IsValid}
use lmq.Broker.Tied.{Tied}
use lmq.Broker.Tied.Parting.{KeepsTied, same_of, unbound-Tied, left-Tied}

module _ {ℓ} {N : Type ℓ} (w : Broker N) (sf : Ptr) (t : Tied w) where
  module _ (ss : SessionData) (is : w.sessions sf ≡ some ss) where
    left-KeepsTied :
        (o : Option SessionData) (u : Unsubscribed)
        → ss.bind ≢ null
        → ((x : SessionData) → o ≡ some x → (x.bind ≡ null) × (x.msgq ≡ ss.msgq))
        → Unsubscribes ss.msgq (w.bindings ss.bind).members (w.bindings ss.bind).members_count u
        → KeepsTied (and_then (left w ss.bind u) λ w' r. done (with_session w' sf o) true)
    left-KeepsTied o reads_freed ne new u = tt
    left-KeepsTied o (kept ms c) ne new u = left-Tied w sf ss ms c t is ne u o new

    leave-KeepsTied :
        (o : Option SessionData)
        → ss.bind ≢ null
        → ((x : SessionData) → o ≡ some x → (x.bind ≡ null) × (x.msgq ≡ ss.msgq))
        → KeepsTied (and_then (leave w ss.bind ss.msgq) λ w' r. done (with_session w' sf o) true)
    unfolding leave
    leave-KeepsTied o ne new =
        left-KeepsTied o (Binding.unsubscribe (w.bindings ss.bind) ss.msgq) ne new (
          unsubscribe-Unsubscribes (w.bindings ss.bind) ss.msgq (t.bound sf ss is ne).0
            (InOrder-IsValid (t.valid ss.bind)))

    only_data : (x : SessionData) → w.sessions sf ≡ some x → ss ≡ x
    only_data x e = cc

  destroy_from-KeepsTied :
      (o : Option SessionData) → w.sessions sf ≡ o → KeepsTied (destroy_from w sf o)
  unfolding destroy_from
  destroy_from-KeepsTied none is = t
  destroy_from-KeepsTied (some ss) is =
      let next =
        λ (o : Outcome (Broker N)). and_then o λ w' r. done (with_session w' sf none) true in
      if-both (λ (o : Outcome (Broker N)). KeepsTied (next o)) (ss.bind == null) (done w true)
        (leave w ss.bind ss.msgq)
        (λ e.
          unbound-Tied w sf none t (λ x there. ground (arith, only_data ss is x there, e))
            λ x k. absurd (cc))
        λ e. leave-KeepsTied ss is none (ground arith) λ x k. absurd (cc)

  pub destroy_session-KeepsTied : KeepsTied (destroy_session w sf)
  unfolding destroy_session
  destroy_session-KeepsTied = destroy_from-KeepsTied (w.sessions sf) refl

  unbind-KeepsTied :
      (ss : SessionData) (o : Option Ptr) → w.sessions sf ≡ some ss → KeepsTied (unbind w sf ss o)
  unfolding leave
  unbind-KeepsTied ss none is = tt
  unbind-KeepsTied ss (some bi) is =
      let gone : SessionData = record ss { bind = null } in
      let next =
        λ (o : Outcome (Broker N)). and_then o λ w' r. done (with_session w' sf (some gone)) true in
      if-both KeepsTied (bi == null) (done w true) _ (λ e. t)
        λ some_bi.
          if-both KeepsTied (ss.bind == bi) _ (done w true)
            (λ e.
              if-both KeepsTied (ss.msgq == null) (done w true) (next (leave w bi ss.msgq)) (λ k. t)
                λ k.
                  let same = same_of ss.bind bi e in
                  subst (λ b. KeepsTied (next (leave w b ss.msgq))) same
                    (leave-KeepsTied ss is (some gone) (ground arith) λ x m. ground (arith, m)))
            λ e. t

  unsubscribe_from-KeepsTied :
      (fuel : ℕ) (dest : Bytes) (o : Option SessionData)
      → w.sessions sf ≡ o
      → KeepsTied (unsubscribe_from fuel w sf dest o)
  unfolding leave BindingHash.lookup
  unsubscribe_from-KeepsTied fuel dest none is = t
  unsubscribe_from-KeepsTied fuel dest (some ss) is =
      unbind-KeepsTied ss (BindingHash.lookup (names w) fuel w.table dest) is

  pub unsubscribe-KeepsTied : (fuel : ℕ) (dest : Bytes) → KeepsTied (unsubscribe fuel w sf dest)
  unfolding unsubscribe
  unsubscribe-KeepsTied fuel dest = unsubscribe_from-KeepsTied fuel dest (w.sessions sf) refl

-- ===== src/Main/Loop/Firing.antt =====
-- Which timers `sf_timer_execute` of libsf/sf_timer.c fires.
use lmq.Prelude.{
  ℕ, zero, suc, ◌<◌, ◌≡◌, ◌≢◌, refl, sym, ap, subst, ◌∙◌, inl, inr, Bool, true, false, Option, none,
  some, List, [], ◌∷◌, ◌==◌, Bool-cases, arith, length,
}
use lmq.Dlist.{Ptr, null, Heap, mem, unlink}
use lmq.Dlist.Seg.{Seg, nil, cons}
use lmq.Dlist.Unlink.{erase}
use lmq.Proto.{ProtoCb}
use lmq.Proto
use lmq.Timer.{Timers, TimeVal, Func, session_timeout, close, earlier, unregister}
use lmq.Timer.Removing.{IsListed, unregister-IsListed}
use lmq.Session.Traffic
use lmq.Socket.Instance.{Instance, pcb_of}
use lmq.Socket.Events.{with_sessions, Run, done, crash, and_then}
use lmq.Main.{destroy_session}
use lmq.Main.Loop.{with_timers, call, fire, execute_from, execute}
use lmq.Main.Loop.Calm.{Quiet, Calm, calm, crashed, call-Calm}

head_is :
    {h : Heap} {prev p t : Ptr} {ts : List Ptr}
    → Seg h prev p (t ∷ ts)
    → (p ≡ t) × (t ≢ null) × (mem t ts ≡ false)
head_is (cons ne back out s) = (refl, ne, out)

head_null : {h : Heap} {prev p : Ptr} → Seg h prev p [] → p ≡ null
head_null nil = refl

erase_head : (t : Ptr) (ts : List Ptr) → erase t (t ∷ ts) ≡ ts
unfolding erase
erase_head t ts = ground arith

-- Behind the first timer, which was taken out, follows the new head.
next_head :
    (ti : Timers) (t : Ptr)
    → ti.head ≡ t
    → ((unregister ti t).links t).next ≡ (unregister ti t).head
unfolding unregister unlink
next_head ti t e = ground arith

module _ {ℓ} {S : Type ℓ} (fuel : ℕ) (now : TimeVal) where
  -- What a timer's function does when the timer is off the list: nothing if there is none, and else
  -- the timeout of the session's protocol or the end of the session.
  pub data Called (w : Instance S) (t : Ptr) : Option Func → Run (Instance S) → Type ℓ where
    nothing : Called w t none (done w true)
    times_out : Called w t (some session_timeout) (
        done
          (with_sessions
            (Proto.proto_timeout (pcb_of w.sockets (w.sessions.info t).sock) t w.sessions).0
            w)
          true)
    closes : (r : Run (Instance S)) → r ≡ destroy_session fuel w t → Called w t (some close) r

  call-Called : (w : Instance S) (t : Ptr) (f : Option Func) → Called w t f (call fuel w t f)
  unfolding call Traffic.session_timeout
  call-Called w t none = nothing
  call-Called w t (some session_timeout) = times_out
  call-Called w t (some close) = closes _ refl

  -- The instance without this timer in its list
  abbrev pub without : Ptr → Instance S → Instance S
  without t w = with_timers (unregister w.sessions.timers t) w

  fire-Called :
      (w : Instance S) (t : Ptr) (r : Run (Instance S))
      → fire fuel w t ≡ r
      → Called (without t w) t (w.sessions.timers.func t) r
  unfolding fire
  fire-Called w t r e =
      subst (Called (without t w) t (w.sessions.timers.func t)) e
        (call-Called (without t w) t (w.sessions.timers.func t))

  -- The timers `ts` are fired one by one as long as they are due. Each is off the list when its
  -- function is called, and the list holds those behind it when that is done. A session may be
  -- closed only if its socket is there.
  pub data Fired : List Ptr → Instance S → Run (Instance S) → Type ℓ where
    none_left : (w : Instance S) → Fired [] w (done w true)
    ahead :
        {t : Ptr} {ts : List Ptr} (w : Instance S)
        → earlier now (w.sessions.timers.time t) ≡ true
        → Fired (t ∷ ts) w (done w true)
    fired :
        {t : Ptr} {ts : List Ptr} {w w' : Instance S} {ok : Bool} {r : Run (Instance S)}
        → earlier now (w.sessions.timers.time t) ≡ false
        → Called (without t w) t (w.sessions.timers.func t) (done w' ok)
        → IsListed w'.sessions.timers ts
        → w'.sessions.timers.time ≡ w.sessions.timers.time
        → Fired ts w' r
        → Fired (t ∷ ts) w r
    broken :
        {t : Ptr} {ts : List Ptr} {w : Instance S}
        → earlier now (w.sessions.timers.time t) ≡ false
        → w.sessions.timers.func t ≡ some close
        → Called (without t w) t (w.sessions.timers.func t) crash
        → Fired (t ∷ ts) w crash

  fired_next :
      {t : Ptr} {ts : List Ptr} (w : Instance S) (ti : Timers) (r : Run (Instance S))
      (next : Instance S → Run (Instance S))
      → earlier now (w.sessions.timers.time t) ≡ false
      → IsListed ti ts
      → ti.time ≡ w.sessions.timers.time
      → ((w' : Instance S) → w'.sessions.timers ≡ ti → Quiet w'.sockets → Fired ts w' (next w'))
      → fire fuel w t ≡ r
      → Calm ti (w.sessions.timers.func t) r
      → Fired (t ∷ ts) w (and_then r λ w' ok. next w')
  fired_next {t = t} w ti _ next due l same go_on is (calm {w = w'} e v) =
      fired due (fire-Called w t _ is) (rw e l) (ap (λ (k : Timers). k.time) e ∙ same)
        (go_on w' e v)
  fired_next {t = t} w ti _ next due l same go_on is (crashed e) =
      broken due e (fire-Called w t _ is)

  execute_from-Fired :
      (rounds : ℕ) (ts : List Ptr) (w : Instance S) (p : Ptr)
      → IsListed w.sessions.timers ts
      → Quiet w.sockets
      → length ts < rounds
      → length ts < fuel
      → w.sessions.timers.head ≡ p
      → Fired ts w (execute_from fuel rounds w now p)
  unfolding execute_from fire
  execute_from-Fired zero ts w p l v few enough first = absurd (omega arith)
  execute_from-Fired (suc rounds) [] w p l v few enough first =
      let none_there : (p == null) ≡ true = ground (arith, first, head_null l.chain) in
      rw none_there (none_left w)
  execute_from-Fired (suc rounds) (t ∷ ts) w p l v few enough first =
      let (e, ne, out) = head_is l.chain in
      let here : t ≡ p = sym e ∙ first in
      let some_timer : (p == null) ≡ false = ground arith in
      let ti = unregister w.sessions.timers t in
      rw some_timer (elim (Bool-cases (earlier now (w.sessions.timers.time p))) [
        | inl a ↦ rw a (ahead w (rw here a))
        | inr due ↦
            let same : erase t (t ∷ ts) ≡ ts = erase_head t ts in
            let l' : IsListed ti ts = rw (sym same) (unregister-IsListed t l (ground arith)) in
            rw due (
              rw (sym here) (
                fired_next {t = t} w ti (fire fuel w t)
                  (λ w'. execute_from fuel rounds w' now (w'.sessions.timers.links t).next)
                  (rw here due) l' refl
                  (λ w' k q.
                    execute_from-Fired rounds ts w' (w'.sessions.timers.links t).next (rw k l') q
                      (omega arith) (omega arith) (rw k (sym (next_head w.sessions.timers t e))))
                  refl
                  (call-Calm fuel t l' (omega arith) out ne (with_timers ti w)
                    (w.sessions.timers.func t) refl v)))
      ])

  -- On a list of fewer timers than there is fuel, and if the protocols leave the timers alone,
  -- `sf_timer_execute` ends. It fires the timers from the first on, one by one, as long as they are
  -- due. Each is off the list when its function is called: that is the timeout of the session's
  -- protocol, the end of the session, or nothing if it has none. The list holds the timers behind it
  -- when that is done. It crashes only at a timer that closes its session.
  pub execute-Fired :
      (ts : List Ptr) (w : Instance S)
      → IsListed w.sessions.timers ts
      → Quiet w.sockets
      → length ts < fuel
      → Fired ts w (execute fuel w now)
  unfolding execute
  execute-Fired ts w l v enough =
      execute_from-Fired fuel ts w w.sessions.timers.head l v enough enough refl

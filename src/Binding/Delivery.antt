-- ===== src/Binding/Delivery.antt =====
-- Which members the push functions and the unsubscription of binding.c reach.
use lmq.Prelude.{
  true, ℕ, zero, suc, ◌+◌, ◌-◌, ◌%◌, ◌≤◌, ◌<◌, ◌≡◌, ◌≢◌, ◌⊎◌, refl, sym, subst, ◌∙◌, inl, inr, Bool,
  false, List, [], ◌∷◌, ◌++◌, append_assoc, append-nil, ◌==◌, leb, if◌then◌else◌, Bool-cases, arith,
  length, get_or,
}
use lmq.Dlist.{Ptr, null}
use lmq.Binding.{
  Binding, push_all, topic_push, next_member, Unsubscribed, reads_freed, kept, after, clear_from,
  unsubscribe, topic, queue, queue_push, push_msg,
}
use lmq.Binding.Members.{IsValid, count, times}

-- The members, without the NULLs, in order.
unfoldable pub members_of : List Ptr → List Ptr
members_of [] = []
members_of (p ∷ ps) = if p == null then members_of ps else p ∷ members_of ps

-- Sinks that note their calls, some of which fail.
abbrev pub noting : (Ptr → Bool) → Ptr → List Ptr → List Ptr × Bool
noting accepts p log = (log ++ p ∷ [], accepts p)

unfoldable pub refusals : (Ptr → Bool) → List Ptr → ℕ
refusals accepts [] = 0
refusals accepts (p ∷ ps) = (if accepts p then 0 else 1) + refusals accepts ps

push_all-log :
    (accepts : Ptr → Bool) (ms : List Ptr) (errors : ℕ) (log : List Ptr)
    → push_all (noting accepts) ms errors log
      ≡ (log ++ members_of ms, errors + refusals accepts (members_of ms))
unfolding push_all members_of refusals
push_all-log accepts [] errors log =
    let e : log ≡ log ++ [] = sym (append-nil log) in
    let f : errors ≡ errors + 0 = omega arith in λ i. (e i, f i)
push_all-log accepts (p ∷ ps) errors log =
    let e = append_assoc log (p ∷ []) (members_of ps) in
    let rest = refusals accepts (members_of ps) in
    elim (Bool-cases (p == null)) [
      | inl n ↦ rw n (push_all-log accepts ps errors log)
      | inr n ↦ rw n (elim (Bool-cases (accepts p)) [
        | inl a ↦
            let f : errors + rest ≡ errors + (0 + rest) = omega arith in
            rw a (push_all-log accepts ps errors (log ++ p ∷ []) ∙ λ i. (e i, f i))
        | inr a ↦
            let f : errors + 1 + rest ≡ errors + (1 + rest) = omega arith in
            rw a (push_all-log accepts ps (errors + 1) (log ++ p ∷ []) ∙ λ i. (e i, f i))
      ])
    ]

-- A message that is pushed to a topic reaches every member once, in the order of their places,
-- also behind members that fail, and the push succeeds exactly if no member fails.
pub topic_push-log :
    (accepts : Ptr → Bool) (ms log : List Ptr)
    → topic_push (noting accepts) ms log
      ≡ (log ++ members_of ms, refusals accepts (members_of ms) == 0)
unfolding topic_push
topic_push-log accepts ms log =
    let n = refusals accepts (members_of ms) in
    let e : leb (0 + n) 0 ≡ (n == 0) = ground arith in
    rw (push_all-log accepts ms 0 log) (λ i. (log ++ members_of ms, e i))

-- `biq_round` after `d` steps of the loop.
unfoldable pub turn : ℕ → ℕ → ℕ → ℕ
turn members round zero = round
turn members round (suc d) = turn members ((round + 1) % members) d

-- The places from `biq_round` on, before the one that is `d` steps further, have no member.
abbrev pub Passed : ℕ → List Ptr → ℕ → ℕ → Type 0
Passed members ms round d = (e : ℕ) → e < d → get_or ms (turn members round e) null ≡ null

pub data Chosen (members : ℕ) (ms : List Ptr) (i round : ℕ) : ℕ × Ptr → Type 0 where
  nobody : Passed members ms round i → Chosen members ms i round (turn members round i, null)
  member :
      (d : ℕ)
      → d < i
      → Passed members ms round d
      → get_or ms (turn members round d) null ≢ null
      → Chosen members ms i round
          (turn members round (suc d), get_or ms (turn members round d) null)

Passed-suc :
    (members : ℕ) (ms : List Ptr) (round d : ℕ)
    → get_or ms round null ≡ null
    → Passed members ms ((round + 1) % members) d
    → Passed members ms round (suc d)
unfolding turn
Passed-suc members ms round d h p zero lt = h
Passed-suc members ms round d h p (suc e) lt = p e (omega arith)

pass :
    (members : ℕ) (ms : List Ptr) (i round : ℕ) {r : ℕ × Ptr}
    → get_or ms round null ≡ null
    → Chosen members ms i ((round + 1) % members) r
    → Chosen members ms (suc i) round r
unfolding turn
pass members ms i round h (nobody p) = nobody (Passed-suc members ms round i h p)
pass members ms i round h (member d lt p ne) =
    member (suc d) (omega arith) (Passed-suc members ms round d h p) ne

-- A message that is pushed to a queue goes to the first member from `biq_round` on, in cyclic
-- order, and `biq_round` moves behind it. There is none only if all the places that the loop looks
-- at are NULL.
pub next_member-Chosen :
    (members : ℕ) (ms : List Ptr) (i round : ℕ)
    → Chosen members ms i round (next_member members ms i round)
unfolding next_member turn
next_member-Chosen members ms zero round = nobody λ e lt. absurd (omega arith)
next_member-Chosen members ms (suc i) round = elim (Bool-cases (get_or ms round null == null)) [
  | inl e ↦ rw e (
      pass members ms i round (ground arith)
        (next_member-Chosen members ms i ((round + 1) % members)))
  | inr e ↦ rw e (member 0 (omega arith) (λ e lt. absurd (omega arith)) (ground arith))
]

-- After as many steps as places without a member are passed, the member at the next place is chosen,
-- and the turn moves behind it.
pub next_member-first :
    (members : ℕ) (ms : List Ptr) (i round d : ℕ)
    → d < i
    → Passed members ms round d
    → get_or ms (turn members round d) null ≢ null
    → next_member members ms i round
      ≡ (turn members round (suc d), get_or ms (turn members round d) null)
unfolding next_member turn
next_member-first members ms zero round d lt p ne = absurd (omega arith)
next_member-first members ms (suc i) round zero lt p ne =
    let here : (get_or ms round null == null) ≡ false = ground arith in rw here refl
next_member-first members ms (suc i) round (suc d) lt p ne =
    let skip : (get_or ms round null == null) ≡ true = ground (arith, p 0 (omega arith)) in
    rw skip (
      next_member-first members ms i ((round + 1) % members) d (omega arith)
        (λ e l. p (suc e) (omega arith)) ne)

-- What an unsubscription leaves of these places, of which `c` members were counted.
pub record Leaves (sink : Ptr) (ms : List Ptr) (c : ℕ) (ms' : List Ptr) (c' : ℕ) : Type 0 where
  pub same_length : length ms' ≡ length ms
  pub gone : times sink ms' ≡ 0
  pub others : (a : Ptr) → a ≢ null → a ≢ sink → times a ms' ≡ times a ms
  pub members : count ms' + times sink ms ≡ count ms
  pub counted : c' + times sink ms ≡ c
  pub some_left : (times sink ms ≡ 0) ⊎ (0 < c')

abbrev pub Unsubscribes : Ptr → List Ptr → ℕ → Unsubscribed → Type 0
Unsubscribes sink ms c reads_freed = (0 < c) × (times sink ms ≡ c)
Unsubscribes sink ms c (kept ms' c') = Leaves sink ms c ms' c'

times-le-count : (a : Ptr) (ms : List Ptr) → a ≢ null → times a ms ≤ count ms
unfolding times count
times-le-count a [] ne = omega arith
times-le-count a (p ∷ ps) ne = ground (arith, times-le-count a ps ne)

after_cleared :
    (sink : Ptr) (ps : List Ptr) (c : ℕ) (r : Unsubscribed)
    → sink ≢ null
    → 1 < c
    → Unsubscribes sink ps (c - 1) r
    → Unsubscribes sink (sink ∷ ps) c (after null r)
unfolding times count
after_cleared sink ps c reads_freed ne lt u = ground (arith, u)
after_cleared sink ps c (kept ms c') ne lt u = record {
  same_length = ground (arith, u.same_length);
  gone = ground (arith, u.gone);
  others = λ a na ns. ground (arith, u.others a na ns);
  members = ground (arith, u.members);
  counted = ground (arith, u.counted);
  some_left = ground (arith, u.some_left, u.counted);
}

after_other :
    (sink p : Ptr) (ps : List Ptr) (c : ℕ) (r : Unsubscribed)
    → (p == sink) ≡ false
    → Unsubscribes sink ps c r
    → Unsubscribes sink (p ∷ ps) c (after p r)
unfolding times count
after_other sink p ps c reads_freed e u = ground (arith, u)
after_other sink p ps c (kept ms c') e u = record {
  same_length = ground (arith, u.same_length);
  gone = ground (arith, u.gone);
  others = λ a na ns. ground (arith, u.others a na ns);
  members = ground (arith, u.members);
  counted = ground (arith, u.counted);
  some_left = ground (arith, u.some_left, u.counted);
}

last_cleared : (sink : Ptr) (ps : List Ptr) → sink ≢ null → count ps ≤ 0 → 1 + times sink ps ≡ 1
last_cleared sink ps ne le = ground (arith, times-le-count sink ps ne)

clear_from-Unsubscribes :
    (sink : Ptr) (ms : List Ptr) (c : ℕ)
    → sink ≢ null
    → count ms ≤ c
    → Unsubscribes sink ms c (clear_from sink ms c)
unfolding clear_from times count
clear_from-Unsubscribes sink [] c ne le = record {
  same_length = refl;
  gone = refl;
  others = λ a na ns. refl;
  members = omega arith;
  counted = omega arith;
  some_left = inl refl;
}
clear_from-Unsubscribes sink (p ∷ ps) c ne le = elim (Bool-cases (p == sink)) [
  | inl e ↦
      let same : p ≡ sink = ground arith in
      let fewer : count ps + 1 ≤ c = ground arith in
      elim (Bool-cases (c == 1)) [
        | inl last ↦
            let times_one = last_cleared sink ps ne (ground arith) in
            rw e (rw last (omega arith, ground (arith, e, times_one)))
        | inr more ↦
            let u = clear_from-Unsubscribes sink ps (c - 1) ne (omega arith) in
            rw e (
              rw more (
                subst (λ q. Unsubscribes sink (q ∷ ps) c (after null (clear_from sink ps (c - 1))))
                  (sym same)
                  (after_cleared sink ps c (clear_from sink ps (c - 1)) ne (ground (arith, le)) u)))
      ]
  | inr e ↦ rw e (
      after_other sink p ps c (clear_from sink ps c) e
        (clear_from-Unsubscribes sink ps c ne (ground arith)))
]

-- Unsubscribing a sink from a valid binding clears every place of it, keeps every other member, and
-- lowers the count by the number of cleared places. If the binding has members and all of them are
-- this sink, then it is destroyed in the middle of the loop, which reads it once more.
pub unsubscribe-Unsubscribes :
    (b : Binding) (sink : Ptr)
    → sink ≢ null
    → IsValid b
    → Unsubscribes sink b.members b.members_count (unsubscribe b sink)
unfolding unsubscribe
unsubscribe-Unsubscribes b sink ne v =
    clear_from-Unsubscribes sink b.members b.members_count ne (ground (arith, v.counted))

-- A push to a topic is one to all its members.
pub push_msg-topic {ℓ} :
    {S : Type ℓ} (deliver : Ptr → S → S × Bool) (b : Binding) (s : S)
    → b.kind ≡ topic
    → push_msg deliver b s
      ≡ ((b, (topic_push deliver b.members s).0), (topic_push deliver b.members s).1)
unfolding push_msg
push_msg-topic deliver b s e = rw e refl

-- A push to a queue is one to the next member, and turns the queue.
pub push_msg-queue {ℓ} :
    {S : Type ℓ} (deliver : Ptr → S → S × Bool) (b : Binding) (s s' : S) (round turned : ℕ)
    (p : Ptr) (r : Bool)
    → b.kind ≡ queue round
    → next_member b.members_max b.members b.members_max round ≡ (turned, p)
    → p ≢ null
    → deliver p s ≡ (s', r)
    → push_msg deliver b s ≡ ((record b { kind = queue turned }, s'), r)
unfolding push_msg queue_push
push_msg-queue deliver b s s' round turned p r e chosen ne ends =
    let some_member : (p == null) ≡ false = ground arith in rw (e, chosen, some_member, ends) refl

-- ===== src/Timer/Adding.antt =====
-- How libsf/sf_timer.c puts a timer into its list.
use lmq.Prelude.{
  ℕ, ◌<◌, ◌≡◌, ◌≢◌, refl, ◌∙◌, inl, inr, Bool, true, false, Option, none, some, List, [], ◌∷◌, ◌==◌,
  if◌then◌else◌, Bool-cases, arith, length,
}
use lmq.Dlist.{Ptr, null, Heap, mem, set_next, set_prev, push_front}
use lmq.Dlist.Seg.{Seg, nil, cons, frame, first, first-holds}
use lmq.Dlist.Unlink.{not-mem-null, mem-first, head-Seg, push_front-Seg}
use lmq.Timer.{Timers, TimeVal, earlier, later, lone, chain_next, register}
use lmq.Timer.Chain.{insert_behind, last, chain_next-Seg, last-insert_behind, chain_behind-first}
use lmq.Timer.Removing.{IsListed}

-- Where a timer comes to stand among the timers `ts`, and when it is lost.
pub data Placed (time : Ptr → TimeVal) (timer : Ptr) (ts : List Ptr) : List Ptr → Type 0 where
  lone_one : ts ≡ [] → Placed time timer ts (timer ∷ [])
  front :
      (t : Ptr) (rest : List Ptr)
      → ts ≡ t ∷ rest
      → earlier (time timer) (time t) ≡ true
      → Placed time timer ts (timer ∷ ts)
  behind :
      (t first : Ptr) (rest : List Ptr)
      → ts ≡ first ∷ rest
      → earlier (time timer) (time first) ≡ false
      → mem t ts ≡ true
      → later (time timer) (time t) ≡ true
      → Placed time timer ts (insert_behind t timer ts)
  lost :
      (t : Ptr) (rest : List Ptr)
      → ts ≡ t ∷ rest
      → earlier (time timer) (time t) ≡ false
      → ((a : Ptr) → mem a ts ≡ true → later (time timer) (time a) ≡ false)
      → Placed time timer ts ts

pub record Registered (ti : Timers) (timer : Ptr) (ts : List Ptr) (ti' : Timers) : Type 0 where
  pub timers : List Ptr
  pub placed : Placed ti.time timer ts timers
  pub listed : IsListed ti' timers
  pub times : ti'.time ≡ ti.time
  pub funcs : ti'.func ≡ ti.func

head_alone : {h : Heap} {prev p : Ptr} {ps : List Ptr} → Seg h prev p ps → p ≡ null → ps ≡ []
head_alone nil e = refl
head_alone (cons ne back o s) e = absurd (ne e)

head_first :
    {h : Heap} {prev p : Ptr} {ps : List Ptr}
    → Seg h prev p ps
    → p ≢ null
    → (rest : List Ptr) × (ps ≡ p ∷ rest)
head_first nil ne = absurd (ne refl)
head_first (cons {ps = ps} nn back o s) ne = (ps, refl)

first_none :
    (test : Ptr → Bool) (ps : List Ptr)
    → mem null ps ≡ false
    → first test ps ≡ null
    → (a : Ptr) → mem a ps ≡ true
    → test a ≡ false
unfolding first
first_none test [] out e a i = absurd (cc)
first_none test (p ∷ ps) out e a i = elim (Bool-cases (test p)) [
  | inl t ↦ absurd (ground arith)
  | inr t ↦ ground (arith, first_none test ps (ground arith) (ground arith) a)
]

last_some :
    {h : Heap} {prev p : Ptr} {ps : List Ptr} (a b : Ptr)
    → Seg h prev p ps
    → p ≢ null
    → last a ps ≡ last b ps
unfolding last
last_some a b nil ne = absurd (ne refl)
last_some a b (cons nn back o s) ne = refl

last-mem : (p : Ptr) (ps : List Ptr) → mem (last p ps) (p ∷ ps) ≡ true
unfolding last
last-mem p [] = ground arith
last-mem p (q ∷ qs) = let i = last-mem q qs in ground (arith, i)

-- The tail is one of the timers, if there are any.
tail_listed :
    {h : Heap} {prev p : Ptr} {ps : List Ptr}
    → Seg h prev p ps
    → p ≢ null
    → mem (last prev ps) ps ≡ true
unfolding last
tail_listed nil ne = absurd (ne refl)
tail_listed (cons {p = p} {ps = ps} nn back o s) ne = last-mem p ps

module _ {ti : Timers} {ts : List Ptr} (timer : Ptr) (l : IsListed ti ts)
    (some_timer : timer ≢ null) (new : mem timer ts ≡ false) where
  front-Registered :
      earlier (ti.time timer) (ti.time ti.head) ≡ true
      → ti.head ≢ null
      → Registered ti timer ts (record ti {
        links = set_prev (set_next (set_prev ti.links timer null) timer ti.head) ti.head timer;
        head = timer;
      })
  unfolding set_next set_prev push_front last
  front-Registered e ne =
      let apart : timer ≢ ti.head = ground (arith, head-Seg l.chain) in
      let (rest, is) = head_first l.chain ne in
      record {
        timers = timer ∷ ts;
        placed = front ti.head rest is e;
        listed = record {
          chain = frame (push_front-Seg timer l.chain some_timer new) (λ a i. ground arith);
          ends = l.ends ∙ last_some null timer l.chain ne;
        };
        times = refl;
        funcs = refl;
      }

  behind-Registered :
      (t tail : Ptr)
      → ti.head ≢ null
      → earlier (ti.time timer) (ti.time ti.head) ≡ false
      → mem t ts ≡ true
      → later (ti.time timer) (ti.time t) ≡ true
      → tail ≡ (if ti.tail == t then timer else ti.tail)
      → Registered ti timer ts (record ti { links = chain_next ti.links t timer; tail = tail })
  behind-Registered t tail some_head not_front i e moved =
      let (rest, is) = head_first l.chain some_head in
      record {
        timers = insert_behind t timer ts;
        placed = behind t ti.head rest is not_front i e;
        listed = record {
          chain = chain_next-Seg t timer some_timer l.chain i new;
          ends = ground (arith, l.ends, last-insert_behind t timer l.chain i);
        };
        times = refl;
        funcs = refl;
      }

  lone-Registered :
      ti.head ≡ null
      → Registered ti timer ts
          (record ti { links = lone ti.links timer; head = timer; tail = timer })
  unfolding lone last
  lone-Registered e = record {
    timers = timer ∷ [];
    placed = lone_one (head_alone l.chain e);
    listed = record {
      chain =
          let next : (lone ti.links timer timer).next ≡ null = ground arith in
          cons some_timer (ground arith) refl (rw next nil);
      ends = refl;
    };
    times = refl;
    funcs = refl;
  }

  abbrev pub Registers : Option Timers → Type 0
  Registers none = ⊥
  Registers (some ti') = Registered ti timer ts ti'

  found-Registered :
      (t : Ptr)
      → ti.head ≢ null
      → (t ≢ null → mem t ts ≡ true)
      → (t ≢ null → later (ti.time timer) (ti.time t) ≡ true)
      → (t ≡ null → (a : Ptr) → mem a ts ≡ true → later (ti.time timer) (ti.time a) ≡ false)
      → earlier (ti.time timer) (ti.time ti.head) ≡ false
      → later (ti.time timer) (ti.time ti.tail) ≡ false
      → Registered ti timer ts
          (if t == null then ti else record ti { links = chain_next ti.links t timer })
  found-Registered t ne i e none_later not_front not_tail = elim (Bool-cases (t == null)) [
    | inl n ↦
        let (rest, is) = head_first l.chain ne in
        rw n (record {
          timers = ts;
          placed = lost ti.head rest is not_front (none_later (ground arith));
          listed = l;
          times = refl;
          funcs = refl;
        })
    | inr n ↦
        let i' : mem t ts ≡ true = i (ground arith) in
        let e' : later (ti.time timer) (ti.time t) ≡ true = e (ground arith) in
        let apart : (ti.tail == t) ≡ false = ground arith in
        rw n (behind-Registered t ti.tail ne not_front i' e' (rw apart refl))
  ]

  -- A timer that is not on the list is put into it with enough fuel, unless it is lost.
  pub register-Registers : (fuel : ℕ) → length ts < fuel → Registers (register fuel ti timer)
  unfolding register
  register-Registers fuel f = elim (Bool-cases (ti.head == null)) [
    | inl e ↦ rw e (lone-Registered (ground arith))
    | inr e ↦ rw e (elim (Bool-cases (earlier (ti.time timer) (ti.time ti.head))) [
      | inl t ↦ rw t (front-Registered t (ground arith))
      | inr t ↦ rw t (elim (Bool-cases (later (ti.time timer) (ti.time ti.tail))) [
        | inl b ↦
            let at : mem ti.tail ts ≡ true = rw l.ends (tail_listed l.chain (ground arith)) in
            rw b (behind-Registered ti.tail timer (ground arith) t at b (ground arith))
        | inr b ↦
            let is_later = λ (a : Ptr). later (ti.time timer) (ti.time a) in
            rw b (
              rw (chain_behind-first fuel ti timer l.chain f) (
                found-Registered (first is_later ts) (ground arith) (mem-first is_later ts)
                  (first-holds is_later ts) (first_none is_later ts (not-mem-null l.chain)) t b))
      ])
    ])
  ]

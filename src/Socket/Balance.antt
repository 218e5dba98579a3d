-- ===== src/Socket/Balance.antt =====
-- The count of the sockets of libsf/sf_socket.c, and their descriptors.
use lmq.Prelude.{
  ℕ, suc, ◌+◌, ◌-◌, ◌≤◌, ◌<◌, ◌≡◌, ◌⊎◌, none, Option, leb, refl, sym, subst, ap, ◌∙◌, true, false,
  ◌==◌, Option, none, some, List, [], ◌∷◌, leb, Bool-cases, if-both, inl, inr, arith, length,
}
use lmq.Dlist.{Ptr, null, mem}
use lmq.Socket.Safety.{IsAtStart}
use lmq.Socket.Instance.{
  Sock, Object, listening, whole, base_of, Instance, Calls, close, at, free, put, destroy,
  closed_fd, freed, written, create_object, opened_fd, init_socket,
}

-- No descriptor twice.
abbrev pub Distinct : List ℕ → Type 0
Distinct [] = Unit {0}
Distinct (f ∷ fs) = (mem f fs ≡ false) × Distinct fs

mem-close : (f g : ℕ) (fs : List ℕ) → mem f fs ≡ false → mem f (close g fs) ≡ false
unfolding close
mem-close f g [] e = e
mem-close f g (h ∷ fs) e = ground (arith, mem-close f g fs)

close-Distinct : (f : ℕ) (fs : List ℕ) → Distinct fs → Distinct (close f fs)
unfolding close
close-Distinct f [] d = d
close-Distinct f (g ∷ fs) d = elim (Bool-cases (g == f)) [
  | inl t ↦ rw t d.1
  | inr t ↦ rw t (mem-close g f fs d.0, close-Distinct f fs d.1)
]

-- The descriptor that was opened last is closed again.
pub close_opened : (fd : ℕ) (fds : List ℕ) → close fd (fd ∷ fds) ≡ fds
unfolding close
close_opened fd fds = let t : (fd == fd) ≡ true = ground arith in rw t refl

module _ {ℓ} {S : Type ℓ} where
  unfoldable pub fds_of : List (Ptr × Object S) → List ℕ
  fds_of [] = []
  fds_of ((p, o) ∷ r) = (base_of o).fd ∷ fds_of r

  -- The buffer of a socket is in order.
  abbrev pub IsOrdered : Object S → Type 0
  IsOrdered (listening b) = Unit
  IsOrdered (whole so) = IsAtStart so.rbuf

  abbrev pub AllOrdered : List (Ptr × Object S) → Type 0
  AllOrdered [] = Unit
  AllOrdered ((p, o) ∷ r) = IsOrdered o × AllOrdered r

  -- The sockets are counted, up to `leaked` that are not there any more; their count is within the
  -- limit; the descriptors that are open are those of the sockets; and their buffers are in order.
  pub record Balanced (leaked count max_sockets : ℕ) (os : List (Ptr × Object S)) (fds : List ℕ)
      : Type ℓ where
    pub counted : length os + leaked ≡ count
    pub below : count ≤ max_sockets
    pub opened : fds ≡ fds_of os
    pub distinct : Distinct fds
    pub buffers : AllOrdered os

  abbrev pub IsSound : ℕ → Instance S → Type ℓ
  IsSound leaked w = Balanced leaked w.sock_count w.max_sockets w.sockets w.descriptors

  pub at-IsOrdered :
      (p : Ptr) (o : Object S) (os : List (Ptr × Object S))
      → at p os ≡ some o
      → AllOrdered os
      → IsOrdered o
  unfolding at
  at-IsOrdered p o [] e v = absurd (cc)
  at-IsOrdered p o ((q, old) ∷ r) e v = elim (Bool-cases (q == p)) [
    | inl t ↦ let f : some old ≡ some o = rw t at e in let g : old ≡ o = cc in subst IsOrdered g v.0
    | inr t ↦ let f : at p r ≡ some o = rw t at e in at-IsOrdered p o r f v.1
  ]

  put-AllOrdered :
      (p : Ptr) (new : Object S) (os : List (Ptr × Object S))
      → IsOrdered new
      → AllOrdered os
      → AllOrdered (put p new os)
  unfolding put
  put-AllOrdered p new [] n v = tt
  put-AllOrdered p new ((q, old) ∷ r) n v =
      if-both AllOrdered (q == p) _ _ (λ t. (n, v.1)) λ t. (v.0, put-AllOrdered p new r n v.1)

  free-AllOrdered : (p : Ptr) (os : List (Ptr × Object S)) → AllOrdered os → AllOrdered (free p os)
  unfolding free
  free-AllOrdered p [] v = tt
  free-AllOrdered p ((q, old) ∷ r) v =
      if-both AllOrdered (q == p) _ _ (λ t. v.1) λ t. (v.0, free-AllOrdered p r v.1)

  fds_of-put :
      (p : Ptr) (o new : Object S) (os : List (Ptr × Object S))
      → at p os ≡ some o
      → (base_of new).fd ≡ (base_of o).fd
      → (fds_of (put p new os) ≡ fds_of os) × (length (put p new os) ≡ length os)
  unfolding at put fds_of
  fds_of-put p o new [] e same = absurd (cc)
  fds_of-put p o new ((q, old) ∷ r) e same = elim (Bool-cases (q == p)) [
    | inl t ↦
        let f : some old ≡ some o = rw t at e in
        let g : old ≡ o = cc in
        rw t (
          ap (λ (n : ℕ). n ∷ fds_of r) (same ∙ ap (λ (b : Object S). (base_of b).fd) (sym g)),
          refl,
        )
    | inr t ↦
        let f : at p r ≡ some o = rw t at e in
        let rest = fds_of-put p o new r f same in
        rw t (ap (λ (fs : List ℕ). (base_of old).fd ∷ fs) rest.0, ap suc rest.1)
  ]

  mem-fds_of :
      (p : Ptr) (o : Object S) (os : List (Ptr × Object S))
      → at p os ≡ some o
      → mem (base_of o).fd (fds_of os) ≡ true
  unfolding at fds_of
  mem-fds_of p o [] e = absurd (cc)
  mem-fds_of p o ((q, old) ∷ r) e = elim (Bool-cases (q == p)) [
    | inl t ↦
        let f : some old ≡ some o = rw t at e in
        let g : old ≡ o = cc in
        let same : (base_of old).fd ≡ (base_of o).fd = ap (λ (b : Object S). (base_of b).fd) g in
        ground (arith, same)
    | inr t ↦ let f : at p r ≡ some o = rw t at e in ground (arith, mem-fds_of p o r f)
  ]

  -- The socket of a descriptor goes with it.
  close-free :
      (p : Ptr) (o : Object S) (os : List (Ptr × Object S))
      → at p os ≡ some o
      → Distinct (fds_of os)
      → (close (base_of o).fd (fds_of os) ≡ fds_of (free p os))
        × (suc (length (free p os)) ≡ length os)
  unfolding at free fds_of close
  close-free p o [] e d = absurd (cc)
  close-free p o ((q, old) ∷ r) e d = elim (Bool-cases (q == p)) [
    | inl t ↦
        let f : some old ≡ some o = rw t at e in
        let g : old ≡ o = cc in
        let same : (base_of old).fd ≡ (base_of o).fd = ap (λ (b : Object S). (base_of b).fd) g in
        let s : ((base_of old).fd == (base_of o).fd) ≡ true = ground (arith, same) in
        rw t (rw s (refl, refl))
    | inr t ↦
        let f : at p r ≡ some o = rw t at e in
        let rest = close-free p o r f d.1 in
        let s : ((base_of old).fd == (base_of o).fd) ≡ false =
          ground (arith, mem-fds_of p o r f, d.0) in
        rw t (rw s (ap (λ (fs : List ℕ). (base_of old).fd ∷ fs) rest.0, ap suc rest.1))
  ]

  -- A new socket, with a descriptor that has just been opened.
  abbrev pub with_object : ℕ → Ptr → Object S → Instance S → Instance S
  with_object fd p o w = record (opened_fd fd w) {
    sock_count = w.sock_count + 1;
    sockets = (p, o) ∷ w.sockets;
  }

  -- A socket is refused at the limit and without memory, and otherwise it is there.
  pub data Creates (k fd : ℕ) (w : Instance S) (p : Ptr) (o : Object S)
      : Option (Instance S) → Type ℓ where
    refused : (w.max_sockets ≤ w.sock_count) ⊎ (p ≡ null) → Creates k fd w p o none
    made :
        w.sock_count < w.max_sockets
        → IsSound k (with_object fd p o w)
        → Creates k fd w p o (some (with_object fd p o w))

  pub create_object-Creates :
      (k fd : ℕ) (w : Instance S) (c : Calls) (o : Object S)
      → IsSound k w
      → mem fd w.descriptors ≡ false
      → (base_of o).fd ≡ fd
      → IsOrdered o
      → Creates k fd w c.memory o (create_object (opened_fd fd w) c o)
  unfolding fds_of
  create_object-Creates k fd w c o v new same ordered =
      elim (Bool-cases (leb w.max_sockets w.sock_count)) [
        | inl t ↦ rw t (refused (inl (ground arith)))
        | inr t ↦ rw t (elim (Bool-cases (c.memory == null)) [
          | inl n ↦ rw n (refused (inr (ground arith)))
          | inr n ↦ rw n (
              made (ground arith) (record {
                counted = omega (arith, v.counted);
                below = ground arith;
                opened =
                    ap (λ (f : ℕ). f ∷ w.descriptors) (sym same)
                    ∙ ap (λ (fs : List ℕ). (base_of o).fd ∷ fs) v.opened;
                distinct = (new, v.distinct);
                buffers = (ordered, v.buffers);
              }))
        ])
      ]

  free_new : (p : Ptr) (o : Object S) (os : List (Ptr × Object S)) → free p ((p, o) ∷ os) ≡ os
  unfolding free
  free_new p o os = let t : (p == p) ≡ true = ground arith in rw t refl

  -- A socket that failed to be polled is freed without being counted back.
  pub unpolled :
      (fd : ℕ) (p : Ptr) (o : Object S) (w : Instance S)
      → closed_fd fd (freed p (with_object fd p o w)) ≡ record w { sock_count = w.sock_count + 1 }
  unfolding closed_fd freed
  unpolled fd p o w = rw (free_new p o w.sockets, close_opened fd w.descriptors) refl

  pub unlistened :
      (fd : ℕ) (p : Ptr) (o : Object S) (w : Instance S)
      → freed p (closed_fd fd (with_object fd p o w)) ≡ record w { sock_count = w.sock_count + 1 }
  unfolding closed_fd freed
  unlistened fd p o w = unpolled fd p o w

  pub unopened : (fd : ℕ) (w : Instance S) → closed_fd fd (opened_fd fd w) ≡ w
  unfolding closed_fd
  unopened fd w = rw (close_opened fd w.descriptors) refl

  pub destroy_new :
      (p : Ptr) (so : Sock S) (w : Instance S)
      → so.dont_close ≡ false
      → destroy (with_object so.base.fd p (whole so) w) p so ≡ w
  unfolding destroy closed_fd freed free close
  destroy_new p so w e =
      let back : w.sock_count + 1 - 1 ≡ w.sock_count = omega arith in
      let p_is_p : (p == p) ≡ true = ground arith in
      let fd_is_fd : (so.base.fd == so.base.fd) ≡ true = ground arith in
      rw (e, p_is_p, fd_is_fd, back) refl

  pub at_new : (p : Ptr) (o : Object S) (os : List (Ptr × Object S)) → at p ((p, o) ∷ os) ≡ some o
  unfolding at
  at_new p o os = let t : (p == p) ≡ true = ground arith in rw t refl

  -- A socket that goes away with its descriptor is counted back.
  pub destroy-IsSound :
      (k : ℕ) (w : Instance S) (p : Ptr) (so : Sock S)
      → IsSound k w
      → at p w.sockets ≡ some (whole so)
      → IsSound k (destroy w p so)
  unfolding destroy closed_fd freed
  destroy-IsSound k w p so v e = elim (Bool-cases so.dont_close) [
    | inl t ↦ rw t v
    | inr t ↦
        let gone = close-free p (whole so) w.sockets e (subst Distinct v.opened v.distinct) in
        rw t (record {
          counted = omega (arith, v.counted, gone.1);
          below = omega (arith, v.below);
          opened = ap (λ (fs : List ℕ). close so.base.fd fs) v.opened ∙ gone.0;
          distinct = close-Distinct so.base.fd w.descriptors v.distinct;
          buffers = free-AllOrdered p w.sockets v.buffers;
        })
  ]

  -- A socket may be written, if it keeps its descriptor and its buffer stays in order.
  pub written-IsSound :
      (k : ℕ) (w : Instance S) (p : Ptr) (so so' : Sock S)
      → IsSound k w
      → at p w.sockets ≡ some (whole so)
      → so'.base.fd ≡ so.base.fd
      → IsAtStart so'.rbuf
      → IsSound k (written p so' w)
  unfolding written
  written-IsSound k w p so so' v e same start =
      let kept = fds_of-put p (whole so) (whole so') w.sockets e same in
      record {
        counted = omega (arith, v.counted, kept.1);
        below = v.below;
        opened = v.opened ∙ sym kept.0;
        distinct = v.distinct;
        buffers = put-AllOrdered p (whole so') w.sockets start v.buffers;
      }

  pub at-put :
      (p : Ptr) (o new : Object S) (os : List (Ptr × Object S))
      → at p os ≡ some o
      → at p (put p new os) ≡ some new
  unfolding at put
  at-put p o new [] e = absurd (cc)
  at-put p o new ((q, old) ∷ r) e = elim (Bool-cases (q == p)) [
    | inl t ↦ rw (t, t) refl
    | inr t ↦ let f : at p r ≡ some o = rw t at e in rw (t, t) (at-put p o new r f)
  ]

  -- At the start there are no sockets.
  pub init_socket-IsSound :
      (w : Instance S) → w.sockets ≡ [] → w.descriptors ≡ [] → IsSound 0 (init_socket w)
  unfolding init_socket fds_of
  init_socket-IsSound w none_yet none_open = record {
    counted = rw none_yet refl;
    below = omega arith;
    opened = rw (none_yet, none_open) refl;
    distinct = subst Distinct (sym none_open) tt;
    buffers = subst AllOrdered (sym none_yet) tt;
  }

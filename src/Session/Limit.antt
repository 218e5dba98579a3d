-- ===== src/Session/Limit.antt =====
-- The limit on the sessions of libsf/sf_session.c, and the session that `session_create` makes.
use lmq.Prelude.{
  ℕ, ◌+◌, ◌≤◌, ◌≡◌, ◌≢◌, ◌⊎◌, refl, subst, inl, inr, true, false, List, ◌∷◌, ◌==◌, leb,
  if◌then◌else◌, Bool-cases, arith,
}
use lmq.Dlist.{Ptr, null, mem}
use lmq.Buckets.{update, insert}
use lmq.Buckets.Table.{IsTable, insert-IsTable}
use lmq.Session.{Sessions, Info, slot, create, register}
use lmq.Session.Keys.{Holds}

module _ {ℓ} {S : Type ℓ} where
  -- The state after a session has been made.
  pub record Made (w : Sessions S) (chains : ℕ → List Ptr) (new : Info) (p : Ptr) (w' : Sessions S)
      : Type ℓ where
    pub filled : w'.info p ≡ new
    pub kept : (q : Ptr) → q ≢ p → w'.info q ≡ w.info q
    pub counted : w'.session_count ≡ w.session_count + 1
    pub below : w'.session_count ≤ w'.max_sessions
    pub table : Holds w' (update chains (slot w.size new) (p ∷ chains (slot w.size new)))

  -- Nothing is made, since the limit is reached or there is no memory, or this session is.
  pub data Creates (w : Sessions S) (chains : ℕ → List Ptr) (new : Info) (p : Ptr)
      : Sessions S × Ptr → Type ℓ where
    refused : (p ≡ null) ⊎ (w.max_sessions ≤ w.session_count) → Creates w chains new p (w, null)
    made : {w' : Sessions S} → p ≢ null → Made w chains new p w' → Creates w chains new p (w', p)

  -- The place of a session, once that record has been written.
  abbrev place : Sessions S → Info → Ptr → Ptr → ℕ
  place w new p s = slot w.size (if s == p then new else w.info s)

  place-new : (w : Sessions S) (new : Info) (p : Ptr) → place w new p p ≡ slot w.size new
  place-new w new p = let here : (p == p) ≡ true = ground arith in rw here refl

  -- Records that are in no bucket may be written.
  write-Holds :
      (w : Sessions S) (chains : ℕ → List Ptr) (p : Ptr) (new : Info)
      → Holds w chains
      → ((i : ℕ) → mem p (chains i) ≡ false)
      → IsTable (place w new p) w.table chains
  write-Holds w chains p new v out = record {
    chain = v.chain;
    placed = λ i q m. elim (Bool-cases (q == p)) [
      | inl e ↦ absurd (ground (arith, out i, m))
      | inr e ↦ rw e (v.placed i q m)
    ];
  }

  -- `session_create` refuses at the limit and without memory, and changes nothing then. Otherwise
  -- the session has the given number, peer and socket, it is put in front of its bucket, the count
  -- goes up by one and stays within the limit, and every other session is as before. The pointer
  -- that `calloc` returns is in no bucket.
  pub create-Creates :
      (w : Sessions S) (chains : ℕ → List Ptr) (p : Ptr) (new : Info)
      → Holds w chains
      → ((i : ℕ) → mem p (chains i) ≡ false)
      → Creates w chains new p (create w p new.peer new.sock new.sid)
  unfolding create register
  create-Creates w chains p new v out = elim (Bool-cases (leb w.max_sessions w.session_count)) [
    | inl e ↦ rw e (refused (inr (ground arith)))
    | inr e ↦ rw e (elim (Bool-cases (p == null)) [
      | inl n ↦ rw n (refused (inl (ground arith)))
      | inr n ↦
          let here : (p == p) ≡ true = ground arith in
          let ne : p ≢ null = ground arith in
          let written = write-Holds w chains p new v out in
          rw n (
            made ne (record {
              filled = rw here refl;
              kept = λ q na. let t : (q == p) ≡ false = ground arith in rw t refl;
              counted = refl;
              below = ground arith;
              table =
                  subst
                    (λ i.
                      IsTable (place w new p) (insert w.table (place w new p p) p)
                        (update chains i (p ∷ chains i)))
                    (place-new w new p)
                    (insert-IsTable (place w new p) written p ne (out (place w new p p)));
            }))
    ])
  ]

-- ===== src/Binding/Keeping.antt =====
-- What a push of binding.c keeps, whatever the sinks do.
use lmq.Prelude.{ℕ, ◌+◌, ◌≡◌, refl, subst, Bool, false, List, [], ◌∷◌, ◌==◌, if◌then◌else◌, if-both}
use lmq.Dlist.{Ptr, null}
use lmq.Binding.{
  Binding, Kind, topic, queue, push_all, topic_push, push_chosen, next_member, queue_push, push_msg,
}
use lmq.Binding.Turns.{InTurn, next_member-InTurn}

module _ {ℓ ℓ'} {S : Type ℓ} (P : S → Type ℓ') where
  -- A push to a binding keeps what each sink keeps, and the members.
  pub record Kept (b : Binding) (r : (Binding × S) × Bool) : Type ℓ' where
    pub state : P r.0.1
    pub members : r.0.0.members ≡ b.members
    pub limit : r.0.0.members_max ≡ b.members_max
    pub count : r.0.0.members_count ≡ b.members_count
    pub turn : InTurn b.kind b.members_max → InTurn r.0.0.kind r.0.0.members_max

module _ {ℓ ℓ'} {S : Type ℓ} (P : S → Type ℓ') (deliver : Ptr → S → S × Bool)
    (keeps : (p : Ptr) (s : S) → P s → P (deliver p s).0) where
  push_all-keeps : (ms : List Ptr) (errors : ℕ) (s : S) → P s → P (push_all deliver ms errors s).0
  unfolding push_all
  push_all-keeps [] errors s v = v
  push_all-keeps (p ∷ ps) errors s v =
      let r = deliver p s in
      let more = if r.1 then errors else errors + 1 in
      if-both (λ (o : S × ℕ). P o.0) (p == null) (push_all deliver ps errors s)
        (push_all deliver ps more r.0) (λ t. push_all-keeps ps errors s v)
        λ t. push_all-keeps ps more r.0 (keeps p s v)

  push_chosen-keeps : (c : ℕ × Ptr) (s : S) → P s → P (push_chosen deliver c s).0.1
  push_chosen-keeps (round, p) s v =
      let r = deliver p s in
      if-both (λ (o : (ℕ × S) × Bool). P o.0.1) (p == null) ((round, s), false) ((round, r.0), r.1)
        (λ t. v) λ t. keeps p s v

  push_kind : Binding → S → Kind → (Binding × S) × Bool
  push_kind b s k = elim k [
    | topic ↦ let r = topic_push deliver b.members s in ((b, r.0), r.1)
    | queue round ↦
        let r = queue_push deliver b.members_max b.members round s in
        ((record b { kind = queue r.0.0 }, r.0.1), r.1)
  ]

  next_turn :
      (b : Binding) (s : S) (round : ℕ)
      → InTurn (queue round) b.members_max
      → InTurn (queue (queue_push deliver b.members_max b.members round s).0.0) b.members_max
  unfolding queue_push
  next_turn b s round t =
      let c = next_member b.members_max b.members b.members_max round in
      let r = deliver c.1 s in
      if-both (λ (o : (ℕ × S) × Bool). InTurn (queue o.0.0) b.members_max) (c.1 == null)
        ((c.0, s), false) ((c.0, r.0), r.1)
        (λ e. next_member-InTurn b.members_max b.members round t)
        λ e. next_member-InTurn b.members_max b.members round t

  push_kind-Kept : (b : Binding) (s : S) (k : Kind) → b.kind ≡ k → P s → Kept P b (push_kind b s k)
  unfolding push_kind topic_push queue_push
  push_kind-Kept b s topic is v = record {
    state = push_all-keeps b.members 0 s v;
    members = refl;
    limit = refl;
    count = refl;
    turn = λ t. t;
  }
  push_kind-Kept b s (queue round) is v = record {
    state = push_chosen-keeps (next_member b.members_max b.members b.members_max round) s v;
    members = refl;
    limit = refl;
    count = refl;
    turn = λ t. next_turn b s round (subst (λ k. InTurn k b.members_max) is t);
  }

  pub push_msg-Kept : (b : Binding) (s : S) → P s → Kept P b (push_msg deliver b s)
  unfolding push_msg push_kind
  push_msg-Kept b s v = push_kind-Kept b s b.kind refl v

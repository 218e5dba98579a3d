-- ===== src/Binding.antt =====
-- The bindings of mqcore/binding.c and mqcore/binding.h: the members of a topic or of a queue.
-- A member is a pointer to a sink, 0 for NULL; pointers have eight bytes, the lowest first.
pub mod Members
pub mod Delivery
pub mod Growing
pub mod Keeping
pub mod Turns
mod Tests
use lmq.Prelude.{
  ℕ, zero, suc, ◌+◌, ◌-◌, ◌*◌, ◌/◌, ◌^◌, Bool, true, false, Option, none, some, List, [], ◌∷◌, ◌++◌,
  ltb, leb, ◌==◌, if◌then◌else◌, take, replicate, get_or, ◌%◌,
}
use lmq.Pbuf.{Bytes}
use lmq.Dlist.{Ptr, null}

abbrev pub name_max : ℕ
name_max = 64

abbrev pub first_members_max : ℕ
first_members_max = 8

abbrev pub pointer_size : ℕ
pointer_size = 8

-- Which function `ms_push_msg` is, and `biq_round`, which a topic does not have.
pub data Kind : Type 0 where
  topic : Kind
  queue : (round : ℕ) → Kind

-- `name` is what `bi_name` holds before its first NUL, or all of it if it holds none.
pub record Binding : Type 0 where
  pub kind : Kind
  pub name : Bytes
  pub members_max : ℕ
  pub members_count : ℕ
  pub members : List Ptr

-- `binding_create`: the name is cut off at the size of its array, with no NUL then. The block for
-- the members is all zeros, or `none` where an allocation failed.
unfoldable pub create : Bool → Kind → Bytes → Option Binding
create allocated kind name =
    if allocated
    then some (record {
      kind = kind;
      name = take name_max name;
      members_max = first_members_max;
      members_count = 0;
      members = replicate first_members_max null;
    })
    else none

-- `memset` of `n` bytes from the first of these pointers on
unfoldable pub zero_bytes : ℕ → List Ptr → List Ptr
zero_bytes n [] = []
zero_bytes n (p ∷ ps) =
    (if leb pointer_size n then null else p / 2 ^ (8 * n) * 2 ^ (8 * n))
    ∷ zero_bytes (n - pointer_size) ps

-- `binding_extend`. `junk` are the pointers that `realloc` left behind the old ones, or `none` where
-- it failed. The code clears as many bytes as there are new pointers.
unfoldable pub extend : Option (List Ptr) → Binding → Option Binding
unfolding zero_bytes
extend none b = none
extend (some junk) b =
    let more = b.members_max / 2 in
    some
      (record b { members = b.members ++ zero_bytes more junk; members_max = b.members_max + more })

-- The sink in place of the first NULL, if there is one.
abbrev pub behind : Ptr → Option (List Ptr) → Option (List Ptr)
behind p none = none
behind p (some qs) = some (p ∷ qs)

unfoldable pub fill : Ptr → List Ptr → Option (List Ptr)
fill sink [] = none
fill sink (p ∷ ps) = if p == null then some (sink ∷ ps) else behind p (fill sink ps)

-- The loop of `binding_subscribe`.
abbrev pub filled : Binding → Option (List Ptr) → Binding × Bool
filled b none = (b, false)
filled b (some ms) = (record b { members = ms; members_count = b.members_count + 1 }, true)

unfoldable pub place : Binding → Ptr → Binding × Bool
unfolding fill
place b sink = filled b (fill sink b.members)

unfoldable pub place_extended : Binding → Option Binding → Ptr → Binding × Bool
unfolding place
place_extended b none sink = (b, false)
place_extended b (some b') sink = place b' sink

-- The flag is false for `return -1`.
unfoldable pub subscribe : Option (List Ptr) → Binding → Ptr → Binding × Bool
unfolding extend place_extended
subscribe junk b sink =
    if b.members_count == b.members_max then place_extended b (extend junk b) sink else place b sink

-- `binding_topic_create` and `binding_queue_create` up to the registration: `create`, then the first
-- subscription. `none` stands for NULL.
abbrev pub subscribed : Binding × Bool → Option Binding
subscribed (b, true) = some b
subscribed (b, false) = none

first_subscribed : Option (List Ptr) → Option Binding → Ptr → Option Binding
unfolding subscribe
first_subscribed junk none sink = none
first_subscribed junk (some b) sink = subscribed (subscribe junk b sink)

unfoldable pub create_subscribed : Bool → Option (List Ptr) → Kind → Bytes → Ptr → Option Binding
unfolding create first_subscribed
create_subscribed allocated junk kind name sink =
    first_subscribed junk (create allocated kind name) sink

-- What the loop of `binding_unsubscribe` leaves: the members and their number, or that it reads the
-- binding after `binding_destroy` freed it, since the loop goes on to its test of `i`.
pub data Unsubscribed : Type 0 where
  reads_freed : Unsubscribed
  kept : (members : List Ptr) → (count : ℕ) → Unsubscribed

abbrev pub after : Ptr → Unsubscribed → Unsubscribed
after p reads_freed = reads_freed
after p (kept ms c) = kept (p ∷ ms) c

unfoldable pub clear_from : Ptr → List Ptr → ℕ → Unsubscribed
clear_from sink [] c = kept [] c
clear_from sink (p ∷ ps) c =
    if p == sink
    then if c == 1 then reads_freed else after null (clear_from sink ps (c - 1))
    else after p (clear_from sink ps c)

-- `binding_unsubscribe`. The array has `bi_members_max` places.
unfoldable pub unsubscribe : Binding → Ptr → Unsubscribed
unfolding clear_from
unsubscribe b sink = clear_from sink b.members b.members_count

-- The member functions `ms_push_msg` are a parameter: they act on the state of the sinks, and
-- return whether they succeeded.
module _ {ℓ} {S : Type ℓ} (deliver : Ptr → S → S × Bool) where
  -- `binding_topic_push_msg`, with the number of errors so far
  unfoldable pub push_all : List Ptr → ℕ → S → S × ℕ
  push_all [] errors s = (s, errors)
  push_all (p ∷ ps) errors s =
      if p == null
      then push_all ps errors s
      else let r = deliver p s in push_all ps (if r.1 then errors else errors + 1) r.0

  unfoldable pub topic_push : List Ptr → S → S × Bool
  unfolding push_all
  topic_push ms s = let r = push_all ms 0 s in (r.0, leb r.1 0)

  -- `binding_queue_push_msg` after the choice of the member: the new `biq_round`, and what the
  -- member returns.
  abbrev pub push_chosen : ℕ × Ptr → S → (ℕ × S) × Bool
  push_chosen (round, p) s =
      if p == null then ((round, s), false) else let r = deliver p s in ((round, r.0), r.1)

-- The loop of `binding_queue_push_msg`, up to the first member that is not NULL: the new
-- `biq_round` and the member.
unfoldable pub next_member : ℕ → List Ptr → ℕ → ℕ → ℕ × Ptr
next_member members ms zero round = (round, null)
next_member members ms (suc i) round =
    let rest = next_member members ms i ((round + 1) % members) in
    let sink = get_or ms round null in if sink == null then rest else ((round + 1) % members, sink)

unfoldable pub queue_push {ℓ} :
    {S : Type ℓ} → (Ptr → S → S × Bool) → ℕ → List Ptr → ℕ → S → (ℕ × S) × Bool
unfolding next_member
queue_push deliver members ms round s = push_chosen deliver (next_member members ms members round) s

-- `binding_push_msg`: the call goes to the function of the kind.
unfoldable pub push_msg {ℓ} :
    {S : Type ℓ} → (Ptr → S → S × Bool) → Binding → S → (Binding × S) × Bool
unfolding topic_push
push_msg deliver b s = elim b.kind [
  | topic ↦ let r = topic_push deliver b.members s in ((b, r.0), r.1)
  | queue round ↦
      let r = queue_push deliver b.members_max b.members round s in
      ((record b { kind = queue r.0.0 }, r.0.1), r.1)
]

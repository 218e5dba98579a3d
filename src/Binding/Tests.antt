-- ===== src/Binding/Tests.antt =====
-- Runs of binding.c, and its theorems at concrete bindings.
use lmq.Prelude.{◌≡◌, refl, true, false, Bool, none, some, [], ◌∷◌, ◌==◌, arith}
use lmq.Dlist.{Ptr}
use lmq.Stomp.Text.{codes}
use lmq.Binding.{
  Binding, topic, queue, create, create_subscribed, subscribe, place, fill, topic_push, next_member,
  unsubscribe, kept,
}
use lmq.Binding.Members.{IsValid, count, subscribe-extend}
use lmq.Binding.Delivery.{
  members_of, refusals, noting, topic_push-log, Unsubscribes, unsubscribe-Unsubscribes,
}

abbrev pair : Binding
pair = record {
  kind = topic;
  name = codes "/topic/a";
  members_max = 8;
  members_count = 2;
  members = 16 ∷ 0 ∷ 32 ∷ 0 ∷ 0 ∷ 0 ∷ 0 ∷ 0 ∷ [];
}

pair-IsValid : IsValid pair
unfolding count
pair-IsValid = record { places = refl; counted = refl }

abbrev full : Binding
full = record {
  kind = queue 0;
  name = codes "/queue/a";
  members_max = 8;
  members_count = 8;
  members = 1 ∷ 2 ∷ 3 ∷ 4 ∷ 5 ∷ 6 ∷ 7 ∷ 8 ∷ [];
}

full-IsValid : IsValid full
unfolding count
full-IsValid = record { places = refl; counted = refl }

subscribe-extend_example : (subscribe (some (4294967296 ∷ 1 ∷ 1 ∷ 1 ∷ [])) full 48).1 ≡ false
subscribe-extend_example =
    subscribe-extend full 48 4294967296 1 1 1 full-IsValid refl refl (omega arith) (omega arith)
      (omega arith) (omega arith)

abbrev odd : Ptr → Bool
odd p = p == 16

topic_push-log_example : topic_push (noting odd) pair.members [] ≡ (16 ∷ 32 ∷ [], false)
unfolding members_of refusals
topic_push-log_example = topic_push-log odd pair.members []

next_member_run : next_member 8 pair.members 8 1 ≡ (3, 32)
unfolding next_member
next_member_run = refl

unsubscribe-Unsubscribes_example : Unsubscribes 16 pair.members 2 (unsubscribe pair 16)
unsubscribe-Unsubscribes_example = unsubscribe-Unsubscribes pair 16 (omega arith) pair-IsValid

unsubscribe_run : unsubscribe pair 16 ≡ kept (0 ∷ 0 ∷ 32 ∷ 0 ∷ 0 ∷ 0 ∷ 0 ∷ 0 ∷ []) 1
unfolding unsubscribe
unsubscribe_run = refl

create_run :
    create_subscribed true none topic (codes "/topic/a") 16
    ≡ some (record {
      kind = topic;
      name = codes "/topic/a";
      members_max = 8;
      members_count = 1;
      members = 16 ∷ 0 ∷ 0 ∷ 0 ∷ 0 ∷ 0 ∷ 0 ∷ 0 ∷ [];
    })
unfolding create_subscribed create subscribe place fill
create_run = refl

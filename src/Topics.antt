-- ===== src/Topics.antt =====
-- crates/mlink-core/src/api/pubsub.rs: who is subscribed to which topic.
-- Publishing sends over the node, which is not modelled.
pub mod Subscribers
mod Tests
use mlink.Prelude.{
  ℕ, String, List, [], ◌∷◌, Bool, true, false, not, Option, none, some, if◌then◌else◌, length, map,
  retain, lookup, replace, insert, delete, member, add_member, drop_member,
}

pub record PubSubManager : Type 0 where
  pub subscriptions : List (String × List String)

abbrev pub no_topics : PubSubManager
no_topics = record { subscriptions = [] }

abbrev pub or_nobody : Option (List String) → List String
or_nobody none = []
or_nobody (some ps) = ps

abbrev pub nobody : List String → Bool
nobody [] = true
nobody (p ∷ ps) = false

unfoldable pub subscribers : PubSubManager → String → List String
subscribers m topic = or_nobody (lookup topic m.subscriptions)

unfoldable pub subscribe : PubSubManager → String → String → PubSubManager
unfolding subscribers
subscribe m topic peer_id = record {
  subscriptions = insert topic (add_member peer_id (subscribers m topic)) m.subscriptions;
}

-- A topic without subscribers is removed.
abbrev stored : String → List String → List (String × List String) → List (String × List String)
stored topic ps subs = if nobody ps then delete topic subs else replace topic ps subs

abbrev unsubscribed : PubSubManager → String → String → Option (List String) → PubSubManager
unsubscribed m topic peer_id none = m
unsubscribed m topic peer_id (some ps) = record {
  subscriptions = stored topic (drop_member peer_id ps) m.subscriptions;
}

unfoldable pub unsubscribe : PubSubManager → String → String → PubSubManager
unsubscribe m topic peer_id = unsubscribed m topic peer_id (lookup topic m.subscriptions)

unfoldable pub is_subscribed : PubSubManager → String → String → Bool
unfolding subscribers
is_subscribed m topic peer_id = member peer_id (subscribers m topic)

unfoldable pub topics : PubSubManager → List String
topics m = map (λ e. e.0) m.subscriptions

unfoldable pub topics_for_peer : PubSubManager → String → List String
topics_for_peer m peer_id = map (λ e. e.0) (retain (λ e. member peer_id e.1) m.subscriptions)

unfoldable pub remove_subscriber : PubSubManager → String → PubSubManager
remove_subscriber m peer_id = record {
  subscriptions =
      retain (λ e. not (nobody e.1)) (map (λ e. (e.0, drop_member peer_id e.1)) m.subscriptions);
}

unfoldable pub topic_count : PubSubManager → ℕ
topic_count m = length m.subscriptions

-- ===== src/Topics/Tests.antt =====
-- Two peers and a topic: crates/mlink-core/src/api/pubsub.rs.
use mlink.Prelude.{◌≡◌, List, [], ◌∷◌, false}
use mlink.Topics.{no_topics, is_subscribed}
use mlink.Topics.Subscribers.{Request, sub, unsub, serve_all, wants, is_subscribed-serve_all}

abbrev requests : List Request
requests = sub "news" "a" ∷ sub "news" "b" ∷ unsub "news" "a" ∷ sub "news" "b" ∷ []

is_subscribed-serve_all_example :
    is_subscribed (serve_all no_topics requests) "news" "b" ≡ wants "news" "b" false requests
is_subscribed-serve_all_example = is_subscribed-serve_all requests "news" "b"

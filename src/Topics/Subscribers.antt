-- ===== src/Topics/Subscribers.antt =====
-- The subscriptions as a relation between topics and peers.
use mlink.Prelude.{
  ◌≡◌, refl, ap, ◌∙◌, arith, String, List, [], ◌∷◌, Bool, true, false, not, ◌&&◌, ◌||◌, Option,
  none, some, if◌then◌else◌, str_eq, eq_iff, lookup, lookup-insert, lookup-replace, lookup-delete,
  member, add_member, drop_member, member-add_member, member-drop_member,
}
use mlink.Topics.{
  PubSubManager, or_nobody, nobody, subscribers, subscribe, unsubscribed, unsubscribe,
  is_subscribed, no_topics,
}

-- A subscription adds exactly that topic and peer.
is_subscribed-subscribe :
    (m : PubSubManager) (t p u q : String)
    → is_subscribed (subscribe m t p) u q ≡ ((str_eq t u && str_eq p q) || is_subscribed m u q)
unfolding subscribe is_subscribed subscribers
is_subscribed-subscribe m t p u q = ground (
  arith,
  eq_iff t u,
  lookup-insert u t (add_member p (or_nobody (lookup t m.subscriptions))) m.subscriptions,
  member-add_member q p (or_nobody (lookup t m.subscriptions)),
)

member-nobody : (q : String) (ps : List String) → nobody ps ≡ true → member q ps ≡ false
member-nobody q [] h = refl
member-nobody q (p ∷ ps) h = cc

is_subscribed-unsubscribed :
    (m : PubSubManager) (t p u q : String) (o : Option (List String))
    → lookup t m.subscriptions ≡ o
    → is_subscribed (unsubscribed m t p o) u q
      ≡ (not (str_eq t u && str_eq p q) && is_subscribed m u q)
unfolding is_subscribed subscribers
is_subscribed-unsubscribed m t p u q none e = ground (arith, e, eq_iff t u)
is_subscribed-unsubscribed m t p u q (some ps) e = ground (
  arith,
  e,
  eq_iff t u,
  lookup-replace u t (drop_member p ps) m.subscriptions,
  lookup-delete u t m.subscriptions,
  member-drop_member q p ps,
  member-nobody q (drop_member p ps),
)

pub data Request : Type 0 where
  sub unsub : String → String → Request

abbrev pub serve : PubSubManager → Request → PubSubManager
serve m (sub t p) = subscribe m t p
serve m (unsub t p) = unsubscribe m t p

abbrev pub serve_all : PubSubManager → List Request → PubSubManager
serve_all m [] = m
serve_all m (r ∷ rs) = serve_all (serve m r) rs

-- Whether `q` wants topic `u` after the requests: the last one of that topic and peer decides.
abbrev pub wants : String → String → Bool → List Request → Bool
wants u q b [] = b
wants u q b (sub t p ∷ rs) = wants u q (if str_eq t u && str_eq p q then true else b) rs
wants u q b (unsub t p ∷ rs) = wants u q (if str_eq t u && str_eq p q then false else b) rs

serve-wants :
    (m : PubSubManager) (r : Request) (u q : String)
    → is_subscribed (serve m r) u q ≡ wants u q (is_subscribed m u q) (r ∷ [])
unfolding unsubscribe
serve-wants m (sub t p) u q = ground (arith, is_subscribed-subscribe m t p u q)
serve-wants m (unsub t p) u q =
    ground (arith, is_subscribed-unsubscribed m t p u q (lookup t m.subscriptions) refl)

wants-step :
    (u q : String) (b : Bool) (r : Request) (rs : List Request)
    → wants u q (wants u q b (r ∷ [])) rs ≡ wants u q b (r ∷ rs)
wants-step u q b (sub t p) rs = refl
wants-step u q b (unsub t p) rs = refl

serve_all-wants :
    (rs : List Request) (m : PubSubManager) (u q : String)
    → is_subscribed (serve_all m rs) u q ≡ wants u q (is_subscribed m u q) rs
serve_all-wants [] m u q = refl
serve_all-wants (r ∷ rs) m u q =
    serve_all-wants rs (serve m r) u q
    ∙ ap (λ b. wants u q b rs) (serve-wants m r u q)
    ∙ wants-step u q (is_subscribed m u q) r rs

none_subscribed : (topic peer : String) → is_subscribed no_topics topic peer ≡ false
unfolding is_subscribed subscribers
none_subscribed topic peer = refl

-- After any subscriptions and cancellations, a peer is subscribed to a topic exactly when the last
-- request of that peer for that topic was a subscription.
pub is_subscribed-serve_all :
    (rs : List Request) (topic peer : String)
    → is_subscribed (serve_all no_topics rs) topic peer ≡ wants topic peer false rs
is_subscribed-serve_all rs topic peer =
    serve_all-wants rs no_topics topic peer
    ∙ ap (λ b. wants topic peer b rs) (none_subscribed topic peer)

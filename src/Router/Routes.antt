-- ===== src/Router/Routes.antt =====
-- run_writer/message_router.rs: the router against a plain list of subscriptions.
use mathlib.Core.List.{append-nil, append_assoc}
use kafka_file_writer.Base.{ℕ, String, ◌≡◌, refl, ◌∙◌, sym, ap, ap₂, Bool, true, false, ◌&&◌}
use kafka_file_writer.Base.{Option, none, some, List, [], ◌∷◌, ◌++◌, arith, if◌then◌else◌}
use kafka_file_writer.Base.{Bool-cases, inl, inr}
use kafka_file_writer.Base.Equality.{◌==◌, string_eq, bytes_eq, bytes_beq_iff}
use kafka_file_writer.Base.Map
use kafka_file_writer.Base.Map.{or_default, get-entry, contains, distinct, contains-keys-entry}
use kafka_file_writer.Base.Map.{distinct-keys-entry}
use kafka_file_writer.Subscription.{Subscription, SubscriptionKey}
use kafka_file_writer.Message.{KafkaMessageMeta}
use kafka_file_writer.Router.{
  WriterId, MessageRouter, TopicMessageRouter, default, default_topic_router, push, subscribe,
  topic_subscribe, topic_subscribe_key, keyed, topic_writers_for, writers_for,
}

-- A subscription as it was made: the writer and what it asked for.
abbrev pub Entry : Type 0
Entry = WriterId × Subscription

-- The router after a sequence of subscriptions.
unfoldable pub subscribe_all : List Entry → MessageRouter → MessageRouter
subscribe_all [] r = r
subscribe_all ((id, sub) ∷ entries) r = subscribe_all entries (subscribe id sub r)

abbrev pub key_is : SubscriptionKey → Option (List ℕ) → Bool
key_is SubscriptionKey.all k = false
key_is (SubscriptionKey.key j) none = false
key_is (SubscriptionKey.key j) (some k) = j == k

abbrev pub is_all : SubscriptionKey → Bool
is_all SubscriptionKey.all = true
is_all (SubscriptionKey.key j) = false

abbrev pub matches_key : KafkaMessageMeta → Subscription → Bool
matches_key meta sub = (sub.topic == meta.topic) && key_is sub.key meta.key

abbrev pub matches_all : KafkaMessageMeta → Subscription → Bool
matches_all meta sub = (sub.topic == meta.topic) && is_all sub.key

-- The writers of the subscriptions that pass a test, in the order in which they subscribed.
abbrev pub chosen : (Subscription → Bool) → List Entry → List WriterId
chosen p [] = []
chosen p ((id, sub) ∷ entries) = let rest = chosen p entries in if p sub then id ∷ rest else rest

-- A writer is added by a subscription that passes a test.
abbrev added : Bool → WriterId → List WriterId
added b id = if b then id ∷ [] else []

keyed-subscribe_key :
    (id : WriterId) (s : SubscriptionKey) (k : Option (List ℕ)) (t : TopicMessageRouter)
    → keyed k (topic_subscribe_key id s t) ≡ keyed k t ++ added (key_is s k) id
unfolding keyed topic_subscribe_key push
keyed-subscribe_key id SubscriptionKey.all none t = refl
keyed-subscribe_key id (SubscriptionKey.key j) none t = refl
keyed-subscribe_key id SubscriptionKey.all (some k) t = sym (append-nil _)
keyed-subscribe_key id (SubscriptionKey.key j) (some k) t =
    rw get-entry (elim (Bool-cases (j == k)) [
      | inl same ↦ rw (same, (bytes_beq_iff j k).0 same)
      | inr different ↦ rw different (sym (append-nil _))
    ])

all-subscribe_key :
    (id : WriterId) (s : SubscriptionKey) (t : TopicMessageRouter)
    → TopicMessageRouter.all_key_subscribers (topic_subscribe_key id s t)
      ≡ t.all_key_subscribers ++ added (is_all s) id
unfolding topic_subscribe_key push
all-subscribe_key id SubscriptionKey.all t = refl
all-subscribe_key id (SubscriptionKey.key j) t = sym (append-nil _)

-- The router of a topic, which is empty before the first subscription.
abbrev router_for : MessageRouter → String → TopicMessageRouter
router_for r topic = or_default r.default_router (Map.get topic r.topic_routers)

router_for-subscribe :
    (id : WriterId) (sub : Subscription) (r : MessageRouter) (topic : String)
    → r.default_router ≡ default_topic_router
    → router_for (subscribe id sub r) topic ≡ (
        if sub.topic == topic
        then topic_subscribe id sub (router_for r topic)
        else router_for r topic)
unfolding subscribe
router_for-subscribe id sub r topic h =
    rw get-entry (ground (arith, h, string_eq.equal_iff sub.topic topic))

keyed_for-subscribe :
    (id : WriterId) (sub : Subscription) (r : MessageRouter) (meta : KafkaMessageMeta)
    → r.default_router ≡ default_topic_router
    → keyed meta.key (router_for (subscribe id sub r) meta.topic)
      ≡ keyed meta.key (router_for r meta.topic) ++ added (matches_key meta sub) id
unfolding topic_subscribe
keyed_for-subscribe id sub r meta h =
    rw (router_for-subscribe id sub r meta.topic h) (elim (Bool-cases (sub.topic == meta.topic)) [
      | inl same ↦ rw same (keyed-subscribe_key id sub.key meta.key _)
      | inr different ↦ rw different (sym (append-nil _))
    ])

all_for-subscribe :
    (id : WriterId) (sub : Subscription) (r : MessageRouter) (meta : KafkaMessageMeta)
    → r.default_router ≡ default_topic_router
    → TopicMessageRouter.all_key_subscribers (router_for (subscribe id sub r) meta.topic)
      ≡ TopicMessageRouter.all_key_subscribers (router_for r meta.topic)
        ++ added (matches_all meta sub) id
unfolding topic_subscribe
all_for-subscribe id sub r meta h =
    rw (router_for-subscribe id sub r meta.topic h) (elim (Bool-cases (sub.topic == meta.topic)) [
      | inl same ↦ rw same (all-subscribe_key id sub.key _)
      | inr different ↦ rw different (sym (append-nil _))
    ])

default_router-subscribe :
    (id : WriterId) (sub : Subscription) (r : MessageRouter)
    → (subscribe id sub r).default_router ≡ r.default_router
unfolding subscribe
default_router-subscribe id sub r = refl

added-append :
    (b : Bool) (id : WriterId) (xs rest : List WriterId)
    → (xs ++ added b id) ++ rest ≡ xs ++ (if b then id ∷ rest else rest)
added-append true id xs rest = append_assoc xs (id ∷ []) rest
added-append false id xs rest = ap (λ (ys : List WriterId). ys ++ rest) (append-nil xs)

module _ (meta : KafkaMessageMeta) where
  keyed_for-subscribe_all :
      (entries : List Entry) (r : MessageRouter)
      → r.default_router ≡ default_topic_router
      → keyed meta.key (router_for (subscribe_all entries r) meta.topic)
        ≡ keyed meta.key (router_for r meta.topic) ++ chosen (matches_key meta) entries
  unfolding subscribe_all
  keyed_for-subscribe_all [] r h = sym (append-nil _)
  keyed_for-subscribe_all ((id, sub) ∷ entries) r h =
      keyed_for-subscribe_all entries (subscribe id sub r) (default_router-subscribe id sub r ∙ h)
      ∙ rw (keyed_for-subscribe id sub r meta h) (added-append (matches_key meta sub) id _ _)

  all_for-subscribe_all :
      (entries : List Entry) (r : MessageRouter)
      → r.default_router ≡ default_topic_router
      → TopicMessageRouter.all_key_subscribers (router_for (subscribe_all entries r) meta.topic)
        ≡ TopicMessageRouter.all_key_subscribers (router_for r meta.topic)
          ++ chosen (matches_all meta) entries
  unfolding subscribe_all
  all_for-subscribe_all [] r h = sym (append-nil _)
  all_for-subscribe_all ((id, sub) ∷ entries) r h =
      all_for-subscribe_all entries (subscribe id sub r) (default_router-subscribe id sub r ∙ h)
      ∙ rw (all_for-subscribe id sub r meta h) (added-append (matches_all meta sub) id _ _)

keyed_default : (k : Option (List ℕ)) → keyed k default_topic_router ≡ []
unfolding keyed Map.get
keyed_default none = refl
keyed_default (some k) = refl

-- From the empty router, after any subscriptions, a message goes to the writers of the keyed
-- subscriptions that have its topic and its key, and then to those of the all-keys subscriptions
-- that have its topic, each in the order of subscription, and once for each such subscription.
pub writers_for-subscribe_all :
    (entries : List Entry) (meta : KafkaMessageMeta)
    → writers_for (subscribe_all entries default) meta
      ≡ chosen (matches_key meta) entries ++ chosen (matches_all meta) entries
unfolding writers_for topic_writers_for Map.get
writers_for-subscribe_all entries meta =
    ap₂ (λ (a b : List WriterId). a ++ b)
      (keyed_for-subscribe_all meta entries default refl
        ∙ ap (λ (a : List WriterId). a ++ chosen (matches_key meta) entries)
            (keyed_default meta.key))
      (all_for-subscribe_all meta entries default refl)

-- Subscriptions may be made in two batches.
pub subscribe_all-append :
    (as' bs : List Entry) (r : MessageRouter)
    → subscribe_all (as' ++ bs) r ≡ subscribe_all bs (subscribe_all as' r)
unfolding subscribe_all
subscribe_all-append [] bs r = refl
subscribe_all-append ((id, sub) ∷ as') bs r = subscribe_all-append as' bs (subscribe id sub r)

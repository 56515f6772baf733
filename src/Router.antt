-- ===== src/Router.antt =====
-- run_writer/message_router.rs: which writers a message goes to, by its topic and key.
pub mod Routes
pub mod Topics
use kafka_file_writer.Base.{ℕ, String, Option, none, some, List, [], ◌∷◌, ◌++◌}
use kafka_file_writer.Base.Equality.{string_eq, bytes_eq}
use kafka_file_writer.Base.Map
use kafka_file_writer.Base.Map.{HashMap, or_default}
use kafka_file_writer.Subscription.{Subscription, SubscriptionKey}
use kafka_file_writer.Message.{KafkaMessageMeta}

-- A writer is known by its index.
abbrev pub WriterId : Type 0
WriterId = ℕ

pub record TopicMessageRouter : Type 0 where
  pub keyed_subscribers : HashMap (List ℕ) (List WriterId)
  pub all_key_subscribers : List WriterId

pub record MessageRouter : Type 0 where
  pub topic_routers : HashMap String TopicMessageRouter
  pub default_router : TopicMessageRouter

abbrev pub default_topic_router : TopicMessageRouter
default_topic_router = record { keyed_subscribers = []; all_key_subscribers = [] }

abbrev pub default : MessageRouter
default = record { topic_routers = []; default_router = default_topic_router }

push : WriterId → List WriterId → List WriterId
push id ids = ids ++ (id ∷ [])

topic_subscribe_key : WriterId → SubscriptionKey → TopicMessageRouter → TopicMessageRouter
topic_subscribe_key id SubscriptionKey.all t = record t {
  all_key_subscribers = push id t.all_key_subscribers;
}
topic_subscribe_key id (SubscriptionKey.key k) t = record t {
  keyed_subscribers = Map.entry k [] (push id) t.keyed_subscribers;
}

-- `TopicMessageRouter::subscribe`
topic_subscribe : WriterId → Subscription → TopicMessageRouter → TopicMessageRouter
unfolding topic_subscribe_key push
topic_subscribe id subscription = topic_subscribe_key id subscription.key

-- `MessageRouter::subscribe`
unfoldable pub subscribe : WriterId → Subscription → MessageRouter → MessageRouter
unfolding topic_subscribe
subscribe id subscription r = record r {
  topic_routers =
      Map.entry subscription.topic default_topic_router (topic_subscribe id subscription)
        r.topic_routers;
}

unfoldable pub topics : MessageRouter → List String
topics r = Map.keys r.topic_routers

keyed : Option (List ℕ) → TopicMessageRouter → List WriterId
keyed none t = []
keyed (some k) t = or_default [] (Map.get k t.keyed_subscribers)

-- `TopicMessageRouter::writers_for`: keyed subscribers first.
topic_writers_for : KafkaMessageMeta → TopicMessageRouter → List WriterId
unfolding keyed
topic_writers_for meta t = keyed meta.key t ++ t.all_key_subscribers

-- `MessageRouter::writers_for`
unfoldable pub writers_for : MessageRouter → KafkaMessageMeta → List WriterId
unfolding topic_writers_for
writers_for r meta =
    topic_writers_for meta (or_default r.default_router (Map.get meta.topic r.topic_routers))

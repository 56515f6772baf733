-- ===== src/Tests/Unit/Routing.antt =====
-- run_writer/message_router.rs: the unit tests.
use kafka_file_writer.Base.{
  ℕ, String, ◌≡◌, refl, Bool, true, ◌&&◌, Option, none, some, List, [], ◌∷◌,
}
use kafka_file_writer.Base.Equality.{◌==◌, bytes_eq}
use kafka_file_writer.Base.Int.{pos}
use kafka_file_writer.Base.Map
use kafka_file_writer.Message.{KafkaMessageMeta}
use kafka_file_writer.Subscription.{Subscription, SubscriptionKey}
use kafka_file_writer.Router.{default, subscribe, writers_for}
use kafka_file_writer.Tests.Unit.{bytes, same_set}

abbrev meta : String → Option (List ℕ) → KafkaMessageMeta
meta topic key = record {
  topic = topic;
  key = key;
  partition = pos 0;
  offset = pos 0;
  timestamp = some (pos 0);
}

abbrev to_all : String → Subscription
to_all topic = record { topic = topic; key = SubscriptionKey.all }

abbrev to_key : String → String → Subscription
to_key topic key = record { topic = topic; key = SubscriptionKey.key (bytes key) }

abbrev test_unknown_topic : Bool
test_unknown_topic =
    let router = subscribe 123 (to_all "someTopic") default in
    writers_for router (meta "someOtherTopic" (some (bytes ""))) == []

test_unknown_topic_passes : test_unknown_topic ≡ true
unfolding subscribe Map.entry writers_for Map.get
test_unknown_topic_passes = refl

abbrev test_known_topic_all_keys : Bool
test_known_topic_all_keys =
    let router = subscribe 123 (to_all "someTopic") default in
    writers_for router (meta "someTopic" (some (bytes ""))) == (123 ∷ [])

test_known_topic_all_keys_passes : test_known_topic_all_keys ≡ true
unfolding subscribe Map.entry writers_for Map.get
test_known_topic_all_keys_passes = refl

abbrev test_known_topic_unknown_key : Bool
test_known_topic_unknown_key =
    let router = subscribe 123 (to_key "someTopic" "foo") default in
    writers_for router (meta "someTopic" (some (bytes "a_different_key"))) == []

test_known_topic_unknown_key_passes : test_known_topic_unknown_key ≡ true
unfolding subscribe Map.entry writers_for Map.get
test_known_topic_unknown_key_passes = refl

abbrev test_known_topic_known_key : Bool
test_known_topic_known_key =
    let router = subscribe 123 (to_key "someTopic" "someKey") default in
    writers_for router (meta "someTopic" (some (bytes "someKey"))) == (123 ∷ [])

test_known_topic_known_key_passes : test_known_topic_known_key ≡ true
unfolding subscribe Map.entry writers_for Map.get
test_known_topic_known_key_passes = refl

abbrev test_multiple_subscriptions : Bool
test_multiple_subscriptions =
    let r₁ = subscribe 1 (to_all "topic1") default in
    let r₂ = subscribe 2 (to_key "topic1" "key2") r₁ in
    let r₃ = subscribe 3 (to_key "topic1" "key3") r₂ in
    let r₄ = subscribe 4 (to_key "topic1" "key3") r₃ in
    let r₁₁ = subscribe 11 (to_all "topic2") r₄ in
    let r₁₂ = subscribe 12 (to_key "topic2" "key2") r₁₁ in
    let r₁₃ = subscribe 13 (to_key "topic2" "key3") r₁₂ in
    let router = subscribe 14 (to_key "topic2" "key3") r₁₃ in
    same_set (writers_for router (meta "topic1" (some (bytes "key1")))) (1 ∷ [])
    && same_set (writers_for router (meta "topic1" none)) (1 ∷ [])
    && same_set (writers_for router (meta "topic1" (some (bytes "key2")))) (1 ∷ 2 ∷ [])
    && same_set (writers_for router (meta "topic1" (some (bytes "key3")))) (1 ∷ 3 ∷ 4 ∷ [])
    && same_set (writers_for router (meta "topic2" (some (bytes "key1")))) (11 ∷ [])
    && same_set (writers_for router (meta "topic2" none)) (11 ∷ [])
    && same_set (writers_for router (meta "topic2" (some (bytes "key2")))) (11 ∷ 12 ∷ [])
    && same_set (writers_for router (meta "topic2" (some (bytes "key3")))) (11 ∷ 13 ∷ 14 ∷ [])
    && same_set (writers_for router (meta "topic3" (some (bytes "key1")))) []
    && same_set (writers_for router (meta "topic3" none)) []

test_multiple_subscriptions_passes : test_multiple_subscriptions ≡ true
unfolding subscribe Map.entry writers_for Map.get
test_multiple_subscriptions_passes = refl

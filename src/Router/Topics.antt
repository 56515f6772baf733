-- ===== src/Router/Topics.antt =====
-- run_writer/message_router.rs: the topics of a router.
use kafka_file_writer.Base.{String, ◌≡◌, refl, ◌∙◌, Bool, true, false, ◌||◌, List, [], ◌∷◌, arith}
use kafka_file_writer.Base.Equality.{◌==◌, string_eq}
use kafka_file_writer.Base.Map
use kafka_file_writer.Base.Map.{contains, distinct, contains-keys-entry, distinct-keys-entry}
use kafka_file_writer.Router.{MessageRouter, default, subscribe, topics}
use kafka_file_writer.Router.Routes.{Entry, subscribe_all}

-- Some subscription names the topic.
abbrev pub mentions : String → List Entry → Bool
mentions topic [] = false
mentions topic ((id, sub) ∷ entries) = sub.topic == topic || mentions topic entries

or_rotate : (a b c : Bool) → (c || (a || b)) ≡ ((a || c) || b)
or_rotate a b c = ground arith

contains-topics-subscribe_all :
    (topic : String) (entries : List Entry) (r : MessageRouter)
    → contains topic (topics (subscribe_all entries r))
      ≡ (mentions topic entries || contains topic (topics r))
unfolding subscribe_all topics subscribe
contains-topics-subscribe_all topic [] r = refl
contains-topics-subscribe_all topic ((id, sub) ∷ entries) r =
    contains-topics-subscribe_all topic entries (subscribe id sub r)
    ∙ rw contains-keys-entry (ground arith)

distinct-topics-subscribe_all :
    (entries : List Entry) (r : MessageRouter)
    → distinct (topics r) ≡ true
    → distinct (topics (subscribe_all entries r)) ≡ true
unfolding subscribe_all topics subscribe
distinct-topics-subscribe_all [] r h = h
distinct-topics-subscribe_all ((id, sub) ∷ entries) r h =
    distinct-topics-subscribe_all entries (subscribe id sub r) (distinct-keys-entry _ _ _ _ h)

-- From the empty router, the topics after any subscriptions are exactly those that a subscription
-- names, and none is listed twice.
pub topics-subscribe_all :
    (entries : List Entry)
    → ((topic : String)
        → contains topic (topics (subscribe_all entries default)) ≡ mentions topic entries)
      × (distinct (topics (subscribe_all entries default)) ≡ true)
unfolding topics contains distinct Map.keys
topics-subscribe_all entries = (
  λ topic. contains-topics-subscribe_all topic entries default ∙ ground arith,
  distinct-topics-subscribe_all entries default refl,
)

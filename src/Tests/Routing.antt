-- ===== src/Tests/Routing.antt =====
-- Examples for the router and the registry of writer modules.
use kafka_file_writer.Base.{String, ◌≡◌, refl, true, some, List, [], ◌∷◌}
use kafka_file_writer.Base.Equality.{string_eq}
use kafka_file_writer.Base.Map
use kafka_file_writer.Base.Map.{contains, distinct}
use kafka_file_writer.Subscription.{SubscriptionKey}
use kafka_file_writer.Message.{KafkaMessageMeta}
use kafka_file_writer.Router.{default, writers_for, topics, subscribe}
use kafka_file_writer.Router.Routes.{Entry, subscribe_all, writers_for-subscribe_all}
use kafka_file_writer.Router.Topics.{mentions, topics-subscribe_all}
use kafka_file_writer.Base.Exec.{raise}
use kafka_file_writer.Error.{config_parse_error}
use kafka_file_writer.Writer.Factories.{get, WriterModuleCreateFn}
use kafka_file_writer.Writer.Factories.Names.{
  register_all, get-register_all, has_duplicated-register_all,
}
use kafka_file_writer.Tests.Fixtures.{meta}

abbrev entries : List Entry
entries =
    (0, record { topic = "events"; key = SubscriptionKey.all })
    ∷ (1, record { topic = "events"; key = SubscriptionKey.key (9 ∷ []) })
    ∷ (1, record { topic = "monitors"; key = SubscriptionKey.all })
    ∷ (1, record { topic = "events"; key = SubscriptionKey.all })
    ∷ []

abbrev keyed_meta : KafkaMessageMeta
keyed_meta = record (meta 1500) { key = some (9 ∷ []) }

-- Writer 1 has a keyed and an all-keys subscription, and gets the message twice.
routed : writers_for (subscribe_all entries default) keyed_meta ≡ 1 ∷ 0 ∷ 1 ∷ []
unfolding subscribe_all writers_for subscribe Map.entry Map.get
routed = refl

writers_for-subscribe_all_example :
    writers_for (subscribe_all entries default) keyed_meta ≡ 1 ∷ 0 ∷ 1 ∷ []
writers_for-subscribe_all_example = writers_for-subscribe_all entries keyed_meta

topics-subscribe_all_example :
    ((topic : String)
      → contains topic (topics (subscribe_all entries default)) ≡ mentions topic entries)
    × (distinct (topics (subscribe_all entries default)) ≡ true)
topics-subscribe_all_example = topics-subscribe_all entries

abbrev create_nothing : WriterModuleCreateFn String String String
create_nothing parent run value = raise (config_parse_error "no configuration" "NXlog")

abbrev creators : List (String × WriterModuleCreateFn String String String)
creators =
    ("NXlog", create_nothing) ∷ ("IXseblock", create_nothing) ∷ ("NXlog", create_nothing) ∷ []

get-register_all_example : get (register_all creators) "NXlog" ≡ some create_nothing
get-register_all_example = get-register_all creators "NXlog"

has_duplicated-register_all_example : (register_all creators).has_duplicated_module_names ≡ true
unfolding distinct contains
has_duplicated-register_all_example = has_duplicated-register_all creators

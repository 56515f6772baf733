-- ===== src/Tests/Fixtures.antt =====
-- A file with two writers of events, the messages that come, and the settings.
use kafka_file_writer.Base.{ℕ, zero, suc, String, true, false, none, some, List, [], ◌∷◌}
use kafka_file_writer.Base.Int.{ℤ, pos}
use kafka_file_writer.Base.Exec.{Result, ok, err}
use kafka_file_writer.Error.{Cause}
use kafka_file_writer.Message.{
  Message, KafkaMessageMeta, DeserializedMessage, RunStart, RunStop, EventData, run_start_pl72,
  run_stop_6s4t, event_data_ev44, other,
}
use kafka_file_writer.Subscription.{SubscriptionKey}
use kafka_file_writer.Json.{Value}
use kafka_file_writer.Structure.{
  NexusFileStructure, nexus_group, NexusGroupType, NexusStructureItem, group, writer_module, nil,
  cons, StructureSource,
}
use kafka_file_writer.Config.{GlobalConfig}
use kafka_file_writer.Run.{RunStartParameters}
use kafka_file_writer.Hdf.{Hdf5}
use kafka_file_writer.Writer.{WriterModule}
use kafka_file_writer.Writer.Factories.{WriterModuleFactories}
use kafka_file_writer.Writer.Ixseblock.{IxseblockConfig, ixseblock_config}
use kafka_file_writer.Writer.Nxeventdata.{Floats, Element, f64, Nxeventdata, NxeventdataConfig}
use kafka_file_writer.Writer.Registry.{AnyWriter, nxeventdata, writer_modules, default_registry}
use kafka_file_writer.Placed.{PlacedWriter}
use kafka_file_writer.File.{InProgressFile}
use kafka_file_writer.Task.{Environment}
use kafka_file_writer.Tests.Memory.{memory, Store}

-- Whole numbers in place of floating-point numbers.
abbrev pub floats : Floats
floats = record { F64 = ℤ; F32 = ℤ; to_f64 = λ t. t; to_f32_div_1000 = λ t. t }

abbrev pub hdf : Hdf5 (Element ℤ ℤ)
hdf = memory (f64 (pos 0))

abbrev pub writers : WriterModule (Store (Element ℤ ℤ))
writers = writer_modules floats hdf

abbrev pub no_store : Store (Element ℤ ℤ)
no_store d = none

abbrev pub topic_of : Value → Result Cause NxeventdataConfig
topic_of (Value.string topic) = ok (record { topic = topic })
topic_of _ = err "missing field `topic`"

abbrev pub no_config : Value → Result Cause IxseblockConfig
no_config value = ok ixseblock_config

abbrev pub registry : WriterModuleFactories String (Store (Element ℤ ℤ)) (AnyWriter String)
registry = default_registry floats hdf no_config topic_of

abbrev pub run : RunStartParameters
run = record {
  start_time_ms = 1000;
  stop_time_ms = 2000;
  nexus_structure = "{}";
  job_id = "job";
  filename = "run.nxs";
  n_periods = 1;
  metadata = none;
  control_topic = some "control";
}

abbrev event_group : String → String → NexusStructureItem
event_group name topic = group (
    nexus_group NexusGroupType.group_type name
      (cons (writer_module (record { module_name = "NXevent_data"; config = Value.string topic }))
        nil)
      (("NX_class", Value.string "NXentry") ∷ []))

abbrev pub structure : NexusFileStructure
structure = record {
  children = cons (event_group "a" "events") (cons (event_group "b" "monitors") nil);
  attributes = [];
}

abbrev pub event_writer : String → String → ℕ → Nxeventdata String
event_writer g topic latest = record {
  config = record { topic = topic };
  group = g;
  run_start_time_ms = 1000;
  run_stop_time_ms = 2000;
  latest_message_time_ms = latest;
}

abbrev pub placed : String → String → ℕ → PlacedWriter String (AnyWriter String)
placed g topic latest = record {
  group = g;
  writer = nxeventdata (event_writer g topic latest);
  writer_name = "NXevent_data";
  subscriptions = record { topic = topic; key = SubscriptionKey.all } ∷ [];
}

-- The file that the structure asks for.
abbrev pub two_writers : InProgressFile String (AnyWriter String)
two_writers = record {
  file = "/";
  writers = placed "//a" "events" 0 ∷ placed "//b" "monitors" 0 ∷ [];
  run_start_parameters = run;
  run_stop_received = false;
  router = record {
    topic_routers =
        ("events", record { keyed_subscribers = []; all_key_subscribers = 0 ∷ [] })
        ∷ ("monitors", record { keyed_subscribers = []; all_key_subscribers = 1 ∷ [] })
        ∷ [];
    default_router = record { keyed_subscribers = []; all_key_subscribers = [] };
  };
}

abbrev pub meta : ℕ → KafkaMessageMeta
meta t = record {
  topic = "events";
  key = none;
  partition = pos 0;
  offset = pos 7;
  timestamp = some (pos t);
}

abbrev pub events : EventData
events = record { pixel_id = some (4 ∷ 5 ∷ []); time_of_flight = some (pos 40 ∷ pos 50 ∷ []) }

abbrev pub stop : RunStop
stop = record { stop_time = 1500; job_id = some "job" }

abbrev pub start : RunStart
start = record {
  start_time = 1000;
  stop_time = 0;
  nexus_structure = some "{}";
  job_id = some "job";
  filename = some "run.nxs";
  n_periods = 1;
  metadata = none;
  control_topic = some "control";
}

-- The payload 0 is a run start, 1 a run stop, 2 events, 3 another message; others do not parse.
abbrev pub deserialize : List ℕ → Result Cause DeserializedMessage
deserialize (zero ∷ []) = ok (run_start_pl72 start)
deserialize (suc zero ∷ []) = ok (run_stop_6s4t stop)
deserialize (suc (suc zero) ∷ []) = ok (event_data_ev44 events)
deserialize (suc (suc (suc zero)) ∷ []) = ok other
deserialize _ = err "unknown schema"

abbrev pub message : List ℕ → ℕ → Message
message payload t = record {
  payload = some payload;
  key = none;
  topic = "events";
  timestamp = some (pos t);
  partition = pos 0;
  offset = pos 7;
}

abbrev pub config : GlobalConfig
config = record {
  stream_seek_back_in_time_ms = 60000;
  job_pool_topic = "pool";
  job_pool_consumer_poll_time_ms = 1000;
  data_consumer_poll_time_ms = 1000;
  stream_error_backoff_ms = 3000;
  kafka_assignment_timeout_ms = 10000;
  job_pool_kafka_consumer_settings = [];
  data_kafka_consumer_settings = ("group.id", "shared") ∷ [];
  file_output_directory = "/data";
  forced_nexus_structure_filepath = none;
  exit_after_writing_one_file = true;
}

abbrev source : StructureSource
source = record {
  from_json = λ text. ok structure;
  from_location = λ text line column. 0;
  read_to_string = λ path. err "no such file";
}

abbrev pub environment : Environment hdf writers
environment = record {
  deserialize_message = deserialize;
  source = source;
  json_text = λ value. "json";
  config = config;
  factories = registry;
}

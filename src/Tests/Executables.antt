-- ===== src/Tests/Executables.antt =====
-- Examples for the executables.
use kafka_file_writer.Base.{ℕ, suc, String, ◌≡◌, refl, true, Option, none, some, List, [], ◌∷◌, All}
use kafka_file_writer.Base.Equality.{string_eq}
use kafka_file_writer.Base.Int.{ℤ, pos}
use kafka_file_writer.Base.Exec.{Result, ok, pure}
use kafka_file_writer.Base.Map
use kafka_file_writer.Base.Map.{HashMap, get-insert}
use kafka_file_writer.Stream.Kafka.Settings.{SettingLaws}
use kafka_file_writer.Error.{Cause}
use kafka_file_writer.Message.{Message}
use kafka_file_writer.Config.{GlobalConfig, from_path}
use kafka_file_writer.Structure
use kafka_file_writer.Structure.{NexusFileStructure, nil, StructureSource, from_str}
use kafka_file_writer.Router
use kafka_file_writer.Stream.Kafka.{Rdkafka, kafka_stream}
use kafka_file_writer.Hdf.Attr
use kafka_file_writer.Hdf.Context
use kafka_file_writer.Hdf.FileCreator.{create_file}
use kafka_file_writer.Hdf.Scope
use kafka_file_writer.Writer.Factories
use kafka_file_writer.Writer.Nxeventdata
use kafka_file_writer.Writer.Nxeventdata.{Element}
use kafka_file_writer.Writer.Registry
use kafka_file_writer.Placed
use kafka_file_writer.File
use kafka_file_writer.File.Building.{modules, strays}
use kafka_file_writer.FileWriter
use kafka_file_writer.FileWriter.{write_one_file}
use kafka_file_writer.Base.Loop.{loop}
use kafka_file_writer.JobPool
use kafka_file_writer.JobPool.{wait_for_run_start}
use kafka_file_writer.Task
use kafka_file_writer.Task.{write_data_for_run, handle_messages_until_run_stop}
use kafka_file_writer.Run
use kafka_file_writer.Run.{from_pl72}
use kafka_file_writer.Stream.Kafka
use kafka_file_writer.Stream.Scope.{with_assignment, with_subscription_to_job_pool}
use kafka_file_writer.Hdf.Scope.{with_nexus_file}
use kafka_file_writer.Bin.{Report}
use kafka_file_writer.Bin.StructureVerify
use kafka_file_writer.Bin.StructureVerify.Verdict.{IsKnown, main-ok}
use kafka_file_writer.Bin.KafkaFileWriter
use kafka_file_writer.Bin.KafkaFileWriter.{Draws, kafka_host}
use kafka_file_writer.Bin.KafkaFileWriter.Exit.{WrittenOnKafka, main-one_file}
use kafka_file_writer.Tests.Memory.{Store}
use kafka_file_writer.Tests.Fixtures.{
  floats, hdf, writers, registry, no_store, structure, no_config, topic_of, message, config,
  deserialize,
}

-- Every file can be read, and every text is the structure with two modules.
abbrev disk : StructureSource
disk = record {
  from_json = λ text. ok structure;
  from_location = λ text line column. 0;
  read_to_string = λ path. ok "{}";
}

abbrev args : Result Cause StructureVerify.Args
args = ok (record { file = "isis.json" })

abbrev verdict : Option (Result Report (Unit {0}) × Store (Element ℤ ℤ))
verdict =
    StructureVerify.main floats hdf no_config topic_of (λ value. "json") disk args "id" "now"
      no_store

abbrev store : Store (Element ℤ ℤ)
store =
    (File.new hdf writers registry (λ value. "json") "name-id" Run.default structure "now"
      no_store).1

accepted : verdict ≡ some (ok tt, store)
unfolding StructureVerify.main Structure.from_str Scope.with_nexus_file create_file File.new
    Context.err_parent_dataset File.add_attributes Attr.add_ascii_string_attribute
    Context.err_attribute Placed.new Factories.get Map.get Registry.default_registry
    Factories.register_module Map.insert Factories.create_writer_module Factories.parse_config
    Nxeventdata.create Attr.add_root_dataset_attributes File.add_placed_writer Router.subscribe
    Map.entry
accepted = refl

main-ok_example :
    (a : StructureVerify.Args) × (json : String) × (s : NexusFileStructure) × (args ≡ ok a)
    × (disk.read_to_string a.file ≡ ok json)
    × (from_str disk json ≡ ok s)
    × All IsKnown (modules s.children)
    × (strays s.children ≡ [])
main-ok_example =
    main-ok floats hdf no_config topic_of (λ value. "json") disk args "id" "now" no_store store
      accepted

-- A structure without modules.
abbrev bare : StructureSource
bare = record disk { from_json = λ text. ok (record { children = nil; attributes = [] }) }

-- What a consumer with this group finds: none has the job pool, any the data.
abbrev holds : Option String → List Message
holds none = message (0 ∷ []) 7 ∷ []
holds (some group) = message (1 ∷ []) 1500 ∷ []

abbrev next : List Message → Option (Result Cause Message) × List Message
next [] = (none, [])
next (m ∷ ms) = (some (ok m), ms)

-- A broker whose job pool holds a run start, and whose data, for the consumers with a group, a run
-- stop. The state of a consumer is what it has yet to deliver.
abbrev broker : Rdkafka
broker = record {
  State = List Message;
  ClientConfig = HashMap String String;
  TopicPartitionList = ℕ;
  new_config = [];
  set = λ c name value. Map.insert name value c;
  create = λ c. ok (holds (Map.get "group.id" c));
  new_list = 0;
  add_partition_offset = λ topic partition offset. pure tt;
  fetch_metadata =
      λ topic timeout. pure (record { name = topic; error = none; partitions = pos 0 ∷ [] } ∷ []);
  offsets_for_times = λ list timeout. pure list;
  assign = λ list. pure tt;
  unassign = pure tt;
  subscribe = λ topics. pure tt;
  unsubscribe = λ s. s;
  poll = λ timeout s. next s;
  commit_message = λ m mode. pure tt;
}

-- The world counts the UUIDs.
abbrev draws : Draws
draws = record { World = ℕ; uuid = λ n. ("id", suc n); time = λ n. ("now", n) }

abbrev command : Result Cause KafkaFileWriter.Args
command = ok (record { config = "config.toml" })

abbrev exit : Option (Result Report (Unit {0}) × (Store (Element ℤ ℤ) × ℕ))
exit =
    KafkaFileWriter.main floats hdf broker draws deserialize no_config topic_of (λ value. "json")
      bare (λ text. ok config) 1 3 command (no_store, 0)

exited : exit ≡ some (ok tt, (no_store, 2))
unfolding KafkaFileWriter.main from_path FileWriter.write_files write_one_file wait_for_run_start
    JobPool.round loop write_data_for_run File.new Task.push_path create_file with_nexus_file
    Task.seek_timestamp Task.assignment_topics handle_messages_until_run_stop Task.round
    File.finished Task.handle_one_message File.on_run_stop from_pl72 Run.structure
    Structure.from_run_start Structure.from_str Kafka.poll Kafka.subscribe Kafka.unassign
    Kafka.assign_from_timestamp Kafka.commit_message Kafka.from_config
    Kafka.make_job_pool_kafka_client_config Kafka.make_data_kafka_client_config with_assignment
    with_subscription_to_job_pool Attr.add_root_dataset_attributes File.add_attributes
    Attr.add_ascii_string_attribute Context.err_attribute Task.unique File.topics Router.topics
    Map.keys Map.contains Map.get Map.insert Kafka.add_topics Kafka.partitions_for Run.control_topic
    File.job_id
exited = refl

broker_laws : SettingLaws broker
unfolding Map.get
broker_laws = record {
  get = λ c name. Map.get name c;
  get_set = λ c name value name'. get-insert name name' value c;
}

abbrev Written : GlobalConfig → Type 0
Written settings =
    WrittenOnKafka floats hdf broker draws deserialize no_config topic_of (λ value. "json") bare
      (λ text. ok config) broker_laws settings 3 no_store no_store 0

main-one_file_example :
    (a : KafkaFileWriter.Args) × (settings : GlobalConfig) × (command ≡ ok a)
    × (from_path bare.read_to_string (λ text. ok config) a.config ≡ ok settings)
    × (settings.exit_after_writing_one_file ≡ true)
    × Written settings
main-one_file_example =
    main-one_file floats hdf broker draws deserialize no_config topic_of (λ value. "json") bare
      (λ text. ok config) broker_laws 1 3 command no_store no_store 0 2 exited

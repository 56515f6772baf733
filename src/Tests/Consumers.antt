-- ===== src/Tests/Consumers.antt =====
-- Examples for the scopes, the settings of consumers and the whole writer.
use kafka_file_writer.Base.{ℕ, suc, String, ◌≡◌, ◌↔◌, refl, false, none, some, [], ◌∷◌}
use kafka_file_writer.Base.Equality.{string_eq}
use kafka_file_writer.Base.{List}
use kafka_file_writer.Base.Map
use kafka_file_writer.Base.Map.{HashMap, get-insert}
use kafka_file_writer.Base.Int.{pos}
use kafka_file_writer.Base.Exec.{ok, err, pure}
use kafka_file_writer.Base.Loop.{Run}
use kafka_file_writer.Error.{FileWriterError, hdf5_error, create_error}
use kafka_file_writer.Stream.Fake
use kafka_file_writer.Stream.Fake.{FakeStream, fake_stream, default}
use kafka_file_writer.Stream.Scope.{with_assignment}
use kafka_file_writer.Stream.Scope.Release.{with_assignment-ok, with_assignment-free, EndedWell}
use kafka_file_writer.Stream.Kafka.Partitions.{FirstNamed, partitions_for-ok}
use kafka_file_writer.Stream.Kafka.{
  partitions_for, MetadataTopic, Rdkafka, make_data_kafka_client_config,
}
use kafka_file_writer.Stream.Kafka.Settings.{SettingLaws, make_data_config_lem}
use kafka_file_writer.Tests.Fixtures.{config}

-- A function that loses a message and returns its count.
abbrev poll_once : Run (ℕ × FakeStream) FileWriterError ℕ
poll_once (n, s) = some (ok n, (suc n, record s { messages = [] }))

with_assignment-ok_example :
    (with_assignment fake_stream ("events" ∷ []) (pos 5) 10 poll_once (0, default)
      ≡ some (ok 0, (1, default)))
    ↔ EndedWell fake_stream poll_once ("events" ∷ []) (pos 5) 10 0 default 0 1 default
with_assignment-ok_example =
    with_assignment-ok fake_stream poll_once ("events" ∷ []) (pos 5) 10 0 1 default default 0

-- A function that fails.
abbrev fail : Run (ℕ × FakeStream) FileWriterError ℕ
fail (n, s) = some (err (hdf5_error (create_error "disk full" "/data/run.nxs")), (n, s))

failed_once :
    with_assignment fake_stream ("events" ∷ []) (pos 5) 10 fail (0, default)
    ≡ some (err (hdf5_error (create_error "disk full" "/data/run.nxs")), (0, default))
unfolding with_assignment Fake.assign_from_timestamp Fake.unassign
failed_once = refl

with_assignment-free_example : default.is_assigned ≡ false
with_assignment-free_example =
    with_assignment-free fail 0 0 default default
      (err (hdf5_error (create_error "disk full" "/data/run.nxs"))) ("events" ∷ []) (pos 5) 10
      failed_once refl refl

abbrev events_topic : MetadataTopic
events_topic = record { name = "events"; error = none; partitions = pos 0 ∷ pos 1 ∷ [] }

-- A client library without a broker.
abbrev offline : Rdkafka
offline = record {
  State = ℕ;
  ClientConfig = HashMap String String;
  TopicPartitionList = ℕ;
  new_config = [];
  set = λ c name value. Map.insert name value c;
  create = λ c. ok 0;
  new_list = 0;
  add_partition_offset = λ topic partition offset. pure tt;
  fetch_metadata = λ topic timeout. pure (events_topic ∷ []);
  offsets_for_times = λ list timeout. pure list;
  assign = λ list. pure tt;
  unassign = pure tt;
  subscribe = λ topics. pure tt;
  unsubscribe = λ s. s;
  poll = λ timeout s. (none, s);
  commit_message = λ message mode. pure tt;
}

offline_laws : SettingLaws offline
unfolding Map.get
offline_laws = record {
  get = λ c name. Map.get name c;
  get_set = λ c name value name'. get-insert name name' value c;
}

partitions_for-ok_example :
    (ts : List MetadataTopic) × (t : MetadataTopic) × (offline.fetch_metadata "events" 10 3
      ≡ (ok ts, 3))
    × FirstNamed "events" t ts
    × (t.error ≡ none)
    × (t.partitions ≡ pos 0 ∷ pos 1 ∷ [])
unfolding partitions_for
partitions_for-ok_example = partitions_for-ok offline "events" 10 3 3 (pos 0 ∷ pos 1 ∷ []) refl

make_data_config_lem_example :
    offline_laws.get (make_data_kafka_client_config offline config "id") "group.id"
    ≡ some "kafka_file_writer-id"
make_data_config_lem_example = make_data_config_lem offline offline_laws config "id" "group.id"

-- ===== src/Stream/Kafka.antt =====
-- stream/kafka.rs: the consumer of the running program, on rdkafka's `BaseConsumer`. rdkafka is not
-- in the repository: its operations are a parameter.
pub mod Partitions
pub mod Settings
use kafka_file_writer.Base.{ℕ, String, ◌<>◌, true, false, Option, none, some, List, [], ◌∷◌, map}
use kafka_file_writer.Base.{if◌then◌else◌}
use kafka_file_writer.Base.Equality.{◌==◌, string_eq}
use kafka_file_writer.Base.Map.{HashMap}
use kafka_file_writer.Base.Int.{ℤ}
use kafka_file_writer.Base.Exec.{
  Result, ok, err, Exec, ◌>>=◌, ◌>>◌, pure, raise, lift, with_context, map_err, on_first, on_second,
}
use kafka_file_writer.Error.{Cause, StreamError, missing_metadata, consumer_creation_error}
use kafka_file_writer.Error.{assignment_error, poll_error, commit_error}
use kafka_file_writer.Message.{Message}
use kafka_file_writer.Config.{GlobalConfig}
use kafka_file_writer.Stream.{Stream, CommitMode}

-- What `fetch_metadata` tells of a topic, by its accessors.
pub record MetadataTopic : Type 0 where
  pub name : String
  pub error : Option ℤ
  pub partitions : List ℤ

pub record Rdkafka : Type 1 where
  pub State : Type 0
  pub ClientConfig : Type 0
  pub TopicPartitionList : Type 0
  -- `ClientConfig::new`, `set` and `create`
  pub new_config : ClientConfig
  pub set : ClientConfig → String → String → ClientConfig
  pub create : ClientConfig → Result Cause State
  -- `TopicPartitionList::new` and `add_partition_offset`
  pub new_list : TopicPartitionList
  pub add_partition_offset :
      String → (partition offset : ℤ) → Exec TopicPartitionList Cause (Unit {0})
  -- the methods of `BaseConsumer`
  pub fetch_metadata : String → (timeout : ℕ) → Exec State Cause (List MetadataTopic)
  pub offsets_for_times : TopicPartitionList → (timeout : ℕ) → Exec State Cause TopicPartitionList
  pub assign : TopicPartitionList → Exec State Cause (Unit {0})
  pub unassign : Exec State Cause (Unit {0})
  pub subscribe : List String → Exec State Cause (Unit {0})
  pub unsubscribe : State → State
  pub poll : (timeout : ℕ) → State → Option (Result Cause Message) × State
  pub commit_message : Message → CommitMode → Exec State Cause (Unit {0})

module _ (k : Rdkafka) where
  -- `KafkaStream::from_config`
  unfoldable pub from_config : k.ClientConfig → Result StreamError k.State
  from_config config = map_err consumer_creation_error (k.create config)

  set_all : HashMap String String → k.ClientConfig → k.ClientConfig
  set_all [] c = c
  set_all ((key, v) ∷ settings) c = set_all settings (k.set c key v)

  unfoldable pub make_job_pool_kafka_client_config : GlobalConfig → k.ClientConfig
  unfolding set_all
  make_job_pool_kafka_client_config config =
      set_all config.job_pool_kafka_consumer_settings k.new_config

  -- `uuid` is the UUID that the call draws.
  unfoldable pub make_data_kafka_client_config : GlobalConfig → (uuid : String) → k.ClientConfig
  unfolding set_all
  make_data_kafka_client_config config uuid =
      k.set (set_all config.data_kafka_consumer_settings k.new_config) "group.id"
        ("kafka_file_writer-" <> uuid)

  find_topic : String → List MetadataTopic → Option MetadataTopic
  find_topic topic [] = none
  find_topic topic (t ∷ ts) = if t.name == topic then some t else find_topic topic ts

  partitions_of_topic : String → MetadataTopic → Option ℤ → Result StreamError (List ℤ)
  partitions_of_topic topic t none = ok t.partitions
  partitions_of_topic topic t (some e) =
      err (missing_metadata none topic (some e) "error returned from fetching metadata")

  partitions_of : String → Option MetadataTopic → Result StreamError (List ℤ)
  partitions_of topic none =
      err (missing_metadata none topic none "finding topic in fetched metadata")
  partitions_of topic (some t) = partitions_of_topic topic t t.error

  unfoldable pub partitions_for : String → (timeout : ℕ) → Exec k.State StreamError (List ℤ)
  unfolding partitions_of partitions_of_topic find_topic
  partitions_for topic timeout = do
    metadata ←
        with_context (λ e. missing_metadata (some e) topic none "fetching metadata")
          (k.fetch_metadata topic timeout)
    lift (partitions_of topic (find_topic topic metadata))

  -- The list that the loop fills, beside the consumer.
  abbrev pub Filling : Type 0
  Filling = k.TopicPartitionList × k.State

  unfoldable pub add_partitions : String → ℤ → List ℤ → Exec Filling StreamError (Unit {0})
  add_partitions topic timestamp [] = pure tt
  add_partitions topic timestamp (partition ∷ rest) = do
    with_context (λ e. assignment_error e (topic ∷ []) "Unable to assign timestamp")
        (on_first (k.add_partition_offset topic partition timestamp))
    add_partitions topic timestamp rest

  unfoldable pub add_topics : List String → ℤ → (timeout : ℕ) → Exec Filling StreamError (Unit {0})
  unfolding add_partitions
  add_topics [] timestamp timeout = pure tt
  add_topics (topic ∷ rest) timestamp timeout = do
    partitions ← on_second (partitions_for topic timeout)
    add_partitions topic timestamp partitions
    add_topics rest timestamp timeout

  unfoldable pub unassign : Exec k.State StreamError (Unit {0})
  unassign = with_context (λ e. assignment_error e [] "while unassigning") k.unassign

  -- The call after the list is filled.
  seek_and_assign :
      List String
      → (timeout : ℕ) → Result StreamError (Unit {0}) × Filling
      → Result StreamError (Unit {0}) × k.State
  seek_and_assign topics timeout (err e, (timestamps, s)) = (err e, s)
  seek_and_assign topics timeout (ok _, (timestamps, s)) =
      (do
        offsets ←
            with_context (λ e. assignment_error e topics "Unable to get offsets")
              (k.offsets_for_times timestamps timeout)
        with_context (λ e. assignment_error e topics "Unable to assign") (k.assign offsets))
        s

  unfoldable pub assign_from_timestamp :
      List String → ℤ → (timeout : ℕ) → Exec k.State StreamError (Unit {0})
  unfolding seek_and_assign unassign
  assign_from_timestamp [] timestamp timeout s = unassign s
  assign_from_timestamp (t ∷ ts) timestamp timeout s =
      seek_and_assign (t ∷ ts) timeout (add_topics (t ∷ ts) timestamp timeout (k.new_list, s))

  polled : Option (Result Cause Message) × k.State → Option (Result StreamError Message) × k.State
  polled (none, s) = (none, s)
  polled (some m, s) = (some (map_err poll_error m), s)

  unfoldable pub poll : (timeout : ℕ) → k.State → Option (Result StreamError Message) × k.State
  unfolding polled
  poll timeout s = polled (k.poll timeout s)

  unfoldable pub subscribe : List String → Exec k.State StreamError (Unit {0})
  subscribe topics =
      with_context (λ e. assignment_error e topics "while subscribing") (k.subscribe topics)

  unfoldable pub commit_message : Message → CommitMode → Exec k.State StreamError (Unit {0})
  commit_message message mode =
      with_context (λ e. commit_error e message.topic message.partition message.offset)
        (k.commit_message message mode)

  -- `impl Stream for KafkaStream`
  abbrev pub kafka_stream : Stream
  kafka_stream = record {
    State = k.State;
    assign_from_timestamp = assign_from_timestamp;
    poll = poll;
    subscribe = subscribe;
    unsubscribe = k.unsubscribe;
    unassign = unassign;
    commit_message = commit_message;
  }

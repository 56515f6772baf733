-- ===== src/Message.antt =====
-- What comes from Kafka: `KafkaMessageMeta` of stream/traits.rs, the accessors of a message that
-- the program calls, and the part of a deserialized message that it matches on or reads.
use kafka_file_writer.Base.{ℕ, String, Option, List}
use kafka_file_writer.Base.Int.{ℤ}

pub record KafkaMessageMeta : Type 0 where
  pub topic : String
  pub key : Option (List ℕ)
  pub partition : ℤ
  pub offset : ℤ
  pub timestamp : Option ℤ

-- rdkafka's `Message`, by its accessors; `timestamp` is that of `timestamp().to_millis()`.
pub record Message : Type 0 where
  pub payload : Option (List ℕ)
  pub key : Option (List ℕ)
  pub topic : String
  pub timestamp : Option ℤ
  pub partition : ℤ
  pub offset : ℤ

-- A flatbuffers `RunStart` (pl72), by the accessors that the program calls.
pub record RunStart : Type 0 where
  pub start_time : ℕ
  pub stop_time : ℕ
  pub nexus_structure : Option String
  pub job_id : Option String
  pub filename : Option String
  pub n_periods : ℕ
  pub metadata : Option String
  pub control_topic : Option String

-- `RunStop` (6s4t).
pub record RunStop : Type 0 where
  pub stop_time : ℕ
  pub job_id : Option String

-- `Pu00Message`.
pub record PulseMetadata : Type 0 where
  pub reference_time : ℤ

-- `Event44Message`.
pub record EventData : Type 0 where
  pub pixel_id : Option (List ℕ)
  pub time_of_flight : Option (List ℤ)

-- The schemas that the program matches on; `other` stands for each of the rest.
pub data DeserializedMessage : Type 0 where
  run_start_pl72 : RunStart → DeserializedMessage
  run_stop_6s4t : RunStop → DeserializedMessage
  pulse_metadata_pu00 : PulseMetadata → DeserializedMessage
  event_data_ev44 : EventData → DeserializedMessage
  other : DeserializedMessage

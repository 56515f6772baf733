-- ===== src/Stream.antt =====
-- stream/traits.rs: the interface of a consumer, over the consumer's state. The modules below model
-- the rest of stream/.
pub mod Scope
pub mod Fake
pub mod Kafka
pub mod Delivery
use kafka_file_writer.Base.{ℕ, String, Option, List}
use kafka_file_writer.Base.Int.{ℤ}
use kafka_file_writer.Base.Exec.{Result, Exec}
use kafka_file_writer.Error.{StreamError}
use kafka_file_writer.Message.{Message}

-- rdkafka's `CommitMode`; the program commits synchronously.
pub data CommitMode : Type 0 where
  sync async : CommitMode

-- Times are in milliseconds.
pub record Stream : Type 1 where
  pub State : Type 0
  pub assign_from_timestamp :
      (topics : List String) (timestamp : ℤ) (timeout : ℕ) → Exec State StreamError (Unit {0})
  pub poll : (timeout : ℕ) → State → Option (Result StreamError Message) × State
  pub subscribe : (topics : List String) → Exec State StreamError (Unit {0})
  pub unsubscribe : State → State
  pub unassign : Exec State StreamError (Unit {0})
  pub commit_message : Message → CommitMode → Exec State StreamError (Unit {0})

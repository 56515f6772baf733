-- ===== src/Writer.antt =====
-- writer_module.rs: what the file writer asks of a writer module. The modules below model the
-- registry of writer modules and the modules themselves.
pub mod Factories
pub mod Ixseblock
pub mod Nxeventdata
pub mod Registry
use kafka_file_writer.Base.{ℕ, String, Bool, List}
use kafka_file_writer.Base.Exec.{Result, Exec}
use kafka_file_writer.Error.{Cause, WriterModuleError, WriterModuleCreationError}
use kafka_file_writer.Message.{KafkaMessageMeta, DeserializedMessage, RunStop}
use kafka_file_writer.Subscription.{Subscription}
use kafka_file_writer.Json.{Value}
use kafka_file_writer.Run.{RunStartParameters}

-- The trait `WriterModule`, as one type `Writer` of all the writers (`Box<dyn WriterModule>`), over
-- the state of the HDF5 library. A method changes the writer and the files.
pub record WriterModule (S : Type 0) : Type 1 where
  pub Writer : Type 0
  pub on_message :
      KafkaMessageMeta → DeserializedMessage → Exec (Writer × S) WriterModuleError (Unit {0})
  pub on_run_stop : KafkaMessageMeta → RunStop → Exec (Writer × S) WriterModuleError (Unit {0})
  pub flush : Exec (Writer × S) WriterModuleError (Unit {0})
  pub finished : Writer → Bool

pub record WriterModuleCreateResult (M : Type 0) : Type 0 where
  pub module_ : M
  pub subscriptions : List Subscription

-- The trait `WriterModuleSpec` of a type `Module`, over files `G` and the HDF5 state `S`. `config`
-- is the deserializer that serde derives for `Config`.
pub record WriterModuleSpec (G S : Type 0) : Type 1 where
  pub Module : Type 0
  pub Config : Type 0
  pub name : String
  pub config : Value → Result Cause Config
  pub config_type_name : String
  pub create :
      G
      → RunStartParameters
      → Config
      → Exec S WriterModuleCreationError (WriterModuleCreateResult Module)

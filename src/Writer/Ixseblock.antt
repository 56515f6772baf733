-- ===== src/Writer/Ixseblock.antt =====
-- writer_modules/ixseblock.rs: a module that writes nothing yet.
use kafka_file_writer.Base.{Bool, true, []}
use kafka_file_writer.Base.Exec.{Exec, pure, Result}
use kafka_file_writer.Error.{Cause, WriterModuleError, WriterModuleCreationError}
use kafka_file_writer.Message.{KafkaMessageMeta, DeserializedMessage, RunStop}
use kafka_file_writer.Json.{Value}
use kafka_file_writer.Run.{RunStartParameters}
use kafka_file_writer.Writer.{WriterModuleCreateResult, WriterModuleSpec}

pub data IxseblockConfig : Type 0 where
  ixseblock_config : IxseblockConfig

pub record Ixseblock (G : Type 0) : Type 0 where
  pub config : IxseblockConfig
  pub group : G

module _ {G S : Type 0} where
  unfoldable pub on_message :
      KafkaMessageMeta → DeserializedMessage → Exec (Ixseblock G × S) WriterModuleError (Unit {0})
  on_message meta message = pure tt

  unfoldable pub on_run_stop :
      KafkaMessageMeta → RunStop → Exec (Ixseblock G × S) WriterModuleError (Unit {0})
  on_run_stop meta message = pure tt

  unfoldable pub flush : Exec (Ixseblock G × S) WriterModuleError (Unit {0})
  flush = pure tt

  unfoldable pub create :
      G
      → RunStartParameters
      → IxseblockConfig
      → Exec S WriterModuleCreationError (WriterModuleCreateResult (Ixseblock G))
  create group run_start_parameters config =
      pure (record { module_ = record { config = config; group = group }; subscriptions = [] })

  -- `impl WriterModuleSpec for IXseblock`
  abbrev pub spec : (Value → Result Cause IxseblockConfig) → WriterModuleSpec G S
  spec from_value = record {
    Module = Ixseblock G;
    Config = IxseblockConfig;
    name = "IXseblock";
    config = from_value;
    config_type_name = "kafka_file_writer::writer_modules::ixseblock::IXseblockConfig";
    create = create;
  }

unfoldable pub finished : {G : Type 0} → Ixseblock G → Bool
finished w = true

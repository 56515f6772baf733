-- ===== src/Bin.antt =====
-- bin: the two executables.
pub mod StructureVerify
pub mod KafkaFileWriter
use kafka_file_writer.Error.{Cause, FileWriterError, NexusStructureError}
use kafka_file_writer.Config.{ConfigError}

-- What a `miette::Report` is made from, by `?` or by `into_diagnostic`.
pub data Report : Type 0 where
  from_cause : Cause → Report
  from_config_error : ConfigError → Report
  from_structure_error : NexusStructureError → Report
  from_writer_error : FileWriterError → Report

-- ===== src/Hdf/FileCreator.antt =====
-- hdf/file_creator.rs: how a file is opened.
use kafka_file_writer.Base.{◌*◌, String, ◌<>◌}
use kafka_file_writer.Base.Exec.{Exec, raise}
use kafka_file_writer.Error.{Cause}
use kafka_file_writer.Hdf.{Hdf5}

pub data FileCreator : Type 0 where
  disk memory always_fails : FileCreator

-- `uuid` is the UUID that the call draws.
module _ {E : Type 0} (hdf : Hdf5 E) where
  unfoldable pub create_file :
      FileCreator → (path uuid : String) → Exec hdf.State Cause hdf.Location
  create_file FileCreator.disk path uuid = hdf.create_excl path
  create_file FileCreator.memory path uuid =
      hdf.create_excl_core (64 * 1024 * 1024) ("name-" <> uuid)
  create_file FileCreator.always_fails path uuid =
      raise "kafka_file_writer::hdf::file_creator::FileCreator::AlwaysFails injected a failure"

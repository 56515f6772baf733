-- ===== src/Bin/StructureVerify.antt =====
-- bin/structure_verify.rs: the executable that tries out a structure. clap's `try_parse` and the
-- drawing of a UUID and of the time are parameters; what is printed and logged leaves no trace.
pub mod Verdict
use kafka_file_writer.Base.{String, Option, none, some}
use kafka_file_writer.Base.Exec.{Result, ok, err, map_err}
use kafka_file_writer.Base.Loop.{Run}
use kafka_file_writer.Error.{Cause, FileWriterError, NexusStructureError}
use kafka_file_writer.Json.{Value}
use kafka_file_writer.Structure.{NexusFileStructure, StructureSource, from_str}
use kafka_file_writer.Run
use kafka_file_writer.Hdf.{Hdf5}
use kafka_file_writer.Hdf.FileCreator.{FileCreator}
use kafka_file_writer.Hdf.Scope.{with_nexus_file}
use kafka_file_writer.Writer.Ixseblock.{IxseblockConfig}
use kafka_file_writer.Writer.Nxeventdata.{Floats, Element, NxeventdataConfig}
use kafka_file_writer.Writer.Registry.{writer_modules, default_registry}
use kafka_file_writer.File
use kafka_file_writer.Bin.{Report, from_cause, from_structure_error, from_writer_error}

-- Without the verbosity, which sets up the log.
pub record Args : Type 0 where
  pub file : String

module _ {S : Type 0} where
  -- The file in progress is dropped.
  instantiated :
      {A : Type 0}
      → Result FileWriterError (A) × S
      → Option (Result FileWriterError (Unit {0}) × (S × Unit {0}))
  instantiated (ok f, h) = some (ok tt, (h, tt))
  instantiated (err e, h) = some (err e, (h, tt))

  reported :
      Option (Result FileWriterError (Unit {0}) × (S × Unit {0}))
      → Option (Result Report (Unit {0}) × S)
  reported none = none
  reported (some (r, (h, _))) = some (map_err from_writer_error r, h)

-- The deserializers of the two configurations, which serde derives, and `Value::to_string`.
module _ (fl : Floats) (hdf : Hdf5 (Element fl.F64 fl.F32))
    (ixseblock_config : Value → Result Cause IxseblockConfig)
    (nxeventdata_config : Value → Result Cause NxeventdataConfig) (json_text : Value → String)
    (src : StructureSource) where
  -- The function that runs while the file is open.
  instantiate :
      NexusFileStructure
      → (now : String) → hdf.Location
      → Run (hdf.State × Unit {0}) FileWriterError (Unit {0})
  instantiate structure now file (h, _) = instantiated (
      File.new hdf (writer_modules fl hdf)
        (default_registry fl hdf ixseblock_config nxeventdata_config) json_text file Run.default
        structure now h)

  with_structure :
      (uuid now : String)
      → hdf.State
      → Result NexusStructureError NexusFileStructure
      → Option (Result Report (Unit {0}) × hdf.State)
  with_structure uuid now h (err e) = some (err (from_structure_error e), h)
  with_structure uuid now h (ok structure) = reported (
      with_nexus_file hdf FileCreator.memory "structure_verify" uuid (instantiate structure now)
        (h, tt))

  with_json :
      (uuid now : String)
      → hdf.State
      → Result Cause String
      → Option (Result Report (Unit {0}) × hdf.State)
  with_json uuid now h (err e) = some (err (from_cause e), h)
  with_json uuid now h (ok json) = with_structure uuid now h (from_str src json)

  -- `args` is what `Args::try_parse` returns.
  unfoldable pub main :
      (args : Result Cause Args) (uuid now : String)
      → hdf.State
      → Option (Result Report (Unit {0}) × hdf.State)
  unfolding with_json with_structure reported instantiate instantiated
  main (err e) uuid now h = some (err (from_cause e), h)
  main (ok args) uuid now h = with_json uuid now h (src.read_to_string args.file)

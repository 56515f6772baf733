-- ===== src/Error.antt =====
-- The error types: error.rs, hdf/error.rs, stream/error.rs, writer_module.rs (the error types) and
-- run_writer/nexus_structure.rs (the error type). An error object of another library, which the
-- program only displays, is its text.
use kafka_file_writer.Base.{ℕ, String, Option, List}
use kafka_file_writer.Base.Int.{ℤ}

-- An error value of another library.
abbrev pub Cause : Type 0
Cause = String

pub data Hdf5Error : Type 0 where
  string_encoding_error : (cause : Cause) (filename location : String) → Hdf5Error
  write_error : (cause : Cause) (filename location : String) → Hdf5Error
  create_error : (cause : Cause) (filename : String) → Hdf5Error

pub data StreamError : Type 0 where
  missing_metadata :
      (cause : Option Cause) (topic : String) (err_code : Option ℤ) (context : String) → StreamError
  consumer_creation_error : (cause : Cause) → StreamError
  assignment_error : (cause : Cause) (topics : List String) (context : String) → StreamError
  poll_error : (cause : Cause) → StreamError
  commit_error : (cause : Cause) (topic : String) (partition offset : ℤ) → StreamError
  unit_test_error : StreamError

pub data WriterModuleError : Type 0 where
  failed_file_write : Hdf5Error → WriterModuleError
  invalid_data : String → WriterModuleError
  fatal : (cause : Cause) (context : String) → WriterModuleError

pub data WriterModuleCreationError : Type 0 where
  config_invalid : (description : String) → WriterModuleCreationError
  config_parse_error : (cause : Cause) (config_type_name : String) → WriterModuleCreationError
  initialization_hdf5_error : Hdf5Error → WriterModuleCreationError

-- `location` in `failed_parse` is an offset into the text.
pub data NexusStructureError : Type 0 where
  failed_parse : (cause : Cause) (source_code : String) (location : ℕ) → NexusStructureError
  unknown_child_type : (invalid_json location : String) → NexusStructureError
  writer_module_creation_error :
      (cause : WriterModuleCreationError) (module_name location : String) → NexusStructureError
  unknown_writer_module : (name location : String) → NexusStructureError

pub data FileWriterError : Type 0 where
  hdf5_error : Hdf5Error → FileWriterError
  stream_error : StreamError → FileWriterError
  io_error : (cause : Cause) (filename : String) → FileWriterError
  writer_module_error :
      (cause : WriterModuleError) (module_name module_path : String) → FileWriterError
  nexus_structure_error : NexusStructureError → FileWriterError
  missing_run_start_data : (missing_item topic : String) (partition offset : ℤ) → FileWriterError
  writer_module_not_found : (writer_index : ℕ) → FileWriterError
  integer_error : (cause : Cause) (context : String) → FileWriterError
  unit_test_error : FileWriterError

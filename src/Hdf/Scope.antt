-- ===== src/Hdf/Scope.antt =====
-- hdf/scope.rs: a file that is open while a function runs.
pub mod Closing
use kafka_file_writer.Base.{String, Option, none, some}
use kafka_file_writer.Base.Exec.{Result, ok, err}
use kafka_file_writer.Base.Loop.{Run}
use kafka_file_writer.Error.{Cause, FileWriterError, hdf5_error, create_error}
use kafka_file_writer.Hdf.{Hdf5}
use kafka_file_writer.Hdf.FileCreator.{FileCreator, create_file}

module _ {E : Type 0} (hdf : Hdf5 E) where
  -- The file is flushed and closed, whatever the results.
  cleanup : hdf.Location → hdf.State → hdf.State
  cleanup file h =
      let (flushed, h') = hdf.flush file h in let (closed, h'') = hdf.close file h' in h''

-- `T` is what else the function changes.
module _ {E T A : Type 0} (hdf : Hdf5 E) where
  finish :
      hdf.Location
      → Option (Result FileWriterError A × (hdf.State × T))
      → Option (Result FileWriterError A × (hdf.State × T))
  finish file none = none
  finish file (some (result, (h, t))) = some (result, (cleanup hdf file h, t))

  run_with_file :
      String
      → (hdf.Location → Run (hdf.State × T) FileWriterError A)
      → Result Cause hdf.Location × hdf.State
      → T
      → Option (Result FileWriterError A × (hdf.State × T))
  run_with_file path func (err e, h) t = some (err (hdf5_error (create_error e path)), (h, t))
  run_with_file path func (ok file, h) t = finish file (func file (h, t))

  unfoldable pub with_nexus_file :
      FileCreator
      → (path uuid : String) → (hdf.Location → Run (hdf.State × T) FileWriterError A)
      → Run (hdf.State × T) FileWriterError A
  unfolding run_with_file finish cleanup
  with_nexus_file file_factory path uuid func (h, t) =
      run_with_file path func (create_file hdf file_factory path uuid h) t

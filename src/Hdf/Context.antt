-- ===== src/Hdf/Context.antt =====
-- hdf/traits.rs: an HDF5 error with the place at which it came up.
use kafka_file_writer.Base.{String, ◌<>◌}
use kafka_file_writer.Base.Exec.{Exec, with_context}
use kafka_file_writer.Error.{Cause, Hdf5Error, write_error}
use kafka_file_writer.Hdf.{Hdf5}

module _ {E A : Type 0} (hdf : Hdf5 E) where
  unfoldable pub err_dataset : hdf.Dataset → Exec hdf.State Cause A → Exec hdf.State Hdf5Error A
  err_dataset d =
      with_context
        λ e. write_error e (hdf.filename (hdf.as_location d)) (hdf.name (hdf.as_location d))

  unfoldable pub err_parent_dataset :
      hdf.Location → String → Exec hdf.State Cause A → Exec hdf.State Hdf5Error A
  err_parent_dataset parent dataset =
      with_context λ e. write_error e (hdf.filename parent) (hdf.name parent <> "/" <> dataset)

  unfoldable pub err_attribute :
      hdf.Location → String → Exec hdf.State Cause A → Exec hdf.State Hdf5Error A
  err_attribute parent name =
      with_context
        λ e. write_error e (hdf.filename parent) (hdf.name parent <> " attribute='" <> name <> "'")

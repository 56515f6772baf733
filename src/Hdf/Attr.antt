-- ===== src/Hdf/Attr.antt =====
-- hdf/attr.rs: attributes of groups and files.
pub mod Keeping
use kafka_file_writer.Base.{String, ◌<>◌}
use kafka_file_writer.Base.Exec.{Result, Exec, ◌>>=◌, ◌>>◌, lift, map_err}
use kafka_file_writer.Error.{Hdf5Error, string_encoding_error}
use kafka_file_writer.Hdf.{Hdf5}
use kafka_file_writer.Hdf.Context.{err_attribute}

module _ {E : Type 0} (hdf : Hdf5 E) where
  pub encode : hdf.Location → String → String → Result Hdf5Error hdf.Ascii
  encode location name value =
      map_err
        (λ e.
          string_encoding_error e (hdf.filename location)
            (hdf.name location <> " attribute=" <> name))
        (hdf.from_ascii value)

  unfoldable pub add_ascii_string_attribute :
      hdf.Location → String → String → Exec hdf.State Hdf5Error (Unit {0})
  unfolding encode
  add_ascii_string_attribute location name value = do
    value ← lift (encode location name value)
    attr ← err_attribute hdf location name (hdf.create_attr location name)
    err_attribute hdf location name (hdf.write_scalar attr value)

  -- `now` is the time of the call, printed in the format of the code.
  unfoldable pub add_root_dataset_attributes :
      hdf.Location → (now : String) → Exec hdf.State Hdf5Error (Unit {0})
  add_root_dataset_attributes root now = do
    add_ascii_string_attribute root "HDF5_Version"
        (hdf.version_major <> "." <> hdf.version_minor <> "." <> hdf.version_micro)
    add_ascii_string_attribute root "file_name" (hdf.filename root)
    add_ascii_string_attribute root "file_time" now

-- ===== src/Hdf.antt =====
-- The HDF5 library as the program uses it (the hdf5 package is not in the repository): its
-- operations are a parameter, over a state that holds the files. The modules below model hdf/.
pub mod Context
pub mod Attr
pub mod FileCreator
pub mod Scope
pub mod Laws
pub mod Building
use kafka_file_writer.Base.{ℕ, String, List}
use kafka_file_writer.Base.Exec.{Result, Exec}
use kafka_file_writer.Error.{Cause}

-- The element types of the data sets that the program makes.
pub data ElementType : Type 0 where
  f64 u32 f32 : ElementType

-- `Elem` is the type of the elements that are written. A file or group handle is a `Location`, and
-- so is a data set, by `as_location`.
pub record Hdf5 (Elem : Type 0) : Type 1 where
  pub State : Type 0
  pub Location : Type 0
  pub Dataset : Type 0
  pub Attr : Type 0
  pub Ascii : Type 0
  -- `HDF5_VERSION.major`, `.minor` and `.micro`, printed
  pub version_major : String
  pub version_minor : String
  pub version_micro : String
  pub name : Location → String
  pub filename : Location → String
  -- `VarLenAscii::from_ascii`
  pub from_ascii : String → Result Cause Ascii
  -- `File::create_excl`, on disk and with the core (in-memory) driver
  pub create_excl : String → Exec State Cause Location
  pub create_excl_core : (increment : ℕ) → String → Exec State Cause Location
  pub flush : Location → Exec State Cause (Unit {0})
  pub close : Location → Exec State Cause (Unit {0})
  pub create_group : Location → String → Exec State Cause Location
  -- `new_attr::<VarLenAscii>().create(name)`
  pub create_attr : Location → String → Exec State Cause Attr
  pub write_scalar : Attr → Ascii → Exec State Cause (Unit {0})
  -- `new_dataset::<T>().shape(resizable([n])).chunk([chunk]).create(name)`
  pub create_dataset : Location → ElementType → (n chunk : ℕ) → String → Exec State Cause Dataset
  pub dataset : Location → String → Exec State Cause Dataset
  pub as_location : Dataset → Location
  pub size : Dataset → State → ℕ
  pub resize : Dataset → ℕ → Exec State Cause (Unit {0})
  -- `write_slice(data, from..)`
  pub write_slice : Dataset → List Elem → (from : ℕ) → Exec State Cause (Unit {0})

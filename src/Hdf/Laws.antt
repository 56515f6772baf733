-- ===== src/Hdf/Laws.antt =====
-- What the program relies on in the HDF5 library's data sets, as documented: a group has one data set
-- under a name, opening one changes nothing, growing one keeps its elements, `write_slice(data,
-- from..)` replaces the elements from an index on, and data sets do not share elements.
use kafka_file_writer.Base.{ℕ, ◌≤◌, String, ◌≡◌, ◌≢◌, List, [], ◌++◌, length, take}
use kafka_file_writer.Base.Exec.{ok}
use kafka_file_writer.Hdf.{Hdf5, ElementType}

pub record DatasetLaws {Elem : Type 0} (hdf : Hdf5 Elem) : Type 0 where
  -- the data set of a group under a name, and the elements of a data set
  pub handle : hdf.Location → String → hdf.Dataset
  pub read : hdf.Dataset → hdf.State → List Elem
  pub handle_injective : (g : hdf.Location) (m n : String) → handle g m ≡ handle g n → m ≡ n
  pub dataset_ok :
      (g : hdf.Location) (n : String) (h h' : hdf.State) (d : hdf.Dataset)
      → hdf.dataset g n h ≡ (ok d, h')
      → (d ≡ handle g n) × (h' ≡ h)
  pub size_read : (d : hdf.Dataset) (h : hdf.State) → hdf.size d h ≡ length (read d h)
  pub resize_grow :
      (d : hdf.Dataset) (n : ℕ) (h h' : hdf.State)
      → hdf.resize d n h ≡ (ok tt, h')
      → length (read d h) ≤ n
      → take (length (read d h)) (read d h') ≡ read d h
  pub resize_other :
      (d e : hdf.Dataset) (n : ℕ) (h h' : hdf.State)
      → hdf.resize d n h ≡ (ok tt, h')
      → e ≢ d
      → read e h' ≡ read e h
  pub write_ok :
      (d : hdf.Dataset) (xs : List Elem) (from : ℕ) (h h' : hdf.State)
      → hdf.write_slice d xs from h ≡ (ok tt, h')
      → read d h' ≡ take from (read d h) ++ xs
  pub write_other :
      (d e : hdf.Dataset) (xs : List Elem) (from : ℕ) (h h' : hdf.State)
      → hdf.write_slice d xs from h ≡ (ok tt, h')
      → e ≢ d
      → read e h' ≡ read e h

-- The same of the making of data sets and attributes: a new data set of length 0 is that of its name,
-- has no elements and touches no other data set, and attributes touch none.
pub record CreationLaws {Elem : Type 0} (hdf : Hdf5 Elem) (laws : DatasetLaws hdf) : Type 0 where
  pub create_dataset_ok :
      (g : hdf.Location) (type : ElementType) (chunk : ℕ) (n : String) (h h' : hdf.State)
      (d : hdf.Dataset)
      → hdf.create_dataset g type 0 chunk n h ≡ (ok d, h')
      → laws.read (laws.handle g n) h' ≡ []
  pub create_dataset_other :
      (g : hdf.Location) (type : ElementType) (chunk : ℕ) (n : String) (h h' : hdf.State)
      (d c : hdf.Dataset)
      → hdf.create_dataset g type 0 chunk n h ≡ (ok d, h')
      → c ≢ laws.handle g n
      → laws.read c h' ≡ laws.read c h
  pub create_attr_read :
      (l : hdf.Location) (n : String) (c : hdf.Dataset) (h : hdf.State)
      → laws.read c (hdf.create_attr l n h).1 ≡ laws.read c h
  pub write_scalar_read :
      (a : hdf.Attr) (v : hdf.Ascii) (c : hdf.Dataset) (h : hdf.State)
      → laws.read c (hdf.write_scalar a v h).1 ≡ laws.read c h

-- The same of groups: data sets of different groups are different.
pub record GroupLaws {Elem : Type 0} (hdf : Hdf5 Elem) (laws : DatasetLaws hdf) : Type 0 where
  pub handle_group : (f g : hdf.Location) (m n : String) → laws.handle f m ≡ laws.handle g n → f ≡ g

-- The same of building a file: data sets that were made stay, with their elements, whatever is made
-- beside them, and no data set is made under a name that has one.
pub record BuildingLaws {Elem : Type 0} (hdf : Hdf5 Elem) (laws : DatasetLaws hdf) : Type 1 where
  pub Made : hdf.Dataset → hdf.State → Type 0
  pub create_dataset_fresh :
      (g : hdf.Location) (type : ElementType) (chunk : ℕ) (n : String) (h h' : hdf.State)
      (d : hdf.Dataset)
      → hdf.create_dataset g type 0 chunk n h ≡ (ok d, h')
      → ¬ Made (laws.handle g n) h
  pub create_dataset_made :
      (g : hdf.Location) (type : ElementType) (chunk : ℕ) (n : String) (h h' : hdf.State)
      (d : hdf.Dataset)
      → hdf.create_dataset g type 0 chunk n h ≡ (ok d, h')
      → Made (laws.handle g n) h'
  pub create_dataset_keeps :
      (g : hdf.Location) (type : ElementType) (chunk : ℕ) (n : String) (c : hdf.Dataset)
      (h : hdf.State)
      → Made c h
      → Made c (hdf.create_dataset g type 0 chunk n h).1
        × (laws.read c (hdf.create_dataset g type 0 chunk n h).1 ≡ laws.read c h)
  pub create_group_keeps :
      (g : hdf.Location) (n : String) (c : hdf.Dataset) (h : hdf.State)
      → Made c h
      → Made c (hdf.create_group g n h).1 × (laws.read c (hdf.create_group g n h).1 ≡ laws.read c h)
  pub create_attr_keeps :
      (l : hdf.Location) (n : String) (c : hdf.Dataset) (h : hdf.State)
      → Made c h
      → Made c (hdf.create_attr l n h).1 × (laws.read c (hdf.create_attr l n h).1 ≡ laws.read c h)
  pub write_scalar_keeps :
      (a : hdf.Attr) (v : hdf.Ascii) (c : hdf.Dataset) (h : hdf.State)
      → Made c h
      → Made c (hdf.write_scalar a v h).1 × (laws.read c (hdf.write_scalar a v h).1 ≡ laws.read c h)

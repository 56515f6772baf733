-- ===== src/Hdf/Building.antt =====
-- hdf/: what building a file keeps of its data sets.
use kafka_file_writer.Base.{String, ◌≡◌, refl, ◌∙◌}
use kafka_file_writer.Base.Exec.{Result, ok, err, map_err_result, continue-keeps}
use kafka_file_writer.Hdf.{Hdf5, ElementType}
use kafka_file_writer.Hdf.Context.{err_attribute}
use kafka_file_writer.Hdf.Laws.{DatasetLaws, BuildingLaws}
use kafka_file_writer.Hdf.Attr.{add_ascii_string_attribute, add_root_dataset_attributes, encode}

module _ {Elem : Type 0} (hdf : Hdf5 Elem) (laws : DatasetLaws hdf)
    (building : BuildingLaws hdf laws) where
  open laws use {read}
  open building use {
    Made, create_dataset_keeps, create_group_keeps, create_attr_keeps, write_scalar_keeps,
  }

  -- The data sets that were made stay, with their elements.
  abbrev pub Kept : (h h' : hdf.State) → Type 0
  Kept h h' = (c : hdf.Dataset) → Made c h → Made c h' × (read c h' ≡ read c h)

  pub Kept-refl : (h : hdf.State) → Kept h h
  Kept-refl h c made = (made, refl)

  pub Kept-trans : (h₁ h₂ h₃ : hdf.State) → Kept h₁ h₂ → Kept h₂ h₃ → Kept h₁ h₃
  Kept-trans h₁ h₂ h₃ first second c made =
      let (made₂, same₂) = first c made in
      let (made₃, same₃) = second c made₂ in (made₃, same₃ ∙ same₂)

  pub with_context-Kept :
      {D E A : Type 0} (f : D → E) (h : hdf.State) (x : Result D A × hdf.State)
      → Kept h x.1
      → Kept h (map_err_result f x).1
  with_context-Kept f h (ok a, s) k = k
  with_context-Kept f h (err e, s) k = k

  pub add_ascii_string_attribute-Kept :
      (l : hdf.Location) (name value : String) (h : hdf.State)
      → Kept h (add_ascii_string_attribute hdf l name value h).1
  unfolding add_ascii_string_attribute err_attribute
  add_ascii_string_attribute-Kept l name value h =
      continue-keeps (Kept h) (encode hdf l name value, h) _ (Kept-refl h)
        (λ v s k.
          continue-keeps (Kept h) (err_attribute hdf l name (hdf.create_attr l name) s) _
            (Kept-trans h s _ k (
              with_context-Kept _ s (hdf.create_attr l name s)
                (λ c made. create_attr_keeps l name c s made)))
            (λ a t k'. Kept-trans h t _ k' (
              with_context-Kept _ t (hdf.write_scalar a v t)
                (λ c made. write_scalar_keeps a v c t made))))

  pub add_root_dataset_attributes-Kept :
      (root : hdf.Location) (now : String) (h : hdf.State)
      → Kept h (add_root_dataset_attributes hdf root now h).1
  unfolding add_root_dataset_attributes
  add_root_dataset_attributes-Kept root now h =
      continue-keeps (Kept h) (add_ascii_string_attribute hdf root "HDF5_Version" _ h) _
        (add_ascii_string_attribute-Kept root "HDF5_Version" _ h)
        (λ _ s k.
          continue-keeps (Kept h)
            (add_ascii_string_attribute hdf root "file_name" (hdf.filename root) s) _
            (Kept-trans h s _ k
              (add_ascii_string_attribute-Kept root "file_name" (hdf.filename root) s))
            (λ _ t k'.
              Kept-trans h t _ k' (add_ascii_string_attribute-Kept root "file_time" now t)))

  pub create_group-Kept :
      (l : hdf.Location) (name : String) (h : hdf.State) → Kept h (hdf.create_group l name h).1
  create_group-Kept l name h c made = create_group_keeps l name c h made

  pub create_dataset-Kept :
      (l : hdf.Location) (type : ElementType) (name : String) (h : hdf.State)
      → Kept h (hdf.create_dataset l type 0 32000 name h).1
  create_dataset-Kept l type name h c made = create_dataset_keeps l type 32000 name c h made

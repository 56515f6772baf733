-- ===== src/Hdf/Attr/Keeping.antt =====
-- hdf/attr.rs: attributes and the data sets.
use kafka_file_writer.Base.{String, ◌≡◌, refl, ◌∙◌}
use kafka_file_writer.Base.Exec.{Result, ok, err, map_err_result, continue-keeps}
use kafka_file_writer.Error.{Cause, Hdf5Error}
use kafka_file_writer.Hdf.{Hdf5}
use kafka_file_writer.Hdf.Context.{err_attribute}
use kafka_file_writer.Hdf.Laws.{DatasetLaws, CreationLaws}
use kafka_file_writer.Hdf.Attr.{add_ascii_string_attribute, encode}

module _ {Elem : Type 0} (hdf : Hdf5 Elem) (laws : DatasetLaws hdf)
    (making : CreationLaws hdf laws) where
  open laws use {read}
  open making use {create_attr_read, write_scalar_read}

  with_context-read :
      {A : Type 0} (f : Cause → Hdf5Error) (c : hdf.Dataset) (h : hdf.State)
      (x : Result Cause A × hdf.State)
      → read c x.1 ≡ read c h
      → read c (map_err_result f x).1 ≡ read c h
  with_context-read f c h (ok a, s) e = e
  with_context-read f c h (err x, s) e = e

  -- No data set changes with an attribute, whether the attribute is written or not.
  pub add_ascii_string_attribute-read :
      (l : hdf.Location) (name value : String) (c : hdf.Dataset) (h : hdf.State)
      → read c (add_ascii_string_attribute hdf l name value h).1 ≡ read c h
  unfolding add_ascii_string_attribute err_attribute
  add_ascii_string_attribute-read l name value c h =
      continue-keeps (λ (s : hdf.State). read c s ≡ read c h) (encode hdf l name value, h) _ refl
        (λ v s same.
          continue-keeps (λ (t : hdf.State). read c t ≡ read c h)
            (err_attribute hdf l name (hdf.create_attr l name) s) _
            (with_context-read _ c s (hdf.create_attr l name s) (create_attr_read l name c s)
              ∙ same)
            (λ a t same'.
              with_context-read _ c t (hdf.write_scalar a v t) (write_scalar_read a v c t) ∙ same'))

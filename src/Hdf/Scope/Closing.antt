-- ===== src/Hdf/Scope/Closing.antt =====
-- hdf/scope.rs: how an open file ends.
use kafka_file_writer.Base.{String, ◌≡◌, ap, ◌∙◌, Option, none, some}
use kafka_file_writer.Base.Exec.{Result, ok, err}
use kafka_file_writer.Base.Loop.{Run}
use kafka_file_writer.Error.{Cause, FileWriterError}
use kafka_file_writer.Hdf.{Hdf5}
use kafka_file_writer.Hdf.FileCreator.{FileCreator, create_file}
use kafka_file_writer.Hdf.Scope.{with_nexus_file, run_with_file, finish, cleanup}

module _ {E T A : Type 0} (hdf : Hdf5 E) where
  -- If the file can be created and the function returns, then the scope returns the function's own
  -- result, be it an error, after a flush and a close of the file whose errors are passed over.
  pub with_nexus_file-closes :
      (factory : FileCreator) (path uuid : String)
      (func : hdf.Location → Run (hdf.State × T) FileWriterError A) (h h₁ h₂ : hdf.State) (t t' : T)
      (file : hdf.Location) (r : Result FileWriterError A)
      → create_file hdf factory path uuid h ≡ (ok file, h₁)
      → func file (h₁, t) ≡ some (r, (h₂, t'))
      → with_nexus_file hdf factory path uuid func (h, t)
        ≡ some (r, ((hdf.close file (hdf.flush file h₂).1).1, t'))
  unfolding with_nexus_file run_with_file finish cleanup
  with_nexus_file-closes factory path uuid func h h₁ h₂ t t' file r opened ran =
      ap (λ x. run_with_file hdf path func x t) opened ∙ ap (finish hdf file) ran

  finish-ok :
      (file : hdf.Location) (o : Option (Result FileWriterError A × (hdf.State × T))) (a : A)
      (h' : hdf.State) (t' : T)
      → finish hdf file o ≡ some (ok a, (h', t'))
      → (h : hdf.State) × (o ≡ some (ok a, (h, t')))
  unfolding finish
  finish-ok file none a h' t' e = absurd (cc)
  finish-ok file (some (r, (h, t))) a h' t' e = (h, cc)

  run_with_file-ok :
      (path : String) (func : hdf.Location → Run (hdf.State × T) FileWriterError A)
      (x : Result Cause hdf.Location × hdf.State) (a : A) (h' : hdf.State) (t t' : T)
      → run_with_file hdf path func x t ≡ some (ok a, (h', t'))
      → (file : hdf.Location) × (h₁ h₂ : hdf.State) × (func file (h₁, t) ≡ some (ok a, (h₂, t')))
  unfolding run_with_file
  run_with_file-ok path func (err e, h) a h' t t' p = absurd (cc)
  run_with_file-ok path func (ok file, h) a h' t t' p =
      let (h₂, ran) = finish-ok file (func file (h, t)) a h' t' p in (file, h, h₂, ran)

  -- A scope that succeeds has run its function with success.
  pub with_nexus_file-ok :
      (factory : FileCreator) (path uuid : String)
      (func : hdf.Location → Run (hdf.State × T) FileWriterError A) (a : A) (h h' : hdf.State)
      (t t' : T)
      → with_nexus_file hdf factory path uuid func (h, t) ≡ some (ok a, (h', t'))
      → (file : hdf.Location) × (h₁ h₂ : hdf.State) × (func file (h₁, t) ≡ some (ok a, (h₂, t')))
  unfolding with_nexus_file
  with_nexus_file-ok factory path uuid func a h h' t t' e =
      run_with_file-ok path func (create_file hdf factory path uuid h) a h' t t' e

-- ===== src/Placed/Creation.antt =====
-- run_writer/placed_writer.rs: what a writer that was created and placed is.
use kafka_file_writer.Base.{◌≡◌, ◌≢◌, Option, none, some}
use kafka_file_writer.Base.Exec.{Result, ok, err}
use kafka_file_writer.Error.{WriterModuleCreationError}
use kafka_file_writer.Structure.{NexusWriterModule}
use kafka_file_writer.Run.{RunStartParameters}
use kafka_file_writer.Hdf.{Hdf5}
use kafka_file_writer.Writer.{WriterModule, WriterModuleCreateResult}
use kafka_file_writer.Writer.Factories
use kafka_file_writer.Writer.Factories.{WriterModuleFactories, WriterModuleCreateFn}
use kafka_file_writer.Placed.{Placed, placed, make, new}

module _ {E : Type 0} (hdf : Hdf5 E) (dyn : WriterModule hdf.State) where
  -- The writer has the name of its module, and stands in its group.
  abbrev pub MadeFrom : hdf.Location → NexusWriterModule → Placed hdf dyn → Type 0
  MadeFrom parent spec w = (w.writer_name ≡ spec.module_name) × (w.group ≡ parent)

  placed-MadeFrom :
      (parent : hdf.Location) (spec : NexusWriterModule)
      (x : Result WriterModuleCreationError (WriterModuleCreateResult dyn.Writer) × hdf.State)
      (w : Placed hdf dyn) (h' : hdf.State)
      → placed hdf dyn parent spec x ≡ (ok w, h')
      → MadeFrom parent spec w
  unfolding placed
  placed-MadeFrom parent spec (ok r, h) w h' e = (cc, cc)
  placed-MadeFrom parent spec (err x, h) w h' e = absurd (cc)

  make-MadeFrom :
      (parent : hdf.Location) (spec : NexusWriterModule) (params : RunStartParameters)
      (o : Option (WriterModuleCreateFn hdf.Location hdf.State dyn.Writer)) (h h' : hdf.State)
      (w : Placed hdf dyn)
      → make hdf dyn parent spec params o h ≡ (ok w, h')
      → MadeFrom parent spec w × (o ≢ none)
  unfolding make
  make-MadeFrom parent spec params none h h' w e = absurd (cc)
  make-MadeFrom parent spec params (some factory) h h' w e =
      (placed-MadeFrom parent spec (factory parent params spec.config h) w h' e, λ p. absurd (cc))

  pub new-MadeFrom :
      (parent : hdf.Location) (spec : NexusWriterModule) (params : RunStartParameters)
      (factories : WriterModuleFactories hdf.Location hdf.State dyn.Writer) (h h' : hdf.State)
      (w : Placed hdf dyn)
      → new hdf dyn parent spec params factories h ≡ (ok w, h')
      → MadeFrom parent spec w × (Factories.get factories spec.module_name ≢ none)
  unfolding new
  new-MadeFrom parent spec params factories h h' w e =
      make-MadeFrom parent spec params (Factories.get factories spec.module_name) h h' w e

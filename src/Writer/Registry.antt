-- ===== src/Writer/Registry.antt =====
-- writer_modules/mod.rs: the writer modules of this program, and their registry.
use kafka_file_writer.Base.{Bool}
use kafka_file_writer.Base.Exec.{Result, Exec}
use kafka_file_writer.Error.{Cause, WriterModuleError}
use kafka_file_writer.Message.{KafkaMessageMeta, DeserializedMessage, RunStop}
use kafka_file_writer.Json.{Value}
use kafka_file_writer.Hdf.{Hdf5}
use kafka_file_writer.Writer.{WriterModule}
use kafka_file_writer.Writer.Factories.{WriterModuleFactories, empty, register_module}
use kafka_file_writer.Writer.Ixseblock
use kafka_file_writer.Writer.Ixseblock.{Ixseblock, IxseblockConfig}
use kafka_file_writer.Writer.Nxeventdata
use kafka_file_writer.Writer.Nxeventdata.{Floats, Element, Nxeventdata, NxeventdataConfig}

-- `Box<dyn WriterModule>` holds one of these.
pub data AnyWriter (G : Type 0) : Type 0 where
  ixseblock : Ixseblock G → AnyWriter G
  nxeventdata : Nxeventdata G → AnyWriter G

abbrev boxed_state : {G M S R : Type 0} → (M → AnyWriter G) → R × (M × S) → R × (AnyWriter G × S)
boxed_state box (r, (w, s)) = (r, (box w, s))

module _ (fl : Floats) (hdf : Hdf5 (Element fl.F64 fl.F32)) where
  abbrev Method : Type 0
  Method = Exec (AnyWriter hdf.Location × hdf.State) WriterModuleError (Unit {0})

  unfoldable pub on_message : KafkaMessageMeta → DeserializedMessage → Method
  on_message meta message (ixseblock w, h) =
      boxed_state ixseblock (Ixseblock.on_message meta message (w, h))
  on_message meta message (nxeventdata w, h) =
      boxed_state nxeventdata (Nxeventdata.on_message fl hdf meta message (w, h))

  unfoldable pub on_run_stop : KafkaMessageMeta → RunStop → Method
  on_run_stop meta message (ixseblock w, h) =
      boxed_state ixseblock (Ixseblock.on_run_stop meta message (w, h))
  on_run_stop meta message (nxeventdata w, h) =
      boxed_state nxeventdata (Nxeventdata.on_run_stop fl hdf meta message (w, h))

  unfoldable pub flush : Method
  flush (ixseblock w, h) = boxed_state ixseblock (Ixseblock.flush (w, h))
  flush (nxeventdata w, h) = boxed_state nxeventdata (Nxeventdata.flush fl hdf (w, h))

  unfoldable pub finished : AnyWriter hdf.Location → Bool
  finished (ixseblock w) = Ixseblock.finished w
  finished (nxeventdata w) = Nxeventdata.finished w

  -- `impl WriterModule for` both.
  abbrev pub writer_modules : WriterModule hdf.State
  writer_modules = record {
    Writer = AnyWriter hdf.Location;
    on_message = on_message;
    on_run_stop = on_run_stop;
    flush = flush;
    finished = finished;
  }

  -- The deserializers of the two configurations, which serde derives.
  module _ (ixseblock_config : Value → Result Cause IxseblockConfig)
      (nxeventdata_config : Value → Result Cause NxeventdataConfig) where
    unfoldable pub default_registry :
        WriterModuleFactories hdf.Location hdf.State (AnyWriter hdf.Location)
    default_registry =
        register_module (Nxeventdata.spec fl hdf nxeventdata_config) nxeventdata
          (register_module (Ixseblock.spec ixseblock_config) ixseblock empty)

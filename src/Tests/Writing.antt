-- ===== src/Tests/Writing.antt =====
-- Examples for a file in progress.
use kafka_file_writer.Base.{◌≡◌, ◌≢◌, ◌↔◌, List, refl, false, some, [], ◌∷◌}
use kafka_file_writer.Base.{get_elem?}
use kafka_file_writer.Base.Int.{ℤ}
use kafka_file_writer.Base.Exec.{ok, err}
use kafka_file_writer.Error.{writer_module_not_found}
use kafka_file_writer.Message.{event_data_ev44, other}
use kafka_file_writer.Base.Map
use kafka_file_writer.Router
use kafka_file_writer.Hdf.Context
use kafka_file_writer.Hdf.Attr
use kafka_file_writer.Writer.Factories
use kafka_file_writer.Writer.Registry
use kafka_file_writer.Writer.Nxeventdata
use kafka_file_writer.Writer.Nxeventdata.{Element, u32, f32, f64, finished}
use kafka_file_writer.Writer.Nxeventdata.Window
use kafka_file_writer.Placed
use kafka_file_writer.Placed.{on_message_lem, tolerated}
use kafka_file_writer.File
use kafka_file_writer.File.Sync.{IsInSync}
use kafka_file_writer.File.Bounds.{on_message-ne-not_found}
use kafka_file_writer.File.Delivery.{new-IsInSync, on_message-IsInSync, on_run_stop-IsInSync}
use kafka_file_writer.Base.{All}
use kafka_file_writer.Writer.Registry.{AnyWriter, nxeventdata}
use kafka_file_writer.Placed.{PlacedWriter}
use kafka_file_writer.File.{InProgressFile}
use kafka_file_writer.File.Writers.{on_run_stop-map}
use kafka_file_writer.File.Stops.{on_run_stop-AllStopped, on_run_stop-received, AllStopped}
use kafka_file_writer.Base.{String, true}
use kafka_file_writer.File.Building.{new-writers, writer_names, modules, strays, IsRegistered}
use kafka_file_writer.File.Stopping.{on_message-not_finished}
use kafka_file_writer.File.Isolation.{on_message-unwanted}
use kafka_file_writer.Tests.Memory.{Store}
use kafka_file_writer.Tests.Fixtures.{
  floats, hdf, writers, no_store, registry, run, structure, placed, event_writer, two_writers, meta,
  events, stop,
}

abbrev store : Store (Element ℤ ℤ)
store = (File.new hdf writers registry (λ value. "json") "/" run structure "now" no_store).1

built :
    File.new hdf writers registry (λ value. "json") "/" run structure "now" no_store
    ≡ (ok two_writers, store)
unfolding File.new Context.err_parent_dataset File.add_attributes Attr.add_ascii_string_attribute
    Context.err_attribute Placed.new Factories.get Map.get Registry.default_registry
    Factories.register_module Map.insert Factories.create_writer_module Factories.parse_config
    Nxeventdata.create Attr.add_root_dataset_attributes File.add_placed_writer Router.subscribe
    Map.entry
built = refl

new-IsInSync_example : IsInSync two_writers
new-IsInSync_example =
    new-IsInSync hdf writers registry (λ value. "json") "/" run structure "now" no_store store
      two_writers built

on_message-IsInSync_example :
    IsInSync
      (File.on_message hdf writers (meta 1500) (event_data_ev44 events) (two_writers, store)).1.0
on_message-IsInSync_example =
    on_message-IsInSync hdf writers (meta 1500) (event_data_ev44 events) two_writers store
      new-IsInSync_example

on_run_stop-IsInSync_example :
    IsInSync (File.on_run_stop hdf writers (meta 1500) stop (two_writers, store)).1.0
on_run_stop-IsInSync_example =
    on_run_stop-IsInSync hdf writers (meta 1500) stop two_writers store new-IsInSync_example

on_message-ne-not_found_example :
    (File.on_message hdf writers (meta 1500) (event_data_ev44 events) (two_writers, store)).0
    ≢ err (writer_module_not_found 2)
on_message-ne-not_found_example =
    on_message-ne-not_found hdf writers (meta 1500) (event_data_ev44 events) two_writers store 2
      new-IsInSync_example

on_message-unwanted_example :
    get_elem?
      (File.on_message hdf writers
        (meta 1500)
        (event_data_ev44 events)
        (two_writers, store)).1.0.writers
      1
    ≡ some (placed "//b" "monitors" 0)
on_message-unwanted_example =
    on_message-unwanted hdf writers (meta 1500) (event_data_ev44 events) 1 two_writers store
      (placed "//b" "monitors" 0) new-IsInSync_example refl (refl, tt)

on_message-unused_example :
    (Nxeventdata.on_message floats hdf (meta 1500) other (event_writer "//a" "events" 0, store)).1.1
    ≡ store
on_message-unused_example =
    Window.on_message-unused floats hdf (meta 1500) other (event_writer "//a" "events" 0) store refl

finished-on_message_example :
    finished
      (Nxeventdata.on_message floats hdf
        (meta 1500)
        other
        (event_writer "//a" "events" 2500, store)).1.0
    ≡ false
finished-on_message_example =
    Window.finished-on_message floats hdf (meta 1500) other (event_writer "//a" "events" 2500) store
      1500 refl

new-writers_example :
    (writer_names two_writers.writers ≡ modules structure.children)
    × All (IsRegistered hdf writers registry (λ value. "json")) (modules structure.children)
    × (strays structure.children ≡ [])
new-writers_example =
    new-writers hdf writers registry (λ value. "json") "/" run structure "now" no_store store
      two_writers built

on_message-not_finished_example :
    File.finished hdf writers
      (File.on_message hdf writers (meta 2500) other (two_writers, no_store)).1.0
    ≡ false
on_message-not_finished_example =
    on_message-not_finished hdf writers (meta 2500) other two_writers no_store refl

on_run_stop-received_example :
    ((File.on_run_stop hdf writers (meta 1500) stop (two_writers, no_store)).1.0.run_stop_received
      ≡ true)
    ↔ ((ws' : List (PlacedWriter String (AnyWriter String))) × (h' : Store (Element ℤ ℤ))
        × AllStopped hdf writers (meta 1500) stop two_writers.writers no_store ws' h')
on_run_stop-received_example =
    on_run_stop-received hdf writers (meta 1500) stop two_writers no_store refl

abbrev stopped_writer : String → String → PlacedWriter String (AnyWriter String)
stopped_writer g topic = record (placed g topic 0) {
  writer = nxeventdata (record (event_writer g topic 0) { run_stop_time_ms = 1500 });
}

abbrev two_stopped : InProgressFile String (AnyWriter String)
two_stopped = record two_writers {
  run_stop_received = true;
  writers = stopped_writer "//a" "events" ∷ stopped_writer "//b" "monitors" ∷ [];
}

told_all :
    File.on_run_stop hdf writers (meta 1500) stop (two_writers, no_store)
    ≡ (ok tt, (two_stopped, no_store))
unfolding File.on_run_stop Placed.on_run_stop Registry.on_run_stop Nxeventdata.on_run_stop
told_all = refl

on_run_stop-AllStopped_example :
    AllStopped hdf writers
      (meta 1500)
      stop
      two_writers.writers
      no_store
      two_stopped.writers
      no_store
    × (two_stopped.run_stop_received ≡ true)
on_run_stop-AllStopped_example =
    on_run_stop-AllStopped hdf writers (meta 1500) stop two_writers two_stopped no_store no_store
      told_all

on_run_stop-map_example :
    File.on_run_stop hdf writers (meta 1500) stop (two_writers, no_store)
    ≡ (ok tt, (two_stopped, no_store))
on_run_stop-map_example = on_run_stop-map floats hdf (meta 1500) stop two_writers no_store

-- ===== src/Tests/Events.antt =====
-- Examples for the events of a file with two modules.
use kafka_file_writer.Base.{zero, suc, String, ◌≡◌, refl, sym, ap, ◌∙◌, [], ◌∷◌, arith}
use text.Mathlib.TextEquality.{eq_iff}
use kafka_file_writer.Base.Equality.{string_eq}
use kafka_file_writer.Base.Int.{ℤ, pos}
use kafka_file_writer.Base.Map
use kafka_file_writer.Base.Exec.{ok}
use kafka_file_writer.Message.{event_data_ev44}
use kafka_file_writer.Router
use kafka_file_writer.Router.Routes.{subscribe_all}
use kafka_file_writer.Hdf.Attr
use kafka_file_writer.Hdf.Context
use kafka_file_writer.Writer.Factories
use kafka_file_writer.Writer.Nxeventdata
use kafka_file_writer.Writer.Nxeventdata.{Element, Nxeventdata, f64}
use kafka_file_writer.Writer.Nxeventdata.Recording.{recorded, view}
use kafka_file_writer.Writer.Registry
use kafka_file_writer.Writer.Registry.{AnyWriter, nxeventdata}
use kafka_file_writer.Placed
use kafka_file_writer.File
use kafka_file_writer.File.{InProgressFile}
use kafka_file_writer.File.Sync.{IsInSync}
use kafka_file_writer.File.Events.{on_message-events}
use kafka_file_writer.File.Calls.{Apart}
use kafka_file_writer.Tests.Memory.{memory_laws, memory_groups, Store}
use kafka_file_writer.Tests.Fixtures.{
  floats, hdf, writers, no_store, registry, run, structure, placed, event_writer, two_writers, meta,
  events,
}

abbrev store : Store (Element ℤ ℤ)
store = (File.new hdf writers registry (λ value. "json") "/" run structure "now" no_store).1

abbrev after : InProgressFile String (AnyWriter String)
after = record two_writers { writers = placed "//a" "events" 1500 ∷ placed "//b" "monitors" 0 ∷ [] }

abbrev after_store : Store (Element ℤ ℤ)
after_store =
    (File.on_message hdf writers (meta 1500) (event_data_ev44 events) (two_writers, store)).1.1

took :
    File.on_message hdf writers (meta 1500) (event_data_ev44 events) (two_writers, store)
    ≡ (ok tt, (after, after_store))
unfolding File.new Context.err_parent_dataset File.add_attributes Attr.add_ascii_string_attribute
    Context.err_attribute Placed.new Factories.get Map.get Registry.default_registry
    Factories.register_module Map.insert Factories.create_writer_module Factories.parse_config
    Nxeventdata.create Attr.add_root_dataset_attributes File.on_message Router.writers_for
    Placed.on_message Registry.on_message Nxeventdata.on_message Context.err_dataset
took = refl

apart : Apart "//a" 0 two_writers.writers
apart zero q ne at v e in_a = ne refl
apart (suc zero) q ne at v e in_a =
    let is : v ≡ event_writer "//b" "monitors" 0 = cc in
    let b : String = "//b" in
    let same : b ≡ "//a" = sym (ap (λ (u : Nxeventdata String). u.group) is) ∙ in_a in
    absurd (ground (arith, eq_iff "//b" "//a"))
apart (suc (suc i)) q ne at v e in_a = absurd (cc)

sync : IsInSync two_writers
unfolding subscribe_all Router.subscribe Map.entry
sync = refl

on_message-events_example :
    view floats hdf (memory_laws (f64 (pos 0))) "//a" after_store
    ≡ recorded floats
        (event_writer "//a" "events" 0)
        (meta 1500)
        (event_data_ev44 events)
        (view floats hdf (memory_laws (f64 (pos 0))) "//a" store)
unfolding memory_laws File.new Context.err_parent_dataset File.add_attributes
    Attr.add_ascii_string_attribute Context.err_attribute Placed.new Factories.get Map.get
    Registry.default_registry Factories.register_module Map.insert Factories.create_writer_module
    Factories.parse_config Nxeventdata.create Attr.add_root_dataset_attributes Context.err_dataset
on_message-events_example =
    on_message-events floats hdf (memory_laws (f64 (pos 0))) (memory_groups (f64 (pos 0)))
      (meta 1500) (event_data_ev44 events) "//a" 0 (placed "//a" "events" 0)
      (event_writer "//a" "events" 0) "events" two_writers after store after_store sync refl refl
      refl refl apart refl (omega arith) took

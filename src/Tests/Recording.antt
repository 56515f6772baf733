-- ===== src/Tests/Recording.antt =====
-- Examples for what a module of events records.
use kafka_file_writer.Base.{String, List, ◌≡◌, ◌↔◌, ◌&&◌, refl, true, none, some, [], ◌∷◌, arith}
use kafka_file_writer.Base.Int.{ℤ, pos}
use kafka_file_writer.Base.Exec.{ok}
use kafka_file_writer.Message.{EventData, PulseMetadata, pulse_metadata_pu00, event_data_ev44}
use kafka_file_writer.Subscription.{SubscriptionKey}
use kafka_file_writer.Hdf.Attr
use kafka_file_writer.Hdf.Context
use kafka_file_writer.Writer.{WriterModuleCreateResult}
use kafka_file_writer.Writer.Nxeventdata
use kafka_file_writer.Writer.Nxeventdata.{Element, Nxeventdata, State, u32, f32, f64, create}
use kafka_file_writer.Writer.Nxeventdata.Window.{in_window}
use kafka_file_writer.Writer.Nxeventdata.Recording.{Log, view}
use kafka_file_writer.Writer.Nxeventdata.Creation.{create-empty, empty_log}
use kafka_file_writer.Writer.Nxeventdata.Invalid.{CallsInvalid, malformed, on_message-invalid}
use kafka_file_writer.Writer.Nxeventdata.Records.{Delivery, recorded_all}
use kafka_file_writer.Writer.Nxeventdata.Life.{Taken, done, then_took, then_stopped, create-Taken}
use kafka_file_writer.Tests.Memory.{Store, memory_laws, memory_creation}
use kafka_file_writer.Tests.Fixtures.{floats, hdf, no_store, run, event_writer, meta, events, stop}

abbrev made : WriterModuleCreateResult (Nxeventdata String)
made = record {
  module_ = event_writer "//a" "events" 0;
  subscriptions = record { topic = "events"; key = SubscriptionKey.all } ∷ [];
}

abbrev store : Store (Element ℤ ℤ)
store = (create floats hdf "//a" run (record { topic = "events" }) no_store).1

was_made : create floats hdf "//a" run (record { topic = "events" }) no_store ≡ (ok made, store)
unfolding Nxeventdata.create Context.err_dataset Context.err_parent_dataset
    Attr.add_ascii_string_attribute Context.err_attribute
was_made = refl

create-empty_example :
    (view floats hdf (memory_laws (f64 (pos 0))) "//a" store ≡ empty_log)
    × (made.module_ ≡ event_writer "//a" "events" 0)
    × (made.subscriptions ≡ record { topic = "events"; key = SubscriptionKey.all } ∷ [])
create-empty_example =
    create-empty floats hdf (memory_laws (f64 (pos 0))) (memory_creation (f64 (pos 0))) "//a" run
      (record { topic = "events" }) no_store store made was_made

abbrev after_events : Store (Element ℤ ℤ)
after_events =
    (Nxeventdata.on_message floats hdf (meta 1500) (event_data_ev44 events)
      (event_writer "//a" "events" 0, store)).1.1

took_events :
    Nxeventdata.on_message floats hdf
      (meta 1500)
      (event_data_ev44 events)
      (event_writer "//a" "events" 0, store)
    ≡ (ok tt, (event_writer "//a" "events" 1500, after_events))
unfolding Nxeventdata.on_message Nxeventdata.create Context.err_dataset Context.err_parent_dataset
    Attr.add_ascii_string_attribute Context.err_attribute
took_events = refl

abbrev log : Store (Element ℤ ℤ) → Log floats
log s = view floats hdf (memory_laws (f64 (pos 0))) "//a" s

-- Two pixels, and no time.
abbrev timeless : EventData
timeless = record events { time_of_flight = none }

on_message-invalid_example :
    CallsInvalid floats hdf
      (meta 1500)
      (event_data_ev44 timeless)
      (event_writer "//a" "events" 0, store)
    ↔ ((in_window (event_writer "//a" "events" 0) (some (pos 1500))
          && malformed (event_data_ev44 timeless))
        ≡ true)
on_message-invalid_example =
    on_message-invalid floats hdf (meta 1500) (event_data_ev44 timeless)
      (event_writer "//a" "events" 0) store

abbrev pulse : PulseMetadata
pulse = record { reference_time = pos 1449 }

abbrev stopped : Nxeventdata String
stopped = record (event_writer "//a" "events" 1500) { run_stop_time_ms = 1500 }

abbrev final : Nxeventdata String
final = record stopped { latest_message_time_ms = 1450 }

abbrev after_pulse : Store (Element ℤ ℤ)
after_pulse =
    (Nxeventdata.on_message floats hdf (meta 1450) (pulse_metadata_pu00 pulse)
      (stopped, after_events)).1.1

-- Events in the run, invalid data, the run stop, and a pulse in the run.
abbrev deliveries : List Delivery
deliveries =
    Delivery.message (meta 1500) (event_data_ev44 events)
    ∷ Delivery.message (meta 1500) (event_data_ev44 timeless)
    ∷ Delivery.stop (meta 1500) stop
    ∷ Delivery.message (meta 1450) (pulse_metadata_pu00 pulse)
    ∷ []

taken : Taken floats hdf (final, after_pulse) deliveries (event_writer "//a" "events" 0, store)
unfolding Nxeventdata.on_message Nxeventdata.create Context.err_dataset Context.err_parent_dataset
    Attr.add_ascii_string_attribute Context.err_attribute Nxeventdata.on_run_stop
taken = then_took took_events tt (then_took refl tt (then_stopped refl (then_took refl tt done)))

create-Taken_example :
    log after_pulse ≡ recorded_all floats (event_writer "//a" "events" 0) deliveries empty_log
unfolding recorded_all
create-Taken_example =
    create-Taken floats hdf (memory_laws (f64 (pos 0))) (memory_creation (f64 (pos 0))) "//a" run
      (record { topic = "events" }) no_store store after_pulse made deliveries final was_made taken
      (omega arith)

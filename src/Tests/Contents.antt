-- ===== src/Tests/Contents.antt =====
-- Examples for what a whole run leaves in its file.
use kafka_file_writer.Base.{String, ◌≡◌, ◌++◌, refl, true, none, some, List, [], ◌∷◌, arith}
use kafka_file_writer.Base.Map
use kafka_file_writer.Base.Int.{ℤ, pos}
use kafka_file_writer.Base.Exec.{Result, ok, err}
use kafka_file_writer.Error.{StreamError, poll_error}
use kafka_file_writer.Message.{Message, event_data_ev44}
use kafka_file_writer.Router
use kafka_file_writer.Run
use kafka_file_writer.Stream.Fake.{FakeStream, fake_stream, default}
use kafka_file_writer.Structure
use kafka_file_writer.Hdf.Attr
use kafka_file_writer.Hdf.Context
use kafka_file_writer.Hdf.FileCreator.{FileCreator, create_file}
use kafka_file_writer.Writer.Factories
use kafka_file_writer.Writer.Nxeventdata
use kafka_file_writer.Writer.Nxeventdata.{Element, Nxeventdata, f64}
use kafka_file_writer.Writer.Nxeventdata.Recording.{view}
use kafka_file_writer.Writer.Nxeventdata.Records.{recorded_all}
use kafka_file_writer.Writer.Registry
use kafka_file_writer.Writer.Registry.{AnyWriter, nxeventdata}
use kafka_file_writer.Placed
use kafka_file_writer.File
use kafka_file_writer.File.Following.{Follows}
use kafka_file_writer.File.Started.{new-Follows}
use kafka_file_writer.Writer.Nxeventdata.Creation.{empty_log}
use kafka_file_writer.File.{InProgressFile}
use kafka_file_writer.Task
use kafka_file_writer.Task.{write_data_for_run}
use kafka_file_writer.Task.Messages.{write_until_finished}
use kafka_file_writer.Task.Whole.{released}
use kafka_file_writer.Task.Waiting.{StillWaiting, write_until_finished-StillWaiting}
use kafka_file_writer.Task.Content.{write_data_for_run-recorded}
use kafka_file_writer.Task.Prefixes.{to_record}
use kafka_file_writer.Tests.Memory.{
  Store, memory_laws, memory_creation, memory_groups, memory_building,
}
use kafka_file_writer.Tests.Fixtures.{
  floats, hdf, writers, no_store, no_config, topic_of, structure, event_writer, message, meta,
  events, environment,
}
use kafka_file_writer.Tests.Whole.{params, writer, begun, store, built, left}

-- Events in the run, the run stop at 1500, late events, and a later message on each topic.
abbrev used : List (Result StreamError Message)
used =
    ok (message (2 ∷ []) 1200)
    ∷ err (poll_error "broker down")
    ∷ ok (message (1 ∷ []) 1500)
    ∷ ok (message (2 ∷ []) 1600)
    ∷ ok (record (message (3 ∷ []) 1600) { topic = "monitors" })
    ∷ []

abbrev data_stream : FakeStream
data_stream = record default { messages = used ++ left }

abbrev module_ : Nxeventdata String
module_ = record (event_writer "/data/run.nxs/a" "events" 0) {
  run_stop_time_ms = params.stop_time_ms;
}

new-Follows_example :
    Follows "/data/run.nxs/a" 0 "events" module_ begun
    × (view floats hdf (memory_laws (f64 (pos 0))) "/data/run.nxs/a" store ≡ empty_log)
    × (module_.run_start_time_ms ≡ params.start_time_ms)
    × (module_.run_stop_time_ms ≡ params.stop_time_ms)
new-Follows_example =
    new-Follows floats hdf (memory_laws (f64 (pos 0))) (memory_creation (f64 (pos 0)))
      (memory_building (f64 (pos 0))) params no_config topic_of (λ value. "json") "/data/run.nxs"
      structure "now" no_store store begun 0
      (writer "/data/run.nxs/a" "events" params.stop_time_ms 0) module_ built refl refl

-- The two events are in the store.
abbrev final : Store (Element ℤ ℤ)
final =
    (Nxeventdata.on_message floats hdf (meta 1200) (event_data_ev44 events) (module_, store)).1.1

abbrev ended : InProgressFile String (AnyWriter String)
ended = record begun {
  run_stop_received = true;
  writers =
      writer "/data/run.nxs/a" "events" 1500 1600
      ∷ writer "/data/run.nxs/b" "monitors" 1500 1600
      ∷ [];
}

finishes :
    write_until_finished hdf writers environment (used ++ left) (begun, store)
    ≡ some (ok tt, ((ended, final), left))
unfolding write_until_finished File.finished Task.handle_one_message File.job_id File.on_run_stop
    Placed.on_run_stop Registry.on_run_stop Nxeventdata.on_run_stop Registry.finished
    Nxeventdata.finished File.on_message Router.writers_for Map.get Placed.on_message
    Registry.on_message Nxeventdata.on_message Context.err_dataset Context.err_parent_dataset
    File.new File.add_attributes Attr.add_ascii_string_attribute Context.err_attribute Placed.new
    Factories.get Registry.default_registry Factories.register_module Map.insert
    Factories.create_writer_module Factories.parse_config Nxeventdata.create
    Attr.add_root_dataset_attributes File.add_placed_writer Router.subscribe Map.entry
finishes = refl

write_data_for_run-recorded_example :
    (write_data_for_run hdf writers environment fake_stream 7 params FileCreator.disk "id" "now"
        (no_store, data_stream)
      ≡ some (ok tt, (final, released hdf writers environment data_stream left)))
    × (taken : List (Result StreamError Message)) × (used ++ left ≡ taken ++ left)
    × (view floats hdf (memory_laws (f64 (pos 0))) "/data/run.nxs/a" final
        ≡ to_record floats environment.deserialize_message module_ "job" taken)
    × (module_.run_start_time_ms ≡ params.start_time_ms)
    × (module_.run_stop_time_ms ≡ params.stop_time_ms)
unfolding Run.structure create_file Task.push_path Task.seek_timestamp Structure.from_run_start
    Structure.from_str recorded_all Task.meta_of Task.is_job
write_data_for_run-recorded_example =
    write_data_for_run-recorded floats hdf (memory_laws (f64 (pos 0)))
      (memory_creation (f64 (pos 0))) (memory_groups (f64 (pos 0))) (memory_building (f64 (pos 0)))
      environment no_config topic_of 7 params FileCreator.disk "id" "now" structure "/data/run.nxs"
      begun ended (pos 0) no_store no_store store final data_stream left 0
      (writer "/data/run.nxs/a" "events" params.stop_time_ms 0) module_ refl refl refl built refl
      refl refl (omega arith) finishes refl refl (omega arith)

-- The run stop came, and no later message of either topic.
abbrev early : List (Result StreamError Message)
early =
    ok (message (2 ∷ []) 1200)
    ∷ err (poll_error "broker down")
    ∷ ok (message (1 ∷ []) 1500)
    ∷ ok (message (2 ∷ []) 1450)
    ∷ []

waits : write_until_finished hdf writers environment early (begun, store) ≡ none
unfolding write_until_finished File.finished Task.handle_one_message File.job_id File.on_run_stop
    Placed.on_run_stop Registry.on_run_stop Nxeventdata.on_run_stop Registry.finished
    Nxeventdata.finished File.on_message Router.writers_for Map.get Placed.on_message
    Registry.on_message Nxeventdata.on_message Context.err_dataset Context.err_parent_dataset
    File.new File.add_attributes Attr.add_ascii_string_attribute Context.err_attribute Placed.new
    Factories.get Registry.default_registry Factories.register_module Map.insert
    Factories.create_writer_module Factories.parse_config Nxeventdata.create
    Attr.add_root_dataset_attributes File.add_placed_writer Router.subscribe Map.entry
waits = refl

write_until_finished-StillWaiting_example :
    StillWaiting floats hdf environment "job" early (begun, store)
unfolding File.job_id
write_until_finished-StillWaiting_example =
    write_until_finished-StillWaiting floats hdf environment early begun store "job" refl waits

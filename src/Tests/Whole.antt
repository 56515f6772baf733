-- ===== src/Tests/Whole.antt =====
-- Examples for a whole run and for the whole writer.
use kafka_file_writer.Base.{
  ℕ, suc, String, ◌≡◌, ◌^◌, ◌-◌, refl, true, none, some, List, [], ◌∷◌, arith,
}
use kafka_file_writer.Base.Map
use kafka_file_writer.Base.Int.{ℤ, pos}
use kafka_file_writer.Base.Exec.{Result, ok, err}
use kafka_file_writer.Error.{StreamError, poll_error}
use kafka_file_writer.Message.{Message}
use kafka_file_writer.Router
use kafka_file_writer.Run
use kafka_file_writer.Run.{RunStartParameters}
use kafka_file_writer.Stream.Fake.{FakeStream, fake_stream, default}
use kafka_file_writer.Structure
use kafka_file_writer.Hdf.Attr
use kafka_file_writer.Hdf.Context
use kafka_file_writer.Hdf.FileCreator.{FileCreator, create_file}
use kafka_file_writer.Writer.Factories
use kafka_file_writer.Writer.Nxeventdata
use kafka_file_writer.Writer.Nxeventdata.{Element}
use kafka_file_writer.Writer.Registry
use kafka_file_writer.Writer.Registry.{AnyWriter, nxeventdata}
use kafka_file_writer.Placed
use kafka_file_writer.Placed.{PlacedWriter}
use kafka_file_writer.File
use kafka_file_writer.File.{InProgressFile}
use kafka_file_writer.Task
use kafka_file_writer.Task.{write_data_for_run, handle_messages_until_run_stop}
use kafka_file_writer.Task.Messages.{write_until_finished}
use kafka_file_writer.Task.Noise.{without_stream, relevant, handle_messages-relevant}
use kafka_file_writer.Task.Polling.Unfinished.{handle_messages-unfinished}
use kafka_file_writer.Task.Polling.{Delivered, ReturnsAfter, handle_messages-ReturnsAfter}
use kafka_file_writer.Stream.Delivery.{Polled, nothing, then_poll, received}
use kafka_file_writer.JobPool.{wait_for_run_start}
use kafka_file_writer.JobPool.Polling.{
  Waits, here, timed_out, failed, skipped, wait_for_run_start-found,
}
use kafka_file_writer.Tests.Queue.{queue}
use kafka_file_writer.Run.{from_pl72}
use kafka_file_writer.FileWriter.{Host, write_one_file}
use kafka_file_writer.FileWriter.Whole.{write_one_file-returns}
use kafka_file_writer.Tests.Memory.{Store}
use kafka_file_writer.Tests.Fixtures.{
  hdf, writers, no_store, registry, run, structure, placed, event_writer, two_writers, message,
  environment, start, deserialize, config,
}

-- The run start without a stop time.
abbrev pub params : RunStartParameters
params = record run { stop_time_ms = 2 ^ 64 - 1 }

abbrev pub writer : String → String → (stop latest : ℕ) → PlacedWriter String (AnyWriter String)
writer g topic stop_time latest = record (placed g topic 0) {
  writer = nxeventdata (record (event_writer g topic latest) { run_stop_time_ms = stop_time });
}

abbrev pub begun : InProgressFile String (AnyWriter String)
begun = record two_writers {
  file = "/data/run.nxs";
  writers =
      writer "/data/run.nxs/a" "events" (2 ^ 64 - 1) 0
      ∷ writer "/data/run.nxs/b" "monitors" (2 ^ 64 - 1) 0
      ∷ [];
  run_start_parameters = params;
}

abbrev pub store : Store (Element ℤ ℤ)
store =
    (File.new hdf writers registry (λ value. "json") "/data/run.nxs" params structure "now"
      no_store).1

pub built :
    File.new hdf writers registry (λ value. "json") "/data/run.nxs" params structure "now" no_store
    ≡ (ok begun, store)
unfolding File.new Context.err_parent_dataset File.add_attributes Attr.add_ascii_string_attribute
    Context.err_attribute Placed.new Factories.get Map.get Registry.default_registry
    Factories.register_module Map.insert Factories.create_writer_module Factories.parse_config
    Nxeventdata.create Attr.add_root_dataset_attributes File.add_placed_writer Router.subscribe
    Map.entry
built = refl

-- The run stop at 1500, a later message on each topic, and one more.
abbrev messages : List (Result StreamError Message)
messages =
    ok (message (1 ∷ []) 1500)
    ∷ err (poll_error "broker down")
    ∷ ok (message (8 ∷ []) 1600)
    ∷ ok (message (3 ∷ []) 1600)
    ∷ ok (record (message (3 ∷ []) 1600) { topic = "monitors" })
    ∷ ok (message (3 ∷ []) 1700)
    ∷ []

abbrev pub left : List (Result StreamError Message)
left = ok (message (3 ∷ []) 1700) ∷ []

abbrev ended : InProgressFile String (AnyWriter String)
ended = record begun {
  run_stop_received = true;
  writers =
      writer "/data/run.nxs/a" "events" 1500 1600
      ∷ writer "/data/run.nxs/b" "monitors" 1500 1600
      ∷ [];
}

finishes :
    write_until_finished hdf writers environment messages (begun, store)
    ≡ (some (ok tt, ((ended, store), left)))
unfolding write_until_finished File.finished Task.handle_one_message File.job_id File.on_run_stop
    Placed.on_run_stop Registry.on_run_stop Nxeventdata.on_run_stop Registry.finished
    Nxeventdata.finished File.on_message Router.writers_for Map.get Placed.on_message
    Registry.on_message Nxeventdata.on_message
finishes = refl

abbrev data_stream : FakeStream
data_stream = record default { messages = messages }

handle_messages-relevant_example :
    without_stream hdf writers environment (
      handle_messages_until_run_stop hdf writers environment fake_stream 7
        ((begun, store), data_stream))
    ≡ without_stream hdf writers environment (
        handle_messages_until_run_stop hdf writers environment fake_stream 7
          ((begun, store), record data_stream { messages = relevant deserialize "job" messages }))
unfolding File.job_id
handle_messages-relevant_example =
    handle_messages-relevant hdf writers environment 7 begun store data_stream "job" refl
      (omega arith)

-- An error, a poll that times out, and two other messages, before a run start.
abbrev pool : List Polled
pool =
    some (err (poll_error "broker down"))
    ∷ none
    ∷ some (ok (message (8 ∷ []) 5))
    ∷ some (ok (message (3 ∷ []) 6))
    ∷ some (ok (message (0 ∷ []) 7))
    ∷ none
    ∷ []

abbrev at_run_start : List Polled
at_run_start = some (ok (message (0 ∷ []) 7)) ∷ none ∷ []

abbrev behind_run_start : List Polled
behind_run_start = none ∷ []

waits : Waits deserialize config queue at_run_start 4 pool
waits = failed refl (
    timed_out refl (
      skipped (record { after_poll = _; polled = refl; committed = refl }) refl
        (skipped (record { after_poll = _; polled = refl; committed = refl }) refl here)))

wait_for_run_start-found_example :
    wait_for_run_start deserialize config queue 5 (tt, pool)
    ≡ some (from_pl72 start (message (0 ∷ []) 7), (tt, behind_run_start))
wait_for_run_start-found_example =
    wait_for_run_start-found deserialize config queue 4 5 pool pool at_run_start behind_run_start
      start (message (0 ∷ []) 7) refl waits
      (record { after_poll = behind_run_start; polled = refl; committed = refl }) refl (omega arith)

-- The same messages, with polls that time out.
abbrev data_polls : List Polled
data_polls =
    none
    ∷ some (ok (message (1 ∷ []) 1500))
    ∷ some (err (poll_error "broker down"))
    ∷ some (ok (message (8 ∷ []) 1600))
    ∷ some (ok (message (3 ∷ []) 1600))
    ∷ none
    ∷ some (ok (record (message (3 ∷ []) 1600) { topic = "monitors" }))
    ∷ some (ok (message (3 ∷ []) 1700))
    ∷ []

polls : Delivered hdf writers environment queue [] data_polls data_polls
polls = then_poll refl (
    then_poll refl (
      then_poll refl (
        then_poll refl
          (then_poll refl (then_poll refl (then_poll refl (then_poll refl nothing)))))))

handle_messages-ReturnsAfter_example :
    ReturnsAfter hdf writers environment queue data_polls 9
      ((begun, store), data_polls)
      (ok tt)
      (ended, store)
      left
handle_messages-ReturnsAfter_example =
    handle_messages-ReturnsAfter hdf writers environment queue data_polls 9 begun store data_polls
      [] (ok tt) (ended, store) left polls (omega arith) finishes

-- The polls up to the run stop.
abbrev first_polls : List Polled
first_polls = none ∷ some (ok (message (1 ∷ []) 1500)) ∷ []

unfinished :
    write_until_finished hdf writers environment (received first_polls) (begun, store) ≡ none
unfolding write_until_finished File.finished Task.handle_one_message File.job_id File.on_run_stop
    Placed.on_run_stop Registry.on_run_stop Nxeventdata.on_run_stop Registry.finished
    Nxeventdata.finished
unfinished = refl

handle_messages-unfinished_example :
    handle_messages_until_run_stop hdf writers environment queue 2 ((begun, store), first_polls)
    ≡ none
handle_messages-unfinished_example =
    handle_messages-unfinished hdf writers environment queue first_polls 2 begun store first_polls
      [] (then_poll refl (then_poll refl nothing)) (omega arith) unfinished

-- The world counts the consumers that were made.
abbrev host : Host queue
host = record {
  World = ℕ;
  job_pool_consumer_factory = λ n. (ok pool, suc n);
  data_consumer_factory = λ n. (ok data_polls, suc n);
  draw_uuid = λ n. ("id", n);
  draw_time = λ n. ("now", n);
}

write_one_file-returns_example :
    write_one_file hdf writers environment queue host FileCreator.disk 9 (no_store, 0)
    ≡ some (ok tt, (store, 2))
unfolding Run.structure create_file Task.push_path Task.seek_timestamp Run.from_pl72
    Structure.from_run_start Structure.from_str
write_one_file-returns_example =
    write_one_file-returns hdf writers environment queue host FileCreator.disk 9 4 data_polls left
      start (message (0 ∷ []) 7) pool pool at_run_start behind_run_start data_polls data_polls [] 0
      1 2 2 2 "id" "now" params structure "/data/run.nxs" begun ended (pos 0) no_store no_store
      store store (ok tt) refl refl waits
      (record { after_poll = behind_run_start; polled = refl; committed = refl }) refl (omega arith)
      refl refl refl refl refl refl built refl (λ s. refl) (refl, polls) (omega arith) finishes

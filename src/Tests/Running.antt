-- ===== src/Tests/Running.antt =====
-- Examples for the loops and the consumers.
use kafka_file_writer.Base.{
  ℕ, ◌-◌, ◌<◌, ◌≤◌, ◌^◌, ◌+◌, String, ◌≡◌, refl, ◌||◌, ◌⊎◌, true, none, some, [], ◌∷◌,
}
use kafka_file_writer.Base.Equality.{◌==◌, string_eq}
use kafka_file_writer.Base.Map.{contains, distinct}
use kafka_file_writer.Base.Map
use kafka_file_writer.Base.Loop.{loop}
use kafka_file_writer.Base.Int.{pos}
use kafka_file_writer.Base.Exec.{ok}
use kafka_file_writer.Router
use kafka_file_writer.Run
use kafka_file_writer.Run.{RunStartParameters, from_pl72}
use kafka_file_writer.Run.Parameters.{StopTime, from_pl72-ok}
use kafka_file_writer.Stream.Fake
use kafka_file_writer.Stream.Fake.{FakeStream, fake_stream, default}
use kafka_file_writer.Writer.Nxeventdata.{Element}
use kafka_file_writer.Writer.Nxeventdata
use kafka_file_writer.Writer.Registry
use kafka_file_writer.Writer.Registry.{AnyWriter, nxeventdata}
use kafka_file_writer.Placed
use kafka_file_writer.File
use kafka_file_writer.File.{InProgressFile}
use kafka_file_writer.Task
use kafka_file_writer.Task.{
  seek_timestamp, assignment_topics, handle_one_message, handle_messages_until_run_stop,
}
use kafka_file_writer.Task.Seeking.{seek_timestamp-ok}
use kafka_file_writer.Task.Topics.{assignment_topics_lem}
use kafka_file_writer.Task.Ending.{handle_messages-finished}
use kafka_file_writer.Tests.Fixtures.{
  hdf, writers, no_store, run, two_writers, placed, event_writer, message, environment, start,
}

abbrev accepted : RunStartParameters
accepted = record run { stop_time_ms = 2 ^ 64 - 1 }

from_pl72-ok_example :
    (start.filename ≡ some "run.nxs")
    × (start.nexus_structure ≡ some "{}")
    × (start.job_id ≡ some "job")
    × (accepted.start_time_ms ≡ 1000)
    × StopTime 0 accepted.stop_time_ms
    × (accepted.n_periods ≡ 1)
    × (accepted.metadata ≡ none)
    × (accepted.control_topic ≡ some "control")
unfolding from_pl72
from_pl72-ok_example = from_pl72-ok start (message (0 ∷ []) 7) accepted refl

seek_timestamp-ok_example :
    (n : ℕ) × (pos 40000 ≡ pos n)
    × (n ≤ 100000)
    × (n < 2 ^ 63)
    × (100000 ≤ n + 60000)
    × ((n + 60000 ≡ 100000) ⊎ (n ≡ 0))
unfolding seek_timestamp
seek_timestamp-ok_example = seek_timestamp-ok 100000 60000 (pos 40000) refl

assignment_topics_lem_example :
    ((topic : String)
      → contains topic (assignment_topics hdf writers environment two_writers run)
        ≡ (contains topic (File.topics two_writers) || "control" == topic))
    × (distinct (assignment_topics hdf writers environment two_writers run) ≡ true)
unfolding Run.control_topic
assignment_topics_lem_example = assignment_topics_lem hdf writers environment two_writers run

abbrev one_writer : InProgressFile String (AnyWriter String)
one_writer = record two_writers { writers = placed "//a" "events" 0 ∷ [] }

abbrev short_stream : FakeStream
short_stream = record default {
  messages =
      ok (message (1 ∷ []) 1500) ∷ ok (message (3 ∷ []) 1600) ∷ ok (message (3 ∷ []) 1700) ∷ [];
}

abbrev written : InProgressFile String (AnyWriter String)
written = record one_writer {
  run_stop_received = true;
  writers =
      record (placed "//a" "events" 0) {
        writer =
            nxeventdata (record (event_writer "//a" "events" 1600) { run_stop_time_ms = 1500 });
      }
      ∷ [];
}

-- The run ends with the message after the stop time.
finished_run :
    handle_messages_until_run_stop hdf writers environment fake_stream 4
      ((one_writer, no_store), short_stream)
    ≡ some (
      ok tt,
      ((written, no_store), record default { messages = ok (message (3 ∷ []) 1700) ∷ [] }),
    )
unfolding handle_messages_until_run_stop loop Task.round File.finished Fake.poll handle_one_message
    File.job_id File.on_run_stop Placed.on_run_stop Registry.on_run_stop Nxeventdata.on_run_stop
    Registry.finished Nxeventdata.finished File.on_message Router.writers_for Map.get
    Placed.on_message Registry.on_message Nxeventdata.on_message
finished_run = refl

handle_messages-finished_example : File.finished hdf writers written ≡ true
handle_messages-finished_example =
    handle_messages-finished hdf writers environment fake_stream 4 (one_writer, no_store)
      (written, no_store) short_stream
      (record default { messages = ok (message (3 ∷ []) 1700) ∷ [] }) finished_run

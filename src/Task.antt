-- ===== src/Task.antt =====
-- run_writer/single_file_write_task.rs: one run, from its start to its end.
pub mod Whole
pub mod Noise
pub mod Recorded
pub mod Waiting
pub mod Prefixes
pub mod Content
pub mod Seeking
pub mod Topics
pub mod Messages
pub mod Ending
pub mod Polling
pub mod Returning
use Prim.Native.Char.{code}
use text.Mathlib.Text.{starts_with}
use kafka_file_writer.Base.{
  ℕ, ◌-◌, String, ◌<>◌, Bool, true, false, ◌||◌, Option, none, some, List, [], ◌∷◌, ◌++◌,
}
use kafka_file_writer.Base.{if◌then◌else◌, leb}
use kafka_file_writer.Base.Equality.{◌==◌, string_eq, nat_beq}
use kafka_file_writer.Base.Map.{contains}
use kafka_file_writer.Base.Int.{ℤ, pos, i64_max}
use kafka_file_writer.Base.Exec.{Result, ok, err, Exec, pure}
use kafka_file_writer.Base.Loop.{Step, Run, loop}
use kafka_file_writer.Error.{Cause, FileWriterError, StreamError, integer_error}
use kafka_file_writer.Message.{
  Message, KafkaMessageMeta, DeserializedMessage, RunStop, run_stop_6s4t,
}
use kafka_file_writer.Json.{Value}
use kafka_file_writer.Config.{GlobalConfig}
use kafka_file_writer.Structure.{StructureSource, NexusFileStructure}
use kafka_file_writer.Run.{RunStartParameters, structure, control_topic}
use kafka_file_writer.Stream.{Stream}
use kafka_file_writer.Stream.Scope.{with_assignment}
use kafka_file_writer.Hdf.{Hdf5}
use kafka_file_writer.Hdf.FileCreator.{FileCreator}
use kafka_file_writer.Hdf.Scope.{with_nexus_file}
use kafka_file_writer.Writer.{WriterModule}
use kafka_file_writer.Writer.Factories.{WriterModuleFactories}
use kafka_file_writer.File
use kafka_file_writer.File.{InProgressFile}
use kafka_file_writer.JobPool.{Deserializer}

ends_in_separator : String → Bool
ends_in_separator String.[] = false
ends_in_separator (String.◌∷◌ c String.[]) = nat_beq (code c) b'/'
ends_in_separator (String.◌∷◌ c (String.◌∷◌ d s)) = ends_in_separator (String.◌∷◌ d s)

-- `PathBuf::push` on Unix: an absolute path takes the place of the first one.
unfoldable pub push_path : String → String → String
unfolding ends_in_separator
push_path dir file =
    if starts_with file "/"
    then file
    else if dir == "" || ends_in_separator dir
    then dir <> file
    else dir <> "/" <> file

-- `unique()` keeps the first of equal items.
unique_after : List String → List String → List String
unique_after seen [] = []
unique_after seen (x ∷ xs) =
    if contains x seen then unique_after seen xs else x ∷ unique_after (x ∷ seen) xs

unfoldable pub unique : List String → List String
unfolding unique_after
unique = unique_after []

-- `start.saturating_sub(back).try_into()`
unfoldable pub seek_timestamp : (start back : ℕ) → Result FileWriterError ℤ
seek_timestamp start back =
    if leb (start - back) i64_max
    then ok (pos (start - back))
    else err (
        integer_error "out of range integral type conversion attempted"
          "timestamp greater than i64::MAX in seek timestamp")

unfoldable pub meta_of : Message → KafkaMessageMeta
meta_of msg = record {
  topic = msg.topic;
  key = msg.key;
  timestamp = msg.timestamp;
  partition = msg.partition;
  offset = msg.offset;
}

-- Whether a run stop names this job.
unfoldable pub is_job : Option String → String → Bool
is_job none job = false
is_job (some id) job = id == job

-- What the task works with: the code that is not in the repository, and the settings.
pub record Environment {E : Type 0} (hdf : Hdf5 E) (dyn : WriterModule hdf.State) : Type 1 where
  pub deserialize_message : Deserializer
  pub source : StructureSource
  -- `Value::to_string`
  pub json_text : Value → String
  pub config : GlobalConfig
  pub factories : WriterModuleFactories hdf.Location hdf.State dyn.Writer

module _ {E : Type 0} (hdf : Hdf5 E) (dyn : WriterModule hdf.State)
    (env : Environment hdf dyn) where
  abbrev pub Writing : Type 0
  Writing = File.File hdf dyn × hdf.State

  handle_stop : Message → RunStop → Exec Writing FileWriterError (Unit {0})
  handle_stop msg run_stop (f, h) =
      if is_job run_stop.job_id (File.job_id f)
      then File.on_run_stop hdf dyn (meta_of msg) run_stop (f, h)
      else (ok tt, (f, h))

  handle_parsed :
      Message → Result Cause DeserializedMessage → Exec Writing FileWriterError (Unit {0})
  handle_parsed msg (ok (run_stop_6s4t run_stop)) st = handle_stop msg run_stop st
  handle_parsed msg (ok message) st = File.on_message hdf dyn (meta_of msg) message st
  handle_parsed msg (err _) st = (ok tt, st)

  handle_payload : Message → Option (List ℕ) → Exec Writing FileWriterError (Unit {0})
  handle_payload msg none st = (ok tt, st)
  handle_payload msg (some payload) st = handle_parsed msg (env.deserialize_message payload) st

  unfoldable pub handle_one_message : Message → Exec Writing FileWriterError (Unit {0})
  unfolding handle_payload handle_parsed handle_stop is_job meta_of
  handle_one_message msg st = handle_payload msg msg.payload st

  -- The topics to read: those of the writers and the control topic, each once.
  unfoldable pub assignment_topics : File.File hdf dyn → RunStartParameters → List String
  assignment_topics f params = unique (File.topics f ++ (control_topic params env.config ∷ []))

  module _ (consumer : Stream) where
    abbrev pub State : Type 0
    State = Writing × consumer.State

    handled :
        Result FileWriterError (Unit {0}) × Writing
        → consumer.State
        → Option (Result FileWriterError (Unit {0})) × State
    handled (ok _, st) s = (none, (st, s))
    handled (err e, st) s = (some (err e), (st, s))

    on_poll :
        Writing
        → Option (Result StreamError Message) × consumer.State
        → Option (Result FileWriterError (Unit {0})) × State
    on_poll st (none, s) = (none, (st, s))
    on_poll st (some (err e), s) = (none, (st, s))
    on_poll st (some (ok msg), s) = handled (handle_one_message msg st) s

    -- One round of `while !finished`. Logging and the wait after an error leave no trace.
    unfoldable pub round : Step State (Result FileWriterError (Unit {0}))
    unfolding on_poll handled
    round ((f, h), s) =
        if File.finished hdf dyn f
        then (some (ok tt), ((f, h), s))
        else on_poll (f, h) (consumer.poll env.config.data_consumer_poll_time_ms s)

    unfoldable pub handle_messages_until_run_stop :
        (fuel : ℕ) → Run State FileWriterError (Unit {0})
    handle_messages_until_run_stop = loop round

    -- The file goes out of scope with the function that writes it.
    drop_file :
        Option (Result FileWriterError (Unit {0}) × State)
        → Option (Result FileWriterError (Unit {0}) × (hdf.State × consumer.State))
    drop_file none = none
    drop_file (some (r, ((f, h), s))) = some (r, (h, s))

    assign_and_write :
        (fuel : ℕ)
        → RunStartParameters
        → File.File hdf dyn
        → Result FileWriterError ℤ
        → Run (hdf.State × consumer.State) FileWriterError (Unit {0})
    assign_and_write fuel params f (err e) (h, s) = some (err e, (h, s))
    assign_and_write fuel params f (ok timestamp) (h, s) = drop_file (
        with_assignment consumer (assignment_topics f params) timestamp
          env.config.kafka_assignment_timeout_ms (handle_messages_until_run_stop fuel) ((f, h), s))

    write_built :
        (fuel : ℕ)
        → RunStartParameters
        → Result FileWriterError (File.File hdf dyn) × hdf.State
        → consumer.State
        → Option (Result FileWriterError (Unit {0}) × (hdf.State × consumer.State))
    write_built fuel params (err e, h) s = some (err e, (h, s))
    write_built fuel params (ok f, h) s =
        assign_and_write fuel params f
          (seek_timestamp params.start_time_ms env.config.stream_seek_back_in_time_ms) (h, s)

    -- The function that runs while the file is open.
    write_file :
        (fuel : ℕ)
        → RunStartParameters
        → NexusFileStructure
        → (now : String) → hdf.Location
        → Run (hdf.State × consumer.State) FileWriterError (Unit {0})
    write_file fuel params s now file (h, c) =
        write_built fuel params (File.new hdf dyn env.factories env.json_text file params s now h) c

    write_structured :
        (fuel : ℕ)
        → RunStartParameters
        → FileCreator
        → (uuid now : String) → Result FileWriterError NexusFileStructure
        → Run (hdf.State × consumer.State) FileWriterError (Unit {0})
    write_structured fuel params file_factory uuid now (err e) st = some (err e, st)
    write_structured fuel params file_factory uuid now (ok s) st =
        with_nexus_file hdf file_factory
          (push_path env.config.file_output_directory params.filename) uuid
          (write_file fuel params s now) st

    -- `uuid` and `now` are the UUID and the time that the calls below draw.
    unfoldable pub write_data_for_run :
        (fuel : ℕ)
        → RunStartParameters
        → FileCreator
        → (uuid now : String) → Run (hdf.State × consumer.State) FileWriterError (Unit {0})
    unfolding write_structured write_file write_built assign_and_write drop_file
    write_data_for_run fuel params file_factory uuid now =
        write_structured fuel params file_factory uuid now (structure env.source params env.config)

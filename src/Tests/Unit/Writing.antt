-- ===== src/Tests/Unit/Writing.antt =====
-- file_writer.rs, run_writer/single_file_write_task.rs and run_writer/job_pool.rs: the unit tests. What
-- is not in the repository is a parameter: the flatbuffers package, the HDF5 library, serde and
-- the UUIDs and times that are drawn.
use kafka_file_writer.Base.{ℕ, String, Bool, true, false, ◌&&◌, Option, none, some, length}
use kafka_file_writer.Base.Equality.{◌==◌, string_eq, nat_beq}
use kafka_file_writer.Base.Int.{ℤ, u64_max}
use kafka_file_writer.Base.Exec.{Result, ok, err}
use kafka_file_writer.Error.{Cause, FileWriterError, hdf5_error, create_error, StreamError}
use kafka_file_writer.Json.{Value}
use kafka_file_writer.Config.{GlobalConfig}
use kafka_file_writer.Structure.{StructureSource}
use kafka_file_writer.Run.{RunStartParameters}
use kafka_file_writer.Hdf.{Hdf5}
use kafka_file_writer.Hdf.FileCreator.{FileCreator}
use kafka_file_writer.Writer.Ixseblock.{IxseblockConfig}
use kafka_file_writer.Writer.Nxeventdata.{Floats, Element, NxeventdataConfig}
use kafka_file_writer.Writer.Registry.{writer_modules, default_registry}
use kafka_file_writer.Stream.Fake.{
  FakeStream, fake_stream, default, append_runinfo_message_with_payload,
}
use kafka_file_writer.Stream.Fake.Runinfo.{
  Flatbuffers, append_runinfo_run_start_message, append_runinfo_run_stop_message, test_start_time,
  test_filename, test_structure, test_job_id,
}
use kafka_file_writer.JobPool.{Deserializer, wait_for_run_start}
use kafka_file_writer.Task.{Environment, write_data_for_run}
use kafka_file_writer.FileWriter.{Host, write_one_file, write_files}
use kafka_file_writer.Tests.Unit.{bytes, is_ok, is_err_and, is_stream_error, is_commit_error}
use kafka_file_writer.Tests.Unit.Parameters.{test_config}

abbrev pub is_create_error : FileWriterError → Bool
is_create_error (hdf5_error (create_error _ _)) = true
is_create_error _ = false

abbrev pub is_stream_unit_test_error : StreamError → Bool
is_stream_unit_test_error StreamError.unit_test_error = true
is_stream_unit_test_error _ = false

abbrev pub is_none : Option String → Bool
is_none none = true
is_none (some s) = false

-- A test on what a run returns; one that does not return fails.
abbrev pub returns :
    {A S : Type 0}
    → (Result FileWriterError A → S → Bool)
    → Option (Result FileWriterError A × S)
    → Bool
returns p none = false
returns p (some (r, s)) = p r s

-- The messages that are left in a fake consumer.
abbrev pub left : ℕ → FakeStream → Bool
left n s = nat_beq (length s.messages) n

abbrev pub ok_and : {A : Type 0} → (A → Bool) → Result FileWriterError A → Bool
ok_and p (ok a) = p a
ok_and p (err e) = false

-- What `test_wait_for_run_start` asserts of the parameters.
abbrev pub as_sent : RunStartParameters → Bool
as_sent params =
    nat_beq params.start_time_ms test_start_time
    && nat_beq params.stop_time_ms u64_max
    && params.filename == test_filename
    && params.nexus_structure == test_structure
    && is_none params.metadata
    && nat_beq params.n_periods 1
    && is_none params.control_topic

module _ (fb : Flatbuffers) (deserialize : Deserializer) (now : ℤ) (fuel : ℕ) where
  abbrev pub test_wait_for_run_start : Bool
  test_wait_for_run_start =
      let c₁ = append_runinfo_message_with_payload (some (bytes "nonsense")) now default in
      let c₂ = append_runinfo_run_start_message fb now c₁ in
      let consumer =
        append_runinfo_message_with_payload (some (bytes "a different message")) now c₂ in
      returns (λ r (t, s). left 1 s && ok_and as_sent r)
        (wait_for_run_start deserialize test_config fake_stream fuel (tt, consumer))

  abbrev pub fake_job_pool_stream_with_runstart : FakeStream
  fake_job_pool_stream_with_runstart = append_runinfo_run_start_message fb now default

  abbrev pub fake_data_stream_with_runstop : FakeStream
  fake_data_stream_with_runstop = append_runinfo_run_stop_message fb now default

  module _ (fl : Floats) (hdf : Hdf5 (Element fl.F64 fl.F32))
      (ixseblock_config : Value → Result Cause IxseblockConfig)
      (nxeventdata_config : Value → Result Cause NxeventdataConfig) (json_text : Value → String)
      (source : StructureSource) (uuid time : String) (h : hdf.State) where
    abbrev pub environment : GlobalConfig → Environment hdf (writer_modules fl hdf)
    environment config = record {
      deserialize_message = deserialize;
      source = source;
      json_text = json_text;
      config = config;
      factories = default_registry fl hdf ixseblock_config nxeventdata_config;
    }

    -- The factories of a file writer of the tests.
    abbrev pub host : (job_pool feed : Result StreamError FakeStream) → Host fake_stream
    host job_pool feed = record {
      World = Unit {0};
      job_pool_consumer_factory = λ w. (job_pool, w);
      data_consumer_factory = λ w. (feed, w);
      draw_uuid = λ w. (uuid, w);
      draw_time = λ w. (time, w);
    }

    abbrev pub Outcome : Type 0
    Outcome = Option (Result FileWriterError (Unit {0}) × (hdf.State × Unit {0}))

    abbrev pub one_file : (job_pool feed : Result StreamError FakeStream) → FileCreator → Outcome
    one_file job_pool feed factory =
        write_one_file hdf (writer_modules fl hdf) (environment test_config) fake_stream
          (host job_pool feed) factory fuel (h, tt)

    abbrev pub test_write_one_file : Bool
    test_write_one_file =
        returns (λ r st. is_ok r)
          (one_file (ok fake_job_pool_stream_with_runstart) (ok fake_data_stream_with_runstop)
            FileCreator.memory)

    abbrev pub test_write_files : Bool
    test_write_files =
        let config : GlobalConfig = record test_config { exit_after_writing_one_file = true } in
        returns (λ r st. is_ok r)
          (write_files hdf (writer_modules fl hdf) (environment config) fake_stream
            (host (ok fake_job_pool_stream_with_runstart) (ok fake_data_stream_with_runstop))
            FileCreator.memory fuel fuel (h, tt))

    abbrev pub test_write_one_file_with_failed_file_creation : Bool
    test_write_one_file_with_failed_file_creation =
        returns (λ r st. is_err_and is_create_error r)
          (one_file (ok fake_job_pool_stream_with_runstart) (ok fake_data_stream_with_runstop)
            FileCreator.always_fails)

    abbrev pub test_write_one_file_with_failed_data_consumer_creation : Bool
    test_write_one_file_with_failed_data_consumer_creation =
        returns (λ r st. is_err_and (is_stream_error is_stream_unit_test_error) r)
          (one_file (ok fake_job_pool_stream_with_runstart) (err StreamError.unit_test_error)
            FileCreator.memory)

    abbrev pub test_write_one_file_with_message_commit_failure : Bool
    test_write_one_file_with_message_commit_failure =
        let stream : FakeStream = record fake_job_pool_stream_with_runstart {
          commit_causes_error = true;
        } in
        returns (λ r st. is_err_and (is_stream_error is_commit_error) r)
          (one_file (ok stream) (ok fake_data_stream_with_runstop) FileCreator.memory)

    abbrev pub test_parameters : RunStartParameters
    test_parameters = record {
      start_time_ms = 123;
      stop_time_ms = 456;
      job_id = test_job_id;
      nexus_structure = test_structure;
      control_topic = none;
      filename = test_filename;
      n_periods = 1;
      metadata = none;
    }

    abbrev pub test_write_data_for_run : Bool
    test_write_data_for_run =
        let c₁ = append_runinfo_message_with_payload (some (bytes "nonsense")) now default in
        let c₂ = append_runinfo_message_with_payload none now c₁ in
        let c₃ = append_runinfo_run_stop_message fb now c₂ in
        let consumer = append_runinfo_run_stop_message fb now c₃ in
        returns (λ r (k, s). is_ok r && left 1 s)
          (write_data_for_run hdf (writer_modules fl hdf) (environment test_config) fake_stream fuel
            test_parameters FileCreator.memory uuid time (h, consumer))

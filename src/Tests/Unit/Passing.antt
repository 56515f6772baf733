-- ===== src/Tests/Unit/Passing.antt =====
-- The unit tests of whole runs pass, with short buffers for the two messages of the run, whole numbers for
-- floating-point ones, an HDF5 library in memory, and an empty structure for every text.
use kafka_file_writer.Base.{zero, suc, ◌≡◌, refl, Bool, true, ◌&&◌, [], ◌∷◌}
use kafka_file_writer.Base.Loop.{loop}
use kafka_file_writer.Base.Int.{pos}
use kafka_file_writer.Base.Exec.{ok, err}
use kafka_file_writer.Base.Map
use kafka_file_writer.Message.{run_start_pl72, run_stop_6s4t}
use kafka_file_writer.Structure
use kafka_file_writer.Structure.{StructureSource, nil}
use kafka_file_writer.Router
use kafka_file_writer.Run
use kafka_file_writer.Stream.Fake
use kafka_file_writer.Stream.Fake.Runinfo
use kafka_file_writer.Stream.Fake.Runinfo.{Flatbuffers, run_start_of, run_start_args, run_stop_args}
use kafka_file_writer.Stream.Scope.{with_assignment, with_subscription_to_job_pool}
use kafka_file_writer.Hdf.Attr
use kafka_file_writer.Hdf.Context
use kafka_file_writer.Hdf.Scope.{with_nexus_file}
use kafka_file_writer.Hdf.FileCreator.{create_file}
use kafka_file_writer.JobPool
use kafka_file_writer.JobPool.{Deserializer}
use kafka_file_writer.File
use kafka_file_writer.Task
use kafka_file_writer.FileWriter
use kafka_file_writer.Tests.Fixtures.{floats, hdf, no_store, no_config, topic_of}
use kafka_file_writer.Tests.Unit.Writing.{
  test_wait_for_run_start, test_write_one_file, test_write_files,
  test_write_one_file_with_failed_file_creation,
  test_write_one_file_with_failed_data_consumer_creation,
  test_write_one_file_with_message_commit_failure, test_write_data_for_run,
}

abbrev buffers : Flatbuffers
buffers = record { run_start_buffer = λ a. 0 ∷ []; run_stop_buffer = λ a. 1 ∷ [] }

abbrev read : Deserializer
read (zero ∷ []) = ok (run_start_pl72 (run_start_of run_start_args))
read (suc zero ∷ []) =
    ok (
      run_stop_6s4t (record { stop_time = run_stop_args.stop_time; job_id = run_stop_args.job_id }))
read _ = err "unknown schema"

abbrev source : StructureSource
source = record {
  from_json = λ text. ok (record { children = nil; attributes = [] });
  from_location = λ text line column. 0;
  read_to_string = λ path. err "no such file";
}

abbrev all_pass : Bool
all_pass =
    test_wait_for_run_start buffers read (pos 7) 6
    && test_write_one_file buffers read (pos 7) 6 floats hdf no_config topic_of (λ value. "json")
        source "id" "now" no_store
    && test_write_files buffers read (pos 7) 6 floats hdf no_config topic_of (λ value. "json")
        source "id" "now" no_store
    && test_write_one_file_with_failed_file_creation buffers read (pos 7) 6 floats hdf no_config
        topic_of (λ value. "json") source "id" "now" no_store
    && test_write_one_file_with_failed_data_consumer_creation buffers read (pos 7) 6 floats hdf
        no_config topic_of (λ value. "json") source "id" "now" no_store
    && test_write_one_file_with_message_commit_failure buffers read (pos 7) 6 floats hdf no_config
        topic_of (λ value. "json") source "id" "now" no_store
    && test_write_data_for_run buffers read (pos 7) 6 floats hdf no_config topic_of
        (λ value. "json") source "id" "now" no_store

all_pass_holds : all_pass ≡ true
unfolding FileWriter.write_files FileWriter.write_one_file JobPool.wait_for_run_start JobPool.round
    loop Task.write_data_for_run File.new Task.push_path create_file with_nexus_file
    Task.seek_timestamp Task.assignment_topics Task.handle_messages_until_run_stop Task.round
    File.finished Task.handle_one_message Task.is_job Task.meta_of File.on_run_stop Run.from_pl72
    Run.structure Structure.from_run_start Structure.from_str with_assignment
    with_subscription_to_job_pool Attr.add_root_dataset_attributes File.add_attributes
    Attr.add_ascii_string_attribute Context.err_attribute Task.unique File.topics Router.topics
    Map.keys Map.contains Run.control_topic File.job_id Fake.subscribe Fake.unsubscribe Fake.poll
    Fake.commit_message Fake.assign_from_timestamp Fake.unassign
    Fake.append_runinfo_message_with_payload Fake.runinfo_message
    Runinfo.append_runinfo_run_start_message Runinfo.append_runinfo_run_stop_message
    Runinfo.make_run_start Runinfo.make_run_stop
all_pass_holds = refl

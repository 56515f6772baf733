-- ===== src/Stream/Fake/Roundtrip.antt =====
-- stream/fake.rs: the run start that a test puts into the fake consumer comes out of the job pool.
use kafka_file_writer.Base.{ℕ, ◌<◌, ◌≡◌, refl, false, none, some, List, [], length, All}
use kafka_file_writer.Base.Int.{ℤ, u64_max}
use kafka_file_writer.Base.Exec.{ok}
use kafka_file_writer.Message.{RunStart, run_start_pl72}
use kafka_file_writer.Config.{GlobalConfig}
use kafka_file_writer.Run.{RunStartParameters, from_pl72}
use kafka_file_writer.JobPool.{Deserializer, wait_for_run_start}
use kafka_file_writer.JobPool.Waiting.{announces, wait_for_run_start-returns}
use kafka_file_writer.Stream.Fake.{
  FakeStream, fake_stream, runinfo_message, append_runinfo_message_with_payload,
}
use kafka_file_writer.Stream.Fake.Runinfo.{
  Flatbuffers, run_start_of, run_start_args, make_run_start, append_runinfo_run_start_message,
  test_start_time, test_structure, test_job_id, test_filename,
}

-- The run of the tests. Without a stop time it runs for ever.
abbrev pub test_parameters : RunStartParameters
test_parameters = record {
  start_time_ms = test_start_time;
  stop_time_ms = u64_max;
  nexus_structure = test_structure;
  job_id = test_job_id;
  filename = test_filename;
  n_periods = 1;
  metadata = none;
  control_topic = none;
}

module _ (fb : Flatbuffers) (deserialize : Deserializer) where
  announces-read :
      (payload : List ℕ) (now : ℤ) (rs : RunStart)
      → deserialize payload ≡ ok (run_start_pl72 rs)
      → announces deserialize (ok (runinfo_message (some payload) now))
        ≡ some (rs, runinfo_message (some payload) now)
  unfolding runinfo_message
  announces-read payload now rs e = rw e refl

  -- If the flatbuffers of a run start read as what they were made from, and a fake consumer has no
  -- run start yet and its commits and subscription work, then after
  -- `append_runinfo_run_start_message` the wait on the job pool passes over the messages before it
  -- and returns the parameters of the test run, with one more round than there are such messages.
  pub wait_for_run_start-append :
      (config : GlobalConfig) (now : ℤ) (s : FakeStream) (fuel : ℕ)
      → deserialize (make_run_start fb) ≡ ok (run_start_pl72 (run_start_of run_start_args))
      → s.commit_causes_error ≡ false
      → s.subscribe_causes_error ≡ false
      → All (λ y. announces deserialize y ≡ none) s.messages
      → length s.messages < fuel
      → wait_for_run_start deserialize config fake_stream fuel
          (tt, append_runinfo_run_start_message fb now s)
        ≡ some
            (ok test_parameters, (tt, record s { messages = []; is_assigned = false; topics = [] }))
  unfolding append_runinfo_run_start_message append_runinfo_message_with_payload from_pl72
  wait_for_run_start-append config now s fuel reads commits subscribes quiet lt =
      wait_for_run_start-returns deserialize config s.messages []
        (ok (runinfo_message (some (make_run_start fb)) now)) (run_start_of run_start_args)
        (runinfo_message (some (make_run_start fb)) now) (append_runinfo_run_start_message fb now s)
        fuel commits subscribes refl quiet
        (announces-read (make_run_start fb) now (run_start_of run_start_args) reads) lt

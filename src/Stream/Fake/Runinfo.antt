-- ===== src/Stream/Fake/Runinfo.antt =====
-- stream/fake.rs: the run starts and run stops that tests put into the fake consumer. The flatbuffers
-- encoder is not in the repository: it is a parameter.
use kafka_file_writer.Base.{ℕ, String, Bool, false, Option, none, some, List}
use kafka_file_writer.Base.Int.{ℤ}
use kafka_file_writer.Message.{RunStart}
use kafka_file_writer.Stream.Fake.{FakeStream, append_runinfo_message_with_payload}

-- The arguments of the generated `RunStart::create` and `RunStop::create`, with texts for the strings
-- in the buffer and the offset for the table.
pub record RunStartArgs : Type 0 where
  pub start_time : ℕ
  pub stop_time : ℕ
  pub run_name : Option String
  pub instrument_name : Option String
  pub nexus_structure : Option String
  pub job_id : Option String
  pub broker : Option String
  pub service_id : Option String
  pub filename : Option String
  pub n_periods : ℕ
  pub detector_spectrum_map : Option ℕ
  pub metadata : Option String
  pub control_topic : Option String

pub record RunStopArgs : Type 0 where
  pub stop_time : ℕ
  pub run_name : Option String
  pub job_id : Option String
  pub service_id : Option String
  pub command_id : Option String
  pub abort : Bool

-- `create`, `finish` and `finished_data` of a `FlatBufferBuilder`.
pub record Flatbuffers : Type 0 where
  pub run_start_buffer : RunStartArgs → List ℕ
  pub run_stop_buffer : RunStopArgs → List ℕ

-- The accessors of a run start that was made from arguments, as documented: they give them back.
abbrev pub run_start_of : RunStartArgs → RunStart
run_start_of a = record {
  start_time = a.start_time;
  stop_time = a.stop_time;
  nexus_structure = a.nexus_structure;
  job_id = a.job_id;
  filename = a.filename;
  n_periods = a.n_periods;
  metadata = a.metadata;
  control_topic = a.control_topic;
}

abbrev pub test_run_name : String
test_run_name = "a_run_name"

abbrev pub test_instrument : String
test_instrument = "a_fake_instrument"

abbrev pub test_job_id : String
test_job_id = "a_job_id"

abbrev pub test_structure : String
test_structure = "{}"

abbrev pub test_filename : String
test_filename = "some_filename.nxs"

abbrev pub test_service_id : String
test_service_id = "some_service_id"

abbrev pub test_start_time : ℕ
test_start_time = 123

abbrev pub test_stop_time : ℕ
test_stop_time = 456

-- The `args` of `make_run_start`.
abbrev pub run_start_args : RunStartArgs
run_start_args = record {
  start_time = test_start_time;
  stop_time = 0;
  run_name = some test_run_name;
  instrument_name = some test_instrument;
  nexus_structure = some test_structure;
  job_id = some test_job_id;
  broker = none;
  service_id = some test_service_id;
  filename = some test_filename;
  n_periods = 1;
  detector_spectrum_map = none;
  metadata = none;
  control_topic = none;
}

-- The `args` of `make_run_stop`.
abbrev pub run_stop_args : RunStopArgs
run_stop_args = record {
  stop_time = test_stop_time;
  run_name = some test_run_name;
  job_id = some test_job_id;
  service_id = some test_service_id;
  command_id = none;
  abort = false;
}

module _ (fb : Flatbuffers) where
  unfoldable pub make_run_start : List ℕ
  make_run_start = fb.run_start_buffer run_start_args

  unfoldable pub make_run_stop : List ℕ
  make_run_stop = fb.run_stop_buffer run_stop_args

  -- `now` is the time of the call.
  unfoldable pub append_runinfo_run_start_message : (now : ℤ) → FakeStream → FakeStream
  append_runinfo_run_start_message now =
      append_runinfo_message_with_payload (some make_run_start) now

  unfoldable pub append_runinfo_run_stop_message : (now : ℤ) → FakeStream → FakeStream
  append_runinfo_run_stop_message now = append_runinfo_message_with_payload (some make_run_stop) now

-- ===== src/Tests/Unit/Parameters.antt =====
-- config.rs, error.rs, run_writer/run_start_parameters.rs, run_writer/job_pool.rs and
-- writer_modules/mod.rs: the unit tests and their configuration. The parser of structures and the
-- flatbuffers package are parameters.
use kafka_file_writer.Base.{ℕ, ◌≡◌, refl, Bool, true, false, ◌&&◌, none, some, []}
use kafka_file_writer.Base.Equality.{◌==◌, string_eq, nat_beq}
use kafka_file_writer.Base.Int.{ℤ, pos}
use kafka_file_writer.Error.{FileWriterError, missing_run_start_data}
use kafka_file_writer.Message.{Message}
use kafka_file_writer.Config.{GlobalConfig}
use kafka_file_writer.Run.{RunStartParameters, default, control_topic, from_missing_runstart_data}

-- `GlobalConfig::test_config`
abbrev pub test_config : GlobalConfig
test_config = record {
  stream_error_backoff_ms = 0;
  exit_after_writing_one_file = false;
  data_kafka_consumer_settings = [];
  job_pool_kafka_consumer_settings = [];
  file_output_directory = "";
  job_pool_topic = "unittest_jobPool";
  job_pool_consumer_poll_time_ms = 1;
  data_consumer_poll_time_ms = 1;
  kafka_assignment_timeout_ms = 1;
  stream_seek_back_in_time_ms = 0;
  forced_nexus_structure_filepath = none;
}

abbrev test_control_topic_from_run_start : Bool
test_control_topic_from_run_start =
    let rsp : RunStartParameters = record default { control_topic = some "foo" } in
    let config : GlobalConfig = record test_config { job_pool_topic = "job_pool_topic" } in
    control_topic rsp config == "foo"

test_control_topic_from_run_start_passes : test_control_topic_from_run_start ≡ true
unfolding control_topic
test_control_topic_from_run_start_passes = refl

abbrev test_control_topic_from_config : Bool
test_control_topic_from_config =
    let rsp : RunStartParameters = record default { control_topic = none } in
    let config : GlobalConfig = record test_config { job_pool_topic = "job_pool_topic" } in
    control_topic rsp config == "job_pool_topic"

test_control_topic_from_config_passes : test_control_topic_from_config ≡ true
unfolding control_topic
test_control_topic_from_config_passes = refl

-- `OwnedMessage::new(None, None, "niceTopic", NotAvailable, 123, 456, None)`
abbrev nice_message : Message
nice_message = record {
  payload = none;
  key = none;
  topic = "niceTopic";
  timestamp = none;
  partition = pos 123;
  offset = pos 456;
}

abbrev is_pos : ℕ → ℤ → Bool
is_pos n (pos m) = nat_beq m n
is_pos n _ = false

abbrev describes : FileWriterError → Bool
describes (missing_run_start_data missing_item topic partition offset) =
    missing_item == "foo" && topic == "niceTopic" && is_pos 123 partition && is_pos 456 offset
describes _ = false

abbrev test_from_missing_runstart_data : Bool
test_from_missing_runstart_data = describes (from_missing_runstart_data "foo" nice_message)

test_from_missing_runstart_data_passes : test_from_missing_runstart_data ≡ true
unfolding from_missing_runstart_data
test_from_missing_runstart_data_passes = refl

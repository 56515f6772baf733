-- ===== src/Config.antt =====
-- config.rs: the parameters of a file writer that hold for all runs.
use kafka_file_writer.Base.{ℕ, String, Bool, Option, false}
use kafka_file_writer.Base.Map.{HashMap}
use kafka_file_writer.Base.Exec.{Result, ok, err, map_err}
use kafka_file_writer.Error.{Cause}

abbrev pub default_stream_seek_back_in_time_ms : ℕ
default_stream_seek_back_in_time_ms = 60000

abbrev pub default_poll_time_ms : ℕ
default_poll_time_ms = 1000

abbrev pub default_stream_error_backoff_ms : ℕ
default_stream_error_backoff_ms = 3000

abbrev pub default_kafka_assignment_timeout_ms : ℕ
default_kafka_assignment_timeout_ms = 10000

abbrev pub default_exit_after_writing_one_file : Bool
default_exit_after_writing_one_file = false

pub record GlobalConfig : Type 0 where
  pub stream_seek_back_in_time_ms : ℕ
  pub job_pool_topic : String
  pub job_pool_consumer_poll_time_ms : ℕ
  pub data_consumer_poll_time_ms : ℕ
  pub stream_error_backoff_ms : ℕ
  pub kafka_assignment_timeout_ms : ℕ
  pub job_pool_kafka_consumer_settings : HashMap String String
  pub data_kafka_consumer_settings : HashMap String String
  pub file_output_directory : String
  pub forced_nexus_structure_filepath : Option String
  pub exit_after_writing_one_file : Bool

pub data ConfigError : Type 0 where
  io_error : (path : String) (cause : Cause) → ConfigError
  parse_error : (path : String) (cause : Cause) → ConfigError

-- The file system's `read_to_string` and `toml::from_str`, whose deserializer serde derives.
module _ (read_to_string : String → Result Cause String)
    (from_toml : String → Result Cause GlobalConfig) where
  abbrev parse_text : String → Result ConfigError String → Result ConfigError GlobalConfig
  parse_text path (ok text) = map_err (λ e. parse_error path e) (from_toml text)
  parse_text path (err e) = err e

  unfoldable pub from_path : String → Result ConfigError GlobalConfig
  from_path path = parse_text path (map_err (λ e. io_error path e) (read_to_string path))

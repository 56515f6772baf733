-- ===== src/Run.antt =====
-- run_writer/run_start_parameters.rs: what is kept of a run start message.
pub mod Parameters
use kafka_file_writer.Base.{ℕ, zero, suc, String, Option, none, some}
use kafka_file_writer.Base.Int.{u64_max}
use kafka_file_writer.Base.Exec.{Result, ok, err}
use kafka_file_writer.Error.{FileWriterError, missing_run_start_data}
use kafka_file_writer.Message.{Message, RunStart}
use kafka_file_writer.Structure.{
  StructureSource, NexusFileStructure, from_local_file, from_run_start,
}
use kafka_file_writer.Config.{GlobalConfig}

pub record RunStartParameters : Type 0 where
  pub start_time_ms : ℕ
  pub stop_time_ms : ℕ
  pub nexus_structure : String
  pub job_id : String
  pub filename : String
  pub n_periods : ℕ
  pub metadata : Option String
  pub control_topic : Option String

-- The derived `Default`.
abbrev pub default : RunStartParameters
default = record {
  start_time_ms = 0;
  stop_time_ms = 0;
  nexus_structure = "";
  job_id = "";
  filename = "";
  n_periods = 0;
  metadata = none;
  control_topic = none;
}

-- `FileWriterError::from_missing_runstart_data` of error.rs
unfoldable pub from_missing_runstart_data : String → Message → FileWriterError
from_missing_runstart_data item msg = missing_run_start_data item msg.topic msg.partition msg.offset

-- Without a stop time, write for ever.
stop_time_or_forever : ℕ → ℕ
stop_time_or_forever zero = u64_max
stop_time_or_forever (suc t) = suc t

-- The fields in the order in which the code asks for them.
build_params :
    RunStart
    → Message
    → Option String
    → Option String
    → Option String
    → Result FileWriterError RunStartParameters
build_params rs msg none structure job_id = err (from_missing_runstart_data "filename" msg)
build_params rs msg (some filename) none job_id =
    err (from_missing_runstart_data "nexus_structure" msg)
build_params rs msg (some filename) (some structure) none =
    err (from_missing_runstart_data "job_id" msg)
build_params rs msg (some filename) (some structure) (some job_id) = ok (record {
  start_time_ms = rs.start_time;
  stop_time_ms = stop_time_or_forever rs.stop_time;
  nexus_structure = structure;
  job_id = job_id;
  filename = filename;
  n_periods = rs.n_periods;
  metadata = rs.metadata;
  control_topic = rs.control_topic;
})

unfoldable pub from_pl72 : RunStart → Message → Result FileWriterError RunStartParameters
unfolding build_params stop_time_or_forever from_missing_runstart_data
from_pl72 rs msg = build_params rs msg rs.filename rs.nexus_structure rs.job_id

module _ (src : StructureSource) where
  unfoldable pub structure :
      RunStartParameters → GlobalConfig → Result FileWriterError NexusFileStructure
  structure params config = elim config.forced_nexus_structure_filepath [
    | some file_path ↦ from_local_file src file_path
    | none ↦ from_run_start src params.nexus_structure
  ]

unfoldable pub control_topic : RunStartParameters → GlobalConfig → String
control_topic params config = elim params.control_topic [
  | some topic ↦ topic
  | none ↦ config.job_pool_topic
]

-- ===== src/JobPool.antt =====
-- run_writer/job_pool.rs: waiting for a run to write.
pub mod Waiting
pub mod Polling
use kafka_file_writer.Base.{ℕ, Option, none, some, List}
use kafka_file_writer.Base.Exec.{Result, ok, err}
use kafka_file_writer.Base.Loop.{Step, Run, loop}
use kafka_file_writer.Error.{Cause, FileWriterError, StreamError, stream_error}
use kafka_file_writer.Message.{Message, DeserializedMessage, run_start_pl72}
use kafka_file_writer.Config.{GlobalConfig}
use kafka_file_writer.Run.{RunStartParameters, from_pl72}
use kafka_file_writer.Stream.{Stream, CommitMode}
use kafka_file_writer.Stream.Scope.{with_subscription_to_job_pool}

-- `deserialize_message` of the package isis_streaming_data_types.
abbrev pub Deserializer : Type 0
Deserializer = List ℕ → Result Cause DeserializedMessage

abbrev pub Answer : Type 0
Answer = Result FileWriterError RunStartParameters

module _ (deserialize_message : Deserializer) where
  -- What a message says: the parameters of a run, or nothing of interest.
  on_parsed : Message → Result Cause DeserializedMessage → Option Answer
  on_parsed msg (ok (run_start_pl72 rs)) = some (from_pl72 rs msg)
  on_parsed msg (ok _) = none
  on_parsed msg (err _) = none

  pub on_payload : Message → Option (List ℕ) → Option Answer
  on_payload msg none = none
  on_payload msg (some payload) = on_parsed msg (deserialize_message payload)

-- The waiting changes nothing but the consumer.
module _ (deserialize_message : Deserializer) (config : GlobalConfig) (consumer : Stream) where
  abbrev pub State : Type 0
  State = Unit {0} × consumer.State

  on_commit :
      Message → Unit {0} → Result StreamError (Unit {0}) × consumer.State → Option Answer × State
  on_commit msg t (err e, s) = (some (err (stream_error e)), (t, s))
  on_commit msg t (ok _, s) = (on_payload deserialize_message msg msg.payload, (t, s))

  on_poll : Unit {0} → Option (Result StreamError Message) × consumer.State → Option Answer × State
  on_poll t (none, s) = (none, (t, s))
  on_poll t (some (err e), s) = (none, (t, s))
  on_poll t (some (ok msg), s) = on_commit msg t (consumer.commit_message msg CommitMode.sync s)

  -- One round of the loop. Logging and the wait after an error leave no trace.
  unfoldable pub round : Step State Answer
  unfolding on_poll on_commit on_payload on_parsed
  round (t, s) = on_poll t (consumer.poll config.job_pool_consumer_poll_time_ms s)

  unfoldable pub wait_for_run_start : (fuel : ℕ) → Run State FileWriterError RunStartParameters
  wait_for_run_start fuel =
      with_subscription_to_job_pool consumer config.job_pool_topic (loop round fuel)

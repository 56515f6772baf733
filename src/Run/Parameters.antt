-- ===== src/Run/Parameters.antt =====
-- run_writer/run_start_parameters.rs: what a run start message must have.
use kafka_file_writer.Base.{
  ℕ, zero, suc, ◌-◌, ◌^◌, ◌<◌, String, ◌≡◌, ◌⊎◌, inl, inr, refl, sym, subst, Option, none, some,
  arith,
}
use kafka_file_writer.Base.Exec.{ok}
use kafka_file_writer.Message.{Message, RunStart}
use kafka_file_writer.Run.{RunStartParameters, from_pl72, build_params, stop_time_or_forever}

-- A message has no stop time if that is 0; then the run has the greatest `u64`.
abbrev pub StopTime : ℕ → ℕ → Type 0
StopTime sent kept = ((sent ≡ 0) × (kept ≡ 2 ^ 64 - 1)) ⊎ ((0 < sent) × (kept ≡ sent))

stop_time_or_forever-StopTime : (t : ℕ) → StopTime t (stop_time_or_forever t)
unfolding stop_time_or_forever
stop_time_or_forever-StopTime zero = inl (refl, refl)
stop_time_or_forever-StopTime (suc t) = inr (omega arith, refl)

build_params-ok :
    (rs : RunStart) (msg : Message) (filename structure job : Option String)
    (params : RunStartParameters)
    → build_params rs msg filename structure job ≡ ok params
    → (filename ≡ some params.filename)
      × (structure ≡ some params.nexus_structure)
      × (job ≡ some params.job_id)
      × (params.stop_time_ms ≡ stop_time_or_forever rs.stop_time)
      × (params.start_time_ms ≡ rs.start_time)
      × (params.n_periods ≡ rs.n_periods)
      × (params.metadata ≡ rs.metadata)
      × (params.control_topic ≡ rs.control_topic)
unfolding build_params
build_params-ok rs msg none structure job params e = absurd (cc)
build_params-ok rs msg (some f) none job params e = absurd (cc)
build_params-ok rs msg (some f) (some s) none params e = absurd (cc)
build_params-ok rs msg (some f) (some s) (some j) params e = (cc, cc, cc, cc, cc, cc, cc, cc)

-- A run start that is accepted has a file name, a structure and a job, which are those of the run,
-- and the run has the message's start time, periods, metadata and control topic. The run's stop time
-- is that of the message, or the greatest `u64` if that is 0.
pub from_pl72-ok :
    (rs : RunStart) (msg : Message) (params : RunStartParameters)
    → from_pl72 rs msg ≡ ok params
    → (rs.filename ≡ some params.filename)
      × (rs.nexus_structure ≡ some params.nexus_structure)
      × (rs.job_id ≡ some params.job_id)
      × (params.start_time_ms ≡ rs.start_time)
      × StopTime rs.stop_time params.stop_time_ms
      × (params.n_periods ≡ rs.n_periods)
      × (params.metadata ≡ rs.metadata)
      × (params.control_topic ≡ rs.control_topic)
unfolding from_pl72
from_pl72-ok rs msg params e =
    let (file, structure, job, stop, begin, periods, metadata, topic) =
      build_params-ok rs msg rs.filename rs.nexus_structure rs.job_id params e in
    let stop' =
      subst (λ (t : ℕ). StopTime rs.stop_time t) (sym stop)
        (stop_time_or_forever-StopTime rs.stop_time) in
    (file, structure, job, begin, stop', periods, metadata, topic)

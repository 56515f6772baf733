-- ===== src/FileWriter/Success.antt =====
-- file_writer.rs: what was done for a file that is written without an error.
use kafka_file_writer.Base.{ℕ, ◌≡◌, refl, Option, none, some}
use kafka_file_writer.Base.Exec.{Result, ok, err}
use kafka_file_writer.Error.{FileWriterError, StreamError}
use kafka_file_writer.Run.{RunStartParameters}
use kafka_file_writer.Stream.{Stream}
use kafka_file_writer.Hdf.{Hdf5}
use kafka_file_writer.Hdf.FileCreator.{FileCreator}
use kafka_file_writer.Writer.{WriterModule}
use kafka_file_writer.JobPool.{wait_for_run_start}
use kafka_file_writer.Task.{Environment, write_data_for_run}
use kafka_file_writer.FileWriter.{
  Host, write_one_file, with_job_pool, with_run_start, with_data_consumer, drop_data_consumer,
}

module _ {E : Type 0} (hdf : Hdf5 E) (dyn : WriterModule hdf.State) (env : Environment hdf dyn)
    (consumer : Stream) (host : Host consumer) (file_factory : FileCreator) where
  -- The data of a run were written with a consumer, and a UUID and time that were drawn.
  abbrev pub Wrote :
      (fuel : ℕ) → RunStartParameters → hdf.State → hdf.State → consumer.State → host.World → Type 0
  Wrote fuel params h h' s w =
      (s' : consumer.State) × (write_data_for_run hdf dyn env consumer fuel params file_factory
          (host.draw_uuid w).0 (host.draw_time (host.draw_uuid w).1).0 (h, s)
        ≡ some (ok tt, (h', s')))

  drop_data_consumer-ok :
      (w w' : host.World)
      (o : Option (Result FileWriterError (Unit {0}) × (hdf.State × consumer.State)))
      (h' : hdf.State)
      → drop_data_consumer hdf dyn env consumer host file_factory w o ≡ some (ok tt, (h', w'))
      → (s' : consumer.State) × (o ≡ some (ok tt, (h', s')))
  unfolding drop_data_consumer
  drop_data_consumer-ok w w' none h' e = absurd (cc)
  drop_data_consumer-ok w w' (some (r, (h, s))) h' e = (s, cc)

  with_data_consumer-ok :
      (fuel : ℕ) (params : RunStartParameters) (h h' : hdf.State) (w' : host.World)
      (x : Result StreamError consumer.State × host.World)
      → with_data_consumer hdf dyn env consumer host file_factory fuel params h x
        ≡ some (ok tt, (h', w'))
      → (s : consumer.State) × (w : host.World) × (x ≡ (ok s, w)) × Wrote fuel params h h' s w
  unfolding with_data_consumer
  with_data_consumer-ok fuel params h h' w' (err e, w) p = absurd (cc)
  with_data_consumer-ok fuel params h h' w' (ok s, w) p =
      (s, w, refl, drop_data_consumer-ok _ w' _ h' p)

  with_run_start-ok :
      (fuel : ℕ) (h h' : hdf.State) (w w' : host.World)
      (x : Option (Result FileWriterError RunStartParameters × (Unit {0} × consumer.State)))
      → with_run_start hdf dyn env consumer host file_factory fuel h w x ≡ some (ok tt, (h', w'))
      → (params : RunStartParameters) × (s₁ s : consumer.State) × (w₁ : host.World) × (x
          ≡ some (ok params, (tt, s₁)))
        × (host.data_consumer_factory w ≡ (ok s, w₁))
        × Wrote fuel params h h' s w₁
  unfolding with_run_start
  with_run_start-ok fuel h h' w w' none p = absurd (cc)
  with_run_start-ok fuel h h' w w' (some (err e, s)) p = absurd (cc)
  with_run_start-ok fuel h h' w w' (some (ok params, (tt, s₁))) p =
      let (s, w₁, made, wrote) =
        with_data_consumer-ok fuel params h h' w' (host.data_consumer_factory w) p in
      (params, s₁, s, w₁, refl, made, wrote)

  -- For a file that was written without an error, both consumers could be made, the wait on the first
  -- gave a run, and the data of that run were written with the second.
  abbrev pub TwoConsumers : (fuel : ℕ) → hdf.State → hdf.State → host.World → Type 0
  TwoConsumers fuel h h' w =
      (pool pool' s : consumer.State) × (params : RunStartParameters) × (w₁ w₂ : host.World)
      × (host.job_pool_consumer_factory w ≡ (ok pool, w₁))
      × (wait_for_run_start env.deserialize_message env.config consumer fuel (tt, pool)
          ≡ some (ok params, (tt, pool')))
      × (host.data_consumer_factory w₁ ≡ (ok s, w₂))
      × Wrote fuel params h h' s w₂

  with_job_pool-ok :
      (fuel : ℕ) (h h' : hdf.State) (w w' : host.World)
      (x : Result StreamError consumer.State × host.World)
      → host.job_pool_consumer_factory w ≡ x
      → with_job_pool hdf dyn env consumer host file_factory fuel h x ≡ some (ok tt, (h', w'))
      → TwoConsumers fuel h h' w
  unfolding with_job_pool
  with_job_pool-ok fuel h h' w w' (err e, w₁) made p = absurd (cc)
  with_job_pool-ok fuel h h' w w' (ok pool, w₁) made p =
      let (params, pool', s, w₂, waited, made', wrote) =
        with_run_start-ok fuel h h' w₁ w'
          (wait_for_run_start env.deserialize_message env.config consumer fuel (tt, pool)) p in
      (pool, pool', s, params, w₁, w₂, made, waited, made', wrote)

  pub write_one_file-TwoConsumers :
      (fuel : ℕ) (h h' : hdf.State) (w w' : host.World)
      → write_one_file hdf dyn env consumer host file_factory fuel (h, w) ≡ some (ok tt, (h', w'))
      → TwoConsumers fuel h h' w
  unfolding write_one_file
  write_one_file-TwoConsumers fuel h h' w w' p =
      with_job_pool-ok fuel h h' w w' (host.job_pool_consumer_factory w) refl p

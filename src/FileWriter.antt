-- ===== src/FileWriter.antt =====
-- file_writer.rs: writing files, one after another.
pub mod Whole
pub mod Success
use kafka_file_writer.Base.{ℕ, zero, suc, String, Bool, Option, none, some}
use kafka_file_writer.Base.{if◌then◌else◌, ◌≡◌, refl, ap, ◌∙◌, true, false}
use kafka_file_writer.Base.Exec.{Result, ok, err, Exec}
use kafka_file_writer.Base.Loop.{Run}
use kafka_file_writer.Error.{FileWriterError, StreamError, stream_error}
use kafka_file_writer.Run.{RunStartParameters}
use kafka_file_writer.Stream.{Stream}
use kafka_file_writer.Hdf.{Hdf5}
use kafka_file_writer.Hdf.FileCreator.{FileCreator}
use kafka_file_writer.Writer.{WriterModule}
use kafka_file_writer.JobPool.{wait_for_run_start}
use kafka_file_writer.Task.{Environment, write_data_for_run}

-- What makes consumers: the two factories of the file writer, and the source of UUIDs and times.
pub record Host (consumer : Stream) : Type 1 where
  pub World : Type 0
  pub job_pool_consumer_factory : Exec World StreamError consumer.State
  pub data_consumer_factory : Exec World StreamError consumer.State
  pub draw_uuid : World → String × World
  pub draw_time : World → String × World

module _ {E : Type 0} (hdf : Hdf5 E) (dyn : WriterModule hdf.State) (env : Environment hdf dyn)
    (consumer : Stream) (host : Host consumer) (file_factory : FileCreator) where
  abbrev pub State : Type 0
  State = hdf.State × host.World

  abbrev pub Done : Type 0
  Done = Option (Result FileWriterError (Unit {0}) × State)

  -- A consumer is dropped with the function that made it.
  drop_data_consumer :
      host.World → Option (Result FileWriterError (Unit {0}) × (hdf.State × consumer.State)) → Done
  drop_data_consumer w none = none
  drop_data_consumer w (some (r, (h, s))) = some (r, (h, w))

  with_data_consumer :
      (fuel : ℕ)
      → RunStartParameters
      → hdf.State
      → Result StreamError consumer.State × host.World
      → Done
  with_data_consumer fuel params h (err e, w) = some (err (stream_error e), (h, w))
  with_data_consumer fuel params h (ok s, w) =
      let (uuid, w') = host.draw_uuid w in
      let (now, w'') = host.draw_time w' in
      drop_data_consumer w''
        (write_data_for_run hdf dyn env consumer fuel params file_factory uuid now (h, s))

  with_run_start :
      (fuel : ℕ)
      → hdf.State
      → host.World
      → Option (Result FileWriterError RunStartParameters × (Unit {0} × consumer.State))
      → Done
  with_run_start fuel h w none = none
  with_run_start fuel h w (some (err e, s)) = some (err e, (h, w))
  with_run_start fuel h w (some (ok params, s)) =
      with_data_consumer fuel params h (host.data_consumer_factory w)

  with_job_pool : (fuel : ℕ) → hdf.State → Result StreamError consumer.State × host.World → Done
  with_job_pool fuel h (err e, w) = some (err (stream_error e), (h, w))
  with_job_pool fuel h (ok s, w) =
      with_run_start fuel h w
        (wait_for_run_start env.deserialize_message env.config consumer fuel (tt, s))

  -- `fuel` bounds the rounds of each of the two loops.
  unfoldable pub write_one_file : (fuel : ℕ) → Run State FileWriterError (Unit {0})
  unfolding with_job_pool with_run_start with_data_consumer drop_data_consumer
  write_one_file fuel (h, w) = with_job_pool fuel h (host.job_pool_consumer_factory w)

  after_file : Bool → (State → Done) → Done → Done
  after_file exit rest none = none
  after_file exit rest (some (result, st)) =
      let again = rest st in if exit then some (result, st) else again

  -- `rounds` bounds the number of files.
  unfoldable pub write_files : (rounds fuel : ℕ) → Run State FileWriterError (Unit {0})
  unfolding after_file
  write_files zero fuel st = none
  write_files (suc rounds) fuel st =
      after_file env.config.exit_after_writing_one_file (λ st'. write_files rounds fuel st')
        (write_one_file fuel st)

  after_file-eq :
      (exit : Bool) (rest : State → Done) (d : Done)
      → (exit ≡ false → (st : State) → rest st ≡ none)
      → after_file exit rest d ≡ (if exit then d else none)
  unfolding after_file
  after_file-eq true rest none h = refl
  after_file-eq false rest none h = refl
  after_file-eq true rest (some (result, st)) h = refl
  after_file-eq false rest (some (result, st)) h = h refl st

  write_files-none :
      (rounds fuel : ℕ) (st : State)
      → env.config.exit_after_writing_one_file ≡ false
      → write_files rounds fuel st ≡ none
  unfolding write_files
  write_files-none zero fuel st e = refl
  write_files-none (suc rounds) fuel st e =
      after_file-eq env.config.exit_after_writing_one_file (λ st'. write_files rounds fuel st')
        (write_one_file fuel st) (λ e' st'. write_files-none rounds fuel st' e')
      ∙ ap (λ (b : Bool). if b then write_one_file fuel st else none) e

  -- With `exit_after_writing_one_file` the result is that of the one file. Without it the writer
  -- returns after no number of files.
  pub write_files_lem :
      (rounds fuel : ℕ) (st : State)
      → write_files (suc rounds) fuel st
        ≡ (if env.config.exit_after_writing_one_file then write_one_file fuel st else none)
  unfolding write_files
  write_files_lem rounds fuel st =
      after_file-eq env.config.exit_after_writing_one_file (λ st'. write_files rounds fuel st')
        (write_one_file fuel st) (λ e st'. write_files-none rounds fuel st' e)

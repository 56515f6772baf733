-- ===== src/FileWriter/Whole.antt =====
-- file_writer.rs: one file, from the wait for its run start to its end, on any consumer.
use kafka_file_writer.Base.{ℕ, ◌<◌, String, ◌≡◌, ap, ◌∙◌, some, List, [], ◌∷◌, length}
use kafka_file_writer.Base.Int.{ℤ}
use kafka_file_writer.Base.Exec.{Result, ok}
use kafka_file_writer.Error.{FileWriterError, StreamError}
use kafka_file_writer.Message.{Message, RunStart}
use kafka_file_writer.Structure.{NexusFileStructure}
use kafka_file_writer.Run.{RunStartParameters, structure, from_pl72}
use kafka_file_writer.Stream.{Stream}
use kafka_file_writer.Stream.Delivery.{Polled, received}
use kafka_file_writer.Hdf.{Hdf5}
use kafka_file_writer.Hdf.FileCreator.{FileCreator, create_file}
use kafka_file_writer.Writer.{WriterModule}
use kafka_file_writer.File
use kafka_file_writer.JobPool.Waiting.{run_start_of}
use kafka_file_writer.JobPool.Polling.{Waits, Committed, wait_for_run_start-found}
use kafka_file_writer.Task.{Environment, push_path, seek_timestamp, write_data_for_run}
use kafka_file_writer.Task.Messages.{write_until_finished}
use kafka_file_writer.FileWriter.{
  Host, Done, write_one_file, with_job_pool, with_run_start, with_data_consumer, drop_data_consumer,
}
use kafka_file_writer.Task.Returning.{Releases, Arrives, write_data_for_run-returns}

module _ {E : Type 0} (hdf : Hdf5 E) (dyn : WriterModule hdf.State) (env : Environment hdf dyn)
    (consumer : Stream) (host : Host consumer) (factory : FileCreator) where
  abbrev run_with :
      (fuel : ℕ)
      → RunStartParameters
      → hdf.State
      → consumer.State
      → String × host.World
      → String × host.World
      → Done hdf dyn env consumer host factory
  run_with fuel params h s (uuid, w) (now, w') =
      drop_data_consumer hdf dyn env consumer host factory w'
        (write_data_for_run hdf dyn env consumer fuel params factory uuid now (h, s))

  with_data_consumer-eq :
      (fuel : ℕ) (params : RunStartParameters) (h : hdf.State) (s : consumer.State)
      (w w₃ w₄ : host.World) (uuid now : String)
      → host.draw_uuid w ≡ (uuid, w₃)
      → host.draw_time w₃ ≡ (now, w₄)
      → with_data_consumer hdf dyn env consumer host factory fuel params h (ok s, w)
        ≡ run_with fuel params h s (uuid, w₃) (now, w₄)
  unfolding with_data_consumer
  with_data_consumer-eq fuel params h s w w₃ w₄ uuid now drawn timed =
      ap (λ (p : String × host.World). run_with fuel params h s p (host.draw_time p.1)) drawn
      ∙ ap (run_with fuel params h s (uuid, w₃)) timed

  -- For any consumer that can be unassigned, the writer returns. It takes the first run start of the
  -- job pool, which is committed and before which polls may time out, fail, or bring other messages,
  -- which are committed. If that run start is complete, its structure is one, its file can be created
  -- and built, the time to seek to exists, the consumers can be subscribed and assigned, and the
  -- messages among the polls of the data finish the file or one of them fails, then with more fuel
  -- than either loop takes polls the result is that of the messages, and the file is flushed and
  -- closed.
  pub write_one_file-returns :
      (fuel n : ℕ) (xs : List Polled) (ms : List (Result StreamError Message)) (rs : RunStart)
      (msg : Message) (pool pool₁ pool₂ pool₃ data_stream data₁ t : consumer.State)
      (w w₁ w₂ w₃ w₄ : host.World) (uuid now : String) (params : RunStartParameters)
      (spec : NexusFileStructure) (file : hdf.Location) (f f' : File.File hdf dyn) (timestamp : ℤ)
      (h h₁ h₂ h₃ : hdf.State) (r : Result FileWriterError (Unit {0}))
      → host.job_pool_consumer_factory w ≡ (ok pool, w₁)
      → consumer.subscribe (env.config.job_pool_topic ∷ []) pool ≡ (ok tt, pool₁)
      → Waits env.deserialize_message env.config consumer pool₂ n pool₁
      → Committed env.deserialize_message env.config consumer msg pool₂ pool₃
      → run_start_of env.deserialize_message msg.payload ≡ some rs
      → n < fuel
      → from_pl72 rs msg ≡ ok params
      → host.data_consumer_factory w₁ ≡ (ok data_stream, w₂)
      → host.draw_uuid w₂ ≡ (uuid, w₃)
      → host.draw_time w₃ ≡ (now, w₄)
      → structure env.source params env.config ≡ ok spec
      → create_file hdf factory (push_path env.config.file_output_directory params.filename) uuid h
        ≡ (ok file, h₁)
      → File.new hdf dyn env.factories env.json_text file params spec now h₁ ≡ (ok f, h₂)
      → seek_timestamp params.start_time_ms env.config.stream_seek_back_in_time_ms ≡ ok timestamp
      → Releases hdf dyn env consumer
      → Arrives hdf dyn env consumer params f timestamp xs data_stream data₁ t
      → length xs < fuel
      → write_until_finished hdf dyn env (received xs) (f, h₂) ≡ some (r, ((f', h₃), ms))
      → write_one_file hdf dyn env consumer host factory fuel (h, w)
        ≡ some (r, ((hdf.close file (hdf.flush file h₃).1).1, w₄))
  unfolding write_one_file with_job_pool with_run_start with_data_consumer drop_data_consumer
  write_one_file-returns fuel n xs ms rs msg pool pool₁ pool₂ pool₃ data_stream data₁ t w w₁ w₂ w₃
        w₄ uuid now params spec file f f' timestamp h h₁ h₂ h₃ r made subscribes waits committed
        announced lt complete data_made drawn timed resolved opened built sought releases arrives
        lt' ends =
      let (_, wrote) =
        write_data_for_run-returns hdf dyn env consumer fuel params factory uuid now spec file f f'
          timestamp h h₁ h₂ h₃ data_stream data₁ t r xs ms resolved opened built sought releases
          arrives lt' ends in
      ap (with_job_pool hdf dyn env consumer host factory fuel h) made
      ∙ ap (with_run_start hdf dyn env consumer host factory fuel h w₁) (
          wait_for_run_start-found env.deserialize_message env.config consumer n fuel pool pool₁
            pool₂ pool₃ rs msg subscribes waits committed announced lt)
      ∙ ap
          (λ y.
            with_run_start hdf dyn env consumer host factory fuel h w₁
              (some (y, (tt, consumer.unsubscribe pool₃))))
          complete
      ∙ ap (with_data_consumer hdf dyn env consumer host factory fuel params h) data_made
      ∙ with_data_consumer-eq fuel params h data_stream w₂ w₃ w₄ uuid now drawn timed
      ∙ ap (drop_data_consumer hdf dyn env consumer host factory w₄) wrote

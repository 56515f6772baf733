-- ===== src/Task/Returning.antt =====
-- run_writer/single_file_write_task.rs: one run on any consumer, from its structure to its file.
use kafka_file_writer.Base.{ℕ, ◌<◌, String, ◌≡◌, ap, ◌∙◌, some, List, length}
use kafka_file_writer.Base.Int.{ℤ}
use kafka_file_writer.Base.Exec.{Result, ok}
use kafka_file_writer.Error.{FileWriterError, StreamError}
use kafka_file_writer.Message.{Message}
use kafka_file_writer.Structure.{NexusFileStructure}
use kafka_file_writer.Run.{RunStartParameters, structure}
use kafka_file_writer.Stream.{Stream}
use kafka_file_writer.Stream.Delivery.{Polled, received}
use kafka_file_writer.Stream.Scope.Release.{with_assignment-ends}
use kafka_file_writer.Hdf.{Hdf5}
use kafka_file_writer.Hdf.FileCreator.{FileCreator, create_file}
use kafka_file_writer.Hdf.Scope.Closing.{with_nexus_file-closes}
use kafka_file_writer.Writer.{WriterModule}
use kafka_file_writer.File
use kafka_file_writer.Task.{
  Environment, push_path, seek_timestamp, assignment_topics, handle_messages_until_run_stop,
  drop_file, assign_and_write, write_built, write_file, write_structured, write_data_for_run,
}
use kafka_file_writer.Task.Messages.{write_until_finished}
use kafka_file_writer.Task.Polling.{Delivered, handle_messages-ReturnsAfter}

module _ {E : Type 0} (hdf : Hdf5 E) (dyn : WriterModule hdf.State) (env : Environment hdf dyn)
    (consumer : Stream) where
  -- A consumer that can be unassigned, whatever its state.
  abbrev pub Releases : Type 0
  Releases = (s : consumer.State) → (consumer.unassign s).0 ≡ ok tt

  -- The data arrive: the consumer can be assigned, and these polls follow.
  abbrev pub Arrives :
      RunStartParameters → File.File hdf dyn → ℤ → List Polled → (s s₁ t : consumer.State) → Type 0
  Arrives params f timestamp xs s s₁ t =
      (consumer.assign_from_timestamp (assignment_topics hdf dyn env f params) timestamp
          env.config.kafka_assignment_timeout_ms s
        ≡ (ok tt, s₁))
      × Delivered hdf dyn env consumer t xs s₁

  assign_and_write-returns :
      (fuel : ℕ) (params : RunStartParameters) (f f' : File.File hdf dyn) (timestamp : ℤ)
      (h h' : hdf.State) (s s₁ t : consumer.State) (r : Result FileWriterError (Unit {0}))
      (xs : List Polled) (ms : List (Result StreamError Message))
      → Releases
      → Arrives params f timestamp xs s s₁ t
      → length xs < fuel
      → write_until_finished hdf dyn env (received xs) (f, h) ≡ some (r, ((f', h'), ms))
      → (s' : consumer.State) × (assign_and_write hdf dyn env consumer fuel params f
            (ok timestamp)
            (h, s)
          ≡ some (r, (h', s')))
  unfolding assign_and_write drop_file
  assign_and_write-returns fuel params f f' timestamp h h' s s₁ t r xs ms releases (can, polls) lt
        ends =
      let (_, _, s₂, _, _, _, ran) =
        handle_messages-ReturnsAfter hdf dyn env consumer xs fuel f h s₁ t r (f', h') ms polls lt
          ends in
      (
        (consumer.unassign s₂).1,
        ap (drop_file hdf dyn env consumer) (
            with_assignment-ends consumer (assignment_topics hdf dyn env f params) timestamp
              env.config.kafka_assignment_timeout_ms
              (handle_messages_until_run_stop hdf dyn env consumer fuel) (f, h) (f', h') s s₁ s₂ r
              can ran (releases s₂)),
      )

  -- A run on any consumer returns with the result of its messages.
  pub write_data_for_run-returns :
      (fuel : ℕ) (params : RunStartParameters) (factory : FileCreator) (uuid now : String)
      (spec : NexusFileStructure) (file : hdf.Location) (f f' : File.File hdf dyn) (timestamp : ℤ)
      (h h₁ h₂ h₃ : hdf.State) (s s₁ t : consumer.State) (r : Result FileWriterError (Unit {0}))
      (xs : List Polled) (ms : List (Result StreamError Message))
      → structure env.source params env.config ≡ ok spec
      → create_file hdf factory (push_path env.config.file_output_directory params.filename) uuid h
        ≡ (ok file, h₁)
      → File.new hdf dyn env.factories env.json_text file params spec now h₁ ≡ (ok f, h₂)
      → seek_timestamp params.start_time_ms env.config.stream_seek_back_in_time_ms ≡ ok timestamp
      → Releases
      → Arrives params f timestamp xs s s₁ t
      → length xs < fuel
      → write_until_finished hdf dyn env (received xs) (f, h₂) ≡ some (r, ((f', h₃), ms))
      → (s' : consumer.State) × (write_data_for_run hdf dyn env consumer fuel params factory uuid
            now
            (h, s)
          ≡ some (r, ((hdf.close file (hdf.flush file h₃).1).1, s')))
  unfolding write_data_for_run write_structured write_file write_built
  write_data_for_run-returns fuel params factory uuid now spec file f f' timestamp h h₁ h₂ h₃ s s₁ t
        r xs ms resolved opened built sought releases arrives lt ends =
      let (s', wrote) =
        assign_and_write-returns fuel params f f' timestamp h₂ h₃ s s₁ t r xs ms releases arrives lt
          ends in
      let ran : write_file hdf dyn env consumer fuel params spec now file (h₁, s)
          ≡ some (r, (h₃, s')) =
        ap (λ x. write_built hdf dyn env consumer fuel params x s) built
        ∙ ap (λ x. assign_and_write hdf dyn env consumer fuel params f x (h₂, s)) sought
        ∙ wrote in
      (
        s',
        ap (λ x. write_structured hdf dyn env consumer fuel params factory uuid now x (h, s))
              resolved
            ∙ with_nexus_file-closes hdf factory
                (push_path env.config.file_output_directory params.filename) uuid
                (write_file hdf dyn env consumer fuel params spec now) h h₁ h₃ s s' file r opened
                ran,
      )

-- ===== src/Task/Whole.antt =====
-- run_writer/single_file_write_task.rs: one run on a fake stream, from its structure to its file.
use kafka_file_writer.Base.{ℕ, ◌<◌, String, ◌≡◌, ap, ◌∙◌, true, false, some, List, [], length}
use kafka_file_writer.Base.Int.{ℤ}
use kafka_file_writer.Base.Exec.{Result, ok}
use kafka_file_writer.Error.{FileWriterError, StreamError}
use kafka_file_writer.Message.{Message}
use kafka_file_writer.Structure.{NexusFileStructure}
use kafka_file_writer.Run.{RunStartParameters, structure}
use kafka_file_writer.Stream.Fake.{FakeStream, fake_stream}
use kafka_file_writer.Stream.Scope.Release.{with_assignment-returns}
use kafka_file_writer.Hdf.{Hdf5}
use kafka_file_writer.Hdf.FileCreator.{FileCreator, create_file}
use kafka_file_writer.Hdf.Scope.Closing.{with_nexus_file-closes}
use kafka_file_writer.Writer.{WriterModule}
use kafka_file_writer.File
use kafka_file_writer.Task.{
  Environment, push_path, seek_timestamp, assignment_topics, handle_messages_until_run_stop,
  drop_file, assign_and_write, write_built, write_file, write_structured, write_data_for_run,
}
use kafka_file_writer.Task.Messages.{handle_messages-eq, on_stream, write_until_finished}

module _ {E : Type 0} (hdf : Hdf5 E) (dyn : WriterModule hdf.State)
    (env : Environment hdf dyn) where
  -- The stream after a run, which has some messages left and is not assigned.
  abbrev pub released : FakeStream → List (Result StreamError Message) → FakeStream
  released s ms = record s { messages = ms; is_assigned = false; topics = [] }

  assign_and_write-returns :
      (fuel : ℕ) (params : RunStartParameters) (f f' : File.File hdf dyn) (timestamp : ℤ)
      (h h' : hdf.State) (s : FakeStream) (r : Result FileWriterError (Unit {0}))
      (ms : List (Result StreamError Message))
      → s.assign_from_timestamp_causes_error ≡ false
      → s.unassign_causes_error ≡ false
      → length s.messages < fuel
      → write_until_finished hdf dyn env s.messages (f, h) ≡ some (r, ((f', h'), ms))
      → assign_and_write hdf dyn env fake_stream fuel params f (ok timestamp) (h, s)
        ≡ some (r, (h', released s ms))
  unfolding assign_and_write drop_file
  assign_and_write-returns fuel params f f' timestamp h h' s r ms can_assign can_unassign lt ends =
      let topics : List String = assignment_topics hdf dyn env f params in
      let s₁ : FakeStream = record s { is_assigned = true; topics = topics } in
      let ran : handle_messages_until_run_stop hdf dyn env fake_stream fuel ((f, h), s₁)
          ≡ some (r, ((f', h'), record s₁ { messages = ms })) =
        handle_messages-eq hdf dyn env fuel (f, h) s₁ lt ∙ ap (on_stream hdf dyn env s₁) ends in
      ap (drop_file hdf dyn env fake_stream) (
        with_assignment-returns topics timestamp env.config.kafka_assignment_timeout_ms
          (handle_messages_until_run_stop hdf dyn env fake_stream fuel) (f, h) (f', h') s
          (record s₁ { messages = ms }) r can_assign can_unassign ran)

  -- The run returns: if its structure is one, its file can be created and built, the time to seek to
  -- exists and the stream can be assigned and unassigned, and if the messages of the stream finish
  -- the file or one of them fails, then with more fuel than there are messages the run ends with the
  -- result of its messages, the file is flushed and closed, and the stream is released.
  pub write_data_for_run-returns :
      (fuel : ℕ) (params : RunStartParameters) (factory : FileCreator) (uuid now : String)
      (spec : NexusFileStructure) (file : hdf.Location) (f f' : File.File hdf dyn) (timestamp : ℤ)
      (h h₁ h₂ h₃ : hdf.State) (s : FakeStream) (r : Result FileWriterError (Unit {0}))
      (ms : List (Result StreamError Message))
      → structure env.source params env.config ≡ ok spec
      → create_file hdf factory (push_path env.config.file_output_directory params.filename) uuid h
        ≡ (ok file, h₁)
      → File.new hdf dyn env.factories env.json_text file params spec now h₁ ≡ (ok f, h₂)
      → seek_timestamp params.start_time_ms env.config.stream_seek_back_in_time_ms ≡ ok timestamp
      → s.assign_from_timestamp_causes_error ≡ false
      → s.unassign_causes_error ≡ false
      → length s.messages < fuel
      → write_until_finished hdf dyn env s.messages (f, h₂) ≡ some (r, ((f', h₃), ms))
      → write_data_for_run hdf dyn env fake_stream fuel params factory uuid now (h, s)
        ≡ some (r, ((hdf.close file (hdf.flush file h₃).1).1, released s ms))
  unfolding write_data_for_run write_structured write_file write_built
  write_data_for_run-returns fuel params factory uuid now spec file f f' timestamp h h₁ h₂ h₃ s r ms
        resolved opened built sought can_assign can_unassign lt ends =
      ap (λ x. write_structured hdf dyn env fake_stream fuel params factory uuid now x (h, s))
        resolved
      ∙ with_nexus_file-closes hdf factory
          (push_path env.config.file_output_directory params.filename) uuid
          (write_file hdf dyn env fake_stream fuel params spec now) h h₁ h₃ s (released s ms) file r
          opened ran
    where
      ran :
          write_file hdf dyn env fake_stream fuel params spec now file (h₁, s)
          ≡ some (r, (h₃, released s ms))
      ran =
          ap (λ x. write_built hdf dyn env fake_stream fuel params x s) built
          ∙ ap (λ x. assign_and_write hdf dyn env fake_stream fuel params f x (h₂, s)) sought
          ∙ assign_and_write-returns fuel params f f' timestamp h₂ h₃ s r ms can_assign can_unassign
              lt ends

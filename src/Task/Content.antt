-- ===== src/Task/Content.antt =====
-- run_writer/single_file_write_task.rs: the events that a whole run leaves in its file.
use kafka_file_writer.Base.{
  ℕ, ◌<◌, String, ◌≡◌, refl, sym, ap, subst, ◌∙◌, false, some, List, ◌++◌, length, get_elem?, arith,
}
use kafka_file_writer.Base.Equality.{string_eq}
use kafka_file_writer.Base.Int.{ℤ}
use kafka_file_writer.Base.Exec.{Result, ok}
use kafka_file_writer.Error.{Cause, StreamError}
use kafka_file_writer.Json.{Value}
use kafka_file_writer.Message.{Message}
use kafka_file_writer.Structure.{NexusFileStructure}
use kafka_file_writer.Run.{RunStartParameters, structure}
use kafka_file_writer.Router.{WriterId}
use kafka_file_writer.Stream.Fake.{FakeStream, fake_stream}
use kafka_file_writer.Hdf.{Hdf5}
use kafka_file_writer.Hdf.FileCreator.{FileCreator, create_file}
use kafka_file_writer.Hdf.Laws.{DatasetLaws, CreationLaws, GroupLaws, BuildingLaws}
use kafka_file_writer.Writer.Ixseblock.{IxseblockConfig}
use kafka_file_writer.Writer.Nxeventdata.{Floats, Element, Nxeventdata, NxeventdataConfig}
use kafka_file_writer.Writer.Nxeventdata.Recording.{Log, IsAligned, Fits, view}
use kafka_file_writer.Writer.Nxeventdata.Records.{recorded_all}
use kafka_file_writer.Writer.Registry.{nxeventdata, writer_modules, default_registry}
use kafka_file_writer.File
use kafka_file_writer.File.History.{addressed, FileTook-recorded}
use kafka_file_writer.File.Started.{new-IsOpen, new-Follows}
use kafka_file_writer.File.Writers.{Slot}
use kafka_file_writer.Task.{Environment, push_path, seek_timestamp, write_data_for_run}
use kafka_file_writer.Task.Messages.{write_until_finished}
use kafka_file_writer.Task.Recorded.{deliveries, write_until_finished-Used}
use kafka_file_writer.Task.Whole.{released, write_data_for_run-returns}
use kafka_file_writer.Task.Prefixes.{to_record, to_record-Grows}

module _ (fl : Floats) (hdf : Hdf5 (Element fl.F64 fl.F32)) (laws : DatasetLaws hdf)
    (making : CreationLaws hdf laws) (groups : GroupLaws hdf laws)
    (building : BuildingLaws hdf laws) (env : Environment hdf (writer_modules fl hdf))
    (ixseblock_config : Value → Result Cause IxseblockConfig)
    (nxeventdata_config : Value → Result Cause NxeventdataConfig) where
  -- A run whose messages finish its file, from the structure of the file on: each module of events
  -- has recorded just what the messages that the run used up bring it.
  pub new-recorded :
      (params : RunStartParameters) (file : hdf.Location) (spec : NexusFileStructure) (now : String)
      (f f' : File.File hdf (writer_modules fl hdf)) (h₁ h₂ h₃ : hdf.State)
      (ms rest : List (Result StreamError Message)) (j : WriterId) (slot : Slot hdf.Location)
      (w : Nxeventdata hdf.Location)
      → File.new hdf
          (writer_modules fl hdf)
          (default_registry fl hdf ixseblock_config nxeventdata_config)
          env.json_text
          file
          params
          spec
          now
          h₁
        ≡ (ok f, h₂)
      → write_until_finished hdf (writer_modules fl hdf) env ms (f, h₂)
        ≡ some (ok tt, ((f', h₃), rest))
      → get_elem? f.writers j ≡ some slot
      → slot.writer ≡ nxeventdata w
      → Fits (to_record fl env.deserialize_message w params.job_id ms)
      → (used : List (Result StreamError Message)) × (ms ≡ used ++ rest)
        × (view fl hdf laws w.group h₃ ≡ to_record fl env.deserialize_message w params.job_id used)
        × (w.run_start_time_ms ≡ params.start_time_ms)
        × (w.run_stop_time_ms ≡ params.stop_time_ms)
  unfolding File.job_id
  new-recorded params file spec now f f' h₁ h₂ h₃ ms rest j slot w made ends at is fits =
      let opened =
        new-IsOpen fl hdf laws making building params ixseblock_config nxeventdata_config
          env.json_text file spec now h₁ h₂ f made in
      let (follows, empty, from, until) =
        new-Follows fl hdf laws making building params ixseblock_config nxeventdata_config
          env.json_text file spec now h₁ h₂ f j slot w made at is in
      let (used, are, took) =
        write_until_finished-Used fl hdf env ms rest f h₂ (f', h₃) params.job_id
          (ap RunStartParameters.job_id opened.same_params) ends in
      let small : Fits (to_record fl env.deserialize_message w params.job_id used) = omega (
        arith,
        to_record-Grows fl env.deserialize_message w params.job_id used rest,
        subst
            (λ (l : List (Result StreamError Message)).
              Fits (to_record fl env.deserialize_message w params.job_id l))
            are fits,
      ) in
      (
        used,
        are,
        FileTook-recorded fl hdf laws groups w.group j w.config.topic
              (deliveries env.deserialize_message params.job_id used) w f f' h₂ h₃ took refl follows
              (subst (λ (l : Log fl). IsAligned l) (sym empty) refl)
              (subst
                (λ (l : Log fl). Fits (
                  recorded_all fl w
                    (addressed w.config.topic
                      (deliveries env.deserialize_message params.job_id used))
                    l))
                (sym empty) small)
            ∙ ap
                (recorded_all fl w (
                  addressed w.config.topic (deliveries env.deserialize_message params.job_id used)))
                empty,
        from,
        until,
      )

  -- A whole run on a fake stream: if its structure is one, its file can be created and built, the
  -- time to seek to exists, the stream can be assigned and unassigned, and the messages of the
  -- stream finish the file, then with more fuel than there are messages the run succeeds, flushes and
  -- closes the file and releases the stream. Just before the flush, the data sets of each module of
  -- events hold what the module, which has the times of the run, records of the messages from its
  -- topic and the run stops among the messages that the run used up, in their order and from empty
  -- data sets on. What all messages of the stream would bring must have lengths that are `usize`s,
  -- and the environment has the default registry.
  pub write_data_for_run-recorded :
      (fuel : ℕ) (params : RunStartParameters) (factory : FileCreator) (uuid now : String)
      (spec : NexusFileStructure) (file : hdf.Location)
      (f f' : File.File hdf (writer_modules fl hdf)) (timestamp : ℤ) (h h₁ h₂ h₃ : hdf.State)
      (s : FakeStream) (rest : List (Result StreamError Message)) (j : WriterId)
      (slot : Slot hdf.Location) (w : Nxeventdata hdf.Location)
      → env.factories ≡ default_registry fl hdf ixseblock_config nxeventdata_config
      → structure env.source params env.config ≡ ok spec
      → create_file hdf factory (push_path env.config.file_output_directory params.filename) uuid h
        ≡ (ok file, h₁)
      → File.new hdf (writer_modules fl hdf) env.factories env.json_text file params spec now h₁
        ≡ (ok f, h₂)
      → seek_timestamp params.start_time_ms env.config.stream_seek_back_in_time_ms ≡ ok timestamp
      → s.assign_from_timestamp_causes_error ≡ false
      → s.unassign_causes_error ≡ false
      → length s.messages < fuel
      → write_until_finished hdf (writer_modules fl hdf) env s.messages (f, h₂)
        ≡ some (ok tt, ((f', h₃), rest))
      → get_elem? f.writers j ≡ some slot
      → slot.writer ≡ nxeventdata w
      → Fits (to_record fl env.deserialize_message w params.job_id s.messages)
      → (write_data_for_run hdf
            (writer_modules fl hdf)
            env
            fake_stream
            fuel
            params
            factory
            uuid
            now
            (h, s)
          ≡ some (
            ok tt,
            (
              (hdf.close file (hdf.flush file h₃).1).1,
              released hdf (writer_modules fl hdf) env s rest,
            ),
          ))
        × (used : List (Result StreamError Message)) × (s.messages ≡ used ++ rest)
        × (view fl hdf laws w.group h₃ ≡ to_record fl env.deserialize_message w params.job_id used)
        × (w.run_start_time_ms ≡ params.start_time_ms)
        × (w.run_stop_time_ms ≡ params.stop_time_ms)
  write_data_for_run-recorded fuel params factory uuid now spec file f f' timestamp h h₁ h₂ h₃ s
        rest j slot w registered resolved opened made sought can_assign can_unassign lt ends at is
        fits =
      let (used, are, events, from, until) =
        new-recorded params file spec now f f' h₁ h₂ h₃ s.messages rest j slot w
          (ap
              (λ factories.
                File.new hdf (writer_modules fl hdf) factories env.json_text file params spec now
                  h₁)
              (sym registered)
            ∙ made)
          ends at is fits in
      (
        write_data_for_run-returns hdf (writer_modules fl hdf) env fuel params factory uuid now spec
            file f f' timestamp h h₁ h₂ h₃ s (ok tt) rest resolved opened made sought can_assign
            can_unassign lt ends,
        used,
        are,
        events,
        from,
        until,
      )

-- ===== src/File/History.antt =====
-- run_writer/in_progress_file.rs: the events of one group of a file, over all that the file takes.
use kafka_file_writer.Base.{
  String, ◌≡◌, refl, sym, ap, subst, ◌∙◌, Bool-cases, inl, inr, List, [], ◌∷◌, if◌then◌else◌, arith,
}
use kafka_file_writer.Base.Equality.{◌==◌, string_eq}
use kafka_file_writer.Base.Exec.{ok}
use kafka_file_writer.Message.{KafkaMessageMeta, DeserializedMessage, RunStop}
use kafka_file_writer.Router.{WriterId}
use kafka_file_writer.Hdf.{Hdf5}
use kafka_file_writer.Hdf.Laws.{DatasetLaws, GroupLaws}
use kafka_file_writer.Writer.Nxeventdata.{Floats, Element, Nxeventdata}
use kafka_file_writer.Writer.Nxeventdata.Recording.{
  Log, IsAligned, Fits, recorded, view, recorded-IsAligned,
}
use kafka_file_writer.Writer.Nxeventdata.Records.{
  Delivery, message, stop, recorded_all, recorded_all-Grows, recorded-SameRun,
}
use kafka_file_writer.Writer.Registry.{writer_modules}
use kafka_file_writer.File.{InProgressFile, File, on_message, on_run_stop}
use kafka_file_writer.File.Sync.{IsInSync}
use kafka_file_writer.File.Delivery.{on_message-IsInSync, on_run_stop-IsInSync}
use kafka_file_writer.File.Events.{on_message-events}
use kafka_file_writer.File.Writers.{AllContinue, on_message-AllContinue, on_run_stop-map}
use kafka_file_writer.File.Following.{Follows, continue-Follows, stop-Follows}

-- What of some deliveries comes from a topic; a run stop is for all.
abbrev pub addressed : String → List Delivery → List Delivery
addressed topic [] = []
addressed topic (message meta msg ∷ ms) =
    let rest = addressed topic ms in if topic == meta.topic then message meta msg ∷ rest else rest
addressed topic (stop meta run_stop ∷ ms) = stop meta run_stop ∷ addressed topic ms

module _ (fl : Floats) (hdf : Hdf5 (Element fl.F64 fl.F32)) where
  abbrev pub FileState : Type 0
  FileState = File hdf (writer_modules fl hdf) × hdf.State

  -- The file took what came, one after another, without an error, and ended in the state `end`.
  pub data FileTook (end : FileState) : List Delivery → FileState → Type 0 where
    took_all : FileTook end [] end
    took_message :
        {meta : KafkaMessageMeta} {msg : DeserializedMessage} {ms : List Delivery} {s t : FileState}
        → on_message hdf (writer_modules fl hdf) meta msg s ≡ (ok tt, t)
        → FileTook end ms t
        → FileTook end (message meta msg ∷ ms) s
    took_stop :
        {meta : KafkaMessageMeta} {run_stop : RunStop} {ms : List Delivery} {s t : FileState}
        → on_run_stop hdf (writer_modules fl hdf) meta run_stop s ≡ (ok tt, t)
        → FileTook end ms t
        → FileTook end (stop meta run_stop ∷ ms) s

  module _ (g : hdf.Location) (j : WriterId) (topic : String) where
    message-Follows :
        (meta : KafkaMessageMeta) (msg : DeserializedMessage) (w : Nxeventdata hdf.Location)
        (f f' : File hdf (writer_modules fl hdf)) (h h' : hdf.State)
        → on_message hdf (writer_modules fl hdf) meta msg (f, h) ≡ (ok tt, (f', h'))
        → Follows g j topic w f
        → Follows g j topic w f'
    message-Follows meta msg w f f' h h' run old =
        let is : (on_message hdf (writer_modules fl hdf) meta msg (f, h)).1.0 ≡ f' =
          ap (λ x. x.1.0) run in
        continue-Follows g j topic w f f'
          (subst (λ (k : File hdf (writer_modules fl hdf)). IsInSync k) is
            (on_message-IsInSync hdf (writer_modules fl hdf) meta msg f h old.sync))
          (subst (λ (k : File hdf (writer_modules fl hdf)). AllContinue f.writers k.writers) is
            (on_message-AllContinue fl hdf meta msg f h))
          old

    run_stop-Follows :
        (meta : KafkaMessageMeta) (run_stop : RunStop) (w : Nxeventdata hdf.Location)
        (f f' : File hdf (writer_modules fl hdf)) (h h' : hdf.State)
        → on_run_stop hdf (writer_modules fl hdf) meta run_stop (f, h) ≡ (ok tt, (f', h'))
        → Follows g j topic w f
        → (h ≡ h') × Follows g j topic (record w { run_stop_time_ms = run_stop.stop_time }) f'
    run_stop-Follows meta run_stop w f f' h h' run old =
        let told = sym (on_run_stop-map fl hdf meta run_stop f h) ∙ run in
        (
          ap (λ x. x.1.1) told,
          stop-Follows g j topic w run_stop f f'
              (subst (λ (k : File hdf (writer_modules fl hdf)). IsInSync k) (ap (λ x. x.1.0) run)
                (on_run_stop-IsInSync hdf (writer_modules fl hdf) meta run_stop f h old.sync))
              (ap (λ x. InProgressFile.writers x.1.0) (sym told)) old,
        )

module _ (fl : Floats) (hdf : Hdf5 (Element fl.F64 fl.F32)) (laws : DatasetLaws hdf)
    (groups : GroupLaws hdf laws) (g : hdf.Location) (j : WriterId) (topic : String) where
  -- What the run records of a message, if that comes from the topic.
  abbrev recorded_from :
      Nxeventdata hdf.Location → KafkaMessageMeta → DeserializedMessage → Log fl → Log fl
  recorded_from w meta msg log = if topic == meta.topic then recorded fl w meta msg log else log

  message-events :
      (meta : KafkaMessageMeta) (msg : DeserializedMessage) (w : Nxeventdata hdf.Location)
      (f f' : File hdf (writer_modules fl hdf)) (h h' : hdf.State)
      → on_message hdf (writer_modules fl hdf) meta msg (f, h) ≡ (ok tt, (f', h'))
      → w.group ≡ g
      → Follows g j topic w f
      → IsAligned (view fl hdf laws g h)
      → Fits (recorded_from w meta msg (view fl hdf laws g h))
      → view fl hdf laws g h' ≡ recorded_from w meta msg (view fl hdf laws g h)
  message-events meta msg w f f' h h' run in_g old a fits =
      let log : Log fl = view fl hdf laws g h in
      let v : Nxeventdata hdf.Location = old.module_ in
      let same : recorded fl v meta msg log ≡ recorded fl w meta msg log =
        recorded-SameRun fl w v meta msg log old.same_run in
      let same_from : recorded_from v meta msg log ≡ recorded_from w meta msg log =
        ap (λ (l : Log fl). if topic == meta.topic then l else log) same in
      on_message-events fl hdf laws groups meta msg g j old.slot v topic f f' h h' old.sync old.at
        old.is (old.same_run.0 ∙ in_g) old.asks old.apart a
        (subst (λ (l : Log fl). Fits l) (sym same_from) fits) run
      ∙ same_from

  recorded_from-IsAligned :
      (w : Nxeventdata hdf.Location) (meta : KafkaMessageMeta) (msg : DeserializedMessage)
      (log : Log fl)
      → IsAligned log
      → IsAligned (recorded_from w meta msg log)
  recorded_from-IsAligned w meta msg log a = elim (Bool-cases (topic == meta.topic)) [
    | inl hit ↦ rw hit (recorded-IsAligned fl w meta msg log a)
    | inr miss ↦ rw miss a
  ]

  addressed-message :
      (w : Nxeventdata hdf.Location) (meta : KafkaMessageMeta) (msg : DeserializedMessage)
      (ms : List Delivery) (log : Log fl)
      → recorded_all fl w (addressed topic (message meta msg ∷ ms)) log
        ≡ recorded_all fl w (addressed topic ms) (recorded_from w meta msg log)
  unfolding recorded_all
  addressed-message w meta msg ms log = elim (Bool-cases (topic == meta.topic)) [
    | inl hit ↦ rw hit
    | inr miss ↦ rw miss
  ]

  -- Over all that a file takes without an error, the events in the group of one of its modules grow
  -- by what the run records of the deliveries from the module's topic, in their order. No other
  -- module of events stands in the group, its events are aligned before, and the lengths after
  -- are `usize`s.
  pub FileTook-recorded :
      (ms : List Delivery) (w : Nxeventdata hdf.Location) (f f' : File hdf (writer_modules fl hdf))
      (h h' : hdf.State)
      → FileTook fl hdf (f', h') ms (f, h)
      → w.group ≡ g
      → Follows g j topic w f
      → IsAligned (view fl hdf laws g h)
      → Fits (recorded_all fl w (addressed topic ms) (view fl hdf laws g h))
      → view fl hdf laws g h' ≡ recorded_all fl w (addressed topic ms) (view fl hdf laws g h)
  unfolding recorded_all
  FileTook-recorded [] w f f' h h' took_all in_g old a fits = refl
  FileTook-recorded (message meta msg ∷ ms) w f f' h h' (took_message {t = (k, i)} run took) in_g
        old a fits =
      let log : Log fl = view fl hdf laws g h in
      let next : Log fl = recorded_from w meta msg log in
      let shape : recorded_all fl w (addressed topic (message meta msg ∷ ms)) log
          ≡ recorded_all fl w (addressed topic ms) next =
        addressed-message w meta msg ms log in
      let fits_all : Fits (recorded_all fl w (addressed topic ms) next) =
        subst (λ (l : Log fl). Fits l) shape fits in
      let fits_next : Fits next =
        omega (arith, recorded_all-Grows fl w (addressed topic ms) next, fits_all) in
      let at_k : view fl hdf laws g i ≡ next =
        message-events meta msg w f k h i run in_g old a fits_next in
      FileTook-recorded ms w k f' i h' took in_g
        (message-Follows fl hdf g j topic meta msg w f k h i run old)
        (subst (λ (l : Log fl). IsAligned l) (sym at_k) (recorded_from-IsAligned w meta msg log a))
        (subst (λ (l : Log fl). Fits (recorded_all fl w (addressed topic ms) l)) (sym at_k)
          fits_all)
      ∙ ap (recorded_all fl w (addressed topic ms)) at_k
      ∙ sym shape
  FileTook-recorded (stop meta run_stop ∷ ms) w f f' h h' (took_stop {t = (k, i)} run took) in_g old
        a fits =
      let (same, next) = run_stop-Follows fl hdf g j topic meta run_stop w f k h i run old in
      FileTook-recorded ms (record w { run_stop_time_ms = run_stop.stop_time }) k f' h h'
        (subst (λ (l : hdf.State). FileTook fl hdf (f', h') ms (k, l)) (sym same) took) in_g next a
        fits

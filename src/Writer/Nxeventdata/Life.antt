-- ===== src/Writer/Nxeventdata/Life.antt =====
-- writer_modules/nxevent_data.rs: the life of a module, from its creation over all the messages that
-- it gets.
use kafka_file_writer.Base.{
  ◌≡◌, refl, sym, ap, subst, ◌∙◌, Option, none, some, List, [], ◌∷◌, arith, Bool-cases, inl, inr,
}
use kafka_file_writer.Base.Int.{ℤ, pos, negsuc}
use kafka_file_writer.Base.Exec.{Result, ok, err, on_second_result}
use kafka_file_writer.Error.{WriterModuleError, invalid_data, failed_file_write, fatal}
use kafka_file_writer.Message.{KafkaMessageMeta, DeserializedMessage, RunStop}
use kafka_file_writer.Hdf.{Hdf5}
use kafka_file_writer.Hdf.Laws.{DatasetLaws, CreationLaws}
use kafka_file_writer.Run.{RunStartParameters}
use kafka_file_writer.Writer.{WriterModuleCreateResult}
use kafka_file_writer.Writer.Nxeventdata.{
  Floats, Element, Nxeventdata, NxeventdataConfig, State, on_message, on_run_stop, timed, stamped,
  create,
}
use kafka_file_writer.Writer.Nxeventdata.Window.{outside, on_message-unused}
use kafka_file_writer.Writer.Nxeventdata.Recording.{
  Log, IsAligned, Fits, recorded, view, recorded-IsAligned, on_message-recorded,
}
use kafka_file_writer.Writer.Nxeventdata.Invalid.{invalid-unwritable}
use kafka_file_writer.Writer.Nxeventdata.Records.{
  Delivery, message, stop, SameRun, recorded_all, recorded_all-Grows, recorded_all-SameRun,
}
use kafka_file_writer.Writer.Nxeventdata.Creation.{create-empty, empty_log}

-- Errors that do not end the run.
abbrev pub Passed : Result WriterModuleError (Unit {0}) → Type 0
Passed (ok _) = Unit
Passed (err (invalid_data m)) = Unit
Passed (err (failed_file_write e)) = ⊥
Passed (err (fatal cause context)) = ⊥

module _ (fl : Floats) (hdf : Hdf5 (Element fl.F64 fl.F32)) where
  on_second-writer :
      (w : Nxeventdata hdf.Location) (x : Result WriterModuleError (Unit {0}) × hdf.State)
      → (on_second_result w x).1.0 ≡ w
  on_second-writer w (r, h) = refl

  timed-SameRun :
      (o : Option ℤ) (msg : DeserializedMessage) (w : Nxeventdata hdf.Location) (h : hdf.State)
      → SameRun w (timed fl hdf o msg (w, h)).1.0
  unfolding timed stamped
  timed-SameRun none msg w h = (refl, refl, refl)
  timed-SameRun (some (negsuc t)) msg w h = (refl, refl, refl)
  timed-SameRun (some (pos t)) msg w h = elim (Bool-cases (outside w t)) [
    | inl out ↦ rw out (refl, refl, refl)
    | inr inside ↦ rw inside (refl, refl, refl)
  ]

  pub on_message-SameRun :
      (meta : KafkaMessageMeta) (msg : DeserializedMessage) (w : Nxeventdata hdf.Location)
      (h : hdf.State)
      → SameRun w (on_message fl hdf meta msg (w, h)).1.0
  unfolding on_message
  on_message-SameRun meta msg w h = timed-SameRun meta.timestamp msg w h

  -- The module took what it was told, one after another, and ended in the state `end`; invalid data
  -- did not stop it.
  pub data Taken (end : State fl hdf) : List Delivery → State fl hdf → Type 0 where
    done : Taken end [] end
    then_took :
        {meta : KafkaMessageMeta} {msg : DeserializedMessage} {ms : List Delivery}
        {s t : State fl hdf} {r : Result WriterModuleError (Unit {0})}
        → on_message fl hdf meta msg s ≡ (r, t)
        → Passed r
        → Taken end ms t
        → Taken end (message meta msg ∷ ms) s
    then_stopped :
        {meta : KafkaMessageMeta} {run_stop : RunStop} {ms : List Delivery} {s t : State fl hdf}
        → on_run_stop fl hdf meta run_stop s ≡ (ok tt, t)
        → Taken end ms t
        → Taken end (stop meta run_stop ∷ ms) s

module _ (fl : Floats) (hdf : Hdf5 (Element fl.F64 fl.F32)) (laws : DatasetLaws hdf) where
  pub step-recorded :
      (meta : KafkaMessageMeta) (msg : DeserializedMessage) (w w' : Nxeventdata hdf.Location)
      (h h' : hdf.State) (r : Result WriterModuleError (Unit {0}))
      → on_message fl hdf meta msg (w, h) ≡ (r, (w', h'))
      → Passed r
      → IsAligned (view fl hdf laws w.group h)
      → Fits (recorded fl w meta msg (view fl hdf laws w.group h))
      → view fl hdf laws w.group h' ≡ recorded fl w meta msg (view fl hdf laws w.group h)
  step-recorded meta msg w w' h h' (ok tt) run p a fits =
      on_message-recorded fl hdf laws meta msg w w' h h' run a fits
  step-recorded meta msg w w' h h' (err (invalid_data m)) run p a fits =
      let left = invalid-unwritable fl hdf meta msg w h m (ap (λ x. x.0) run) in
      let same : h ≡ h' = sym (on_message-unused fl hdf meta msg w h left) ∙ ap (λ x. x.1.1) run in
      rw left (ap (view fl hdf laws w.group) (sym same))
  step-recorded meta msg w w' h h' (err (failed_file_write e)) run p a fits = absurd p
  step-recorded meta msg w w' h h' (err (fatal cause context)) run p a fits = absurd p

  -- After any messages and run stops that the module took, also where some messages held invalid
  -- data, the log is what the run records of them in their order, behind what was there. The log
  -- has as many pixels as time offsets before, and the lengths after are `usize`s.
  pub Taken-recorded :
      (ms : List Delivery) (w w' : Nxeventdata hdf.Location) (h h' : hdf.State)
      → Taken fl hdf (w', h') ms (w, h)
      → IsAligned (view fl hdf laws w.group h)
      → Fits (recorded_all fl w ms (view fl hdf laws w.group h))
      → view fl hdf laws w.group h' ≡ recorded_all fl w ms (view fl hdf laws w.group h)
  unfolding recorded_all on_run_stop
  Taken-recorded [] w w' h h' done a fits = refl
  Taken-recorded (message meta msg ∷ ms) w w' h h' (then_took {t = (v, k)} run passed taken) a
        fits =
      let log : Log fl = view fl hdf laws w.group h in
      let next : Log fl = recorded fl w meta msg log in
      let fits_next : Fits next = omega (arith, recorded_all-Grows fl w ms next, fits) in
      let v_same : SameRun w v =
        subst (λ (x : State fl hdf). SameRun w x.0) (ap (λ y. y.1) run)
          (on_message-SameRun fl hdf meta msg w h) in
      let at_v : view fl hdf laws v.group k ≡ next =
        ap (λ (g : hdf.Location). view fl hdf laws g k) v_same.0
        ∙ step-recorded meta msg w v h k _ run passed a fits_next in
      let same_records : recorded_all fl v ms (view fl hdf laws v.group k)
          ≡ recorded_all fl w ms next =
        recorded_all-SameRun fl w v ms (view fl hdf laws v.group k) v_same
        ∙ ap (recorded_all fl w ms) at_v in
      ap (λ (g : hdf.Location). view fl hdf laws g h') (sym v_same.0)
      ∙ Taken-recorded ms v w' k h' taken
          (subst (λ (x : Log fl). IsAligned x) (sym at_v) (recorded-IsAligned fl w meta msg log a))
          (subst (λ (x : Log fl). Fits x) (sym same_records) fits)
      ∙ same_records
  Taken-recorded (stop meta run_stop ∷ ms) w w' h h' (then_stopped {t = (v, k)} run taken) a fits =
      let stopped : Nxeventdata hdf.Location = record w { run_stop_time_ms = run_stop.stop_time } in
      let v_is : (v, k) ≡ (stopped, h) = ap (λ y. y.1) (sym run) in
      Taken-recorded ms stopped w' h h'
        (subst (λ (x : State fl hdf). Taken fl hdf (w', h') ms x) v_is taken) a fits

  module _ (making : CreationLaws hdf laws) where
    -- If a module could be created, and took some messages and run stops, then its data sets hold
    -- just what the run records of these, in their order. The lengths of that are `usize`s.
    pub create-Taken :
        (g : hdf.Location) (run : RunStartParameters) (config : NxeventdataConfig)
        (h₀ h h' : hdf.State) (r : WriterModuleCreateResult (Nxeventdata hdf.Location))
        (ms : List Delivery) (w' : Nxeventdata hdf.Location)
        → create fl hdf g run config h₀ ≡ (ok r, h)
        → Taken fl hdf (w', h') ms (r.module_, h)
        → Fits (recorded_all fl r.module_ ms empty_log)
        → view fl hdf laws g h' ≡ recorded_all fl r.module_ ms empty_log
    create-Taken g run config h₀ h h' r ms w' made taken fits =
        let (empty, is, subs) = create-empty fl hdf laws making g run config h₀ h r made in
        let at_g : r.module_.group ≡ g = ap Nxeventdata.group is in
        let start : view fl hdf laws r.module_.group h ≡ empty_log =
          ap (λ (l : hdf.Location). view fl hdf laws l h) at_g ∙ empty in
        ap (λ (l : hdf.Location). view fl hdf laws l h') (sym at_g)
        ∙ Taken-recorded ms r.module_ w' h h' taken
            (subst (λ (x : Log fl). IsAligned x) (sym start) refl)
            (subst (λ (x : Log fl). Fits (recorded_all fl r.module_ ms x)) (sym start) fits)
        ∙ ap (recorded_all fl r.module_ ms) start

-- ===== src/Writer/Nxeventdata/Building.antt =====
-- writer_modules/nxevent_data.rs: the data sets of a new module among those of its file.
use kafka_file_writer.Base.{String, ◌≡◌, ap, subst}
use kafka_file_writer.Base.Exec.{ok, continue-eq-ok}
use kafka_file_writer.Run.{RunStartParameters}
use kafka_file_writer.Hdf.{Hdf5, ElementType}
use kafka_file_writer.Hdf.Context.{err_parent_dataset}
use kafka_file_writer.Hdf.Laws.{DatasetLaws, CreationLaws, BuildingLaws}
use kafka_file_writer.Hdf.Building.{
  Kept, Kept-trans, with_context-Kept, create_dataset-Kept, add_ascii_string_attribute-Kept,
}
use kafka_file_writer.Writer.{WriterModuleCreateResult}
use kafka_file_writer.Writer.Nxeventdata.{
  Floats, Element, Nxeventdata, NxeventdataConfig, create, init, make_dataset,
}
use kafka_file_writer.Writer.Nxeventdata.Creation.{make_dataset-ok, second_ok, created-ok}

module _ (fl : Floats) (hdf : Hdf5 (Element fl.F64 fl.F32)) (laws : DatasetLaws hdf)
    (making : CreationLaws hdf laws) (building : BuildingLaws hdf laws) where
  open laws use {handle}
  open building use {Made, create_dataset_fresh, create_dataset_made}

  make_dataset-Kept :
      (g : hdf.Location) (type : ElementType) (n : String) (h : hdf.State)
      → Kept hdf laws building h (make_dataset fl hdf g type n h).1
  unfolding make_dataset err_parent_dataset
  make_dataset-Kept g type n h = with_context-Kept hdf laws building _ h _ (
      with_context-Kept hdf laws building _ h (hdf.create_dataset g type 0 32000 n h)
        (create_dataset-Kept hdf laws building g type n h))

  -- The three data sets of a module were made.
  abbrev pub AllMade : hdf.Location → hdf.State → Type 0
  AllMade g h =
      Made (handle g "event_time_zero") h
      × Made (handle g "event_id") h
      × Made (handle g "event_time_offset") h

  -- The data sets of a new module are there, and one of them was not there before.
  abbrev pub NewIn : hdf.Location → (h h' : hdf.State) → Type 0
  NewIn g h h' =
      Kept hdf laws building h h' × AllMade g h' × (¬ Made (handle g "event_time_zero") h)

  init-NewIn :
      (run : RunStartParameters) (w w' : Nxeventdata hdf.Location) (h h' : hdf.State)
      → init fl hdf run (w, h) ≡ (ok tt, (w', h'))
      → NewIn w.group h h'
  unfolding init
  init-NewIn run w w' h h' e =
      let (steps, same) = second_ok fl hdf laws making _ _ w' h' e in
      let (d₁, h₁, e₁, k₁) =
        continue-eq-ok (make_dataset fl hdf w.group ElementType.f64 "event_time_zero" h) _ tt h'
          steps in
      let (d₂, h₂, e₂, k₂) =
        continue-eq-ok (make_dataset fl hdf w.group ElementType.u32 "event_id" h₁) _ tt h' k₁ in
      let (d₃, h₃, e₃, k₃) =
        continue-eq-ok (make_dataset fl hdf w.group ElementType.f32 "event_time_offset" h₂) _ tt h'
          k₂ in
      let made₁ =
        make_dataset-ok fl hdf laws making w.group ElementType.f64 "event_time_zero" d₁ h h₁ e₁ in
      let made₂ =
        make_dataset-ok fl hdf laws making w.group ElementType.u32 "event_id" d₂ h₁ h₂ e₂ in
      let made₃ =
        make_dataset-ok fl hdf laws making w.group ElementType.f32 "event_time_offset" d₃ h₂ h₃
          e₃ in
      let kept₁ : Kept hdf laws building h h₁ =
        subst (λ (s : hdf.State). Kept hdf laws building h s) (ap (λ x. x.1) e₁)
          (make_dataset-Kept w.group ElementType.f64 "event_time_zero" h) in
      let kept₂ : Kept hdf laws building h₁ h₂ =
        subst (λ (s : hdf.State). Kept hdf laws building h₁ s) (ap (λ x. x.1) e₂)
          (make_dataset-Kept w.group ElementType.u32 "event_id" h₁) in
      let kept₃ : Kept hdf laws building h₂ h₃ =
        subst (λ (s : hdf.State). Kept hdf laws building h₂ s) (ap (λ x. x.1) e₃)
          (make_dataset-Kept w.group ElementType.f32 "event_time_offset" h₂) in
      let kept₄ : Kept hdf laws building h₃ h' =
        subst (λ (s : hdf.State). Kept hdf laws building h₃ s) (ap (λ x. x.1) k₃)
          (with_context-Kept hdf laws building _ h₃ _ (
            add_ascii_string_attribute-Kept hdf laws building w.group "NX_class" "NXevent_data"
              h₃)) in
      let kept₂₄ = Kept-trans hdf laws building h₂ h₃ h' kept₃ kept₄ in
      let kept₁₄ = Kept-trans hdf laws building h₁ h₂ h' kept₂ kept₂₄ in
      (
        Kept-trans hdf laws building h h₁ h' kept₁ kept₁₄,
        (
          (kept₁₄ _ (
              create_dataset_made w.group ElementType.f64 32000 "event_time_zero" h h₁ d₁ made₁)).0,
          (kept₂₄ _
              (create_dataset_made w.group ElementType.u32 32000 "event_id" h₁ h₂ d₂ made₂)).0,
          (kept₄ _ (
              create_dataset_made w.group ElementType.f32 32000 "event_time_offset" h₂ h₃ d₃
                made₃)).0,
        ),
        create_dataset_fresh w.group ElementType.f64 32000 "event_time_zero" h h₁ d₁ made₁,
      )

  -- A module that could be created has new data sets.
  pub create-NewIn :
      (g : hdf.Location) (run : RunStartParameters) (config : NxeventdataConfig) (h h' : hdf.State)
      (r : WriterModuleCreateResult (Nxeventdata hdf.Location))
      → create fl hdf g run config h ≡ (ok r, h')
      → NewIn g h h'
  unfolding create
  create-NewIn g run config h h' r e =
      let fresh : Nxeventdata hdf.Location = record {
        config = config;
        group = g;
        run_start_time_ms = run.start_time_ms;
        run_stop_time_ms = run.stop_time_ms;
        latest_message_time_ms = 0;
      } in
      let (ran, _) = created-ok fl hdf laws making _ (init fl hdf run (fresh, h)) r h' e in
      init-NewIn run fresh r.module_ h h' ran

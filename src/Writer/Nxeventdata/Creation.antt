-- ===== src/Writer/Nxeventdata/Creation.antt =====
-- writer_modules/nxevent_data.rs: what a new module finds in its data sets.
use kafka_file_writer.Base.{String, ◌≡◌, ◌≢◌, sym, ap, ◌∙◌, List, [], ◌∷◌}
use kafka_file_writer.Base.Exec.{
  Result, ok, err, continue-eq-ok, on_second_result, map_err_result-eq-ok,
}
use kafka_file_writer.Error.{Hdf5Error, WriterModuleCreationError, initialization_hdf5_error}
use kafka_file_writer.Subscription.{Subscription, SubscriptionKey}
use kafka_file_writer.Run.{RunStartParameters}
use kafka_file_writer.Hdf.{Hdf5, ElementType}
use kafka_file_writer.Hdf.Context.{err_parent_dataset}
use kafka_file_writer.Hdf.Attr.{add_ascii_string_attribute}
use kafka_file_writer.Hdf.Laws.{DatasetLaws, CreationLaws}
use kafka_file_writer.Hdf.Attr.Keeping.{add_ascii_string_attribute-read}
use kafka_file_writer.Writer.{WriterModuleCreateResult}
use kafka_file_writer.Writer.Nxeventdata.{
  Floats, Element, Nxeventdata, NxeventdataConfig, State, create, init, created, make_dataset,
}
use kafka_file_writer.Writer.Nxeventdata.Recording.{
  EventLog, view, zero_ne_id, zero_ne_offset, id_ne_offset,
}

abbrev pub empty_log : {Elem : Type 0} → EventLog Elem
empty_log = record { pulses = []; ids = []; offsets = [] }

module _ (fl : Floats) (hdf : Hdf5 (Element fl.F64 fl.F32)) (laws : DatasetLaws hdf)
    (making : CreationLaws hdf laws) where
  open laws use {handle, read}
  open making use {create_dataset_ok, create_dataset_other}

  pub make_dataset-ok :
      (g : hdf.Location) (type : ElementType) (n : String) (d : hdf.Dataset) (h h' : hdf.State)
      → make_dataset fl hdf g type n h ≡ (ok d, h')
      → hdf.create_dataset g type 0 32000 n h ≡ (ok d, h')
  unfolding make_dataset err_parent_dataset
  make_dataset-ok g type n d h h' e =
      map_err_result-eq-ok _ (hdf.create_dataset g type 0 32000 n h) d h'
        (map_err_result-eq-ok initialization_hdf5_error _ d h' e)

  -- The data set is empty, and the others are as they were.
  abbrev MadeEmpty : hdf.Location → String → (h h' : hdf.State) → Type 0
  MadeEmpty g n h h' =
      (read (handle g n) h' ≡ []) × ((c : hdf.Dataset) → c ≢ handle g n → read c h' ≡ read c h)

  make_dataset-MadeEmpty :
      (g : hdf.Location) (type : ElementType) (n : String) (d : hdf.Dataset) (h h' : hdf.State)
      → make_dataset fl hdf g type n h ≡ (ok d, h')
      → MadeEmpty g n h h'
  make_dataset-MadeEmpty g type n d h h' e =
      let made = make_dataset-ok g type n d h h' e in
      (
        create_dataset_ok g type 32000 n h h' d made,
        λ c ne. create_dataset_other g type 32000 n h h' d c made ne,
      )

  three_empty :
      (g : hdf.Location) (h₀ h₁ h₂ h₃ h₄ : hdf.State)
      → MadeEmpty g "event_time_zero" h₀ h₁
      → MadeEmpty g "event_id" h₁ h₂
      → MadeEmpty g "event_time_offset" h₂ h₃
      → ((c : hdf.Dataset) → read c h₄ ≡ read c h₃)
      → view fl hdf laws g h₄ ≡ empty_log
  three_empty g h₀ h₁ h₂ h₃ h₄ (zero, _) (ids, ids_keep) (offsets, offsets_keep) keep =
      let zero' =
        keep (handle g "event_time_zero")
        ∙ offsets_keep (handle g "event_time_zero") (zero_ne_offset fl hdf laws g)
        ∙ ids_keep (handle g "event_time_zero") (zero_ne_id fl hdf laws g)
        ∙ zero in
      let ids' =
        keep (handle g "event_id")
        ∙ offsets_keep (handle g "event_id") (id_ne_offset fl hdf laws g)
        ∙ ids in
      let offsets' = keep (handle g "event_time_offset") ∙ offsets in cc

  pub second_ok :
      (w : Nxeventdata hdf.Location) (x : Result WriterModuleCreationError (Unit {0}) × hdf.State)
      (w' : Nxeventdata hdf.Location) (h' : hdf.State)
      → on_second_result w x ≡ (ok tt, (w', h'))
      → (x ≡ (ok tt, h')) × (w ≡ w')
  second_ok w (r, h) w' h' e = (cc, cc)

  -- What a success of `init` leaves.
  init-empty :
      (run : RunStartParameters) (w w' : Nxeventdata hdf.Location) (h h' : hdf.State)
      → init fl hdf run (w, h) ≡ (ok tt, (w', h'))
      → (view fl hdf laws w.group h' ≡ empty_log)
        × (w' ≡ record w { run_start_time_ms = run.start_time_ms })
  unfolding init
  init-empty run w w' h h' e =
      let (steps, same) = second_ok _ _ w' h' e in
      let (d₁, h₁, e₁, k₁) =
        continue-eq-ok (make_dataset fl hdf w.group ElementType.f64 "event_time_zero" h) _ tt h'
          steps in
      let (d₂, h₂, e₂, k₂) =
        continue-eq-ok (make_dataset fl hdf w.group ElementType.u32 "event_id" h₁) _ tt h' k₁ in
      let (d₃, h₃, e₃, k₃) =
        continue-eq-ok (make_dataset fl hdf w.group ElementType.f32 "event_time_offset" h₂) _ tt h'
          k₂ in
      (
        three_empty w.group h h₁ h₂ h₃ h'
            (make_dataset-MadeEmpty w.group ElementType.f64 "event_time_zero" d₁ h h₁ e₁)
            (make_dataset-MadeEmpty w.group ElementType.u32 "event_id" d₂ h₁ h₂ e₂)
            (make_dataset-MadeEmpty w.group ElementType.f32 "event_time_offset" d₃ h₂ h₃ e₃)
            (λ c.
              ap (λ (y : Result Hdf5Error (Unit {0}) × hdf.State). read c y.1)
                (sym (
                  map_err_result-eq-ok initialization_hdf5_error
                    (add_ascii_string_attribute hdf w.group "NX_class" "NXevent_data" h₃) tt h' k₃))
              ∙ add_ascii_string_attribute-read hdf laws making w.group "NX_class" "NXevent_data" c
                  h₃),
        sym same,
      )

  pub created-ok :
      (subs : List Subscription) (x : Result WriterModuleCreationError (Unit {0}) × State fl hdf)
      (r : WriterModuleCreateResult (Nxeventdata hdf.Location)) (h' : hdf.State)
      → created fl hdf subs x ≡ (ok r, h')
      → (x ≡ (ok tt, (r.module_, h'))) × (r.subscriptions ≡ subs)
  unfolding created
  created-ok subs (ok tt, (w, h)) r h' e = (cc, cc)
  created-ok subs (err x, (w, h)) r h' e = absurd (cc)

  -- A module that could be created has three empty data sets, subscribes to all keys of its
  -- topic, and has the times of the run.
  pub create-empty :
      (g : hdf.Location) (run : RunStartParameters) (config : NxeventdataConfig) (h h' : hdf.State)
      (r : WriterModuleCreateResult (Nxeventdata hdf.Location))
      → create fl hdf g run config h ≡ (ok r, h')
      → (view fl hdf laws g h' ≡ empty_log)
        × (r.module_ ≡ record {
          config = config;
          group = g;
          run_start_time_ms = run.start_time_ms;
          run_stop_time_ms = run.stop_time_ms;
          latest_message_time_ms = 0;
        })
        × (r.subscriptions ≡ record { topic = config.topic; key = SubscriptionKey.all } ∷ [])
  unfolding create
  create-empty g run config h h' r e =
      let fresh : Nxeventdata hdf.Location = record {
        config = config;
        group = g;
        run_start_time_ms = run.start_time_ms;
        run_stop_time_ms = run.stop_time_ms;
        latest_message_time_ms = 0;
      } in
      let (ran, subs) = created-ok _ (init fl hdf run (fresh, h)) r h' e in
      let (empty, is) = init-empty run fresh r.module_ h h' ran in (empty, is, subs)

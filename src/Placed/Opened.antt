-- ===== src/Placed/Opened.antt =====
-- run_writer/placed_writer.rs and writer_modules/mod.rs: what a writer of one of this program's modules
-- is when it was just created and placed.
use kafka_file_writer.Base.{
  String, ◌≡◌, refl, sym, ap, subst, ◌∙◌, Option, none, some, List, [], ◌∷◌, Bool-cases, inl, inr,
}
use kafka_file_writer.Base.Equality.{◌==◌, string_eq}
use kafka_file_writer.Base.Map
use kafka_file_writer.Base.Exec.{Result, ok, err, continue-eq-ok}
use kafka_file_writer.Error.{Cause, WriterModuleCreationError}
use kafka_file_writer.Subscription.{Subscription, SubscriptionKey}
use kafka_file_writer.Json.{Value}
use kafka_file_writer.Structure.{NexusWriterModule}
use kafka_file_writer.Run.{RunStartParameters}
use kafka_file_writer.Hdf.{Hdf5}
use kafka_file_writer.Hdf.Laws.{DatasetLaws, CreationLaws, BuildingLaws}
use kafka_file_writer.Hdf.Building.{Kept, Kept-refl}
use kafka_file_writer.Writer.{WriterModuleCreateResult, WriterModuleSpec}
use kafka_file_writer.Writer.Factories
use kafka_file_writer.Writer.Factories.{WriterModuleCreateFn, create_writer_module, parse_config}
use kafka_file_writer.Writer.Ixseblock
use kafka_file_writer.Writer.Ixseblock.{Ixseblock, IxseblockConfig}
use kafka_file_writer.Writer.Nxeventdata
use kafka_file_writer.Writer.Nxeventdata.{Floats, Element, Nxeventdata, NxeventdataConfig}
use kafka_file_writer.Writer.Nxeventdata.Recording.{view}
use kafka_file_writer.Writer.Nxeventdata.Creation.{empty_log, create-empty}
use kafka_file_writer.Writer.Nxeventdata.Building.{NewIn, create-NewIn}
use kafka_file_writer.Writer.Registry
use kafka_file_writer.Writer.Registry.{
  AnyWriter, ixseblock, nxeventdata, writer_modules, default_registry,
}
use kafka_file_writer.Placed.{PlacedWriter, placed, make, new}

module _ {G S W : Type 0} where
  -- What a creation function that succeeds has done.
  create_writer_module-eq-ok :
      (M : WriterModuleSpec G S) (boxed : M.Module → W) (g : G) (run : RunStartParameters)
      (value : Value) (r : WriterModuleCreateResult W) (s s' : S)
      → create_writer_module M boxed g run value s ≡ (ok r, s')
      → (config : M.Config) × (made : WriterModuleCreateResult M.Module) × (M.create g run config s
          ≡ (ok made, s'))
        × (r.module_ ≡ boxed made.module_)
        × (r.subscriptions ≡ made.subscriptions)
  unfolding create_writer_module parse_config
  create_writer_module-eq-ok M boxed g run value r s s' e =
      let (config, t, parsed, rest) =
        continue-eq-ok (parse_config M.config M.config_type_name value, s) _ r s' e in
      let same : t ≡ s = ap (λ x. x.1) (sym parsed) in
      let (made, u, ran, last) = continue-eq-ok (M.create g run config t) _ r s' rest in
      (
        config,
        made,
        ap (M.create g run config) (sym same) ∙ ran ∙ ap (λ k. (ok made, k)) (ap (λ x. x.1) last),
        cc,
        cc,
      )

module _ (fl : Floats) (hdf : Hdf5 (Element fl.F64 fl.F32)) (laws : DatasetLaws hdf)
    (making : CreationLaws hdf laws) (building : BuildingLaws hdf laws)
    (run : RunStartParameters) where
  -- A module of events starts with its own three data sets, which are empty, with the times of the
  -- run and a subscription to all keys of its topic.
  abbrev pub Opened : List Subscription → AnyWriter hdf.Location → (h h' : hdf.State) → Type 0
  Opened subs (ixseblock w) h h' = Kept hdf laws building h h'
  Opened subs (nxeventdata w) h h' =
      NewIn fl hdf laws making building w.group h h'
      × (view fl hdf laws w.group h' ≡ empty_log)
      × (w.run_start_time_ms ≡ run.start_time_ms)
      × (w.run_stop_time_ms ≡ run.stop_time_ms)
      × (subs ≡ record { topic = w.config.topic; key = SubscriptionKey.all } ∷ [])

  ixseblock-Opened :
      (from_value : Value → Result Cause IxseblockConfig) (g : hdf.Location) (value : Value)
      (r : WriterModuleCreateResult (AnyWriter hdf.Location)) (h h' : hdf.State)
      → create_writer_module (Ixseblock.spec from_value) ixseblock g run value h ≡ (ok r, h')
      → Opened r.subscriptions r.module_ h h'
  unfolding Ixseblock.create
  ixseblock-Opened from_value g value r h h' e =
      let (config, made, ran, is, subs) =
        create_writer_module-eq-ok (Ixseblock.spec from_value) ixseblock g run value r h h' e in
      let same : h ≡ h' = ap (λ x. x.1) ran in
      subst (λ (w : AnyWriter hdf.Location). Opened r.subscriptions w h h') (sym is)
        (subst (λ (k : hdf.State). Kept hdf laws building h k) same (Kept-refl hdf laws building h))

  nxeventdata-Opened :
      (from_value : Value → Result Cause NxeventdataConfig) (g : hdf.Location) (value : Value)
      (r : WriterModuleCreateResult (AnyWriter hdf.Location)) (h h' : hdf.State)
      → create_writer_module (Nxeventdata.spec fl hdf from_value) nxeventdata g run value h
        ≡ (ok r, h')
      → Opened r.subscriptions r.module_ h h'
  nxeventdata-Opened from_value g value r h h' e =
      let (config, made, ran, is, subs) =
        create_writer_module-eq-ok (Nxeventdata.spec fl hdf from_value) nxeventdata g run value r h
          h' e in
      let (empty, fresh, asks) = create-empty fl hdf laws making g run config h h' made ran in
      let new_in = create-NewIn fl hdf laws making building g run config h h' made ran in
      let at_g : g ≡ made.module_.group =
        ap (λ (w : Nxeventdata hdf.Location). w.group) (sym fresh) in
      let topic : config.topic ≡ made.module_.config.topic =
        ap (λ (w : Nxeventdata hdf.Location). w.config.topic) (sym fresh) in
      subst (λ (w : AnyWriter hdf.Location). Opened r.subscriptions w h h') (sym is)
        (
          subst (λ (k : hdf.Location). NewIn fl hdf laws making building k h h') at_g new_in,
          ap (λ (k : hdf.Location). view fl hdf laws k h') (sym at_g) ∙ empty,
          ap (λ (w : Nxeventdata hdf.Location). w.run_start_time_ms) fresh,
          ap (λ (w : Nxeventdata hdf.Location). w.run_stop_time_ms) fresh,
          subs
              ∙ asks
              ∙ ap (λ (t : String). record { topic = t; key = SubscriptionKey.all } ∷ []) topic,
        )

  module _ (ixseblock_config : Value → Result Cause IxseblockConfig)
      (nxeventdata_config : Value → Result Cause NxeventdataConfig) where
    -- A creation function that gives opened writers.
    abbrev Opens : WriterModuleCreateFn hdf.Location hdf.State (AnyWriter hdf.Location) → Type 0
    Opens factory =
        (g : hdf.Location) (value : Value) (r : WriterModuleCreateResult (AnyWriter hdf.Location))
        (h h' : hdf.State)
        → factory g run value h ≡ (ok r, h')
        → Opened r.subscriptions r.module_ h h'

    registered-Opens :
        (name : String)
        (factory : WriterModuleCreateFn hdf.Location hdf.State (AnyWriter hdf.Location))
        → Factories.get (default_registry fl hdf ixseblock_config nxeventdata_config) name
          ≡ some factory
        → Opens factory
    unfolding Factories.get Registry.default_registry Factories.register_module Factories.register
        Map.insert Map.get
    registered-Opens name factory found = elim (Bool-cases ("IXseblock" == name)) [
      | inl first ↦
          let is : create_writer_module (Ixseblock.spec ixseblock_config) ixseblock ≡ factory =
            let at = (rw first at found) in cc in
          subst Opens is (ixseblock-Opened ixseblock_config)
      | inr e ↦ elim (Bool-cases ("NXevent_data" == name)) [
        | inl second ↦
            let is : create_writer_module (Nxeventdata.spec fl hdf nxeventdata_config) nxeventdata
                ≡ factory =
              let at = (rw (e, second) at found) in cc in
            subst Opens is (nxeventdata-Opened nxeventdata_config)
        | inr e' ↦ let at = (rw (e, e') at found) in absurd (cc)
      ]
    ]

    placed-Opened :
        (parent : hdf.Location) (spec : NexusWriterModule)
        (x : Result WriterModuleCreationError (WriterModuleCreateResult (AnyWriter hdf.Location))
          × hdf.State)
        (w : PlacedWriter hdf.Location (AnyWriter hdf.Location)) (h h' : hdf.State)
        → ((r : WriterModuleCreateResult (AnyWriter hdf.Location)) (k : hdf.State)
            → x ≡ (ok r, k)
            → Opened r.subscriptions r.module_ h k)
        → placed hdf (writer_modules fl hdf) parent spec x ≡ (ok w, h')
        → Opened w.subscriptions w.writer h h'
    unfolding placed
    placed-Opened parent spec (ok r, k) w h h' opens e =
        let same : k ≡ h' = ap (λ x. x.1) e in
        let subs : r.subscriptions ≡ w.subscriptions = cc in
        let is : r.module_ ≡ w.writer = cc in rw (sym same, sym subs, sym is) (opens r k refl)
    placed-Opened parent spec (err x, k) w h h' opens e = absurd (cc)

    make-Opened :
        (parent : hdf.Location) (spec : NexusWriterModule)
        (o : Option (WriterModuleCreateFn hdf.Location hdf.State (AnyWriter hdf.Location)))
        (h h' : hdf.State) (w : PlacedWriter hdf.Location (AnyWriter hdf.Location))
        → ((factory : WriterModuleCreateFn hdf.Location hdf.State (AnyWriter hdf.Location))
            → o ≡ some factory
            → Opens factory)
        → make hdf (writer_modules fl hdf) parent spec run o h ≡ (ok w, h')
        → Opened w.subscriptions w.writer h h'
    unfolding make
    make-Opened parent spec none h h' w opens e = absurd (cc)
    make-Opened parent spec (some factory) h h' w opens e =
        placed-Opened parent spec (factory parent run spec.config h) w h h'
          (λ r k ran. opens factory refl parent spec.config r h k ran) e

    pub new-Opened :
        (parent : hdf.Location) (spec : NexusWriterModule) (h h' : hdf.State)
        (w : PlacedWriter hdf.Location (AnyWriter hdf.Location))
        → new hdf
            (writer_modules fl hdf)
            parent
            spec
            run
            (default_registry fl hdf ixseblock_config nxeventdata_config)
            h
          ≡ (ok w, h')
        → Opened w.subscriptions w.writer h h'
    unfolding new
    new-Opened parent spec h h' w e =
        make-Opened parent spec _ h h' w (registered-Opens spec.module_name) e

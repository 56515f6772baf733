-- ===== src/File/Started.antt =====
-- run_writer/in_progress_file.rs: what `InProgressFile::new` leaves for the modules of events.
use kafka_file_writer.Base.{String, ◌≡◌, refl, sym, ap, subst, ◌∙◌, false, some, [], get_elem?}
use kafka_file_writer.Base.Exec.{
  Result, ok, err, continue, continue-keeps, continue-eq-ok, on_second_result, Exec, with_context,
  pure, ◌>>=◌, ◌>>◌,
}
use kafka_file_writer.Error.{Cause, FileWriterError, hdf5_error}
use kafka_file_writer.Json.{Value}
use kafka_file_writer.Structure.{
  NexusFileStructure, NexusGroup, nexus_group, NexusStructureItem, group, writer_module, invalid,
  NexusStructureItems, nil, cons, Attributes,
}
use kafka_file_writer.Run.{RunStartParameters}
use kafka_file_writer.Router
use kafka_file_writer.Router.{WriterId}
use kafka_file_writer.Hdf.{Hdf5}
use kafka_file_writer.Hdf.Context.{err_parent_dataset}
use kafka_file_writer.Hdf.Attr.{add_root_dataset_attributes}
use kafka_file_writer.Hdf.Laws.{DatasetLaws, CreationLaws, BuildingLaws}
use kafka_file_writer.Hdf.Building.{
  Kept, Kept-trans, with_context-Kept, create_group-Kept, add_root_dataset_attributes-Kept,
}
use kafka_file_writer.Writer.Ixseblock.{IxseblockConfig}
use kafka_file_writer.Writer.Nxeventdata.{Floats, Element, Nxeventdata, NxeventdataConfig}
use kafka_file_writer.Writer.Nxeventdata.Recording.{view}
use kafka_file_writer.Writer.Nxeventdata.Creation.{empty_log}
use kafka_file_writer.Writer.Registry.{AnyWriter, nxeventdata, writer_modules, default_registry}
use kafka_file_writer.Writer.Factories.{WriterModuleFactories}
use kafka_file_writer.Placed
use kafka_file_writer.Placed.Opened.{new-Opened}
use kafka_file_writer.File.{
  File, add_attributes, add_child, add_nexus_group, add_children, use_structure, new,
}
use kafka_file_writer.File.Building.{placed-eq-ok, built-eq-ok, on_second-keeps}
use kafka_file_writer.File.Delivery.{new-IsInSync}
use kafka_file_writer.File.Writers.{Slot}
use kafka_file_writer.File.Following.{Follows}
use kafka_file_writer.File.Opening.{
  add_attributes-Kept, Ready, IsOpen, IsOpen-Kept, add_placed_writer-IsOpen,
}

module _ (fl : Floats) (hdf : Hdf5 (Element fl.F64 fl.F32)) (laws : DatasetLaws hdf)
    (making : CreationLaws hdf laws) (building : BuildingLaws hdf laws) (run : RunStartParameters)
    (ixseblock_config : Value → Result Cause IxseblockConfig)
    (nxeventdata_config : Value → Result Cause NxeventdataConfig) (json_text : Value → String) where
  abbrev Here : Type 0
  Here = File hdf (writer_modules fl hdf)

  abbrev registry : WriterModuleFactories hdf.Location hdf.State (AnyWriter hdf.Location)
  registry = default_registry fl hdf ixseblock_config nxeventdata_config

  abbrev Open : Here → hdf.State → Type 0
  Open = IsOpen fl hdf laws making building run

  -- A group and its attributes, once they are made.
  group_made :
      (x : Result FileWriterError hdf.Location × hdf.State)
      (k : hdf.Location → Here × hdf.State → Result FileWriterError (Unit {0}) × (Here × hdf.State))
      (f f' : Here) (h h' : hdf.State)
      → Kept hdf laws building h x.1
      → continue (on_second_result f x) k ≡ (ok tt, (f', h'))
      → (g : hdf.Location) × (s : hdf.State) × Kept hdf laws building h s
        × (k g (f, s) ≡ (ok tt, (f', h')))
  group_made (ok g, s) k f f' h h' kept e = (g, s, kept, e)
  group_made (err x, s) k f f' h h' kept e = absurd (cc)

  abbrev group_parts :
      hdf.Location → String → Attributes → Exec hdf.State FileWriterError hdf.Location
  group_parts parent name attributes = do
    hdf_group ←
        with_context hdf5_error (err_parent_dataset hdf parent name (hdf.create_group parent name))
    add_attributes hdf (writer_modules fl hdf) hdf_group attributes
    pure hdf_group

  group_parts-Kept :
      (parent : hdf.Location) (name : String) (attributes : Attributes) (h : hdf.State)
      → Kept hdf laws building h (group_parts parent name attributes h).1
  unfolding err_parent_dataset
  group_parts-Kept parent name attributes h =
      continue-keeps (Kept hdf laws building h)
        (with_context hdf5_error (err_parent_dataset hdf parent name (hdf.create_group parent name))
          h)
        _
        (with_context-Kept hdf laws building hdf5_error h _ (
          with_context-Kept hdf laws building _ h (hdf.create_group parent name h)
            (create_group-Kept hdf laws building parent name h)))
        (λ g s k.
          continue-keeps (Kept hdf laws building h)
            (add_attributes hdf (writer_modules fl hdf) g attributes s) _
            (Kept-trans hdf laws building h s _ k
              (add_attributes-Kept fl hdf laws making building g attributes s))
            (λ _ t k'. k'))

  mutual
    unfolding add_child

    add_child-IsOpen :
        (item : NexusStructureItem) (parent : hdf.Location) (f f' : Here) (h h' : hdf.State)
        → add_child hdf (writer_modules fl hdf) registry json_text parent item (f, h)
          ≡ (ok tt, (f', h'))
        → Open f h
        → Open f' h'
    add_child-IsOpen (group g) parent f f' h h' e old =
        add_nexus_group-IsOpen g parent f f' h h' e old
    add_child-IsOpen (writer_module spec) parent f f' h h' e old =
        let (w, made, f'_is) =
          placed-eq-ok hdf (writer_modules fl hdf) registry json_text
            (Placed.new hdf (writer_modules fl hdf) parent spec f.run_start_parameters registry h) f
            f' h' e in
        let made' : Placed.new hdf (writer_modules fl hdf) parent spec run registry h ≡ (ok w, h') =
          ap
            (λ (r : RunStartParameters).
              Placed.new hdf (writer_modules fl hdf) parent spec r registry h)
            (sym old.same_params)
          ∙ made in
        subst (λ (k : Here). Open k h') (sym f'_is)
          (add_placed_writer-IsOpen fl hdf laws making building run w f h h'
            (new-Opened fl hdf laws making building run ixseblock_config nxeventdata_config parent
              spec h h' w made')
            old)
    add_child-IsOpen (invalid json) parent f f' h h' e old = absurd (cc)

    add_nexus_group-IsOpen :
        (g : NexusGroup) (parent : hdf.Location) (f f' : Here) (h h' : hdf.State)
        → add_nexus_group hdf (writer_modules fl hdf) registry json_text parent g (f, h)
          ≡ (ok tt, (f', h'))
        → Open f h
        → Open f' h'
    add_nexus_group-IsOpen (nexus_group type name children attributes) parent f f' h h' e old =
        let (g, s, kept, rest) =
          group_made _ (λ g. add_children hdf (writer_modules fl hdf) registry json_text g children)
            f f' h h' (group_parts-Kept parent name attributes h) e in
        add_children-IsOpen children g f f' s h' rest
          (IsOpen-Kept fl hdf laws making building run f h s kept old)

    add_children-IsOpen :
        (items : NexusStructureItems) (parent : hdf.Location) (f f' : Here) (h h' : hdf.State)
        → add_children hdf (writer_modules fl hdf) registry json_text parent items (f, h)
          ≡ (ok tt, (f', h'))
        → Open f h
        → Open f' h'
    add_children-IsOpen nil parent f f' h h' e old =
        subst (λ (s : Here × hdf.State). Open s.0 s.1) (ap (λ x. x.1) e) old
    add_children-IsOpen (cons child rest) parent f f' h h' e old =
        let (_, (g, k), first, second) =
          continue-eq-ok
            (add_child hdf (writer_modules fl hdf) registry json_text parent child (f, h))
            (λ _. add_children hdf (writer_modules fl hdf) registry json_text parent rest) tt
            (f', h') e in
        add_children-IsOpen rest parent g f' k h' second
          (add_child-IsOpen child parent f g h k (cc) old)

  root_parts-Kept :
      (file : hdf.Location) (attributes : Attributes) (now : String) (h : hdf.State)
      → Kept hdf laws building h
          (continue
            (add_attributes hdf (writer_modules fl hdf) file attributes h)
            (λ _. with_context hdf5_error (add_root_dataset_attributes hdf file now))).1
  root_parts-Kept file attributes now h =
      continue-keeps (Kept hdf laws building h)
        (add_attributes hdf (writer_modules fl hdf) file attributes h) _
        (add_attributes-Kept fl hdf laws making building file attributes h)
        (λ _ s k. Kept-trans hdf laws building h s _ k (
          with_context-Kept hdf laws building hdf5_error s _
            (add_root_dataset_attributes-Kept hdf laws building file now s)))

  -- A file that could be built is open for each of its modules of events.
  pub new-IsOpen :
      (file : hdf.Location) (structure : NexusFileStructure) (now : String) (h h' : hdf.State)
      (f : Here)
      → new hdf (writer_modules fl hdf) registry json_text file run structure now h ≡ (ok f, h')
      → Open f h'
  unfolding new use_structure
  new-IsOpen file structure now h h' f e =
      let started : Here = record {
        file = file;
        writers = [];
        run_start_parameters = run;
        router = Router.default;
        run_stop_received = false;
      } in
      let (_, (g, k), first, second) =
        continue-eq-ok
          (add_children hdf (writer_modules fl hdf) registry json_text file structure.children
            (started, h))
          _ tt (f, h') (built-eq-ok hdf (writer_modules fl hdf) registry json_text _ f h' e) in
      let same : g ≡ f =
        on_second-keeps hdf (writer_modules fl hdf) registry json_text g f _ h' second in
      let open_g : Open g k =
        add_children-IsOpen structure.children file started g h k first (record {
          ready = λ i q at. absurd (cc);
          apart = λ i j p q v w ne at_p at_q. absurd (cc);
          same_params = refl;
        }) in
      let kept : Kept hdf laws building k h' =
        subst (λ (s : hdf.State). Kept hdf laws building k s) (ap (λ x. x.1.1) second)
          (root_parts-Kept file structure.attributes now k) in
      subst (λ (x : Here). Open x h') same
        (IsOpen-Kept fl hdf laws making building run g k h' kept open_g)

  -- In a file that could be built with the default registry, the data sets of every module of events
  -- are empty, the module has the times of the run and one subscription, to all keys of its topic, no
  -- other module of events stands in its group, and the router is in step with the writers.
  pub new-Follows :
      (file : hdf.Location) (structure : NexusFileStructure) (now : String) (h h' : hdf.State)
      (f : Here) (j : WriterId) (slot : Slot hdf.Location) (w : Nxeventdata hdf.Location)
      → new hdf (writer_modules fl hdf) registry json_text file run structure now h ≡ (ok f, h')
      → get_elem? f.writers j ≡ some slot
      → slot.writer ≡ nxeventdata w
      → Follows w.group j w.config.topic w f
        × (view fl hdf laws w.group h' ≡ empty_log)
        × (w.run_start_time_ms ≡ run.start_time_ms)
        × (w.run_stop_time_ms ≡ run.stop_time_ms)
  new-Follows file structure now h h' f j slot w e at is =
      let open_f = new-IsOpen file structure now h h' f e in
      let ready : Ready fl hdf laws making building run slot.subscriptions (nxeventdata w) h' =
        rw is at (open_f.ready j slot at) in
      let (_, empty, from, until, asks) = ready in
      (
        record {
          sync =
              new-IsInSync hdf (writer_modules fl hdf) registry json_text file run structure now h
                h' f e;
          slot = slot;
          module_ = w;
          at = at;
          is = is;
          same_run = (refl, refl, refl);
          asks = asks;
          apart = λ i q ne at_q v q_is same. open_f.apart i j q slot v w ne at_q at q_is is same;
        },
        empty,
        from,
        until,
      )

-- ===== src/File/Opening.antt =====
-- run_writer/in_progress_file.rs: the modules of events of a file that was built from a structure.
use kafka_file_writer.Base.{
  String, ◌≡◌, ◌≢◌, sym, ap, subst, ◌∙◌, some, List, [], ◌∷◌, ◌++◌, get_elem?, get_elem?-snoc_cases,
  inl, inr,
}
use kafka_file_writer.Base.Exec.{continue-keeps}
use kafka_file_writer.Error.{hdf5_error}
use kafka_file_writer.Subscription.{Subscription, SubscriptionKey}
use kafka_file_writer.Json.{Value}
use kafka_file_writer.Structure.{Attributes}
use kafka_file_writer.Run.{RunStartParameters}
use kafka_file_writer.Router.{WriterId}
use kafka_file_writer.Hdf.{Hdf5}
use kafka_file_writer.Hdf.Laws.{DatasetLaws, CreationLaws, BuildingLaws}
use kafka_file_writer.Hdf.Building.{
  Kept, Kept-refl, Kept-trans, with_context-Kept, add_ascii_string_attribute-Kept,
}
use kafka_file_writer.Writer.Nxeventdata.{Floats, Element, Nxeventdata}
use kafka_file_writer.Writer.Nxeventdata.Recording.{view}
use kafka_file_writer.Writer.Nxeventdata.Creation.{empty_log}
use kafka_file_writer.Writer.Nxeventdata.Building.{AllMade}
use kafka_file_writer.Writer.Registry.{AnyWriter, ixseblock, nxeventdata, writer_modules}
use kafka_file_writer.Placed.Opened.{Opened}
use kafka_file_writer.File.{File, add_placed_writer, add_attribute, add_attributes}
use kafka_file_writer.File.Writers.{Slot}

module _ (fl : Floats) (hdf : Hdf5 (Element fl.F64 fl.F32)) (laws : DatasetLaws hdf)
    (making : CreationLaws hdf laws) (building : BuildingLaws hdf laws) where
  open laws use {handle}
  open building use {Made}

  -- Attributes, of which the code passes over those that are no texts.
  add_attribute-Kept :
      (l : hdf.Location) (key : String) (value : Value) (h : hdf.State)
      → Kept hdf laws building h (add_attribute hdf (writer_modules fl hdf) l key value h).1
  unfolding add_attribute
  add_attribute-Kept l key (Value.string value) h =
      with_context-Kept hdf laws building hdf5_error h _
        (add_ascii_string_attribute-Kept hdf laws building l key value h)
  add_attribute-Kept l key _ h = Kept-refl hdf laws building h

  pub add_attributes-Kept :
      (l : hdf.Location) (attributes : Attributes) (h : hdf.State)
      → Kept hdf laws building h (add_attributes hdf (writer_modules fl hdf) l attributes h).1
  unfolding add_attributes
  add_attributes-Kept l [] h = Kept-refl hdf laws building h
  add_attributes-Kept l ((key, value) ∷ rest) h =
      continue-keeps (Kept hdf laws building h)
        (add_attribute hdf (writer_modules fl hdf) l key value h) _
        (add_attribute-Kept l key value h)
        (λ _ s k. Kept-trans hdf laws building h s _ k (add_attributes-Kept l rest s))

  module _ (run : RunStartParameters) where
    -- A module of events that has recorded nothing yet.
    abbrev pub Ready : List Subscription → AnyWriter hdf.Location → hdf.State → Type 0
    Ready subs (ixseblock w) h = Unit
    Ready subs (nxeventdata w) h =
        AllMade fl hdf laws making building w.group h
        × (view fl hdf laws w.group h ≡ empty_log)
        × (w.run_start_time_ms ≡ run.start_time_ms)
        × (w.run_stop_time_ms ≡ run.stop_time_ms)
        × (subs ≡ record { topic = w.config.topic; key = SubscriptionKey.all } ∷ [])

    Ready-Kept :
        (subs : List Subscription) (x : AnyWriter hdf.Location) (h h' : hdf.State)
        → Kept hdf laws building h h'
        → Ready subs x h
        → Ready subs x h'
    Ready-Kept subs (ixseblock w) h h' k ready = tt
    Ready-Kept subs (nxeventdata w) h h' k ((zero, ids, offsets), empty, from, until, asks) =
        let (zero', zero_same) = k (handle w.group "event_time_zero") zero in
        let (ids', ids_same) = k (handle w.group "event_id") ids in
        let (offsets', offsets_same) = k (handle w.group "event_time_offset") offsets in
        let same : view fl hdf laws w.group h' ≡ view fl hdf laws w.group h = cc in
        ((zero', ids', offsets'), same ∙ empty, from, until, asks)

    Opened-Ready :
        (subs : List Subscription) (x : AnyWriter hdf.Location) (h h' : hdf.State)
        → Opened fl hdf laws making building run subs x h h'
        → Kept hdf laws building h h' × Ready subs x h'
    Opened-Ready subs (ixseblock w) h h' k = (k, tt)
    Opened-Ready subs (nxeventdata w) h h' ((k, made, fresh), empty, from, until, asks) =
        (k, (made, empty, from, until, asks))

    abbrev pub AllReady : hdf.State → List (Slot hdf.Location) → Type 0
    AllReady h ws =
        (i : WriterId) (q : Slot hdf.Location)
        → get_elem? ws i ≡ some q
        → Ready q.subscriptions q.writer h

    -- No two modules of events stand in one group.
    abbrev pub AllApart : List (Slot hdf.Location) → Type 0
    AllApart ws =
        (i j : WriterId) (p q : Slot hdf.Location) (v w : Nxeventdata hdf.Location)
        → i ≢ j
        → get_elem? ws i ≡ some p
        → get_elem? ws j ≡ some q
        → p.writer ≡ nxeventdata v
        → q.writer ≡ nxeventdata w
        → v.group ≢ w.group

    AllReady-snoc :
        (ws : List (Slot hdf.Location)) (p : Slot hdf.Location) (h h' : hdf.State)
        → Opened fl hdf laws making building run p.subscriptions p.writer h h'
        → AllReady h ws
        → AllReady h' (ws ++ (p ∷ []))
    AllReady-snoc ws p h h' opened ready i q at =
        let (k, new_ready) = Opened-Ready p.subscriptions p.writer h h' opened in
        elim (get_elem?-snoc_cases ws p i q at) [
          | inl old ↦ Ready-Kept q.subscriptions q.writer h h' k (ready i q old)
          | inr (_, is) ↦
              subst (λ (x : Slot hdf.Location). Ready x.subscriptions x.writer h') (sym is)
                new_ready
        ]

    -- A module that was just opened shares no group with one that was there.
    Opened-apart :
        (p q : Slot hdf.Location) (v w : Nxeventdata hdf.Location) (h h' : hdf.State)
        → Ready p.subscriptions p.writer h
        → Opened fl hdf laws making building run q.subscriptions q.writer h h'
        → p.writer ≡ nxeventdata v
        → q.writer ≡ nxeventdata w
        → v.group ≢ w.group
    Opened-apart p q v w h h' ready opened p_is q_is same =
        let old : Ready p.subscriptions (nxeventdata v) h = rw p_is at ready in
        let fresh : Opened fl hdf laws making building run q.subscriptions (nxeventdata w) h h' =
          rw q_is at opened in
        fresh.0.2 (subst (λ (g : hdf.Location). Made (handle g "event_time_zero") h) same old.0.0)

    AllApart-snoc :
        (ws : List (Slot hdf.Location)) (n : Slot hdf.Location) (h h' : hdf.State)
        → Opened fl hdf laws making building run n.subscriptions n.writer h h'
        → AllReady h ws
        → AllApart ws
        → AllApart (ws ++ (n ∷ []))
    AllApart-snoc ws n h h' opened ready apart i j p q v w ne at_p at_q p_is q_is =
        elim (get_elem?-snoc_cases ws n i p at_p) [
          | inl old_p ↦ elim (get_elem?-snoc_cases ws n j q at_q) [
            | inl old_q ↦ apart i j p q v w ne old_p old_q p_is q_is
            | inr (_, q_new) ↦
                Opened-apart p n v w h h' (ready i p old_p) opened p_is
                  (ap (λ (x : Slot hdf.Location). x.writer) (sym q_new) ∙ q_is)
          ]
          | inr (i_is, p_new) ↦ elim (get_elem?-snoc_cases ws n j q at_q) [
            | inl old_q ↦ λ same.
                Opened-apart q n w v h h' (ready j q old_q) opened q_is
                  (ap (λ (x : Slot hdf.Location). x.writer) (sym p_new) ∙ p_is) (sym same)
            | inr (j_is, _) ↦ absurd (ne (i_is ∙ sym j_is))
          ]
        ]

    -- What holds of the writers of a file while it is built.
    pub record IsOpen (f : File hdf (writer_modules fl hdf)) (h : hdf.State) : Type 0 where
      pub ready : AllReady h f.writers
      pub apart : AllApart f.writers
      pub same_params : f.run_start_parameters ≡ run

    pub IsOpen-Kept :
        (f : File hdf (writer_modules fl hdf)) (h h' : hdf.State)
        → Kept hdf laws building h h'
        → IsOpen f h
        → IsOpen f h'
    IsOpen-Kept f h h' k old = record {
      ready = λ i q at. Ready-Kept q.subscriptions q.writer h h' k (old.ready i q at);
      apart = old.apart;
      same_params = old.same_params;
    }

    pub add_placed_writer-IsOpen :
        (p : Slot hdf.Location) (f : File hdf (writer_modules fl hdf)) (h h' : hdf.State)
        → Opened fl hdf laws making building run p.subscriptions p.writer h h'
        → IsOpen f h
        → IsOpen (add_placed_writer p f) h'
    unfolding add_placed_writer
    add_placed_writer-IsOpen p f h h' opened old = record {
      ready = AllReady-snoc f.writers p h h' opened old.ready;
      apart = AllApart-snoc f.writers p h h' opened old.ready old.apart;
      same_params = old.same_params;
    }

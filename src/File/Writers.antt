-- ===== src/File/Writers.antt =====
-- run_writer/in_progress_file.rs: what the writers of a file stay, over its messages and its run stop.
use kafka_file_writer.Base.{
  zero, suc, ◌≡◌, refl, sym, ◌∙◌, true, Option, none, some, List, [], ◌∷◌, map, get_elem?, set,
}
use kafka_file_writer.Base.Exec.{ok, continue-keeps}
use kafka_file_writer.Message.{KafkaMessageMeta, DeserializedMessage, RunStop}
use kafka_file_writer.Router
use kafka_file_writer.Router.{WriterId}
use kafka_file_writer.Hdf.{Hdf5}
use kafka_file_writer.Writer.Ixseblock
use kafka_file_writer.Writer.Nxeventdata
use kafka_file_writer.Writer.Nxeventdata.{Floats, Element, Nxeventdata}
use kafka_file_writer.Writer.Nxeventdata.Records.{SameRun}
use kafka_file_writer.Writer.Nxeventdata.Life.{on_message-SameRun}
use kafka_file_writer.Writer.Registry
use kafka_file_writer.Writer.Registry.{AnyWriter, nxeventdata, ixseblock, writer_modules}
use kafka_file_writer.Placed
use kafka_file_writer.Placed.{PlacedWriter, on_message-SamePlace, on_message_lem, on_run_stop-ok}
use kafka_file_writer.File.{
  File, notify_one, notify, put_back, on_message, stop_all, stop_rest, keep_first, stopped,
  on_run_stop,
}

abbrev pub Slot : Type 0 → Type 0
Slot G = PlacedWriter G (AnyWriter G)

module _ {G : Type 0} where
  -- The same module, in the same group and the same run.
  abbrev pub SameModule : AnyWriter G → AnyWriter G → Type 0
  SameModule (ixseblock v) (ixseblock w) = Unit
  SameModule (nxeventdata v) (nxeventdata w) = SameRun v w
  SameModule _ _ = ⊥

  SameModule-refl : (x : AnyWriter G) → SameModule x x
  SameModule-refl (ixseblock v) = tt
  SameModule-refl (nxeventdata v) = (refl, refl, refl)

  SameModule-trans : (x y z : AnyWriter G) → SameModule x y → SameModule y z → SameModule x z
  SameModule-trans (ixseblock u) (ixseblock v) (ixseblock w) a b = tt
  SameModule-trans (nxeventdata u) (nxeventdata v) (nxeventdata w) (a, b, c) (a', b', c') =
      (a' ∙ a, b' ∙ b, c' ∙ c)
  SameModule-trans (ixseblock u) (ixseblock v) (nxeventdata w) a b = absurd b
  SameModule-trans (ixseblock u) (nxeventdata v) z a b = absurd a
  SameModule-trans (nxeventdata u) (ixseblock v) z a b = absurd a
  SameModule-trans (nxeventdata u) (nxeventdata v) (ixseblock w) a b = absurd b

  -- The same module, with the same subscriptions.
  abbrev pub Continues : Slot G → Slot G → Type 0
  Continues p q = SameModule p.writer q.writer × (q.subscriptions ≡ p.subscriptions)

  abbrev pub AllContinue : List (Slot G) → List (Slot G) → Type 0
  AllContinue [] [] = Unit
  AllContinue (p ∷ ps) (q ∷ qs) = Continues p q × AllContinue ps qs
  AllContinue _ _ = ⊥

  AllContinue-refl : (ps : List (Slot G)) → AllContinue ps ps
  AllContinue-refl [] = tt
  AllContinue-refl (p ∷ ps) = ((SameModule-refl p.writer, refl), AllContinue-refl ps)

  set-AllContinue :
      (ps qs : List (Slot G)) (i : WriterId) (q q' : Slot G)
      → get_elem? qs i ≡ some q
      → Continues q q'
      → AllContinue ps qs
      → AllContinue ps (set qs i q')
  set-AllContinue [] [] i q q' at c all = absurd (cc)
  set-AllContinue [] (r ∷ qs) i q q' at c all = absurd all
  set-AllContinue (p ∷ ps) [] i q q' at c all = absurd all
  set-AllContinue (p ∷ ps) (r ∷ qs) zero q q' at (same, subs) ((first, old), rest) =
      let is : r ≡ q = cc in
      (
        (SameModule-trans p.writer r.writer q'.writer first (rw is same), subs ∙ rw (sym is) old),
        rest,
      )
  set-AllContinue (p ∷ ps) (r ∷ qs) (suc i) q q' at c (first, rest) =
      (first, set-AllContinue ps qs i q q' at c rest)

  -- What became of a writer, and what a writer was.
  pub AllContinue-after :
      (ps qs : List (Slot G)) (i : WriterId) (p : Slot G)
      → AllContinue ps qs
      → get_elem? ps i ≡ some p
      → (q : Slot G) × (get_elem? qs i ≡ some q) × Continues p q
  AllContinue-after [] qs i p all at = absurd (cc)
  AllContinue-after (r ∷ ps) [] i p all at = absurd all
  AllContinue-after (r ∷ ps) (q ∷ qs) zero p (first, rest) at =
      let is : r ≡ p = cc in (q, refl, rw (sym is) first)
  AllContinue-after (r ∷ ps) (q ∷ qs) (suc i) p (first, rest) at =
      AllContinue-after ps qs i p rest at

  pub AllContinue-before :
      (ps qs : List (Slot G)) (i : WriterId) (q : Slot G)
      → AllContinue ps qs
      → get_elem? qs i ≡ some q
      → (p : Slot G) × (get_elem? ps i ≡ some p) × Continues p q
  AllContinue-before [] [] i q all at = absurd (cc)
  AllContinue-before [] (r ∷ qs) i q all at = absurd all
  AllContinue-before (p ∷ ps) [] i q all at = absurd all
  AllContinue-before (p ∷ ps) (r ∷ qs) zero q (first, rest) at =
      let is : r ≡ q = cc in (p, refl, rw (sym is) first)
  AllContinue-before (p ∷ ps) (r ∷ qs) (suc i) q (first, rest) at =
      AllContinue-before ps qs i q rest at

  -- A run stop tells the modules of events when the run ends.
  abbrev pub stop_writer : RunStop → AnyWriter G → AnyWriter G
  stop_writer run_stop (ixseblock w) = ixseblock w
  stop_writer run_stop (nxeventdata w) =
      nxeventdata (record w { run_stop_time_ms = run_stop.stop_time })

  abbrev pub stop_placed : RunStop → Slot G → Slot G
  stop_placed run_stop p = record p { writer = stop_writer run_stop p.writer }

module _ (fl : Floats) (hdf : Hdf5 (Element fl.F64 fl.F32)) where
  abbrev FileOf : Type 0
  FileOf = File hdf (writer_modules fl hdf)

  module _ (meta : KafkaMessageMeta) (msg : DeserializedMessage) where
    writer-SameModule :
        (x : AnyWriter hdf.Location) (h : hdf.State)
        → SameModule x (Registry.on_message fl hdf meta msg (x, h)).1.0
    unfolding Registry.on_message Ixseblock.on_message
    writer-SameModule (ixseblock w) h = tt
    writer-SameModule (nxeventdata w) h = on_message-SameRun fl hdf meta msg w h

    placed-Continues :
        (p : Slot hdf.Location) (h : hdf.State)
        → Continues p (Placed.on_message hdf (writer_modules fl hdf) meta msg (p, h)).1.0
    placed-Continues p h = (
      rw (on_message_lem hdf (writer_modules fl hdf) meta msg p h) (writer-SameModule p.writer h),
      (on_message-SamePlace hdf (writer_modules fl hdf) meta msg p h).2,
    )

    module _ (ps : List (Slot hdf.Location)) where
      abbrev Since : FileOf × hdf.State → Type 0
      Since (f, h) = AllContinue ps f.writers

      notify_one-Since :
          (i : WriterId) (o : Option (Slot hdf.Location)) (f : FileOf) (h : hdf.State)
          → get_elem? f.writers i ≡ o
          → AllContinue ps f.writers
          → Since (notify_one hdf (writer_modules fl hdf) meta msg i o (f, h)).1
      unfolding notify_one put_back
      notify_one-Since i none f h at all = all
      notify_one-Since i (some p) f h at all =
          set-AllContinue ps f.writers i p _ at (placed-Continues p h) all

      notify-Since :
          (ids : List WriterId) (st : FileOf × hdf.State)
          → Since st
          → Since (notify hdf (writer_modules fl hdf) meta msg ids st).1
      unfolding notify
      notify-Since [] st all = all
      notify-Since (i ∷ ids) (f, h) all =
          continue-keeps Since
            (notify_one hdf (writer_modules fl hdf) meta msg i (get_elem? f.writers i) (f, h)) _
            (notify_one-Since i (get_elem? f.writers i) f h refl all)
            (λ a st k. notify-Since ids st k)

    pub on_message-AllContinue :
        (f : FileOf) (h : hdf.State)
        → AllContinue f.writers (on_message hdf (writer_modules fl hdf) meta msg (f, h)).1.0.writers
    unfolding on_message
    on_message-AllContinue f h =
        notify-Since f.writers (Router.writers_for f.router meta) (f, h)
          (AllContinue-refl f.writers)

  module _ (meta : KafkaMessageMeta) (run_stop : RunStop) where
    writer-stop :
        (x : AnyWriter hdf.Location) (h : hdf.State)
        → Registry.on_run_stop fl hdf meta run_stop (x, h) ≡ (ok tt, (stop_writer run_stop x, h))
    unfolding Registry.on_run_stop Ixseblock.on_run_stop Nxeventdata.on_run_stop
    writer-stop (ixseblock w) h = refl
    writer-stop (nxeventdata w) h = refl

    placed-stop :
        (p : Slot hdf.Location) (h : hdf.State)
        → Placed.on_run_stop hdf (writer_modules fl hdf) meta run_stop (p, h)
          ≡ (ok tt, (stop_placed run_stop p, h))
    placed-stop p h =
        on_run_stop-ok hdf (writer_modules fl hdf) meta run_stop p h h
          (stop_writer run_stop p.writer) (writer-stop p.writer h)

    stop_all-map :
        (ps : List (Slot hdf.Location)) (h : hdf.State)
        → stop_all hdf (writer_modules fl hdf) meta run_stop ps h
          ≡ (ok tt, (map (stop_placed run_stop) ps, h))
    unfolding stop_all stop_rest keep_first
    stop_all-map [] h = refl
    stop_all-map (p ∷ ps) h = rw (placed-stop p h, stop_all-map ps h)

    -- With the modules of this program, a run stop never fails and calls nothing of HDF5: every module
    -- of events in the file takes its stop time, the other modules stay as they are, and the file has
    -- received it.
    pub on_run_stop-map :
        (f : FileOf) (h : hdf.State)
        → on_run_stop hdf (writer_modules fl hdf) meta run_stop (f, h) ≡ (
          ok tt,
          (
            record f { writers = map (stop_placed run_stop) f.writers; run_stop_received = true },
            h,
          ),
        )
    unfolding on_run_stop stopped
    on_run_stop-map f h = rw (stop_all-map f.writers h)

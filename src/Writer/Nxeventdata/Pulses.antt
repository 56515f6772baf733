-- ===== src/Writer/Nxeventdata/Pulses.antt =====
-- writer_modules/nxevent_data.rs: what a pulse message adds to its data set.
use kafka_file_writer.Base.{
  ℕ, ◌+◌, ◌<◌, ◌≤◌, ◌^◌, ◌≡◌, ◌≢◌, sym, ap, subst, ◌∙◌, List, [], ◌∷◌, ◌++◌, length, take, arith,
  false, some,
}
use kafka_file_writer.Base.Int.{pos, add_usize}
use kafka_file_writer.Base.Exec.{ok, continue-eq-ok, on_second}
use kafka_file_writer.Message.{KafkaMessageMeta, PulseMetadata, pulse_metadata_pu00}
use kafka_file_writer.Hdf.{Hdf5}
use kafka_file_writer.Hdf.Laws.{DatasetLaws}
use kafka_file_writer.Writer.Nxeventdata.{
  Floats, Element, f64, Nxeventdata, on_message, timed, stamped, write_message, write_pulse,
  grow_pulse, open_dataset, resize, write_slice,
}
use kafka_file_writer.Writer.Nxeventdata.Append.{open_dataset-ok, resize-ok, write_slice-ok}
use kafka_file_writer.Writer.Nxeventdata.Window.{outside, on_second-eq-ok}

module _ {Elem : Type 0} (hdf : Hdf5 Elem) (laws : DatasetLaws hdf) where
  open laws use {read, resize_grow, write_ok}

  -- A data set that grows by some elements.
  grow_one :
      (d : hdf.Dataset) (xs : List Elem) (n m : ℕ) (h₀ h₁ h₂ : hdf.State)
      → length (read d h₀) ≡ n
      → n ≤ m
      → hdf.resize d m h₀ ≡ (ok tt, h₁)
      → hdf.write_slice d xs n h₁ ≡ (ok tt, h₂)
      → read d h₂ ≡ read d h₀ ++ xs
  grow_one d xs n m h₀ h₁ h₂ len le r w =
      write_ok d xs n h₁ h₂ w
      ∙ ap (λ (ys : List Elem). ys ++ xs)
          (subst (λ (k : ℕ). take k (read d h₁) ≡ read d h₀) len
            (resize_grow d m h₀ h₁ r (omega (arith, len))))

module _ (fl : Floats) (hdf : Hdf5 (Element fl.F64 fl.F32)) (laws : DatasetLaws hdf) where
  open laws use {handle, read, dataset_ok, size_read, resize_other, write_other}

  -- A success of `write_pulse` was one of each of the two steps by which the data set grows.
  abbrev PulseGrown : (d : hdf.Dataset) → PulseMetadata → (h h' : hdf.State) → Type 0
  PulseGrown d pulse h h' =
      (h₁ : hdf.State) × (hdf.resize d (add_usize (hdf.size d h) 1) h ≡ (ok tt, h₁))
      × (hdf.write_slice d (f64 (fl.to_f64 pulse.reference_time) ∷ []) (hdf.size d h) h₁
          ≡ (ok tt, h'))

  grow_pulse-PulseGrown :
      (pulse : PulseMetadata) (d : hdf.Dataset) (h h' : hdf.State)
      → grow_pulse fl hdf pulse d h ≡ (ok tt, h')
      → PulseGrown d pulse h h'
  unfolding grow_pulse
  grow_pulse-PulseGrown pulse d h h' run =
      let n : ℕ = hdf.size d h in
      let xs : List (Element fl.F64 fl.F32) = f64 (fl.to_f64 pulse.reference_time) ∷ [] in
      let (u, h₁, e₁, k₁) =
        continue-eq-ok (resize fl hdf d (add_usize n 1) h) (λ _. write_slice fl hdf d xs n) tt h'
          run in
      (h₁, resize-ok fl hdf d (add_usize n 1) h h₁ e₁, write_slice-ok fl hdf d xs n h₁ h' k₁)

  write_pulse-PulseGrown :
      (g : hdf.Location) (pulse : PulseMetadata) (h h' : hdf.State)
      → write_pulse fl hdf g pulse h ≡ (ok tt, h')
      → PulseGrown (handle g "event_time_zero") pulse h h'
  unfolding write_pulse
  write_pulse-PulseGrown g pulse h h' run =
      let (d, h₁, e₁, k₁) =
        continue-eq-ok (open_dataset fl hdf g "event_time_zero" h) (grow_pulse fl hdf pulse) tt h'
          run in
      let (d_is, h₁_is) = dataset_ok g _ h h₁ d (open_dataset-ok fl hdf g _ d h h₁ e₁) in
      let run' : grow_pulse fl hdf pulse (handle g "event_time_zero") h ≡ (ok tt, h') = cc in
      grow_pulse-PulseGrown pulse (handle g "event_time_zero") h h' run'

  pub write_pulse-appends :
      (g : hdf.Location) (pulse : PulseMetadata) (h h' : hdf.State)
      → write_pulse fl hdf g pulse h ≡ (ok tt, h')
      → length (read (handle g "event_time_zero") h) + 1 < 2 ^ 64
      → read (handle g "event_time_zero") h'
        ≡ read (handle g "event_time_zero") h ++ (f64 (fl.to_f64 pulse.reference_time) ∷ [])
  write_pulse-appends g pulse h h' run small =
      let d : hdf.Dataset = handle g "event_time_zero" in
      let (h₁, grown, wrote) = write_pulse-PulseGrown g pulse h h' run in
      grow_one hdf laws d _ (hdf.size d h) (add_usize (hdf.size d h) 1) h h₁ h'
        (sym (size_read d h)) (omega (arith, size_read d h)) grown wrote

  pub write_pulse-other :
      (g : hdf.Location) (pulse : PulseMetadata) (h h' : hdf.State) (c : hdf.Dataset)
      → write_pulse fl hdf g pulse h ≡ (ok tt, h')
      → c ≢ handle g "event_time_zero"
      → read c h' ≡ read c h
  write_pulse-other g pulse h h' c run ne =
      let d : hdf.Dataset = handle g "event_time_zero" in
      let (h₁, grown, wrote) = write_pulse-PulseGrown g pulse h h' run in
      write_other d c _ (hdf.size d h) h₁ h' wrote ne
      ∙ resize_other d c (add_usize (hdf.size d h) 1) h h₁ grown ne

  -- A pulse message whose time is in the run, and that is taken without an error, adds its reference
  -- time, as a floating-point number, behind the old elements of the data set of pulse times. The
  -- new length is a `usize`.
  pub on_message-appends_pulse :
      (meta : KafkaMessageMeta) (pulse : PulseMetadata) (t : ℕ) (w w' : Nxeventdata hdf.Location)
      (h h' : hdf.State)
      → meta.timestamp ≡ some (pos t)
      → outside w t ≡ false
      → on_message fl hdf meta (pulse_metadata_pu00 pulse) (w, h) ≡ (ok tt, (w', h'))
      → length (read (handle w.group "event_time_zero") h) + 1 < 2 ^ 64
      → read (handle w.group "event_time_zero") h'
        ≡ read (handle w.group "event_time_zero") h ++ (f64 (fl.to_f64 pulse.reference_time) ∷ [])
  unfolding on_message timed stamped write_message
  on_message-appends_pulse meta pulse t w w' h h' at inside run small =
      let run₁ : timed fl hdf (some (pos t)) (pulse_metadata_pu00 pulse) (w, h)
          ≡ (ok tt, (w', h')) =
        rw at at run in
      let run₂ : on_second (write_pulse fl hdf w.group pulse)
            (record w { latest_message_time_ms = t }, h)
          ≡ (ok tt, (w', h')) =
        rw inside at run₁ in
      let run₃ : write_pulse fl hdf w.group pulse h ≡ (ok tt, h') =
        on_second-eq-ok fl hdf (write_pulse fl hdf w.group pulse)
          (record w { latest_message_time_ms = t }) w' h h' run₂ in
      write_pulse-appends w.group pulse h h' run₃ small

-- ===== src/Writer/Nxeventdata/Invalid.antt =====
-- writer_modules/nxevent_data.rs: which messages the module calls invalid.
use kafka_file_writer.Base.{
  ℕ, String, ◌≡◌, ◌↔◌, ◌≢◌, refl, Bool, true, false, ◌&&◌, not, Option, none, some, List, arith,
  Bool-cases, inl, inr,
}
use kafka_file_writer.Base.Int.{ℤ, pos, negsuc}
use kafka_file_writer.Base.Exec.{Result, ok, err, Exec, continue, map_err_result, on_second_result}
use kafka_file_writer.Error.{Hdf5Error, WriterModuleError, failed_file_write, invalid_data}
use kafka_file_writer.Message.{
  KafkaMessageMeta, DeserializedMessage, PulseMetadata, run_start_pl72, run_stop_6s4t, other,
  pulse_metadata_pu00, event_data_ev44,
}
use kafka_file_writer.Hdf.{Hdf5}
use kafka_file_writer.Writer.Nxeventdata.{
  Floats, Element, Nxeventdata, State, on_message, timed, stamped, write_message, check_events,
  length_mismatch, append_events, grow_events, write_events, write_pulse, grow_pulse, open_dataset,
  resize, write_slice,
}
use kafka_file_writer.Writer.Nxeventdata.Window.{in_window, outside, usable, writable}

-- Events without one of their lists, or with lists of different lengths.
abbrev pub malformed : DeserializedMessage → Bool
malformed (event_data_ev44 ev) = not (usable ev.pixel_id ev.time_of_flight)
malformed _ = false

malformed-unwritable :
    (msg : DeserializedMessage) (b : Bool)
    → (b && malformed msg) ≡ true
    → (b && writable msg) ≡ false
malformed-unwritable (event_data_ev44 ev) b e = ground arith
malformed-unwritable (pulse_metadata_pu00 pulse) b e = ground arith
malformed-unwritable (run_start_pl72 x) b e = ground arith
malformed-unwritable (run_stop_6s4t x) b e = ground arith
malformed-unwritable other b e = ground arith

module _ {S : Type 0} where
  -- The data were not found invalid.
  abbrev NotInvalid : {A : Type 0} → Result WriterModuleError A × S → Type 0
  NotInvalid x = (m : String) → x.0 ≢ err (invalid_data m)

  ok-NotInvalid : (s : S) → NotInvalid (ok tt, s)
  ok-NotInvalid s m e = absurd (cc)

  step-NotInvalid :
      {A : Type 0} (x : Result Hdf5Error A × S) → NotInvalid (map_err_result failed_file_write x)
  step-NotInvalid (ok a, s) m e = absurd (cc)
  step-NotInvalid (err x, s) m e = absurd (cc)

  continue-NotInvalid :
      {A B : Type 0} (x : Result WriterModuleError A × S) (k : A → Exec S WriterModuleError B)
      → NotInvalid x
      → ((a : A) (s : S) → NotInvalid (k a s))
      → NotInvalid (continue x k)
  continue-NotInvalid (ok a, s) k h rest m e = rest a s m e
  continue-NotInvalid (err x, s) k h rest m e = h m (cc)

module _ (fl : Floats) (hdf : Hdf5 (Element fl.F64 fl.F32)) where
  open_dataset-NotInvalid :
      (g : hdf.Location) (n : String) (h : hdf.State) → NotInvalid (open_dataset fl hdf g n h)
  unfolding open_dataset
  open_dataset-NotInvalid g n h = step-NotInvalid _

  resize-NotInvalid : (d : hdf.Dataset) (n : ℕ) (h : hdf.State) → NotInvalid (resize fl hdf d n h)
  unfolding resize
  resize-NotInvalid d n h = step-NotInvalid _

  write_slice-NotInvalid :
      (d : hdf.Dataset) (xs : List (Element fl.F64 fl.F32)) (n : ℕ) (h : hdf.State)
      → NotInvalid (write_slice fl hdf d xs n h)
  unfolding write_slice
  write_slice-NotInvalid d xs n h = step-NotInvalid _

  append_events-NotInvalid :
      (g : hdf.Location) (ids : List ℕ) (tofs : List ℤ) (h : hdf.State)
      → NotInvalid (append_events fl hdf g ids tofs h)
  unfolding append_events grow_events write_events
  append_events-NotInvalid g ids tofs h =
      continue-NotInvalid (open_dataset fl hdf g "event_time_offset" h) _
        (open_dataset-NotInvalid g "event_time_offset" h)
        (λ t s.
          continue-NotInvalid (open_dataset fl hdf g "event_id" s) _
            (open_dataset-NotInvalid g "event_id" s)
            (λ i s₁.
              continue-NotInvalid (resize fl hdf i _ s₁) _ (resize-NotInvalid i _ s₁) (λ _ s₂.
                continue-NotInvalid (resize fl hdf t _ s₂) _ (resize-NotInvalid t _ s₂) (λ _ s₃.
                  continue-NotInvalid (write_slice fl hdf i _ _ s₃) _
                    (write_slice-NotInvalid i _ _ s₃) (λ _ s₄. write_slice-NotInvalid t _ _ s₄)))))

  write_pulse-NotInvalid :
      (g : hdf.Location) (pulse : PulseMetadata) (h : hdf.State)
      → NotInvalid (write_pulse fl hdf g pulse h)
  unfolding write_pulse grow_pulse
  write_pulse-NotInvalid g pulse h =
      continue-NotInvalid (open_dataset fl hdf g "event_time_zero" h) _
        (open_dataset-NotInvalid g "event_time_zero" h)
        (λ d s.
          continue-NotInvalid (resize fl hdf d _ s) _ (resize-NotInvalid d _ s)
            (λ _ s₁. write_slice-NotInvalid d _ _ s₁))

  check_events-NotInvalid :
      (g : hdf.Location) (ids : Option (List ℕ)) (tofs : Option (List ℤ)) (h : hdf.State)
      → usable ids tofs ≡ true
      → NotInvalid (check_events fl hdf g ids tofs h)
  unfolding check_events
  check_events-NotInvalid g none tofs h u = absurd (cc)
  check_events-NotInvalid g (some ids) none h u = absurd (cc)
  check_events-NotInvalid g (some ids) (some tofs) h u =
      rw u (append_events-NotInvalid g ids tofs h)

  write_message-NotInvalid :
      (g : hdf.Location) (msg : DeserializedMessage) (h : hdf.State)
      → malformed msg ≡ false
      → NotInvalid (write_message fl hdf g msg h)
  unfolding write_message
  write_message-NotInvalid g (pulse_metadata_pu00 pulse) h u = write_pulse-NotInvalid g pulse h
  write_message-NotInvalid g (event_data_ev44 ev) h u =
      check_events-NotInvalid g ev.pixel_id ev.time_of_flight h (ground arith)
  write_message-NotInvalid g (run_start_pl72 x) h u = ok-NotInvalid h
  write_message-NotInvalid g (run_stop_6s4t x) h u = ok-NotInvalid h
  write_message-NotInvalid g other h u = ok-NotInvalid h

  second-NotInvalid :
      (w : Nxeventdata hdf.Location) (x : Result WriterModuleError (Unit {0}) × hdf.State)
      → NotInvalid x
      → NotInvalid (on_second_result w x)
  second-NotInvalid w (r, h) n = n

  timed-NotInvalid :
      (o : Option ℤ) (msg : DeserializedMessage) (w : Nxeventdata hdf.Location) (h : hdf.State)
      → (in_window w o && malformed msg) ≡ false
      → NotInvalid (timed fl hdf o msg (w, h))
  unfolding timed stamped
  timed-NotInvalid none msg w h u =
      second-NotInvalid w (write_message fl hdf w.group msg h)
        (write_message-NotInvalid w.group msg h u)
  timed-NotInvalid (some (negsuc t)) msg w h u = λ m e. absurd (cc)
  timed-NotInvalid (some (pos t)) msg w h u = elim (Bool-cases (outside w t)) [
    | inl out ↦ rw out (ok-NotInvalid h)
    | inr inside ↦ rw inside (
        second-NotInvalid (record w { latest_message_time_ms = t })
          (write_message fl hdf w.group msg h)
          (write_message-NotInvalid w.group msg h (rw inside at u)))
  ]

  -- Data were found invalid, before anything was written.
  abbrev FoundInvalid : (h : hdf.State) → Result WriterModuleError (Unit {0}) × hdf.State → Type 0
  FoundInvalid h x = (m : String) × (x ≡ (err (invalid_data m), h))

  check_events-FoundInvalid :
      (g : hdf.Location) (ids : Option (List ℕ)) (tofs : Option (List ℤ)) (h : hdf.State)
      → usable ids tofs ≡ false
      → FoundInvalid h (check_events fl hdf g ids tofs h)
  unfolding check_events length_mismatch
  check_events-FoundInvalid g none tofs h u = (_, refl)
  check_events-FoundInvalid g (some ids) none h u = (_, refl)
  check_events-FoundInvalid g (some ids) (some tofs) h u = rw u (_, refl)

  write_message-FoundInvalid :
      (g : hdf.Location) (msg : DeserializedMessage) (h : hdf.State)
      → malformed msg ≡ true
      → FoundInvalid h (write_message fl hdf g msg h)
  unfolding write_message
  write_message-FoundInvalid g (event_data_ev44 ev) h u =
      check_events-FoundInvalid g ev.pixel_id ev.time_of_flight h (ground arith)
  write_message-FoundInvalid g _ h u = absurd (cc)

  -- The module calls a message invalid.
  abbrev pub CallsInvalid : KafkaMessageMeta → DeserializedMessage → State fl hdf → Type 0
  CallsInvalid meta msg st =
      (m : String) × ((on_message fl hdf meta msg st).0 ≡ err (invalid_data m))

  second-FoundInvalid :
      (w : Nxeventdata hdf.Location) (h : hdf.State)
      (x : Result WriterModuleError (Unit {0}) × hdf.State)
      → FoundInvalid h x
      → (m : String) × ((on_second_result w x).0 ≡ err (invalid_data m))
  second-FoundInvalid w h (r, h') (m, e) = (m, cc)

  timed-FoundInvalid :
      (o : Option ℤ) (msg : DeserializedMessage) (w : Nxeventdata hdf.Location) (h : hdf.State)
      → (in_window w o && malformed msg) ≡ true
      → (m : String) × ((timed fl hdf o msg (w, h)).0 ≡ err (invalid_data m))
  unfolding timed stamped
  timed-FoundInvalid none msg w h u =
      second-FoundInvalid w h _ (write_message-FoundInvalid w.group msg h u)
  timed-FoundInvalid (some (negsuc t)) msg w h u = absurd (cc)
  timed-FoundInvalid (some (pos t)) msg w h u = elim (Bool-cases (outside w t)) [
    | inl out ↦ absurd (ground arith)
    | inr inside ↦ rw inside (
        second-FoundInvalid (record w { latest_message_time_ms = t }) h _
          (write_message-FoundInvalid w.group msg h (rw inside at u)))
  ]

  -- A message is called invalid just if it holds events that lack their pixels or times, or not
  -- as many of the one as of the other, and it did not come outside the run, or has no time.
  pub on_message-invalid :
      (meta : KafkaMessageMeta) (msg : DeserializedMessage) (w : Nxeventdata hdf.Location)
      (h : hdf.State)
      → CallsInvalid meta msg (w, h) ↔ ((in_window w meta.timestamp && malformed msg) ≡ true)
  unfolding on_message
  on_message-invalid meta msg w h = (
    λ (m, e). elim (Bool-cases (in_window w meta.timestamp && malformed msg)) [
      | inl bad ↦ bad
      | inr good ↦ absurd (timed-NotInvalid meta.timestamp msg w h good m e)
    ],
    timed-FoundInvalid meta.timestamp msg w h,
  )

  pub invalid-unwritable :
      (meta : KafkaMessageMeta) (msg : DeserializedMessage) (w : Nxeventdata hdf.Location)
      (h : hdf.State) (m : String)
      → (on_message fl hdf meta msg (w, h)).0 ≡ err (invalid_data m)
      → (in_window w meta.timestamp && writable msg) ≡ false
  invalid-unwritable meta msg w h m e =
      malformed-unwritable msg (in_window w meta.timestamp)
        ((on_message-invalid meta msg w h).0 (m, e))

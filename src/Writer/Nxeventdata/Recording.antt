-- ===== src/Writer/Nxeventdata/Recording.antt =====
-- writer_modules/nxevent_data.rs: the data sets of the module as one log of pulses and events, and
-- what each message adds to it.
use kafka_file_writer.Base.{
  ℕ, ◌<◌, ◌^◌, String, ◌≡◌, ◌≢◌, sym, ap, true, ◌&&◌, Option, none, some, List, [], ◌∷◌, ◌++◌, map,
  length, arith, if◌then◌else◌, Bool-cases, inl, inr, length-append, length-map,
}
use text.Mathlib.TextEquality.{eq_iff}
use kafka_file_writer.Base.Int.{ℤ, pos, negsuc}
use kafka_file_writer.Base.Exec.{ok, on_second}
use kafka_file_writer.Message.{
  KafkaMessageMeta, DeserializedMessage, run_start_pl72, run_stop_6s4t, other, PulseMetadata,
  pulse_metadata_pu00, event_data_ev44,
}
use kafka_file_writer.Hdf.{Hdf5}
use kafka_file_writer.Hdf.Laws.{DatasetLaws}
use kafka_file_writer.Writer.Nxeventdata.{
  Floats, Element, f64, u32, f32, Nxeventdata, on_message, timed, stamped, write_message,
  check_events, write_pulse,
}
use kafka_file_writer.Writer.Nxeventdata.Append.{append_events-appends, append_events-other}
use kafka_file_writer.Writer.Nxeventdata.Pulses.{write_pulse-appends, write_pulse-other}
use kafka_file_writer.Writer.Nxeventdata.Window.{
  in_window, outside, usable, writable, check_events-eq-ok, on_second-eq-ok,
}

-- The pulse times, and the events with their pixels and time offsets.
pub record EventLog (Elem : Type 0) : Type 0 where
  pub pulses : List Elem
  pub ids : List Elem
  pub offsets : List Elem

module _ {Elem : Type 0} where
  log-ext :
      (a b : EventLog Elem) → a.pulses ≡ b.pulses → a.ids ≡ b.ids → a.offsets ≡ b.offsets → a ≡ b
  log-ext a b p i o = cc

  -- Every event has a pixel and a time offset.
  abbrev pub IsAligned : EventLog Elem → Type 0
  IsAligned log = length log.ids ≡ length log.offsets

  -- The lengths are `usize`s.
  abbrev pub Fits : EventLog Elem → Type 0
  Fits log = (length log.pulses < 2 ^ 64) × (length log.ids < 2 ^ 64)

module _ (fl : Floats) where
  abbrev pub Log : Type 0
  Log = EventLog (Element fl.F64 fl.F32)

  abbrev pub with_events : Option (List ℕ) → Option (List ℤ) → Log → Log
  with_events (some ids) (some tofs) log = record log {
    ids = log.ids ++ map u32 ids;
    offsets = log.offsets ++ map (λ t. f32 (fl.to_f32_div_1000 t)) tofs;
  }
  with_events _ _ log = log

  abbrev pub with_message : DeserializedMessage → Log → Log
  with_message (pulse_metadata_pu00 pulse) log = record log {
    pulses = log.pulses ++ (f64 (fl.to_f64 pulse.reference_time) ∷ []);
  }
  with_message (event_data_ev44 ev) log = with_events ev.pixel_id ev.time_of_flight log
  with_message _ log = log

  -- What a run records of a message: nothing of one that came outside the run or that lacks data.
  abbrev pub recorded :
      {G : Type 0} → Nxeventdata G → KafkaMessageMeta → DeserializedMessage → Log → Log
  recorded w meta msg log =
      if in_window w meta.timestamp && writable msg then with_message msg log else log

  with_events-IsAligned :
      (ids : Option (List ℕ)) (tofs : Option (List ℤ)) (log : Log)
      → usable ids tofs ≡ true
      → IsAligned log
      → IsAligned (with_events ids tofs log)
  with_events-IsAligned none tofs log u a = absurd (cc)
  with_events-IsAligned (some ids) none log u a = absurd (cc)
  with_events-IsAligned (some ids) (some tofs) log u a =
      let same : length ids ≡ length tofs = ground arith in
      omega (
        arith,
        length-append log.ids (map u32 ids),
        length-append log.offsets (map (λ t. f32 (fl.to_f32_div_1000 t)) tofs),
        length-map {B = Element fl.F64 fl.F32} u32 ids,
        length-map {B = Element fl.F64 fl.F32} (λ t. f32 (fl.to_f32_div_1000 t)) tofs,
      )

  with_message-IsAligned :
      (msg : DeserializedMessage) (log : Log)
      → writable msg ≡ true
      → IsAligned log
      → IsAligned (with_message msg log)
  with_message-IsAligned (pulse_metadata_pu00 pulse) log u a = a
  with_message-IsAligned (event_data_ev44 ev) log u a =
      with_events-IsAligned ev.pixel_id ev.time_of_flight log u a
  with_message-IsAligned _ log u a = absurd (cc)

  pub recorded-IsAligned :
      {G : Type 0} (w : Nxeventdata G) (meta : KafkaMessageMeta) (msg : DeserializedMessage)
      (log : Log)
      → IsAligned log
      → IsAligned (recorded w meta msg log)
  recorded-IsAligned w meta msg log a =
      elim (Bool-cases (in_window w meta.timestamp && writable msg)) [
        | inl yes' ↦ rw yes' (with_message-IsAligned msg log (ground arith) a)
        | inr no' ↦ rw no' a
      ]

module _ (fl : Floats) (hdf : Hdf5 (Element fl.F64 fl.F32)) (laws : DatasetLaws hdf) where
  open laws use {handle, read, handle_injective}

  -- The log in the data sets of a group.
  abbrev pub view : hdf.Location → hdf.State → Log fl
  view g h = record {
    pulses = read (handle g "event_time_zero") h;
    ids = read (handle g "event_id") h;
    offsets = read (handle g "event_time_offset") h;
  }

  handle-ne : (g : hdf.Location) (m n : String) → m ≢ n → handle g m ≢ handle g n
  handle-ne g m n ne e = ne (handle_injective g m n e)

  pub zero_ne_id : (g : hdf.Location) → handle g "event_time_zero" ≢ handle g "event_id"
  zero_ne_id g = handle-ne g _ _ λ e. absurd (ground (arith, eq_iff "event_time_zero" "event_id"))

  pub zero_ne_offset :
      (g : hdf.Location) → handle g "event_time_zero" ≢ handle g "event_time_offset"
  zero_ne_offset g =
      handle-ne g _ _ λ e. absurd (ground (arith, eq_iff "event_time_zero" "event_time_offset"))

  pub id_ne_offset : (g : hdf.Location) → handle g "event_id" ≢ handle g "event_time_offset"
  id_ne_offset g =
      handle-ne g _ _ λ e. absurd (ground (arith, eq_iff "event_id" "event_time_offset"))

  write_pulse-view :
      (g : hdf.Location) (pulse : PulseMetadata) (h h' : hdf.State)
      → write_pulse fl hdf g pulse h ≡ (ok tt, h')
      → Fits (with_message fl (pulse_metadata_pu00 pulse) (view g h))
      → view g h' ≡ with_message fl (pulse_metadata_pu00 pulse) (view g h)
  write_pulse-view g pulse h h' run (small, _) =
      log-ext _ _
        (write_pulse-appends fl hdf laws g pulse h h' run (
          omega (
            arith,
            length-append (read (handle g "event_time_zero") h)
                (f64 (fl.to_f64 pulse.reference_time) ∷ []),
          )))
        (write_pulse-other fl hdf laws g pulse h h' (handle g "event_id") run
          (λ e. zero_ne_id g (sym e)))
        (write_pulse-other fl hdf laws g pulse h h' (handle g "event_time_offset") run
          (λ e. zero_ne_offset g (sym e)))

  check_events-usable :
      (g : hdf.Location) (ids : Option (List ℕ)) (tofs : Option (List ℤ)) (h h' : hdf.State)
      → check_events fl hdf g ids tofs h ≡ (ok tt, h')
      → usable ids tofs ≡ true
  unfolding check_events
  check_events-usable g none tofs h h' run = absurd (cc)
  check_events-usable g (some ids) none h h' run = absurd (cc)
  check_events-usable g (some ids) (some tofs) h h' run = ground arith

  check_events-view :
      (g : hdf.Location) (ids : Option (List ℕ)) (tofs : Option (List ℤ)) (h h' : hdf.State)
      → check_events fl hdf g ids tofs h ≡ (ok tt, h')
      → IsAligned (view g h)
      → Fits (with_events fl ids tofs (view g h))
      → view g h' ≡ with_events fl ids tofs (view g h)
  unfolding check_events
  check_events-view g none tofs h h' run a fits = absurd (cc)
  check_events-view g (some ids) none h h' run a fits = absurd (cc)
  check_events-view g (some ids) (some tofs) h h' run a (_, small) =
      let (counts, appended) = check_events-eq-ok fl hdf g ids tofs h h' run in
      let (new_ids, new_offsets) =
        append_events-appends fl hdf laws g ids tofs h h' appended a counts (
          omega (
            arith,
            length-append (read (handle g "event_id") h) (map u32 ids),
            length-map {B = Element fl.F64 fl.F32} u32 ids,
          )) in
      log-ext _ _
        (append_events-other fl hdf laws g ids tofs h h' (handle g "event_time_zero") appended
          (zero_ne_id g) (zero_ne_offset g))
        new_ids new_offsets

  write_message-view :
      (g : hdf.Location) (msg : DeserializedMessage) (h h' : hdf.State)
      → write_message fl hdf g msg h ≡ (ok tt, h')
      → IsAligned (view g h)
      → Fits (if writable msg then with_message fl msg (view g h) else view g h)
      → view g h' ≡ (if writable msg then with_message fl msg (view g h) else view g h)
  unfolding write_message
  write_message-view g (pulse_metadata_pu00 pulse) h h' run a fits =
      write_pulse-view g pulse h h' run fits
  write_message-view g (event_data_ev44 ev) h h' run a fits =
      let data_there = check_events-usable g ev.pixel_id ev.time_of_flight h h' run in
      rw data_there
        (check_events-view g ev.pixel_id ev.time_of_flight h h' run a (rw data_there at fits))
  write_message-view g (run_start_pl72 m) h h' run a fits = ap (view g) (cc)
  write_message-view g (run_stop_6s4t m) h h' run a fits = ap (view g) (cc)
  write_message-view g other h h' run a fits = ap (view g) (cc)

  timed-recorded :
      (o : Option ℤ) (msg : DeserializedMessage) (w w' : Nxeventdata hdf.Location)
      (h h' : hdf.State)
      → timed fl hdf o msg (w, h) ≡ (ok tt, (w', h'))
      → IsAligned (view w.group h)
      → Fits (
          if in_window w o && writable msg
          then with_message fl msg (view w.group h)
          else view w.group h)
      → view w.group h' ≡ (
          if in_window w o && writable msg
          then with_message fl msg (view w.group h)
          else view w.group h)
  unfolding timed stamped
  timed-recorded none msg w w' h h' run a fits =
      write_message-view w.group msg h h'
        (on_second-eq-ok fl hdf (write_message fl hdf w.group msg) w w' h h' run) a fits
  timed-recorded (some (negsuc t)) msg w w' h h' run a fits = absurd (cc)
  timed-recorded (some (pos t)) msg w w' h h' run a fits = elim (Bool-cases (outside w t)) [
    | inl out ↦ let same : h ≡ h' = ground arith in rw out (ap (view w.group) (sym same))
    | inr inside ↦
        let run' : on_second (write_message fl hdf w.group msg)
              (record w { latest_message_time_ms = t }, h)
            ≡ (ok tt, (w', h')) =
          rw inside at run in
        rw inside (
          write_message-view w.group msg h h'
            (on_second-eq-ok fl hdf (write_message fl hdf w.group msg)
              (record w { latest_message_time_ms = t }) w' h h' run')
            a (rw inside at fits))
  ]

  -- A message that is taken without an error leaves the log as it was, with what the run records of
  -- the message behind it. The log has as many pixels as time offsets before, and the lengths
  -- after are `usize`s.
  pub on_message-recorded :
      (meta : KafkaMessageMeta) (msg : DeserializedMessage) (w w' : Nxeventdata hdf.Location)
      (h h' : hdf.State)
      → on_message fl hdf meta msg (w, h) ≡ (ok tt, (w', h'))
      → IsAligned (view w.group h)
      → Fits (recorded fl w meta msg (view w.group h))
      → view w.group h' ≡ recorded fl w meta msg (view w.group h)
  unfolding on_message
  on_message-recorded meta msg w w' h h' run = timed-recorded meta.timestamp msg w w' h h' run

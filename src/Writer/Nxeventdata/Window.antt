-- ===== src/Writer/Nxeventdata/Window.antt =====
-- writer_modules/nxevent_data.rs: which messages are written, and when the module has
-- finished.
use kafka_file_writer.Base.{
  ℕ, ◌+◌, ◌^◌, ◌<◌, ◌≡◌, refl, sym, ap, List, [], ◌++◌, map, length, arith, Bool, true, false, not,
  ◌||◌, ◌&&◌, Option, none, some, ltb, leb, if◌then◌else◌, Bool-cases, inl, inr,
}
use mathlib.Core.List.{append-nil}
use kafka_file_writer.Base.Equality.{nat_beq}
use kafka_file_writer.Base.Int.{ℤ, pos, negsuc}
use kafka_file_writer.Base.Exec.{ok, on_second}
use kafka_file_writer.Message.{
  KafkaMessageMeta, DeserializedMessage, EventData, pulse_metadata_pu00, event_data_ev44,
}
use kafka_file_writer.Hdf.{Hdf5}
use kafka_file_writer.Hdf.Laws.{DatasetLaws}
use kafka_file_writer.Writer.Nxeventdata.{
  Floats, Element, u32, f32, Nxeventdata, Writes, finished, on_message, timed, stamped,
  write_message, check_events, append_events,
}
use kafka_file_writer.Writer.Nxeventdata.Append.{append_events-appends}

-- The time lies before the run or after it.
abbrev pub outside : {G : Type 0} → Nxeventdata G → ℕ → Bool
outside w t = ltb t w.run_start_time_ms || ltb w.run_stop_time_ms t

-- The time of a message, if it has one, lies in the run.
abbrev pub in_window : {G : Type 0} → Nxeventdata G → Option ℤ → Bool
in_window w none = true
in_window w (some (pos t)) = not (outside w t)
in_window w (some (negsuc t)) = false

-- The event lists are there, and have one length.
abbrev pub usable : Option (List ℕ) → Option (List ℤ) → Bool
usable none tof = false
usable (some ids) none = false
usable (some ids) (some tofs) = nat_beq (length ids) (length tofs)

-- A message of a schema that the module writes, with the data that it needs.
abbrev pub writable : DeserializedMessage → Bool
writable (pulse_metadata_pu00 msg) = true
writable (event_data_ev44 msg) = usable msg.pixel_id msg.time_of_flight
writable _ = false

module _ (fl : Floats) (hdf : Hdf5 (Element fl.F64 fl.F32)) where
  check_events-unusable :
      (g : hdf.Location) (ids : Option (List ℕ)) (tofs : Option (List ℤ)) (h : hdf.State)
      → usable ids tofs ≡ false
      → (check_events fl hdf g ids tofs h).1 ≡ h
  unfolding check_events
  check_events-unusable g none tofs h u = refl
  check_events-unusable g (some ids) none h u = refl
  check_events-unusable g (some ids) (some tofs) h u = rw u

  write_message-unwritable :
      (g : hdf.Location) (msg : DeserializedMessage) (h : hdf.State)
      → writable msg ≡ false
      → (write_message fl hdf g msg h).1 ≡ h
  unfolding write_message
  write_message-unwritable g (pulse_metadata_pu00 msg) h u = absurd (cc)
  write_message-unwritable g (event_data_ev44 msg) h u =
      check_events-unusable g msg.pixel_id msg.time_of_flight h u
  write_message-unwritable g _ h u = refl

  timed-unused :
      (o : Option ℤ) (msg : DeserializedMessage) (w : Nxeventdata hdf.Location) (h : hdf.State)
      → (in_window w o && writable msg) ≡ false
      → (timed fl hdf o msg (w, h)).1.1 ≡ h
  unfolding timed stamped
  timed-unused none msg w h u = write_message-unwritable w.group msg h u
  timed-unused (some (negsuc t)) msg w h u = refl
  timed-unused (some (pos t)) msg w h u = elim (Bool-cases (outside w t)) [
    | inl out ↦ rw out
    | inr inside ↦ rw inside (write_message-unwritable w.group msg h (rw inside at u))
  ]

  -- A message changes no file if its time is negative or not in the run, if the module does not
  -- write its schema, or if an event list is missing or the two have different lengths.
  pub on_message-unused :
      (meta : KafkaMessageMeta) (msg : DeserializedMessage) (w : Nxeventdata hdf.Location)
      (h : hdf.State)
      → (in_window w meta.timestamp && writable msg) ≡ false
      → (on_message fl hdf meta msg (w, h)).1.1 ≡ h
  unfolding on_message
  on_message-unused meta msg w h u = timed-unused meta.timestamp msg w h u

  stamped-writer :
      (t : ℕ) (msg : DeserializedMessage) (w : Nxeventdata hdf.Location) (h : hdf.State)
      → (stamped fl hdf t msg (w, h)).1.0 ≡ record w { latest_message_time_ms = t }
  unfolding stamped
  stamped-writer t msg w h = elim (Bool-cases (outside w t)) [
    | inl out ↦ rw out
    | inr inside ↦ rw inside
  ]

  -- After a message with a time, whatever came of it, the module counts as finished exactly if that
  -- time is not before the end of the run. Messages before it do not matter.
  pub finished-on_message :
      (meta : KafkaMessageMeta) (msg : DeserializedMessage) (w : Nxeventdata hdf.Location)
      (h : hdf.State) (t : ℕ)
      → meta.timestamp ≡ some (pos t)
      → finished (on_message fl hdf meta msg (w, h)).1.0 ≡ leb w.run_stop_time_ms t
  unfolding on_message finished
  finished-on_message meta msg w h t e = rw e (ap finished (stamped-writer t msg w h))

  pub on_second-eq-ok :
      (m : Writes fl hdf) (w w' : Nxeventdata hdf.Location) (h h' : hdf.State)
      → on_second m (w, h) ≡ (ok tt, (w', h'))
      → m h ≡ (ok tt, h')
  on_second-eq-ok m w w' h h' e = cc

  pub check_events-eq-ok :
      (g : hdf.Location) (ids : List ℕ) (tofs : List ℤ) (h h' : hdf.State)
      → check_events fl hdf g (some ids) (some tofs) h ≡ (ok tt, h')
      → (length ids ≡ length tofs) × (append_events fl hdf g ids tofs h ≡ (ok tt, h'))
  unfolding check_events
  check_events-eq-ok g ids tofs h h' e = ground arith

  module _ (laws : DatasetLaws hdf) where
    open laws use {handle, read}

    -- A message of events with a time, both of whose lists are there, and that is taken without an
    -- error: if the time is in the run, then the data sets of pixels and of time offsets, which had
    -- one length, have the events of the message behind their old elements; if not, they have their
    -- old elements. The sum of the lengths is a `usize`.
    pub on_message-appends :
        (meta : KafkaMessageMeta) (ev : EventData) (ids : List ℕ) (tofs : List ℤ) (t : ℕ)
        (w w' : Nxeventdata hdf.Location) (h h' : hdf.State)
        → meta.timestamp ≡ some (pos t)
        → ev.pixel_id ≡ some ids
        → ev.time_of_flight ≡ some tofs
        → on_message fl hdf meta (event_data_ev44 ev) (w, h) ≡ (ok tt, (w', h'))
        → length (read (handle w.group "event_id") h)
          ≡ length (read (handle w.group "event_time_offset") h)
        → length (read (handle w.group "event_id") h) + length ids < 2 ^ 64
        → let new = λ (xs : List (Element fl.F64 fl.F32)). if outside w t then [] else xs in
          (read (handle w.group "event_id") h'
            ≡ read (handle w.group "event_id") h ++ new (map u32 ids))
          × (read (handle w.group "event_time_offset") h'
              ≡ read (handle w.group "event_time_offset") h
                ++ new (map (λ tof. f32 (fl.to_f32_div_1000 tof)) tofs))
    unfolding on_message timed stamped write_message
    on_message-appends meta ev ids tofs t w w' h h' at has_ids has_tofs run same small =
        elim (Bool-cases (outside w t)) [
          | inl out ↦
              let run₁ : timed fl hdf (some (pos t)) (event_data_ev44 ev) (w, h)
                  ≡ (ok tt, (w', h')) =
                rw at at run in
              let same_files : h' ≡ h = ground arith in
              rw (out, same_files) (sym (append-nil _), sym (append-nil _))
          | inr inside ↦
              let run₁ : timed fl hdf (some (pos t)) (event_data_ev44 ev) (w, h)
                  ≡ (ok tt, (w', h')) =
                rw at at run in
              let run₂ : on_second (check_events fl hdf w.group ev.pixel_id ev.time_of_flight)
                    (record w { latest_message_time_ms = t }, h)
                  ≡ (ok tt, (w', h')) =
                rw inside at run₁ in
              let run₃ : check_events fl hdf w.group ev.pixel_id ev.time_of_flight h ≡ (ok tt, h') =
                on_second-eq-ok (check_events fl hdf w.group ev.pixel_id ev.time_of_flight)
                  (record w { latest_message_time_ms = t }) w' h h' run₂ in
              let run₄ : check_events fl hdf w.group (some ids) (some tofs) h ≡ (ok tt, h') =
                rw (has_ids, has_tofs) at run₃ in
              let (counts, appended) = check_events-eq-ok w.group ids tofs h h' run₄ in
              rw inside
                (append_events-appends fl hdf laws w.group ids tofs h h' appended same counts small)
        ]

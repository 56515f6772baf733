-- ===== src/Writer/Nxeventdata/Apart.antt =====
-- writer_modules/nxevent_data.rs: what a module leaves alone in other groups.
use kafka_file_writer.Base.{
  ℕ, String, ◌≡◌, ◌≢◌, sym, ap, ◌∙◌, Option, none, some, List, arith, Bool-cases, inl, inr,
}
use kafka_file_writer.Base.Int.{ℤ, pos, negsuc}
use kafka_file_writer.Base.Exec.{Result, ok, err, on_second}
use kafka_file_writer.Error.{WriterModuleError, invalid_data, failed_file_write, fatal}
use kafka_file_writer.Message.{
  KafkaMessageMeta, DeserializedMessage, run_start_pl72, run_stop_6s4t, other, pulse_metadata_pu00,
  event_data_ev44,
}
use kafka_file_writer.Hdf.{Hdf5}
use kafka_file_writer.Hdf.Laws.{DatasetLaws, GroupLaws}
use kafka_file_writer.Writer.Nxeventdata.{
  Floats, Element, Nxeventdata, on_message, timed, stamped, write_message, check_events,
}
use kafka_file_writer.Writer.Nxeventdata.Append.{append_events-other}
use kafka_file_writer.Writer.Nxeventdata.Pulses.{write_pulse-other}
use kafka_file_writer.Writer.Nxeventdata.Window.{
  outside, on_message-unused, check_events-eq-ok, on_second-eq-ok,
}
use kafka_file_writer.Writer.Nxeventdata.Recording.{view}
use kafka_file_writer.Writer.Nxeventdata.Invalid.{invalid-unwritable}
use kafka_file_writer.Writer.Nxeventdata.Life.{Passed}

module _ (fl : Floats) (hdf : Hdf5 (Element fl.F64 fl.F32)) (laws : DatasetLaws hdf) where
  open laws use {handle, read}

  -- A data set that does not belong to the group.
  abbrev Outside : hdf.Dataset → hdf.Location → Type 0
  Outside c g = (n : String) → c ≢ handle g n

  check_events-apart :
      (g : hdf.Location) (ids : Option (List ℕ)) (tofs : Option (List ℤ)) (h h' : hdf.State)
      (c : hdf.Dataset)
      → check_events fl hdf g ids tofs h ≡ (ok tt, h')
      → Outside c g
      → read c h' ≡ read c h
  unfolding check_events
  check_events-apart g none tofs h h' c run out = absurd (cc)
  check_events-apart g (some ids) none h h' c run out = absurd (cc)
  check_events-apart g (some ids) (some tofs) h h' c run out =
      append_events-other fl hdf laws g ids tofs h h' c
        (check_events-eq-ok fl hdf g ids tofs h h' run).1 (out _) (out _)

  write_message-apart :
      (g : hdf.Location) (msg : DeserializedMessage) (h h' : hdf.State) (c : hdf.Dataset)
      → write_message fl hdf g msg h ≡ (ok tt, h')
      → Outside c g
      → read c h' ≡ read c h
  unfolding write_message
  write_message-apart g (pulse_metadata_pu00 pulse) h h' c run out =
      write_pulse-other fl hdf laws g pulse h h' c run (out _)
  write_message-apart g (event_data_ev44 ev) h h' c run out =
      check_events-apart g ev.pixel_id ev.time_of_flight h h' c run out
  write_message-apart g (run_start_pl72 m) h h' c run out = ap (read c) (cc)
  write_message-apart g (run_stop_6s4t m) h h' c run out = ap (read c) (cc)
  write_message-apart g other h h' c run out = ap (read c) (cc)

  timed-apart :
      (o : Option ℤ) (msg : DeserializedMessage) (w w' : Nxeventdata hdf.Location)
      (h h' : hdf.State) (c : hdf.Dataset)
      → timed fl hdf o msg (w, h) ≡ (ok tt, (w', h'))
      → Outside c w.group
      → read c h' ≡ read c h
  unfolding timed stamped
  timed-apart none msg w w' h h' c run out =
      write_message-apart w.group msg h h' c
        (on_second-eq-ok fl hdf (write_message fl hdf w.group msg) w w' h h' run) out
  timed-apart (some (negsuc t)) msg w w' h h' c run out = absurd (cc)
  timed-apart (some (pos t)) msg w w' h h' c run out = elim (Bool-cases (outside w t)) [
    | inl left ↦ let same : h ≡ h' = ground arith in ap (read c) (sym same)
    | inr inside ↦
        let run' : on_second (write_message fl hdf w.group msg)
              (record w { latest_message_time_ms = t }, h)
            ≡ (ok tt, (w', h')) =
          rw inside at run in
        write_message-apart w.group msg h h' c
          (on_second-eq-ok fl hdf (write_message fl hdf w.group msg)
            (record w { latest_message_time_ms = t }) w' h h' run')
          out
  ]

  step-apart :
      (meta : KafkaMessageMeta) (msg : DeserializedMessage) (w w' : Nxeventdata hdf.Location)
      (h h' : hdf.State) (r : Result WriterModuleError (Unit {0})) (c : hdf.Dataset)
      → on_message fl hdf meta msg (w, h) ≡ (r, (w', h'))
      → Passed r
      → Outside c w.group
      → read c h' ≡ read c h
  unfolding on_message
  step-apart meta msg w w' h h' (ok tt) c run p out =
      timed-apart meta.timestamp msg w w' h h' c run out
  step-apart meta msg w w' h h' (err (invalid_data m)) c run p out =
      let left = invalid-unwritable fl hdf meta msg w h m (ap (λ x. x.0) run) in
      let same : h ≡ h' = sym (on_message-unused fl hdf meta msg w h left) ∙ ap (λ x. x.1.1) run in
      ap (read c) (sym same)
  step-apart meta msg w w' h h' (err (failed_file_write e)) c run p out = absurd p
  step-apart meta msg w w' h h' (err (fatal cause context)) c run p out = absurd p

  module _ (groups : GroupLaws hdf laws) where
    -- A module changes nothing of the events of another group.
    pub on_message-apart :
        (meta : KafkaMessageMeta) (msg : DeserializedMessage) (w w' : Nxeventdata hdf.Location)
        (h h' : hdf.State) (r : Result WriterModuleError (Unit {0})) (g : hdf.Location)
        → on_message fl hdf meta msg (w, h) ≡ (r, (w', h'))
        → Passed r
        → w.group ≢ g
        → view fl hdf laws g h' ≡ view fl hdf laws g h
    on_message-apart meta msg w w' h h' r g run p ne =
        let at : (n : String) → read (handle g n) h' ≡ read (handle g n) h = λ n.
          step-apart meta msg w w' h h' r (handle g n) run p
            (λ m e. ne (sym (groups.handle_group g w.group n m e))) in
        let pulses = at "event_time_zero" in
        let ids = at "event_id" in let offsets = at "event_time_offset" in cc

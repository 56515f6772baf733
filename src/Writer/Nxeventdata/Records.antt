-- ===== src/Writer/Nxeventdata/Records.antt =====
-- writer_modules/nxevent_data.rs: what a run records of all that a module is told.
use kafka_file_writer.Base.{
  ℕ, ◌≤◌, ◌≡◌, refl, ap, ◌∙◌, Bool, ◌&&◌, Option, none, some, List, [], ◌∷◌, length, arith,
  if◌then◌else◌, Bool-cases, inl, inr, length-append,
}
use kafka_file_writer.Base.Int.{ℤ, pos, negsuc}
use kafka_file_writer.Message.{
  KafkaMessageMeta, DeserializedMessage, RunStop, run_start_pl72, run_stop_6s4t, other,
  pulse_metadata_pu00, event_data_ev44,
}
use kafka_file_writer.Writer.Nxeventdata.{Floats, Nxeventdata}
use kafka_file_writer.Writer.Nxeventdata.Window.{in_window, writable}
use kafka_file_writer.Writer.Nxeventdata.Recording.{Log, recorded, with_message, with_events}

-- What a module is told: a message, or a run stop.
pub data Delivery : Type 0 where
  message : KafkaMessageMeta → DeserializedMessage → Delivery
  stop : KafkaMessageMeta → RunStop → Delivery

module _ {G : Type 0} where
  -- The same group and the same run.
  abbrev pub SameRun : Nxeventdata G → Nxeventdata G → Type 0
  SameRun w w' =
      (w'.group ≡ w.group)
      × (w'.run_start_time_ms ≡ w.run_start_time_ms)
      × (w'.run_stop_time_ms ≡ w.run_stop_time_ms)

  in_window-SameRun :
      (w w' : Nxeventdata G) (o : Option ℤ) → SameRun w w' → in_window w' o ≡ in_window w o
  in_window-SameRun w w' none s = refl
  in_window-SameRun w w' (some (pos t)) (_, from, until) = cc
  in_window-SameRun w w' (some (negsuc t)) s = refl

module _ (fl : Floats) {G : Type 0} (w : Nxeventdata G) where
  -- A log only grows.
  abbrev pub Grows : Log fl → Log fl → Type 0
  Grows a b = (length a.pulses ≤ length b.pulses) × (length a.ids ≤ length b.ids)

  with_events-Grows :
      (ids : Option (List ℕ)) (tofs : Option (List ℤ)) (log : Log fl)
      → Grows log (with_events fl ids tofs log)
  with_events-Grows none tofs log = omega arith
  with_events-Grows (some ids) none log = omega arith
  with_events-Grows (some ids) (some tofs) log = omega (arith, length-append {0})

  with_message-Grows :
      (msg : DeserializedMessage) (log : Log fl) → Grows log (with_message fl msg log)
  with_message-Grows (pulse_metadata_pu00 pulse) log = omega (arith, length-append {0})
  with_message-Grows (event_data_ev44 ev) log = with_events-Grows ev.pixel_id ev.time_of_flight log
  with_message-Grows (run_start_pl72 m) log = omega arith
  with_message-Grows (run_stop_6s4t m) log = omega arith
  with_message-Grows other log = omega arith

  recorded-Grows :
      (meta : KafkaMessageMeta) (msg : DeserializedMessage) (log : Log fl)
      → Grows log (recorded fl w meta msg log)
  recorded-Grows meta msg log = elim (Bool-cases (in_window w meta.timestamp && writable msg)) [
    | inl taken ↦ rw taken (with_message-Grows msg log)
    | inr left ↦ rw left (omega arith)
  ]

module _ (fl : Floats) {G : Type 0} where
  -- What the run records of some messages. A run stop sets the end of the run for the later ones.
  unfoldable pub recorded_all : Nxeventdata G → List Delivery → Log fl → Log fl
  recorded_all w [] log = log
  recorded_all w (message meta msg ∷ ms) log = recorded_all w ms (recorded fl w meta msg log)
  recorded_all w (stop meta run_stop ∷ ms) log =
      recorded_all (record w { run_stop_time_ms = run_stop.stop_time }) ms log

  pub recorded_all-Grows :
      (w : Nxeventdata G) (ms : List Delivery) (log : Log fl)
      → Grows fl w log (recorded_all w ms log)
  unfolding recorded_all
  recorded_all-Grows w [] log = omega arith
  recorded_all-Grows w (message meta msg ∷ ms) log = omega (
    arith,
    recorded-Grows fl w meta msg log,
    recorded_all-Grows w ms (recorded fl w meta msg log),
  )
  recorded_all-Grows w (stop meta run_stop ∷ ms) log =
      recorded_all-Grows (record w { run_stop_time_ms = run_stop.stop_time }) ms log

pub recorded-SameRun :
    (fl : Floats) {G : Type 0} (w w' : Nxeventdata G) (meta : KafkaMessageMeta)
    (msg : DeserializedMessage) (log : Log fl)
    → SameRun w w'
    → recorded fl w' meta msg log ≡ recorded fl w meta msg log
recorded-SameRun fl w w' meta msg log s =
    ap (λ (b : Bool). if b && writable msg then with_message fl msg log else log)
      (in_window-SameRun w w' meta.timestamp s)

pub recorded_all-SameRun :
    (fl : Floats) {G : Type 0} (w w' : Nxeventdata G) (ms : List Delivery) (log : Log fl)
    → SameRun w w'
    → recorded_all fl w' ms log ≡ recorded_all fl w ms log
unfolding recorded_all
recorded_all-SameRun fl w w' [] log s = refl
recorded_all-SameRun fl w w' (message meta msg ∷ ms) log s =
    recorded_all-SameRun fl w w' ms (recorded fl w' meta msg log) s
    ∙ ap (recorded_all fl w ms) (recorded-SameRun fl w w' meta msg log s)
recorded_all-SameRun fl w w' (stop meta run_stop ∷ ms) log (g, start, _) =
    recorded_all-SameRun fl (record w { run_stop_time_ms = run_stop.stop_time })
      (record w' { run_stop_time_ms = run_stop.stop_time }) ms log (g, start, refl)

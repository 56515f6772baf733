-- ===== src/Task/Prefixes.antt =====
-- run_writer/single_file_write_task.rs: what the first messages of a run leave its modules to record.
use kafka_file_writer.Base.{
  ℕ, String, ◌≡◌, refl, sym, ap, subst, ◌∙◌, Option, none, some, List, [], ◌∷◌, ◌++◌, Bool-cases,
  inl, inr,
}
use kafka_file_writer.Base.Equality.{◌==◌, string_eq}
use kafka_file_writer.Base.Exec.{Result, ok, err}
use kafka_file_writer.Error.{Cause, StreamError}
use kafka_file_writer.Message.{
  Message, DeserializedMessage, run_start_pl72, run_stop_6s4t, pulse_metadata_pu00, event_data_ev44,
  other,
}
use kafka_file_writer.Writer.Nxeventdata.{Floats, Nxeventdata}
use kafka_file_writer.Writer.Nxeventdata.Recording.{Log, recorded}
use kafka_file_writer.Writer.Nxeventdata.Records.{
  Delivery, message, stop, Grows, recorded_all, recorded_all-Grows,
}
use kafka_file_writer.Writer.Nxeventdata.Creation.{empty_log}
use kafka_file_writer.File.History.{addressed}
use kafka_file_writer.JobPool.{Deserializer}
use kafka_file_writer.Task.{is_job}
use kafka_file_writer.Task.Recorded.{parsed_delivery, payload_delivery, deliveries}

addressed-append :
    (topic : String) (as' bs : List Delivery)
    → addressed topic (as' ++ bs) ≡ addressed topic as' ++ addressed topic bs
addressed-append topic [] bs = refl
addressed-append topic (message meta msg ∷ as') bs = elim (Bool-cases (topic == meta.topic)) [
  | inl hit ↦ rw hit (ap (λ l. message meta msg ∷ l) (addressed-append topic as' bs))
  | inr miss ↦ rw miss (addressed-append topic as' bs)
]
addressed-append topic (stop meta run_stop ∷ as') bs =
    ap (λ l. stop meta run_stop ∷ l) (addressed-append topic as' bs)

module _ (deserialize : Deserializer) (job : String) where
  parsed_delivery-append :
      (msg : Message) (r : Result Cause DeserializedMessage) (as' bs : List Delivery)
      → parsed_delivery job msg r (as' ++ bs) ≡ parsed_delivery job msg r as' ++ bs
  parsed_delivery-append msg (ok (run_stop_6s4t run_stop)) as' bs =
      elim (Bool-cases (is_job run_stop.job_id job)) [
        | inl named ↦ rw named
        | inr passed ↦ rw passed
      ]
  parsed_delivery-append msg (ok (run_start_pl72 m)) as' bs = refl
  parsed_delivery-append msg (ok (pulse_metadata_pu00 m)) as' bs = refl
  parsed_delivery-append msg (ok (event_data_ev44 m)) as' bs = refl
  parsed_delivery-append msg (ok other) as' bs = refl
  parsed_delivery-append msg (err e) as' bs = refl

  payload_delivery-append :
      (msg : Message) (o : Option (List ℕ)) (as' bs : List Delivery)
      → payload_delivery deserialize job msg o (as' ++ bs)
        ≡ payload_delivery deserialize job msg o as' ++ bs
  payload_delivery-append msg none as' bs = refl
  payload_delivery-append msg (some payload) as' bs =
      parsed_delivery-append msg (deserialize payload) as' bs

  deliveries-append :
      (xs ys : List (Result StreamError Message))
      → deliveries deserialize job (xs ++ ys)
        ≡ deliveries deserialize job xs ++ deliveries deserialize job ys
  deliveries-append [] ys = refl
  deliveries-append (ok msg ∷ xs) ys =
      ap (payload_delivery deserialize job msg msg.payload) (deliveries-append xs ys)
      ∙ payload_delivery-append msg msg.payload (deliveries deserialize job xs)
          (deliveries deserialize job ys)
  deliveries-append (err e ∷ xs) ys = deliveries-append xs ys

-- What comes later only adds to a log.
recorded_all-append :
    (fl : Floats) {G : Type 0} (w : Nxeventdata G) (as' bs : List Delivery) (log : Log fl)
    → Grows fl w (recorded_all fl w as' log) (recorded_all fl w (as' ++ bs) log)
unfolding recorded_all
recorded_all-append fl w [] bs log = recorded_all-Grows fl w bs log
recorded_all-append fl w (message meta msg ∷ as') bs log =
    recorded_all-append fl w as' bs (recorded fl w meta msg log)
recorded_all-append fl w (stop meta run_stop ∷ as') bs log =
    recorded_all-append fl (record w { run_stop_time_ms = run_stop.stop_time }) as' bs log

module _ (fl : Floats) (deserialize : Deserializer) {G : Type 0} where
  -- What a module has to record of the messages of a run.
  abbrev pub to_record : Nxeventdata G → String → List (Result StreamError Message) → Log fl
  to_record w job ms =
      recorded_all fl w (addressed w.config.topic (deliveries deserialize job ms)) empty_log

  pub to_record-Grows :
      (w : Nxeventdata G) (job : String) (used rest : List (Result StreamError Message))
      → Grows fl w (to_record w job used) (to_record w job (used ++ rest))
  to_record-Grows w job used rest =
      let split =
        ap (addressed w.config.topic) (deliveries-append deserialize job used rest)
        ∙ addressed-append w.config.topic (deliveries deserialize job used)
            (deliveries deserialize job rest) in
      subst
        (λ (l : List Delivery). Grows fl w (to_record w job used) (recorded_all fl w l empty_log))
        (sym split) (recorded_all-append fl w _ _ empty_log)

-- ===== src/Task/Ending.antt =====
-- run_writer/single_file_write_task.rs: how the loop of a run ends, and which messages concern
-- the run.
use kafka_file_writer.Base.{
  ℕ, String, ◌≡◌, ◌≢◌, refl, ap, sym, ◌∙◌, Bool, true, false, Option, none, some, List,
  if◌then◌else◌,
}
use kafka_file_writer.Base.Equality.{◌==◌, string_eq}
use kafka_file_writer.Base.Exec.{Result, ok, err}
use kafka_file_writer.Base.Loop.{loop_sound}
use kafka_file_writer.Error.{Cause, FileWriterError, StreamError}
use kafka_file_writer.Message.{Message, DeserializedMessage, run_stop_6s4t}
use kafka_file_writer.Stream.{Stream}
use kafka_file_writer.Hdf.{Hdf5}
use kafka_file_writer.Writer.{WriterModule}
use kafka_file_writer.File
use kafka_file_writer.JobPool.{Deserializer}
use kafka_file_writer.Task.{
  Environment, Writing, State, handle_one_message, handle_payload, handle_parsed, handle_stop,
  is_job, round, on_poll, handled, handle_messages_until_run_stop,
}

-- A run stop concerns the job that it names, any other message that parses concerns every job, and
-- what does not parse concerns none.
abbrev pub parsed_concerns : String → Result Cause DeserializedMessage → Bool
parsed_concerns job (ok (run_stop_6s4t run_stop)) = elim run_stop.job_id [
  | none ↦ false
  | some id ↦ id == job
]
parsed_concerns job (ok _) = true
parsed_concerns job (err e) = false

abbrev pub concerns : Deserializer → String → Option (List ℕ) → Bool
concerns deserialize job none = false
concerns deserialize job (some payload) = parsed_concerns job (deserialize payload)

is_job-eq :
    (o : Option String) (job : String)
    → is_job o job ≡ elim o [ none ↦ false | some id ↦ id == job ]
unfolding is_job
is_job-eq none job = refl
is_job-eq (some id) job = refl

module _ {E : Type 0} (hdf : Hdf5 E) (dyn : WriterModule hdf.State)
    (env : Environment hdf dyn) where
  handle_parsed-ignores :
      (msg : Message) (r : Result Cause DeserializedMessage) (f : File.File hdf dyn) (h : hdf.State)
      → parsed_concerns (File.job_id f) r ≡ false
      → handle_parsed hdf dyn env msg r (f, h) ≡ (ok tt, (f, h))
  unfolding handle_parsed handle_stop
  handle_parsed-ignores msg (ok (run_stop_6s4t run_stop)) f h e =
      let other_job : is_job run_stop.job_id (File.job_id f) ≡ false =
        is_job-eq run_stop.job_id (File.job_id f) ∙ e in
      rw other_job refl
  handle_parsed-ignores msg (ok _) f h e = absurd (cc)
  handle_parsed-ignores msg (err _) f h e = refl

  handle_payload-ignores :
      (msg : Message) (o : Option (List ℕ)) (f : File.File hdf dyn) (h : hdf.State)
      → concerns env.deserialize_message (File.job_id f) o ≡ false
      → handle_payload hdf dyn env msg o (f, h) ≡ (ok tt, (f, h))
  unfolding handle_payload
  handle_payload-ignores msg none f h e = refl
  handle_payload-ignores msg (some payload) f h e =
      handle_parsed-ignores msg (env.deserialize_message payload) f h e

  -- A message without a payload, one that does not parse, and a run stop that names another job or
  -- none, is no error and changes neither the file nor its writers.
  pub handle_one_message-ignores :
      (msg : Message) (f : File.File hdf dyn) (h : hdf.State)
      → concerns env.deserialize_message (File.job_id f) msg.payload ≡ false
      → handle_one_message hdf dyn env msg (f, h) ≡ (ok tt, (f, h))
  unfolding handle_one_message
  handle_one_message-ignores msg f h e = handle_payload-ignores msg msg.payload f h e

  module _ (consumer : Stream) where
    handled-ne-ok :
        (x : Result FileWriterError (Unit {0}) × Writing hdf dyn env) (s : consumer.State)
        → (handled hdf dyn env consumer x s).0 ≢ some (ok tt)
    unfolding handled
    handled-ne-ok (ok _, st) s e = absurd (cc)
    handled-ne-ok (err x, st) s e = absurd (cc)

    on_poll-ne-ok :
        (st : Writing hdf dyn env) (x : Option (Result StreamError Message) × consumer.State)
        → (on_poll hdf dyn env consumer st x).0 ≢ some (ok tt)
    unfolding on_poll
    on_poll-ne-ok st (none, s) e = absurd (cc)
    on_poll-ne-ok st (some (err x), s) e = absurd (cc)
    on_poll-ne-ok st (some (ok msg), s) e =
        handled-ne-ok (handle_one_message hdf dyn env msg st) s e

    choice-ok :
        (b : Bool) (t u : State hdf dyn env consumer)
        (w : Option (Result FileWriterError (Unit {0})) × State hdf dyn env consumer)
        → w.0 ≢ some (ok tt)
        → (if b then (some (ok tt), t) else w) ≡ (some (ok tt), u)
        → (b ≡ true) × (t ≡ u)
    choice-ok true t u w ne e = (refl, cc)
    choice-ok false t u w ne e = absurd (ne (ap (λ x. x.0) e))

    -- Whatever the consumer delivers, a loop that returns without an error has finished its file.
    pub handle_messages-finished :
        (fuel : ℕ) (st st' : Writing hdf dyn env) (s s' : consumer.State)
        → handle_messages_until_run_stop hdf dyn env consumer fuel (st, s) ≡ some (ok tt, (st', s'))
        → File.finished hdf dyn st'.0 ≡ true
    unfolding handle_messages_until_run_stop round
    handle_messages-finished fuel st st' s s' e =
        let (n, ((f, h), t), rounds, last) =
          loop_sound (round hdf dyn env consumer) fuel (st, s) (st', s') (ok tt) e in
        let (done, same) =
          choice-ok (File.finished hdf dyn f) ((f, h), t) (st', s') _
            (on_poll-ne-ok (f, h) (consumer.poll env.config.data_consumer_poll_time_ms t)) last in
        ap (λ (x : State hdf dyn env consumer). File.finished hdf dyn x.0.0) (sym same) ∙ done

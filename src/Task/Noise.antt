-- ===== src/Task/Noise.antt =====
-- run_writer/single_file_write_task.rs: what does not concern a run makes no difference to it.
use kafka_file_writer.Base.{
  ℕ, String, ◌≡◌, refl, ap, sym, ◌∙◌, Bool, true, false, Option, none, some, List, [], ◌∷◌, ◌<◌,
  ◌≤◌, length, arith, if◌then◌else◌, Bool-cases, inl, inr,
}
use kafka_file_writer.Base.Exec.{Result, ok, err}
use kafka_file_writer.Error.{Cause, FileWriterError, StreamError}
use kafka_file_writer.Message.{
  Message, DeserializedMessage, run_start_pl72, run_stop_6s4t, pulse_metadata_pu00, event_data_ev44,
  other,
}
use kafka_file_writer.Hdf.{Hdf5}
use kafka_file_writer.Writer.{WriterModule}
use kafka_file_writer.File
use kafka_file_writer.File.Keeping.{on_message-job_id, on_run_stop-job_id}
use kafka_file_writer.JobPool.{Deserializer}
use kafka_file_writer.Task.{
  Environment, Writing, handle_one_message, handle_payload, handle_parsed, handle_stop, is_job,
  meta_of, State, handle_messages_until_run_stop,
}
use kafka_file_writer.Stream.Fake.{FakeStream, fake_stream}
use kafka_file_writer.Task.Messages.{
  Messages, Ended, after_message, write_until_finished, on_stream, handle_messages-eq,
}
use kafka_file_writer.Task.Ending.{concerns, handle_one_message-ignores}

-- The messages that concern a job, without the errors of the stream.
abbrev pub relevant :
    Deserializer → String → List (Result StreamError Message) → List (Result StreamError Message)
relevant deserialize job [] = []
relevant deserialize job (err e ∷ ms) = relevant deserialize job ms
relevant deserialize job (ok msg ∷ ms) =
    let rest = relevant deserialize job ms in
    if concerns deserialize job msg.payload then ok msg ∷ rest else rest

module _ {E : Type 0} (hdf : Hdf5 E) (dyn : WriterModule hdf.State)
    (env : Environment hdf dyn) where
  abbrev pub Job : String → Writing hdf dyn env → Type 0
  Job job (f, h) = File.job_id f ≡ job

  handle_stop-Job :
      (b : Bool) (x : Result FileWriterError (Unit {0}) × Writing hdf dyn env)
      (st : Writing hdf dyn env) (job : String)
      → Job job x.1
      → Job job st
      → Job job (if b then x else (ok tt, st)).1
  handle_stop-Job true x st job p q = p
  handle_stop-Job false x st job p q = q

  handle_parsed-Job :
      (msg : Message) (r : Result Cause DeserializedMessage) (st : Writing hdf dyn env)
      (job : String)
      → Job job st
      → Job job (handle_parsed hdf dyn env msg r st).1
  unfolding handle_parsed handle_stop
  handle_parsed-Job msg (ok (run_stop_6s4t run_stop)) (f, h) job p =
      handle_stop-Job (is_job run_stop.job_id (File.job_id f))
        (File.on_run_stop hdf dyn (meta_of msg) run_stop (f, h)) (f, h) job
        (on_run_stop-job_id hdf dyn (meta_of msg) run_stop f h ∙ p) p
  handle_parsed-Job msg (ok (run_start_pl72 m)) (f, h) job p =
      on_message-job_id hdf dyn (meta_of msg) (run_start_pl72 m) f h ∙ p
  handle_parsed-Job msg (ok (pulse_metadata_pu00 m)) (f, h) job p =
      on_message-job_id hdf dyn (meta_of msg) (pulse_metadata_pu00 m) f h ∙ p
  handle_parsed-Job msg (ok (event_data_ev44 m)) (f, h) job p =
      on_message-job_id hdf dyn (meta_of msg) (event_data_ev44 m) f h ∙ p
  handle_parsed-Job msg (ok other) (f, h) job p =
      on_message-job_id hdf dyn (meta_of msg) other f h ∙ p
  handle_parsed-Job msg (err e) st job p = p

  handle_payload-Job :
      (msg : Message) (o : Option (List ℕ)) (st : Writing hdf dyn env) (job : String)
      → Job job st
      → Job job (handle_payload hdf dyn env msg o st).1
  unfolding handle_payload
  handle_payload-Job msg none st job p = p
  handle_payload-Job msg (some payload) st job p =
      handle_parsed-Job msg (env.deserialize_message payload) st job p

  pub handle_one_message-Job :
      (msg : Message) (st : Writing hdf dyn env) (job : String)
      → Job job st
      → Job job (handle_one_message hdf dyn env msg st).1
  unfolding handle_one_message
  handle_one_message-Job msg st job p = handle_payload-Job msg msg.payload st job p

  -- How it ended, but for the messages that are left.
  abbrev Outcome : Type 0
  Outcome = Option (Result FileWriterError (Unit {0}) × Writing hdf dyn env)

  abbrev pub outcome : Option (Ended hdf dyn env) → Outcome
  outcome none = none
  outcome (some (r, (st, ms))) = some (r, st)

  outcome-finished :
      (ms : Messages hdf dyn env) (f : File.File hdf dyn) (h : hdf.State)
      → File.finished hdf dyn f ≡ true
      → outcome (write_until_finished hdf dyn env ms (f, h)) ≡ some (ok tt, (f, h))
  unfolding write_until_finished
  outcome-finished [] f h e = rw e refl
  outcome-finished (err x ∷ ms) f h e = rw e refl
  outcome-finished (ok msg ∷ ms) f h e = rw e refl

  outcome-after :
      (ms ms' rest rest' : Messages hdf dyn env)
      (x : Result FileWriterError (Unit {0}) × Writing hdf dyn env)
      → outcome (write_until_finished hdf dyn env ms x.1)
        ≡ outcome (write_until_finished hdf dyn env ms' x.1)
      → outcome (after_message hdf dyn env (λ st. write_until_finished hdf dyn env ms st) rest x)
        ≡ outcome
            (after_message hdf dyn env (λ st. write_until_finished hdf dyn env ms' st) rest' x)
  outcome-after ms ms' rest rest' (ok _, st) e = e
  outcome-after ms ms' rest rest' (err x, st) e = refl

  outcome-skip :
      (ms rest : Messages hdf dyn env) (st : Writing hdf dyn env)
      (x : Result FileWriterError (Unit {0}) × Writing hdf dyn env)
      → x ≡ (ok tt, st)
      → outcome (after_message hdf dyn env (λ st. write_until_finished hdf dyn env ms st) rest x)
        ≡ outcome (write_until_finished hdf dyn env ms st)
  outcome-skip ms rest st x e =
      ap
        (λ y.
          outcome (after_message hdf dyn env (λ st. write_until_finished hdf dyn env ms st) rest y))
        e

  pub write_until_finished-relevant :
      (ms : Messages hdf dyn env) (f : File.File hdf dyn) (h : hdf.State) (job : String)
      → File.job_id f ≡ job
      → outcome (write_until_finished hdf dyn env ms (f, h))
        ≡ outcome
            (write_until_finished hdf dyn env (relevant env.deserialize_message job ms) (f, h))
  unfolding write_until_finished
  write_until_finished-relevant [] f h job p = refl
  write_until_finished-relevant (err x ∷ ms) f h job p =
      elim (Bool-cases (File.finished hdf dyn f)) [
        | inl e ↦ rw e (sym (outcome-finished (relevant env.deserialize_message job ms) f h e))
        | inr e ↦ rw e (write_until_finished-relevant ms f h job p)
      ]
  write_until_finished-relevant (ok msg ∷ ms) f h job p =
      elim (Bool-cases (File.finished hdf dyn f)) [
        | inl e ↦
            rw e (sym (outcome-finished (relevant env.deserialize_message job (ok msg ∷ ms)) f h e))
        | inr e ↦ elim (Bool-cases (concerns env.deserialize_message job msg.payload)) [
          | inl c ↦
              rw (c, e)
                (outcome-after ms (relevant env.deserialize_message job ms) ms _
                  (handle_one_message hdf dyn env msg (f, h))
                  (write_until_finished-relevant ms (handle_one_message hdf dyn env msg (f, h)).1.0
                    (handle_one_message hdf dyn env msg (f, h)).1.1 job
                    (handle_one_message-Job msg (f, h) job p)))
          | inr c ↦
              rw (c, e)
                (outcome-skip ms ms (f, h) (handle_one_message hdf dyn env msg (f, h))
                    (handle_one_message-ignores hdf dyn env msg f h
                      (ap (λ j. concerns env.deserialize_message j msg.payload) p ∙ c))
                  ∙ write_until_finished-relevant ms f h job p)
        ]
      ]

  length-relevant :
      (job : String) (ms : Messages hdf dyn env)
      → length (relevant env.deserialize_message job ms) ≤ length ms
  length-relevant job [] = omega arith
  length-relevant job (err e ∷ ms) = omega (arith, length-relevant job ms)
  length-relevant job (ok msg ∷ ms) =
      let shorter : length (relevant env.deserialize_message job ms) ≤ length ms =
        length-relevant job ms in
      elim (Bool-cases (concerns env.deserialize_message job msg.payload)) [
        | inl e ↦ rw e (omega arith)
        | inr e ↦ rw e (omega arith)
      ]

  -- How the loop of a run ended: the result and the file, without the stream.
  abbrev pub without_stream :
      Option (Result FileWriterError (Unit {0}) × State hdf dyn env fake_stream) → Outcome
  without_stream none = none
  without_stream (some (r, (st, s))) = some (r, st)

  on_stream-outcome :
      (s : FakeStream) (o : Option (Ended hdf dyn env))
      → without_stream (on_stream hdf dyn env s o) ≡ outcome o
  on_stream-outcome s none = refl
  on_stream-outcome s (some (r, (st, ms))) = refl

  -- On a fake stream, with more fuel than there are messages, the loop of a run does the same if the
  -- errors of the stream, the messages without a payload, the messages that do not parse, and the run
  -- stops that name another job or none are taken out of the stream beforehand: it fails, ends or
  -- does not end alike, with the same result, the same file, and after the same calls of HDF5.
  pub handle_messages-relevant :
      (fuel : ℕ) (f : File.File hdf dyn) (h : hdf.State) (s : FakeStream) (job : String)
      → File.job_id f ≡ job
      → length s.messages < fuel
      → without_stream (handle_messages_until_run_stop hdf dyn env fake_stream fuel ((f, h), s))
        ≡ without_stream (
            handle_messages_until_run_stop hdf dyn env fake_stream fuel
              ((f, h), record s { messages = relevant env.deserialize_message job s.messages }))
  handle_messages-relevant fuel f h s job p lt =
      let kept : Messages hdf dyn env = relevant env.deserialize_message job s.messages in
      let shorter : length kept ≤ length s.messages = length-relevant job s.messages in
      let s' : FakeStream = record s { messages = kept } in
      ap without_stream (handle_messages-eq hdf dyn env fuel (f, h) s lt)
      ∙ on_stream-outcome s (write_until_finished hdf dyn env s.messages (f, h))
      ∙ write_until_finished-relevant s.messages f h job p
      ∙ sym (on_stream-outcome s' (write_until_finished hdf dyn env kept (f, h)))
      ∙ ap without_stream (sym (handle_messages-eq hdf dyn env fuel (f, h) s' (omega arith)))

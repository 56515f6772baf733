-- ===== src/Task/Recorded.antt =====
-- run_writer/single_file_write_task.rs: what a run hands to its file, and the events that it leaves.
use kafka_file_writer.Base.{
  ℕ, String, ◌≡◌, ◌≢◌, refl, sym, ap, subst, Bool, true, false, Option, none, some, List, [], ◌∷◌,
  ◌++◌, if◌then◌else◌, Bool-cases, inl, inr,
}
use kafka_file_writer.Base.Exec.{Result, ok, err}
use kafka_file_writer.Error.{Cause, FileWriterError, StreamError}
use kafka_file_writer.Message.{
  Message, DeserializedMessage, RunStop, run_start_pl72, run_stop_6s4t, pulse_metadata_pu00,
  event_data_ev44, other,
}
use kafka_file_writer.Hdf.{Hdf5}
use kafka_file_writer.Writer.Nxeventdata.{Floats, Element}
use kafka_file_writer.Writer.Nxeventdata.Records.{Delivery, message, stop}
use kafka_file_writer.Writer.Registry.{writer_modules}
use kafka_file_writer.File
use kafka_file_writer.File.History.{FileTook, took_all, took_message, took_stop}
use kafka_file_writer.JobPool.{Deserializer}
use kafka_file_writer.Task.{
  Environment, Writing, handle_one_message, handle_payload, handle_parsed, handle_stop, is_job,
  meta_of,
}
use kafka_file_writer.Task.Messages.{Messages, Ended, after_message, write_until_finished}
use kafka_file_writer.Task.Noise.{handle_one_message-Job}

-- What a message of the stream is to the file of a job: a run stop only if it names the job, and
-- nothing if it has no payload or does not parse.
abbrev pub parsed_delivery :
    String → Message → Result Cause DeserializedMessage → List Delivery → List Delivery
parsed_delivery job msg (ok (run_stop_6s4t run_stop)) rest =
    if is_job run_stop.job_id job then stop (meta_of msg) run_stop ∷ rest else rest
parsed_delivery job msg (ok m) rest = message (meta_of msg) m ∷ rest
parsed_delivery job msg (err e) rest = rest

abbrev pub payload_delivery :
    Deserializer → String → Message → Option (List ℕ) → List Delivery → List Delivery
payload_delivery deserialize job msg none rest = rest
payload_delivery deserialize job msg (some payload) rest =
    parsed_delivery job msg (deserialize payload) rest

abbrev pub delivered :
    Deserializer → String → Result StreamError Message → List Delivery → List Delivery
delivered deserialize job (err e) rest = rest
delivered deserialize job (ok msg) rest = payload_delivery deserialize job msg msg.payload rest

-- What the messages of the stream are to the file of a job.
abbrev pub deliveries : Deserializer → String → List (Result StreamError Message) → List Delivery
deliveries deserialize job [] = []
deliveries deserialize job (x ∷ ms) = delivered deserialize job x (deliveries deserialize job ms)

module _ (fl : Floats) (hdf : Hdf5 (Element fl.F64 fl.F32))
    (env : Environment hdf (writer_modules fl hdf)) where
  abbrev pub Here : Type 0
  Here = Writing hdf (writer_modules fl hdf) env

  stop-FileTook :
      (b : Bool) (msg : Message) (run_stop : RunStop) (rest : List Delivery) (s t end : Here)
      → (if b
          then File.on_run_stop hdf (writer_modules fl hdf) (meta_of msg) run_stop s
          else (ok tt, s))
        ≡ (ok tt, t)
      → FileTook fl hdf end rest t
      → FileTook fl hdf end (if b then stop (meta_of msg) run_stop ∷ rest else rest) s
  stop-FileTook true msg run_stop rest s t end run took = took_stop run took
  stop-FileTook false msg run_stop rest s t end run took =
      subst (λ (x : Here). FileTook fl hdf end rest x) (ap (λ x. x.1) (sym run)) took

  parsed-FileTook :
      (msg : Message) (r : Result Cause DeserializedMessage) (rest : List Delivery) (s t end : Here)
      (job : String)
      → File.job_id s.0 ≡ job
      → handle_parsed hdf (writer_modules fl hdf) env msg r s ≡ (ok tt, t)
      → FileTook fl hdf end rest t
      → FileTook fl hdf end (parsed_delivery job msg r rest) s
  unfolding handle_parsed handle_stop
  parsed-FileTook msg (ok (run_stop_6s4t run_stop)) rest s t end job is run took =
      subst
        (λ (j : String).
          FileTook fl hdf end
            (if is_job run_stop.job_id j then stop (meta_of msg) run_stop ∷ rest else rest) s)
        is
        (stop-FileTook (is_job run_stop.job_id (File.job_id s.0)) msg run_stop rest s t end run
          took)
  parsed-FileTook msg (ok (run_start_pl72 m)) rest s t end job is run took = took_message run took
  parsed-FileTook msg (ok (pulse_metadata_pu00 m)) rest s t end job is run took =
      took_message run took
  parsed-FileTook msg (ok (event_data_ev44 m)) rest s t end job is run took = took_message run took
  parsed-FileTook msg (ok other) rest s t end job is run took = took_message run took
  parsed-FileTook msg (err e) rest s t end job is run took =
      subst (λ (x : Here). FileTook fl hdf end rest x) (ap (λ x. x.1) (sym run)) took

  payload-FileTook :
      (msg : Message) (o : Option (List ℕ)) (rest : List Delivery) (s t end : Here) (job : String)
      → File.job_id s.0 ≡ job
      → handle_payload hdf (writer_modules fl hdf) env msg o s ≡ (ok tt, t)
      → FileTook fl hdf end rest t
      → FileTook fl hdf end (payload_delivery env.deserialize_message job msg o rest) s
  unfolding handle_payload
  payload-FileTook msg none rest s t end job is run took =
      subst (λ (x : Here). FileTook fl hdf end rest x) (ap (λ x. x.1) (sym run)) took
  payload-FileTook msg (some payload) rest s t end job is run took =
      parsed-FileTook msg (env.deserialize_message payload) rest s t end job is run took

  pub message-FileTook :
      (msg : Message) (rest : List Delivery) (s t end : Here) (job : String)
      → File.job_id s.0 ≡ job
      → handle_one_message hdf (writer_modules fl hdf) env msg s ≡ (ok tt, t)
      → FileTook fl hdf end rest t
      → FileTook fl hdf end (payload_delivery env.deserialize_message job msg msg.payload rest) s
  unfolding handle_one_message
  message-FileTook msg rest s t end job is run took =
      payload-FileTook msg msg.payload rest s t end job is run took

  -- The messages that a run used up, and what its file took.
  abbrev pub Used :
      String
      → Messages hdf (writer_modules fl hdf) env
      → (s t : Here) → Messages hdf (writer_modules fl hdf) env
      → Type 0
  Used job ms s t rest =
      (used : List (Result StreamError Message)) × (ms ≡ used ++ rest)
      × FileTook fl hdf t (deliveries env.deserialize_message job used) s

  pub none-ne-Ended : (y : Ended hdf (writer_modules fl hdf) env) → none ≢ some y
  none-ne-Ended y e = absurd (cc)

  nothing-Used :
      (job : String) (ms rest : Messages hdf (writer_modules fl hdf) env) (s t : Here)
      → (let e : Option (Ended hdf (writer_modules fl hdf) env) = some (ok tt, (s, ms)) in
          e ≡ some (ok tt, (t, rest)))
      → Used job ms s t rest
  nothing-Used job ms rest s t e =
      let same : s ≡ t = cc in
      let left : ms ≡ rest = cc in
      ([], left, subst (λ (x : Here). FileTook fl hdf x [] s) same took_all)

  after_message-ok :
      (go : Here → Option (Ended hdf (writer_modules fl hdf) env))
      (ms rest : Messages hdf (writer_modules fl hdf) env)
      (x : Result FileWriterError (Unit {0}) × Here) (t : Here)
      → after_message hdf (writer_modules fl hdf) env go ms x ≡ some (ok tt, (t, rest))
      → (x ≡ (ok tt, x.1)) × (go x.1 ≡ some (ok tt, (t, rest)))
  after_message-ok go ms rest (ok _, s) t e = (refl, e)
  after_message-ok go ms rest (err y, s) t e = absurd (cc)

  more-Used :
      (job : String) (x : Result StreamError Message)
      (ms rest : Messages hdf (writer_modules fl hdf) env) (s u t : Here)
      → ((ds : List Delivery)
          → FileTook fl hdf t ds u
          → FileTook fl hdf t (delivered env.deserialize_message job x ds) s)
      → Used job ms u t rest
      → Used job (x ∷ ms) s t rest
  more-Used job x ms rest s u t step (used, are, took) =
      (x ∷ used, ap (λ l. x ∷ l) are, step (deliveries env.deserialize_message job used) took)

  -- A run that ends well has used up some messages of its stream, in their order, and its file took
  -- just what these are to it.
  pub write_until_finished-Used :
      (ms rest : Messages hdf (writer_modules fl hdf) env)
      (f : File.File hdf (writer_modules fl hdf)) (h : hdf.State) (t : Here) (job : String)
      → File.job_id f ≡ job
      → write_until_finished hdf (writer_modules fl hdf) env ms (f, h) ≡ some (ok tt, (t, rest))
      → Used job ms (f, h) t rest
  unfolding write_until_finished
  write_until_finished-Used [] rest f h t job is run =
      elim (Bool-cases (File.finished hdf (writer_modules fl hdf) f)) [
        | inl e ↦ nothing-Used job [] rest (f, h) t (rw e at run)
        | inr e ↦ absurd (none-ne-Ended _ (rw e at run))
      ]
  write_until_finished-Used (err x ∷ ms) rest f h t job is run =
      elim (Bool-cases (File.finished hdf (writer_modules fl hdf) f)) [
        | inl e ↦ nothing-Used job (err x ∷ ms) rest (f, h) t (rw e at run)
        | inr e ↦
            more-Used job (err x) ms rest (f, h) (f, h) t (λ ds took. took)
              (write_until_finished-Used ms rest f h t job is (rw e at run))
      ]
  write_until_finished-Used (ok msg ∷ ms) rest f h t job is run =
      elim (Bool-cases (File.finished hdf (writer_modules fl hdf) f)) [
        | inl e ↦ nothing-Used job (ok msg ∷ ms) rest (f, h) t (rw e at run)
        | inr e ↦
            let out = handle_one_message hdf (writer_modules fl hdf) env msg (f, h) in
            let (took, on) = after_message-ok _ ms rest out t (rw e at run) in
            more-Used job (ok msg) ms rest (f, h) out.1 t
              (λ ds. message-FileTook msg ds (f, h) out.1 t job is took)
              (write_until_finished-Used ms rest out.1.0 out.1.1 t job
                (handle_one_message-Job hdf (writer_modules fl hdf) env msg (f, h) job is) on)
      ]

-- ===== src/JobPool/Waiting.antt =====
-- run_writer/job_pool.rs: what the wait for a run start returns, for the messages of a fake
-- stream.
use kafka_file_writer.Base.{
  ℕ, ◌<◌, ◌≡◌, refl, ap, ◌∙◌, Bool, false, Option, none, some, List, [], ◌∷◌, ◌++◌, length, All,
  arith,
}
use kafka_file_writer.Base.Exec.{Result, ok, err}
use kafka_file_writer.Base.Loop.{loop, Rounds, start, again, loop_complete}
use kafka_file_writer.Error.{Cause, StreamError}
use kafka_file_writer.Message.{
  Message, DeserializedMessage, RunStart, run_start_pl72, run_stop_6s4t, pulse_metadata_pu00,
  event_data_ev44, other,
}
use kafka_file_writer.Config.{GlobalConfig}
use kafka_file_writer.Run.{from_pl72}
use kafka_file_writer.Stream.{CommitMode}
use kafka_file_writer.Stream.Fake
use kafka_file_writer.Stream.Fake.{FakeStream, fake_stream}
use kafka_file_writer.Stream.Scope.Release.{with_subscription-returns}
use kafka_file_writer.JobPool.{
  Deserializer, Answer, round, on_poll, on_commit, on_payload, on_parsed, wait_for_run_start,
}

abbrev as_run_start : Result Cause DeserializedMessage → Option RunStart
as_run_start (ok (run_start_pl72 rs)) = some rs
as_run_start (ok _) = none
as_run_start (err e) = none

-- The run start in a payload.
abbrev pub run_start_of : Deserializer → Option (List ℕ) → Option RunStart
run_start_of deserialize none = none
run_start_of deserialize (some payload) = as_run_start (deserialize payload)

abbrev pub with_message : Message → Option RunStart → Option (RunStart × Message)
with_message msg none = none
with_message msg (some rs) = some (rs, msg)

-- What the stream delivers is of interest only if it is a run start.
abbrev pub announces : Deserializer → Result StreamError Message → Option (RunStart × Message)
announces deserialize (err e) = none
announces deserialize (ok msg) = with_message msg (run_start_of deserialize msg.payload)

abbrev pub answer : Option (RunStart × Message) → Option Answer
answer none = none
answer (some (rs, msg)) = some (from_pl72 rs msg)

commit_message-ok :
    (msg : Message) (s : FakeStream)
    → s.commit_causes_error ≡ false
    → Fake.commit_message msg CommitMode.sync s ≡ (ok tt, s)
unfolding Fake.commit_message
commit_message-ok msg s h = ground arith

module _ (deserialize : Deserializer) where
  on_parsed-eq :
      (msg : Message) (r : Result Cause DeserializedMessage)
      → on_parsed deserialize msg r ≡ answer (with_message msg (as_run_start r))
  unfolding on_parsed
  on_parsed-eq msg (ok (run_start_pl72 rs)) = refl
  on_parsed-eq msg (ok (run_stop_6s4t _)) = refl
  on_parsed-eq msg (ok (pulse_metadata_pu00 _)) = refl
  on_parsed-eq msg (ok (event_data_ev44 _)) = refl
  on_parsed-eq msg (ok other) = refl
  on_parsed-eq msg (err e) = refl

  pub on_payload-eq :
      (msg : Message) (o : Option (List ℕ))
      → on_payload deserialize msg o ≡ answer (with_message msg (run_start_of deserialize o))
  unfolding on_payload
  on_payload-eq msg none = refl
  on_payload-eq msg (some payload) = on_parsed-eq msg (deserialize payload)

  module _ (config : GlobalConfig) where
    -- The state with other messages to come.
    abbrev with_messages : FakeStream → List (Result StreamError Message) → Unit {0} × FakeStream
    with_messages s ms = (tt, record s { messages = ms })

    round-eq :
        (x : Result StreamError Message) (ms : List (Result StreamError Message)) (s : FakeStream)
        → s.commit_causes_error ≡ false
        → round deserialize config fake_stream (with_messages s (x ∷ ms))
          ≡ (answer (announces deserialize x), with_messages s ms)
    unfolding round Fake.poll on_poll on_commit
    round-eq (err e) ms s h = refl
    round-eq (ok msg) ms s h =
        ap (on_commit deserialize config fake_stream msg tt)
          (commit_message-ok msg (with_messages s ms).1 h)
        ∙ ap (λ (a : Option Answer). (a, with_messages s ms)) (on_payload-eq msg msg.payload)

    noise-Rounds :
        (noise ms : List (Result StreamError Message)) (s : FakeStream)
        → s.commit_causes_error ≡ false
        → All (λ x. announces deserialize x ≡ none) noise
        → Rounds
            (round deserialize config fake_stream)
            (with_messages s ms)
            (length noise)
            (with_messages s (noise ++ ms))
    noise-Rounds [] ms s h all = start
    noise-Rounds (x ∷ noise) ms s h (quiet, all) =
        again
          (round-eq x (noise ++ ms) s h
            ∙ ap (λ (o : Option (RunStart × Message)). (answer o, with_messages s (noise ++ ms)))
                quiet)
          (noise-Rounds noise ms s h all)

    -- If commits and the subscription work, then the wait returns for the first message that is a
    -- run start: it skips the messages and errors before it, leaves those behind it, and gives the
    -- run start's parameters or says which are missing. One more round than there is noise is
    -- enough. The consumer is not subscribed any more.
    pub wait_for_run_start-returns :
        (noise rest : List (Result StreamError Message)) (x : Result StreamError Message)
        (rs : RunStart) (msg : Message) (s : FakeStream) (fuel : ℕ)
        → s.commit_causes_error ≡ false
        → s.subscribe_causes_error ≡ false
        → s.messages ≡ noise ++ (x ∷ rest)
        → All (λ y. announces deserialize y ≡ none) noise
        → announces deserialize x ≡ some (rs, msg)
        → length noise < fuel
        → wait_for_run_start deserialize config fake_stream fuel (tt, s)
          ≡ some (
            from_pl72 rs msg,
            (tt, record s { messages = rest; is_assigned = false; topics = [] }),
          )
    unfolding wait_for_run_start Fake.unsubscribe
    wait_for_run_start-returns noise rest x rs msg s fuel commits subscribes has quiet announced
          lt =
        let u : FakeStream = record s {
          is_assigned = Bool.true;
          topics = config.job_pool_topic ∷ [];
        } in
        let found : loop (round deserialize config fake_stream) fuel (tt, u)
            ≡ some (from_pl72 rs msg, with_messages u rest) =
          ap
            (λ (ms : List (Result StreamError Message)).
              loop (round deserialize config fake_stream) fuel (with_messages u ms))
            has
          ∙ loop_complete (round deserialize config fake_stream) fuel (with_messages u rest)
              (from_pl72 rs msg) (noise-Rounds noise (x ∷ rest) u commits quiet)
              (round-eq x rest u commits
                ∙ ap (λ (o : Option (RunStart × Message)). (answer o, with_messages u rest))
                    announced)
              lt in
        with_subscription-returns config.job_pool_topic
          (loop (round deserialize config fake_stream) fuel) tt tt s (with_messages u rest).1
          (from_pl72 rs msg) subscribes found

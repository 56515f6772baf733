-- ===== src/JobPool/Polling.antt =====
-- run_writer/job_pool.rs: the wait for a run start on any consumer, whose polls may time out.
use kafka_file_writer.Base.{ℕ, suc, ◌<◌, ◌≡◌, ap, ◌∙◌, Option, none, some, [], ◌∷◌}
use kafka_file_writer.Base.Exec.{Result, ok, err}
use kafka_file_writer.Base.Loop.{loop, Rounds, start, again, loop_complete}
use kafka_file_writer.Error.{StreamError}
use kafka_file_writer.Message.{Message, RunStart}
use kafka_file_writer.Config.{GlobalConfig}
use kafka_file_writer.Run.{from_pl72}
use kafka_file_writer.Stream.{Stream, CommitMode}
use kafka_file_writer.Stream.Scope.Release.{with_subscription-unsubscribed}
use kafka_file_writer.JobPool.{Deserializer, Answer, round, on_poll, on_commit, wait_for_run_start}
use kafka_file_writer.JobPool.Waiting.{run_start_of, with_message, answer, on_payload-eq}

module _ (deserialize : Deserializer) (config : GlobalConfig) (consumer : Stream) where
  -- A poll brought this message, and it was committed.
  pub record Committed (msg : Message) (s t : consumer.State) : Type 0 where
    pub after_poll : consumer.State
    pub polled : consumer.poll config.job_pool_consumer_poll_time_ms s ≡ (some (ok msg), after_poll)
    pub committed : consumer.commit_message msg CommitMode.sync after_poll ≡ (ok tt, t)

  -- So many polls bring no run start: they time out, fail, or bring other messages, which are
  -- committed. They lead to `t`.
  pub data Waits (t : consumer.State) : ℕ → consumer.State → Type 0 where
    here : Waits t 0 t
    timed_out :
        {n : ℕ} {s u : consumer.State}
        → consumer.poll config.job_pool_consumer_poll_time_ms s ≡ (none, u)
        → Waits t n u
        → Waits t (suc n) s
    failed :
        {n : ℕ} {s u : consumer.State} {e : StreamError}
        → consumer.poll config.job_pool_consumer_poll_time_ms s ≡ (some (err e), u)
        → Waits t n u
        → Waits t (suc n) s
    skipped :
        {n : ℕ} {s u : consumer.State} {msg : Message}
        → Committed msg s u
        → run_start_of deserialize msg.payload ≡ none
        → Waits t n u
        → Waits t (suc n) s

  on_polled :
      (s u : consumer.State) (x : Option (Result StreamError Message))
      → consumer.poll config.job_pool_consumer_poll_time_ms s ≡ (x, u)
      → round deserialize config consumer (tt, s) ≡ on_poll deserialize config consumer tt (x, u)
  unfolding round
  on_polled s u x polled = ap (on_poll deserialize config consumer tt) polled

  round-Committed :
      (msg : Message) (o : Option RunStart) (s t : consumer.State)
      → Committed msg s t
      → run_start_of deserialize msg.payload ≡ o
      → round deserialize config consumer (tt, s) ≡ (answer (with_message msg o), (tt, t))
  unfolding on_poll on_commit
  round-Committed msg o s t c is =
      on_polled s c.after_poll (some (ok msg)) c.polled
      ∙ ap (on_commit deserialize config consumer msg tt) c.committed
      ∙ ap (λ (a : Option Answer). (a, (tt, t)))
          (on_payload-eq deserialize msg msg.payload
            ∙ ap (λ (r : Option RunStart). answer (with_message msg r)) is)

  Waits-Rounds :
      {t : consumer.State} {n : ℕ} {s : consumer.State}
      → Waits t n s
      → Rounds (round deserialize config consumer) (tt, t) n (tt, s)
  unfolding on_poll
  Waits-Rounds here = start
  Waits-Rounds (timed_out polled waits) = again (on_polled _ _ none polled) (Waits-Rounds waits)
  Waits-Rounds (failed {e = e} polled waits) =
      again (on_polled _ _ (some (err e)) polled) (Waits-Rounds waits)
  Waits-Rounds (skipped {msg = msg} c other waits) =
      again (round-Committed msg none _ _ c other) (Waits-Rounds waits)

  -- For any consumer: if the subscription works, some polls bring no run start, and the next one
  -- brings a run start that is committed, then the wait returns its parameters, or says which are
  -- missing, and the consumer is unsubscribed after that. One more round than there are polls
  -- before the run start is enough. Polls that bring no run start may time out, fail, or bring
  -- other messages, which are committed.
  pub wait_for_run_start-found :
      (n fuel : ℕ) (s s₁ t u : consumer.State) (rs : RunStart) (msg : Message)
      → consumer.subscribe (config.job_pool_topic ∷ []) s ≡ (ok tt, s₁)
      → Waits t n s₁
      → Committed msg t u
      → run_start_of deserialize msg.payload ≡ some rs
      → n < fuel
      → wait_for_run_start deserialize config consumer fuel (tt, s)
        ≡ some (from_pl72 rs msg, (tt, consumer.unsubscribe u))
  unfolding wait_for_run_start
  wait_for_run_start-found n fuel s s₁ t u rs msg subscribes waits c is lt =
      with_subscription-unsubscribed consumer config.job_pool_topic
        (loop (round deserialize config consumer) fuel) tt tt s s₁ u (from_pl72 rs msg) subscribes
        (loop_complete (round deserialize config consumer) fuel (tt, u) (from_pl72 rs msg)
          (Waits-Rounds waits) (round-Committed msg (some rs) t u c is) lt)

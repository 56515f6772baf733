-- ===== src/Stream/Scope.antt =====
-- stream/scope.rs: a function that runs while a consumer is assigned or subscribed.
pub mod Release
use kafka_file_writer.Base.{ℕ, String, Option, none, some, List, [], ◌∷◌}
use kafka_file_writer.Base.Int.{ℤ}
use kafka_file_writer.Base.Exec.{Result, ok, err}
use kafka_file_writer.Base.Loop.{Run}
use kafka_file_writer.Error.{FileWriterError, StreamError, stream_error}
use kafka_file_writer.Stream.{Stream}

module _ {A : Type 0} where
  -- The `match` on the function's result and that of `unassign`: the function's error comes first.
  unfoldable pub combine :
      Result FileWriterError A → Result StreamError (Unit {0}) → Result FileWriterError A
  combine (ok result) (ok _) = ok result
  combine (ok _) (err e) = err (stream_error e)
  combine (err e) (ok _) = err e
  combine (err e) (err _) = err e

-- `T` is what else the function changes.
module _ {A T : Type 0} (consumer : Stream) where
  unassigned :
      Result FileWriterError A
      → T
      → Result StreamError (Unit {0}) × consumer.State
      → Option (Result FileWriterError A × (T × consumer.State))
  unassigned result t (r, s) = some (combine result r, (t, s))

  after_func :
      Option (Result FileWriterError A × (T × consumer.State))
      → Option (Result FileWriterError A × (T × consumer.State))
  after_func none = none
  after_func (some (result, (t, s))) = unassigned result t (consumer.unassign s)

  assigned :
      Run (T × consumer.State) FileWriterError A
      → T
      → Result StreamError (Unit {0}) × consumer.State
      → Option (Result FileWriterError A × (T × consumer.State))
  assigned func t (err e, s) = some (err (stream_error e), (t, s))
  assigned func t (ok _, s) = after_func (func (t, s))

  unfoldable pub with_assignment :
      (topics : List String) (seek_timestamp : ℤ) (timeout : ℕ)
      → Run (T × consumer.State) FileWriterError A
      → Run (T × consumer.State) FileWriterError A
  unfolding assigned after_func unassigned combine
  with_assignment topics seek_timestamp timeout func (t, s) =
      assigned func t (consumer.assign_from_timestamp topics seek_timestamp timeout s)

  unsubscribed :
      Option (Result FileWriterError A × (T × consumer.State))
      → Option (Result FileWriterError A × (T × consumer.State))
  unsubscribed none = none
  unsubscribed (some (result, (t, s))) = some (result, (t, consumer.unsubscribe s))

  subscribed :
      Run (T × consumer.State) FileWriterError A
      → T
      → Result StreamError (Unit {0}) × consumer.State
      → Option (Result FileWriterError A × (T × consumer.State))
  subscribed func t (err e, s) = some (err (stream_error e), (t, s))
  subscribed func t (ok _, s) = unsubscribed (func (t, s))

  unfoldable pub with_subscription_to_job_pool :
      (job_pool_topic : String)
      → Run (T × consumer.State) FileWriterError A
      → Run (T × consumer.State) FileWriterError A
  unfolding subscribed unsubscribed
  with_subscription_to_job_pool job_pool_topic func (t, s) =
      subscribed func t (consumer.subscribe (job_pool_topic ∷ []) s)

-- ===== src/File/Keeping.antt =====
-- run_writer/in_progress_file.rs: what messages and run stops leave alone in a file.
use kafka_file_writer.Base.{ℕ, ◌≡◌, refl, Option, none, some, List, [], ◌∷◌, get_elem?}
use kafka_file_writer.Base.Exec.{Result, ok, err, continue-keeps}
use kafka_file_writer.Error.{FileWriterError}
use kafka_file_writer.Message.{KafkaMessageMeta, DeserializedMessage, RunStop}
use kafka_file_writer.Router
use kafka_file_writer.Router.{WriterId}
use kafka_file_writer.Hdf.{Hdf5}
use kafka_file_writer.Writer.{WriterModule}
use kafka_file_writer.Placed
use kafka_file_writer.Placed.{PlacedWriter}
use kafka_file_writer.File.{
  File, job_id, notify_one, notify, put_back, on_message, stopped, Stopping, stop_all, on_run_stop,
}

module _ {E : Type 0} (hdf : Hdf5 E) (dyn : WriterModule hdf.State) where
  -- A property that does not depend on the writers, and what it says of the file.
  module _ (P : File hdf dyn → Type 0)
      (stable : (f : File hdf dyn) (ws : List (PlacedWriter hdf.Location dyn.Writer))
        → P f
        → P (record f { writers = ws })) where
    abbrev OfFile : File hdf dyn × hdf.State → Type 0
    OfFile (f, h) = P f

    put_back-keeps :
        (i : ℕ) (f : File hdf dyn)
        (x : Result FileWriterError (Unit {0}) × (PlacedWriter hdf.Location dyn.Writer × hdf.State))
        → P f
        → OfFile (put_back hdf dyn i f x).1
    unfolding put_back
    put_back-keeps i f (r, (w, h)) p = stable f _ p

    module _ (meta : KafkaMessageMeta) (msg : DeserializedMessage) where
      notify_one-keeps :
          (i : ℕ) (o : Option (PlacedWriter hdf.Location dyn.Writer)) (f : File hdf dyn)
          (h : hdf.State)
          → P f
          → OfFile (notify_one hdf dyn meta msg i o (f, h)).1
      unfolding notify_one
      notify_one-keeps i none f h p = p
      notify_one-keeps i (some w) f h p =
          put_back-keeps i f (Placed.on_message hdf dyn meta msg (w, h)) p

      notify-keeps :
          (ids : List WriterId) (st : File hdf dyn × hdf.State)
          → OfFile st
          → OfFile (notify hdf dyn meta msg ids st).1
      unfolding notify
      notify-keeps [] st p = p
      notify-keeps (i ∷ ids) (f, h) p =
          continue-keeps OfFile (notify_one hdf dyn meta msg i (get_elem? f.writers i) (f, h)) _
            (notify_one-keeps i (get_elem? f.writers i) f h p) (λ a st k. notify-keeps ids st k)

      pub on_message-keeps :
          (f : File hdf dyn) (h : hdf.State) → P f → P (on_message hdf dyn meta msg (f, h)).1.0
      unfolding on_message
      on_message-keeps f h p = notify-keeps (Router.writers_for f.router meta) (f, h) p

  stopped-job_id :
      (f : File hdf dyn) (x : Stopping hdf dyn) → job_id (stopped hdf dyn f x).1.0 ≡ job_id f
  unfolding stopped job_id
  stopped-job_id f (ok _, (ws, h)) = refl
  stopped-job_id f (err e, (ws, h)) = refl

  pub on_run_stop-job_id :
      (meta : KafkaMessageMeta) (run_stop : RunStop) (f : File hdf dyn) (h : hdf.State)
      → job_id (on_run_stop hdf dyn meta run_stop (f, h)).1.0 ≡ job_id f
  unfolding on_run_stop
  on_run_stop-job_id meta run_stop f h =
      stopped-job_id f (stop_all hdf dyn meta run_stop f.writers h)

  pub on_message-job_id :
      (meta : KafkaMessageMeta) (msg : DeserializedMessage) (f : File hdf dyn) (h : hdf.State)
      → job_id (on_message hdf dyn meta msg (f, h)).1.0 ≡ job_id f
  unfolding job_id
  on_message-job_id meta msg f h =
      on_message-keeps (λ g. job_id g ≡ job_id f) (λ g ws p. p) meta msg f h refl

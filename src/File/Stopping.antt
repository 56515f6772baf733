-- ===== src/File/Stopping.antt =====
-- run_writer/in_progress_file.rs: when a file in progress has received its run stop.
use kafka_file_writer.Base.{◌≡◌, refl, false}
use kafka_file_writer.Message.{KafkaMessageMeta, DeserializedMessage}
use kafka_file_writer.Hdf.{Hdf5}
use kafka_file_writer.Writer.{WriterModule}
use kafka_file_writer.File.Keeping.{on_message-keeps}
use kafka_file_writer.File.{File, on_message, finished}

module _ {E : Type 0} (hdf : Hdf5 E) (dyn : WriterModule hdf.State) where
  -- A file that has not received its run stop is not finished after any other message, whatever
  -- its writers say of themselves.
  pub on_message-not_finished :
      (meta : KafkaMessageMeta) (msg : DeserializedMessage) (f : File hdf dyn) (h : hdf.State)
      → f.run_stop_received ≡ false
      → finished hdf dyn (on_message hdf dyn meta msg (f, h)).1.0 ≡ false
  unfolding finished
  on_message-not_finished meta msg f h e =
      rw (on_message-keeps hdf dyn (λ g. g.run_stop_received ≡ false) (λ g ws p. p) meta msg f h e)
        refl

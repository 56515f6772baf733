-- ===== src/Placed.antt =====
-- run_writer/placed_writer.rs: a writer with the group of the file that it writes to.
pub mod Creation
pub mod Opened
use kafka_file_writer.Base.{ap, ◌≡◌, refl, String, Option, none, some, List}
use kafka_file_writer.Base.Exec.{Result, ok, err, Exec}
use kafka_file_writer.Error.{
  FileWriterError, writer_module_error, WriterModuleError, invalid_data, WriterModuleCreationError,
  NexusStructureError, unknown_writer_module, writer_module_creation_error,
}
use kafka_file_writer.Message.{KafkaMessageMeta, DeserializedMessage, RunStop}
use kafka_file_writer.Subscription.{Subscription}
use kafka_file_writer.Structure.{NexusWriterModule}
use kafka_file_writer.Run.{RunStartParameters}
use kafka_file_writer.Hdf.{Hdf5}
use kafka_file_writer.Writer.{WriterModule, WriterModuleCreateResult}
use kafka_file_writer.Writer.Factories
use kafka_file_writer.Writer.Factories.{WriterModuleFactories, WriterModuleCreateFn}

pub record PlacedWriter (G W : Type 0) : Type 0 where
  pub group : G
  pub writer : W
  pub writer_name : String
  pub subscriptions : List Subscription

module _ {E : Type 0} (hdf : Hdf5 E) (dyn : WriterModule hdf.State) where
  abbrev pub Placed : Type 0
  Placed = PlacedWriter hdf.Location dyn.Writer

  pub placed :
      hdf.Location
      → NexusWriterModule
      → Result WriterModuleCreationError (WriterModuleCreateResult dyn.Writer) × hdf.State
      → Result NexusStructureError Placed × hdf.State
  placed group spec (ok result, h) = (
    ok (record {
      writer_name = spec.module_name;
      writer = result.module_;
      group = group;
      subscriptions = result.subscriptions;
    }),
    h,
  )
  placed group spec (err e, h) =
      (err (writer_module_creation_error e spec.module_name (hdf.name group)), h)

  pub make :
      hdf.Location
      → NexusWriterModule
      → RunStartParameters
      → Option (WriterModuleCreateFn hdf.Location hdf.State dyn.Writer)
      → Exec hdf.State NexusStructureError Placed
  make group spec run_start_parameters none h =
      (err (unknown_writer_module spec.module_name (hdf.name group)), h)
  make group spec run_start_parameters (some factory) h =
      placed group spec (factory group run_start_parameters spec.config h)

  -- `PlacedWriter::new`
  unfoldable pub new :
      hdf.Location
      → NexusWriterModule
      → RunStartParameters
      → WriterModuleFactories hdf.Location hdf.State dyn.Writer
      → Exec hdf.State NexusStructureError Placed
  unfolding make placed
  new group spec run_start_parameters factories =
      make group spec run_start_parameters (Factories.get factories spec.module_name)

  abbrev pub Method : Type 0
  Method = Exec (Placed × hdf.State) FileWriterError (Unit {0})

  abbrev Outcome : Type 0
  Outcome = Result WriterModuleError (Unit {0}) × (dyn.Writer × hdf.State)

  failed : Placed → WriterModuleError → FileWriterError
  failed p e = writer_module_error e p.writer_name (hdf.name p.group)

  -- The result of a call of the writer, whose errors all end the run.
  strict : Placed → Outcome → Result FileWriterError (Unit {0}) × (Placed × hdf.State)
  strict p (ok _, (w, h)) = (ok tt, (record p { writer = w }, h))
  strict p (err e, (w, h)) = (err (failed p e), (record p { writer = w }, h))

  -- The result of `on_message`: invalid data is logged and passed over.
  tolerant : Placed → Outcome → Result FileWriterError (Unit {0}) × (Placed × hdf.State)
  tolerant p (ok _, (w, h)) = (ok tt, (record p { writer = w }, h))
  tolerant p (err (invalid_data msg), (w, h)) = (ok tt, (record p { writer = w }, h))
  tolerant p (err e, (w, h)) = (err (failed p e), (record p { writer = w }, h))

  unfoldable pub on_message : KafkaMessageMeta → DeserializedMessage → Method
  unfolding tolerant failed
  on_message meta msg (p, h) = tolerant p (dyn.on_message meta msg (p.writer, h))

  unfoldable pub on_run_stop : KafkaMessageMeta → RunStop → Method
  unfolding strict failed
  on_run_stop meta msg (p, h) = strict p (dyn.on_run_stop meta msg (p.writer, h))

  unfoldable pub flush : Method
  unfolding strict failed
  flush (p, h) = strict p (dyn.flush (p.writer, h))

  -- No method changes where a writer is placed or what it subscribed to.
  abbrev pub SamePlace : Placed → Placed → Type 0
  SamePlace p q =
      (q.group ≡ p.group) × (q.writer_name ≡ p.writer_name) × (q.subscriptions ≡ p.subscriptions)

  tolerant-SamePlace : (p : Placed) (x : Outcome) → SamePlace p (tolerant p x).1.0
  unfolding tolerant
  tolerant-SamePlace p (ok _, (w, h)) = (refl, refl, refl)
  tolerant-SamePlace p (err (invalid_data msg), (w, h)) = (refl, refl, refl)
  tolerant-SamePlace p (err _, (w, h)) = (refl, refl, refl)

  strict-SamePlace : (p : Placed) (x : Outcome) → SamePlace p (strict p x).1.0
  unfolding strict
  strict-SamePlace p (ok _, (w, h)) = (refl, refl, refl)
  strict-SamePlace p (err _, (w, h)) = (refl, refl, refl)

  pub on_message-SamePlace :
      (meta : KafkaMessageMeta) (msg : DeserializedMessage) (p : Placed) (h : hdf.State)
      → SamePlace p (on_message meta msg (p, h)).1.0
  unfolding on_message
  on_message-SamePlace meta msg p h = tolerant-SamePlace p (dyn.on_message meta msg (p.writer, h))

  pub on_run_stop-SamePlace :
      (meta : KafkaMessageMeta) (msg : RunStop) (p : Placed) (h : hdf.State)
      → SamePlace p (on_run_stop meta msg (p, h)).1.0
  unfolding on_run_stop
  on_run_stop-SamePlace meta msg p h = strict-SamePlace p (dyn.on_run_stop meta msg (p.writer, h))

  -- What the result of a call of the writer becomes.
  abbrev pub tolerated :
      Placed → Result WriterModuleError (Unit {0}) → Result FileWriterError (Unit {0})
  tolerated p (ok _) = ok tt
  tolerated p (err (invalid_data msg)) = ok tt
  tolerated p (err e) = err (writer_module_error e p.writer_name (hdf.name p.group))

  tolerant-eq :
      (p : Placed) (x : Outcome)
      → tolerant p x ≡ (tolerated p x.0, (record p { writer = x.1.0 }, x.1.1))
  unfolding tolerant failed
  tolerant-eq p (ok _, (w, h)) = refl
  tolerant-eq p (err (invalid_data msg), (w, h)) = refl
  tolerant-eq p (err _, (w, h)) = refl

  -- The writer and the files are as the writer's own `on_message` leaves them, and the group, name
  -- and subscriptions stay. Invalid data is no error of the run, and any other error is, with the
  -- name and the place of the writer.
  pub on_message_lem :
      (meta : KafkaMessageMeta) (msg : DeserializedMessage) (p : Placed) (h : hdf.State)
      → let out = dyn.on_message meta msg (p.writer, h) in
        on_message meta msg (p, h) ≡ (tolerated p out.0, (record p { writer = out.1.0 }, out.1.1))
  unfolding on_message
  on_message_lem meta msg p h = tolerant-eq p (dyn.on_message meta msg (p.writer, h))

  pub on_run_stop-ok :
      (meta : KafkaMessageMeta) (run_stop : RunStop) (p : Placed) (h h' : hdf.State)
      (w : dyn.Writer)
      → dyn.on_run_stop meta run_stop (p.writer, h) ≡ (ok tt, (w, h'))
      → on_run_stop meta run_stop (p, h) ≡ (ok tt, (record p { writer = w }, h'))
  unfolding on_run_stop strict
  on_run_stop-ok meta run_stop p h h' w e = ap (strict p) e

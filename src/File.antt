-- ===== src/File.antt =====
-- run_writer/in_progress_file.rs: a file that is being written.
pub mod Stopping
pub mod Sync
pub mod Delivery
pub mod Bounds
pub mod Isolation
pub mod Once
pub mod Calls
pub mod Events
pub mod Writers
pub mod Following
pub mod History
pub mod Stops
pub mod Keeping
pub mod Building
pub mod Opening
pub mod Started
use kafka_file_writer.Base.{
  ℕ, String, Bool, true, false, ◌&&◌, Option, none, some, List, [], ◌∷◌, ◌++◌,
}
use kafka_file_writer.Base.{length, get_elem?, set}
use kafka_file_writer.Base.Exec.{
  Result, ok, err, Exec, ◌>>=◌, ◌>>◌, pure, raise, continue, with_context, on_second,
}
use kafka_file_writer.Error.{
  FileWriterError, hdf5_error, nexus_structure_error, writer_module_not_found, NexusStructureError,
  unknown_child_type,
}
use kafka_file_writer.Message.{KafkaMessageMeta, DeserializedMessage, RunStop}
use kafka_file_writer.Subscription.{Subscription}
use kafka_file_writer.Json
use kafka_file_writer.Json.{Value}
use kafka_file_writer.Structure.{
  NexusFileStructure, NexusGroup, nexus_group, NexusStructureItem, group, writer_module, invalid,
  NexusStructureItems, nil, cons, NexusWriterModule, Attributes,
}
use kafka_file_writer.Run.{RunStartParameters}
use kafka_file_writer.Router
use kafka_file_writer.Router.{MessageRouter, WriterId}
use kafka_file_writer.Hdf.{Hdf5}
use kafka_file_writer.Hdf.Context.{err_parent_dataset}
use kafka_file_writer.Hdf.Attr.{add_ascii_string_attribute, add_root_dataset_attributes}
use kafka_file_writer.Writer.{WriterModule}
use kafka_file_writer.Writer.Factories.{WriterModuleFactories}
use kafka_file_writer.Placed
use kafka_file_writer.Placed.{PlacedWriter}

pub record InProgressFile (G W : Type 0) : Type 0 where
  pub file : G
  pub writers : List (PlacedWriter G W)
  pub run_start_parameters : RunStartParameters
  pub run_stop_received : Bool
  pub router : MessageRouter

subscribe_each : WriterId → List Subscription → MessageRouter → MessageRouter
subscribe_each idx [] r = r
subscribe_each idx (sub ∷ subs) r = subscribe_each idx subs (Router.subscribe idx sub r)

module _ {G W : Type 0} where
  unfoldable pub topics : InProgressFile G W → List String
  topics f = Router.topics f.router

  unfoldable pub job_id : InProgressFile G W → String
  job_id f = f.run_start_parameters.job_id

  unfoldable pub add_placed_writer : PlacedWriter G W → InProgressFile G W → InProgressFile G W
  unfolding subscribe_each
  add_placed_writer writer f = record f {
    router = subscribe_each (length f.writers) writer.subscriptions f.router;
    writers = f.writers ++ (writer ∷ []);
  }

module _ {E : Type 0} (hdf : Hdf5 E) (dyn : WriterModule hdf.State) where
  abbrev pub File : Type 0
  File = InProgressFile hdf.Location dyn.Writer

  abbrev pub Method : Type 0
  Method = Exec (File × hdf.State) FileWriterError (Unit {0})

  -- The loop over the attributes of a group, which passes over values that are not texts.
  pub add_attribute : hdf.Location → String → Value → Exec hdf.State FileWriterError (Unit {0})
  add_attribute location key (Value.string value) =
      with_context hdf5_error (add_ascii_string_attribute hdf location key value)
  add_attribute location key _ = pure tt

  unfoldable pub add_attributes :
      hdf.Location → Attributes → Exec hdf.State FileWriterError (Unit {0})
  unfolding add_attribute
  add_attributes location [] = pure tt
  add_attributes location ((key, value) ∷ rest) = do
    add_attribute location key value
    add_attributes location rest

  pub placed :
      Result NexusStructureError (PlacedWriter hdf.Location dyn.Writer) × hdf.State
      → File
      → Result FileWriterError (Unit {0}) × (File × hdf.State)
  placed (ok writer, h) f = (ok tt, (add_placed_writer writer f, h))
  placed (err e, h) f = (err (nexus_structure_error e), (f, h))

  module _ (factories : WriterModuleFactories hdf.Location hdf.State dyn.Writer)
      (json_text : Value → String) where
    unfoldable mutual
      unfolding placed

      pub add_child : hdf.Location → NexusStructureItem → Method
      add_child parent (group g) st = add_nexus_group parent g st
      add_child parent (writer_module spec) (f, h) =
          placed (Placed.new hdf dyn parent spec f.run_start_parameters factories h) f
      add_child parent (invalid json) st =
          (err (nexus_structure_error (unknown_child_type (json_text json) (hdf.name parent))), st)

      pub add_nexus_group : hdf.Location → NexusGroup → Method
      add_nexus_group parent (nexus_group _ name children attributes) (f, h) =
          continue
            (on_second
              (do
                hdf_group ←
                    with_context hdf5_error
                      (err_parent_dataset hdf parent name (hdf.create_group parent name))
                add_attributes hdf_group attributes
                pure hdf_group)
              (f, h))
            (λ hdf_group. add_children hdf_group children)

      pub add_children : hdf.Location → NexusStructureItems → Method
      add_children parent nil st = (ok tt, st)
      add_children parent (cons child rest) st =
          continue (add_child parent child st) (λ _. add_children parent rest)

    -- `now` is the time of the call.
    unfoldable pub use_structure : NexusFileStructure → (now : String) → Method
    unfolding add_child
    use_structure structure now (f, h) =
        continue (add_children f.file structure.children (f, h)) (λ _. on_second (do
          add_attributes f.file structure.attributes
          with_context hdf5_error (add_root_dataset_attributes hdf f.file now)))

    abbrev built :
        Result FileWriterError (Unit {0}) × (File × hdf.State)
        → Result FileWriterError File × hdf.State
    built (ok _, (f, h)) = (ok f, h)
    built (err e, (f, h)) = (err e, h)

    -- `InProgressFile::new`
    unfoldable pub new :
        hdf.Location
        → RunStartParameters
        → NexusFileStructure
        → (now : String) → Exec hdf.State FileWriterError File
    unfolding use_structure
    new file run_start_parameters structure now h = built (
        use_structure structure now (
          record {
            file = file;
            writers = [];
            run_start_parameters = run_start_parameters;
            router = Router.default;
            run_stop_received = false;
          },
          h,
        ))

  unfoldable pub all_finished : List (PlacedWriter hdf.Location dyn.Writer) → Bool
  all_finished [] = true
  all_finished (w ∷ ws) = dyn.finished w.writer && all_finished ws

  unfoldable pub finished : File → Bool
  unfolding all_finished
  finished f = f.run_stop_received && all_finished f.writers

  -- The writer with an index, after a call.
  put_back :
      ℕ
      → File
      → Result FileWriterError (Unit {0}) × (PlacedWriter hdf.Location dyn.Writer × hdf.State)
      → Result FileWriterError (Unit {0}) × (File × hdf.State)
  put_back i f (r, (w, h)) = (r, (record f { writers = set f.writers i w }, h))

  notify_one :
      KafkaMessageMeta
      → DeserializedMessage
      → WriterId
      → Option (PlacedWriter hdf.Location dyn.Writer)
      → Method
  notify_one meta msg i none st = (err (writer_module_not_found i), st)
  notify_one meta msg i (some w) (f, h) = put_back i f (Placed.on_message hdf dyn meta msg (w, h))

  -- The loop of `on_message` over the indices from the router.
  notify : KafkaMessageMeta → DeserializedMessage → List WriterId → Method
  notify meta msg [] st = (ok tt, st)
  notify meta msg (i ∷ is) (f, h) =
      continue (notify_one meta msg i (get_elem? f.writers i) (f, h)) (λ _. notify meta msg is)

  unfoldable pub on_message : KafkaMessageMeta → DeserializedMessage → Method
  unfolding notify notify_one put_back
  on_message meta msg (f, h) = notify meta msg (Router.writers_for f.router meta) (f, h)

  -- What the loop of `on_run_stop` leaves: its result, the writers and the files.
  abbrev Stopping : Type 0
  Stopping =
      Result FileWriterError (Unit {0}) × (List (PlacedWriter hdf.Location dyn.Writer) × hdf.State)

  keep_first : PlacedWriter hdf.Location dyn.Writer → Stopping → Stopping
  keep_first w (r, (ws, h)) = (r, (w ∷ ws, h))

  stop_rest :
      List (PlacedWriter hdf.Location dyn.Writer)
      → (hdf.State → Stopping)
      → Result FileWriterError (Unit {0}) × (PlacedWriter hdf.Location dyn.Writer × hdf.State)
      → Stopping
  stop_rest ws rest (err e, (w, h)) = (err e, (w ∷ ws, h))
  stop_rest ws rest (ok _, (w, h)) = keep_first w (rest h)

  stop_all :
      KafkaMessageMeta
      → RunStop
      → List (PlacedWriter hdf.Location dyn.Writer)
      → hdf.State
      → Stopping
  stop_all meta run_stop [] h = (ok tt, ([], h))
  stop_all meta run_stop (w ∷ ws) h =
      stop_rest ws (λ h'. stop_all meta run_stop ws h')
        (Placed.on_run_stop hdf dyn meta run_stop (w, h))

  stopped : File → Stopping → Result FileWriterError (Unit {0}) × (File × hdf.State)
  stopped f (ok _, (ws, h)) = (ok tt, (record f { writers = ws; run_stop_received = true }, h))
  stopped f (err e, (ws, h)) = (err e, (record f { writers = ws }, h))

  unfoldable pub on_run_stop : KafkaMessageMeta → RunStop → Method
  unfolding stopped stop_all stop_rest keep_first
  on_run_stop meta run_stop (f, h) = stopped f (stop_all meta run_stop f.writers h)

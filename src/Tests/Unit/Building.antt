-- ===== src/Tests/Unit/Building.antt =====
-- run_writer/in_progress_file.rs and hdf/file_creator.rs: the unit tests, with what serde derives for a
-- text, the HDF5 library and the UUIDs and times that are drawn as parameters.
use kafka_file_writer.Base.{
  String, ◌≡◌, refl, Bool, true, false, not, ◌&&◌, Option, none, some, List, [], ◌∷◌, length,
}
use kafka_file_writer.Base.Equality.{◌==◌, string_eq, nat_beq}
use kafka_file_writer.Base.Map
use kafka_file_writer.Base.Map.{contains}
use kafka_file_writer.Base.Exec.{Result, ok, err, pure}
use kafka_file_writer.Base.Loop.{Run}
use kafka_file_writer.Error.{Cause, FileWriterError}
use kafka_file_writer.Json.{Value}
use kafka_file_writer.Run
use kafka_file_writer.Router
use kafka_file_writer.Structure.{NexusFileStructure, NexusStructureItem, writer_module, nil, cons}
use kafka_file_writer.Subscription.{SubscriptionKey}
use kafka_file_writer.Hdf.{Hdf5}
use kafka_file_writer.Hdf.Attr
use kafka_file_writer.Hdf.Context
use kafka_file_writer.Hdf.FileCreator.{FileCreator, create_file}
use kafka_file_writer.Hdf.Scope.{with_nexus_file}
use kafka_file_writer.Writer.{WriterModule, WriterModuleSpec}
use kafka_file_writer.Writer.Factories
use kafka_file_writer.Writer.Factories.{WriterModuleFactories, empty, register_module}
use kafka_file_writer.Writer.Ixseblock.{IxseblockConfig}
use kafka_file_writer.Writer.Nxeventdata.{Floats, Element, NxeventdataConfig}
use kafka_file_writer.Writer.Registry.{writer_modules, default_registry}
use kafka_file_writer.Placed
use kafka_file_writer.File
use kafka_file_writer.File.{File}
use kafka_file_writer.Tests.Fixtures.{floats, hdf, no_store, no_config, topic_of}
use kafka_file_writer.Tests.Unit.{is_ok, is_err, is_err_and, is_unit_test_error}

abbrev empty_structure : NexusFileStructure
empty_structure = record { children = nil; attributes = [] }

data AmazingWriter : Type 0 where
  amazing_writer : AmazingWriter

-- `impl WriterModule for AmazingWriter`
abbrev amazing : {S : Type 0} → WriterModule S
amazing = record {
  Writer = AmazingWriter;
  on_message = λ meta msg. pure tt;
  on_run_stop = λ meta msg. pure tt;
  flush = pure tt;
  finished = λ w. false;
}

-- `impl WriterModuleSpec for AmazingWriter`, whose configuration is a topic.
abbrev amazing_spec : {G S : Type 0} → (Value → Result Cause String) → WriterModuleSpec G S
amazing_spec from_value = record {
  Module = AmazingWriter;
  Config = String;
  name = "amazing_writer";
  config = from_value;
  config_type_name = "alloc::string::String";
  create = λ group run topic. pure (record {
    module_ = amazing_writer;
    subscriptions = record { topic = topic; key = SubscriptionKey.all } ∷ [];
  });
}

abbrev amazing_item : String → NexusStructureItem
amazing_item topic =
    writer_module (record { module_name = "amazing_writer"; config = Value.string topic })

abbrev structure_with_amazing_writers : NexusFileStructure
structure_with_amazing_writers = record {
  children =
      cons (amazing_item "topic1")
        (cons (amazing_item "topic1") (cons (amazing_item "topic2") nil));
  attributes = [];
}

abbrev included : List String → List String → Bool
included [] ss = true
included (s ∷ rest) ss = contains s ss && included rest ss

abbrev is_empty : List String → Bool
is_empty [] = true
is_empty (s ∷ rest) = false

abbrev unwrapped : {S : Type 0} → Option (Result FileWriterError (Unit {0}) × (S × Unit {0})) → Bool
unwrapped none = false
unwrapped (some (r, st)) = is_ok r

module _ {E : Type 0} (hdf : Hdf5 E) (dyn : WriterModule hdf.State) (json_text : Value → String)
    (uuid now : String) (h : hdf.State) where
  -- The end of a closure: what it asserts of its file holds, or it panics.
  abbrev asserting :
      (File hdf dyn → Bool)
      → Result FileWriterError (File hdf dyn) × hdf.State
      → Option (Result FileWriterError (Unit {0}) × (hdf.State × Unit {0}))
  asserting p (err e, k) = none
  asserting p (ok ipf, k) = elim (p ipf) [ true ↦ some (ok tt, (k, tt)) | false ↦ none ]

  abbrev in_memory :
      WriterModuleFactories hdf.Location hdf.State dyn.Writer
      → NexusFileStructure
      → (File hdf dyn → Bool)
      → Bool
  in_memory registry structure p = unwrapped (
      with_nexus_file hdf FileCreator.memory "test" uuid
        (λ f (k, t).
          asserting p (File.new hdf dyn registry json_text f Run.default structure now k))
        (h, tt))

module _ (fl : Floats) (hdf : Hdf5 (Element fl.F64 fl.F32))
    (ixseblock_config : Value → Result Cause IxseblockConfig)
    (nxeventdata_config : Value → Result Cause NxeventdataConfig) (json_text : Value → String)
    (uuid now : String) (h : hdf.State) where
  abbrev test_in_progress_file_with_empty_structure : Bool
  test_in_progress_file_with_empty_structure =
      in_memory hdf (writer_modules fl hdf) json_text uuid now h
        (default_registry fl hdf ixseblock_config nxeventdata_config) empty_structure
        (λ ipf.
          is_empty (File.topics ipf)
          && File.job_id ipf == Run.default.job_id
          && not ipf.run_stop_received)

module _ {E : Type 0} (hdf : Hdf5 E) (from_value : Value → Result Cause String)
    (json_text : Value → String) (uuid now : String) (h : hdf.State) where
  abbrev registry_with_amazing_writer : WriterModuleFactories hdf.Location hdf.State AmazingWriter
  registry_with_amazing_writer = register_module (amazing_spec from_value) (λ m. m) empty

  abbrev test_in_progress_file_with_structure : Bool
  test_in_progress_file_with_structure =
      in_memory hdf amazing json_text uuid now h registry_with_amazing_writer
        structure_with_amazing_writers
        (λ ipf.
          included (File.topics ipf) ("topic1" ∷ "topic2" ∷ [])
          && included ("topic1" ∷ "topic2" ∷ []) (File.topics ipf)
          && nat_beq (length ipf.writers) 3)

module _ {E : Type 0} (hdf : Hdf5 E) (uuid : String) (h : hdf.State) where
  -- A file is created and closed.
  abbrev create_and_close : (uuid name : String) → hdf.State → Bool × hdf.State
  create_and_close uuid' name k =
      let (r, k₁) = create_file hdf FileCreator.memory name uuid' k in
      elim r [
        | ok f ↦ let (closed, k₂) = hdf.close f k₁ in (is_ok closed, k₂)
        | err e ↦ (false, k₁)
      ]

  abbrev test_create_in_memory_file : (uuid₁ uuid₂ uuid₃ : String) → Bool
  test_create_in_memory_file uuid₁ uuid₂ uuid₃ =
      let (foo, h₁) = create_and_close uuid₁ "foo" h in
      let (bar, h₂) = create_and_close uuid₂ "bar" h₁ in
      let (again, h₃) = create_and_close uuid₃ "bar" h₂ in foo && bar && again

  -- The state beside the files says whether the function ran.
  abbrev fails : hdf.Location → Run (hdf.State × Bool) FileWriterError (Unit {0})
  fails f (k, ran) = some (err FileWriterError.unit_test_error, (k, true))

  abbrev works : hdf.Location → Run (hdf.State × Bool) FileWriterError String
  works f (k, ran) = some (ok "it worked", (k, true))

  abbrev ended :
      {A : Type 0}
      → (Result FileWriterError A → Bool → Bool)
      → Option (Result FileWriterError A × (hdf.State × Bool))
      → Bool
  ended p none = false
  ended p (some (r, (k, ran))) = p r ran

  abbrev test_with_nexus_file_failure : Bool
  test_with_nexus_file_failure =
      ended (λ r ran. is_err_and is_unit_test_error r)
        (with_nexus_file hdf FileCreator.memory "test" uuid fails (h, false))

  abbrev test_with_nexus_file_creation_failure : Bool
  test_with_nexus_file_creation_failure =
      ended (λ r ran. not ran && is_err r)
        (with_nexus_file hdf FileCreator.always_fails "test" uuid works (h, false))

-- serde's deserializer of a text.
abbrev text : Value → Result Cause String
text (Value.string s) = ok s
text _ = err "invalid type"

test_in_progress_file_with_empty_structure_passes :
    test_in_progress_file_with_empty_structure floats hdf no_config topic_of
      (λ value. "json")
      "id"
      "now"
      no_store
    ≡ true
unfolding with_nexus_file create_file File.new File.add_attributes Attr.add_root_dataset_attributes
    Attr.add_ascii_string_attribute Context.err_attribute File.topics Router.topics Map.keys
    File.job_id
test_in_progress_file_with_empty_structure_passes = refl

test_in_progress_file_with_structure_passes :
    test_in_progress_file_with_structure hdf text (λ value. "json") "id" "now" no_store ≡ true
unfolding with_nexus_file create_file File.new File.add_attributes Attr.add_root_dataset_attributes
    Attr.add_ascii_string_attribute Context.err_attribute File.topics Router.topics Map.keys
    File.job_id Placed.new Factories.get Map.get register_module Factories.register Map.insert
    Factories.create_writer_module Factories.parse_config File.add_placed_writer Router.subscribe
    Map.entry Map.contains
test_in_progress_file_with_structure_passes = refl

test_create_in_memory_file_passes : test_create_in_memory_file hdf "id" no_store "x" "y" "z" ≡ true
unfolding create_file
test_create_in_memory_file_passes = refl

test_with_nexus_file_failure_passes : test_with_nexus_file_failure hdf "id" no_store ≡ true
unfolding with_nexus_file create_file
test_with_nexus_file_failure_passes = refl

test_with_nexus_file_creation_failure_passes :
    test_with_nexus_file_creation_failure hdf "id" no_store ≡ true
unfolding with_nexus_file create_file
test_with_nexus_file_creation_failure_passes = refl

-- ===== src/Tests/Unit/Modules.antt =====
-- writer_module_factories.rs and writer_modules/mod.rs: the unit tests, with what serde derives for the
-- configuration of the test module as a parameter.
use kafka_file_writer.Base.{
  String, ◌≡◌, refl, Bool, true, false, not, ◌&&◌, Option, none, some, List, [], ◌∷◌,
}
use kafka_file_writer.Base.Map
use kafka_file_writer.Base.Int.{ℤ, pos}
use kafka_file_writer.Base.Exec.{Result, ok, err, pure}
use kafka_file_writer.Error.{Cause, FileWriterError, WriterModuleCreationError}
use kafka_file_writer.Json
use kafka_file_writer.Json.{Value}
use kafka_file_writer.Run
use kafka_file_writer.Run.{RunStartParameters}
use kafka_file_writer.Hdf.{Hdf5}
use kafka_file_writer.Hdf.FileCreator.{FileCreator, create_file}
use kafka_file_writer.Hdf.Scope.{with_nexus_file}
use kafka_file_writer.Writer.{WriterModule, WriterModuleCreateResult, WriterModuleSpec}
use kafka_file_writer.Writer.Factories.{
  WriterModuleFactories, WriterModuleCreateFn, empty, register_module, get, register,
  create_writer_module, parse_config,
}
use kafka_file_writer.Writer.Ixseblock.{IxseblockConfig}
use kafka_file_writer.Writer.Nxeventdata.{Floats, Element, NxeventdataConfig}
use kafka_file_writer.Writer.Registry.{default_registry}
use kafka_file_writer.Tests.Fixtures.{floats, hdf, no_store, no_config, topic_of}
use kafka_file_writer.Tests.Unit.{is_ok}

record TestConfig : Type 0 where
  foo : ℤ
  bar : List ℤ

data TestModule : Type 0 where
  test_module : TestModule

-- `impl WriterModule for TestModule`
abbrev test_writer : {S : Type 0} → WriterModule S
test_writer = record {
  Writer = TestModule;
  on_message = λ meta msg. pure tt;
  on_run_stop = λ meta msg. pure tt;
  flush = pure tt;
  finished = λ w. true;
}

-- `impl WriterModuleSpec for TestModule`
abbrev test_spec : {G S : Type 0} → (Value → Result Cause TestConfig) → WriterModuleSpec G S
test_spec from_value = record {
  Module = TestModule;
  Config = TestConfig;
  name = "TEST_WRITER";
  config = from_value;
  config_type_name = "kafka_file_writer::writer_module_factories::tests::TestConfig";
  create = λ group run config. pure (record { module_ = test_module; subscriptions = [] });
}

-- `json!({"foo": 1, "bar": [2, 3, 4]})`
abbrev test_json : Value
test_json = Value.object (
    Json.entry "foo" (Value.number "1") (
      Json.entry "bar"
        (Value.array (
          Json.cons (Value.number "2")
            (Json.cons (Value.number "3") (Json.cons (Value.number "4") Json.nil))))
        Json.end))

module _ {E : Type 0} (hdf : Hdf5 E) (from_value : Value → Result Cause TestConfig) where
  abbrev once : WriterModuleFactories hdf.Location hdf.State TestModule
  once = register_module (test_spec from_value) (λ m. m) empty

  abbrev twice : WriterModuleFactories hdf.Location hdf.State TestModule
  twice = register_module (test_spec from_value) (λ m. m) once

  abbrev test_factories_detects_duplicated_module_names : Bool
  test_factories_detects_duplicated_module_names =
      not once.has_duplicated_module_names && twice.has_duplicated_module_names

  abbrev Outcome : Type 0
  Outcome = Option (Result FileWriterError (Unit {0}) × (hdf.State × Unit {0}))

  -- The last `unwrap` of the closure, of which a failure is a panic.
  abbrev after_creation :
      Result WriterModuleCreationError (WriterModuleCreateResult TestModule) × hdf.State → Outcome
  after_creation (ok made, h) = some (ok tt, (h, tt))
  after_creation (err e, h) = none

  abbrev create_writer :
      WriterModuleCreateFn hdf.Location hdf.State TestModule
      → Result Cause hdf.Location × hdf.State
      → Outcome
  create_writer create_fn (ok group, h) = after_creation (create_fn group Run.default test_json h)
  create_writer create_fn (err e, h) = none

  abbrev in_memory :
      (uuid : String)
      → hdf.State
      → Option (WriterModuleCreateFn hdf.Location hdf.State TestModule)
      → Outcome
  in_memory uuid h none = none
  in_memory uuid h (some create_fn) =
      with_nexus_file hdf FileCreator.memory "test" uuid
        (λ f (k, t). create_writer create_fn (hdf.create_group f "test" k)) (h, tt)

  abbrev unwrapped : Outcome → Bool
  unwrapped none = false
  unwrapped (some (r, st)) = is_ok r

  abbrev test_writer_module_creation : (uuid : String) → hdf.State → Bool
  test_writer_module_creation uuid h = unwrapped (in_memory uuid h (get once "TEST_WRITER"))

module _ (fl : Floats) (hdf : Hdf5 (Element fl.F64 fl.F32))
    (ixseblock_config : Value → Result Cause IxseblockConfig)
    (nxeventdata_config : Value → Result Cause NxeventdataConfig) where
  abbrev test_default_registry_does_not_have_duplicate_names : Bool
  test_default_registry_does_not_have_duplicate_names =
      not (default_registry fl hdf ixseblock_config nxeventdata_config).has_duplicated_module_names

-- What serde reads from the configuration of the test.
abbrev read_config : Value → Result Cause TestConfig
read_config (Value.object entries) = ok (record { foo = pos 1; bar = pos 2 ∷ pos 3 ∷ pos 4 ∷ [] })
read_config _ = err "missing field `foo`"

test_factories_detects_duplicated_module_names_passes :
    test_factories_detects_duplicated_module_names hdf read_config ≡ true
unfolding register_module register Map.insert Map.get
test_factories_detects_duplicated_module_names_passes = refl

test_writer_module_creation_passes :
    test_writer_module_creation hdf read_config "id" no_store ≡ true
unfolding register_module register Map.insert Map.get get with_nexus_file create_file
    create_writer_module parse_config
test_writer_module_creation_passes = refl

test_default_registry_does_not_have_duplicate_names_passes :
    test_default_registry_does_not_have_duplicate_names floats hdf no_config topic_of ≡ true
unfolding default_registry register_module register Map.insert Map.get
test_default_registry_does_not_have_duplicate_names_passes = refl

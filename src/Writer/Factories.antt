-- ===== src/Writer/Factories.antt =====
-- writer_module_factories.rs: writer modules by name.
pub mod Names
use kafka_file_writer.Base.{String, Bool, true, false, Option, none, some, []}
use kafka_file_writer.Base.Equality.{string_eq}
use kafka_file_writer.Base.Map
use kafka_file_writer.Base.Map.{HashMap}
use kafka_file_writer.Base.Exec.{Result, Exec, ◌>>=◌, pure, lift, map_err}
use kafka_file_writer.Error.{Cause, WriterModuleCreationError, config_parse_error}
use kafka_file_writer.Json.{Value}
use kafka_file_writer.Run.{RunStartParameters}
use kafka_file_writer.Writer.{WriterModuleCreateResult, WriterModuleSpec}

-- `G` is the type of groups, `S` the state of the HDF5 library and `W` the type of all writers.
abbrev pub WriterModuleCreateFn : Type 0 → Type 0 → Type 0 → Type 0
WriterModuleCreateFn G S W =
    G → RunStartParameters → Value → Exec S WriterModuleCreationError (WriterModuleCreateResult W)

pub record WriterModuleFactories (G S W : Type 0) : Type 0 where
  pub modules : HashMap String (WriterModuleCreateFn G S W)
  pub has_duplicated_module_names : Bool

-- Whether `HashMap::insert` returned an old value: if so, the flag is set.
replaced : {A : Type 0} → Option A → Bool → Bool
replaced none b = b
replaced (some a) b = true

module _ {C : Type 0} where
  unfoldable pub parse_config :
      (Value → Result Cause C) → (type_name : String) → Value → Result WriterModuleCreationError C
  parse_config from_value type_name json =
      map_err (λ cause. config_parse_error cause type_name) (from_value json)

module _ {G S W : Type 0} where
  -- `boxed` is `Box::new`.
  unfoldable pub create_writer_module :
      (M : WriterModuleSpec G S) → (M.Module → W) → WriterModuleCreateFn G S W
  create_writer_module M boxed group run_start_parameters writer_config = do
    parsed_config ← lift (parse_config M.config M.config_type_name writer_config)
    result ← M.create group run_start_parameters parsed_config
    pure (record { module_ = boxed result.module_; subscriptions = result.subscriptions })

  abbrev pub empty : WriterModuleFactories G S W
  empty = record { modules = []; has_duplicated_module_names = false }

  -- `register_module`, given the name and the creation function of the type.
  unfoldable pub register :
      String
      → WriterModuleCreateFn G S W
      → WriterModuleFactories G S W
      → WriterModuleFactories G S W
  unfolding replaced
  register name create_fn f = record f {
    modules = Map.insert name create_fn f.modules;
    has_duplicated_module_names = replaced (Map.get name f.modules) f.has_duplicated_module_names;
  }

  unfoldable pub register_module :
      (M : WriterModuleSpec G S)
      → (M.Module → W)
      → WriterModuleFactories G S W
      → WriterModuleFactories G S W
  unfolding register
  register_module M boxed = register M.name (create_writer_module M boxed)

  unfoldable pub get : WriterModuleFactories G S W → String → Option (WriterModuleCreateFn G S W)
  get f name = Map.get name f.modules

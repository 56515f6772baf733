-- ===== src/Stream/Kafka/Settings.antt =====
-- stream/kafka.rs: the settings of the consumers.
use kafka_file_writer.Base.{String, ◌<>◌, ◌≡◌, refl, ap, ◌∙◌, Option, some, [], ◌∷◌}
use kafka_file_writer.Base.{if◌then◌else◌}
use kafka_file_writer.Base.Equality.{◌==◌, string_eq}
use kafka_file_writer.Base.Map.{HashMap}
use kafka_file_writer.Config.{GlobalConfig}
use kafka_file_writer.Stream.Kafka.{
  Rdkafka, set_all, make_job_pool_kafka_client_config, make_data_kafka_client_config,
}

-- What the program relies on in rdkafka's `ClientConfig`, as documented: `set` replaces the value of
-- a parameter and keeps those of the others.
pub record SettingLaws (k : Rdkafka) : Type 0 where
  pub get : k.ClientConfig → String → Option String
  pub get_set :
      (c : k.ClientConfig) (name value name' : String)
      → get (k.set c name value) name' ≡ (if name == name' then some value else get c name')

-- The last value under a name, or a value from before.
abbrev pub last_setting : String → HashMap String String → Option String → Option String
last_setting name [] before = before
last_setting name ((n, value) ∷ settings) before =
    last_setting name settings (if n == name then some value else before)

module _ (k : Rdkafka) (laws : SettingLaws k) where
  open laws use {get, get_set}

  get-set_all :
      (name : String) (settings : HashMap String String) (c : k.ClientConfig)
      → get (set_all k settings c) name ≡ last_setting name settings (get c name)
  unfolding set_all
  get-set_all name [] c = refl
  get-set_all name ((n, value) ∷ settings) c =
      get-set_all name settings (k.set c n value)
      ∙ ap (last_setting name settings) (get_set c n value name)

  -- The data consumer has the parameters of its settings, but its group is always the generated
  -- one, also where the settings name another.
  pub make_data_config_lem :
      (config : GlobalConfig) (uuid name : String)
      → get (make_data_kafka_client_config k config uuid) name ≡ (
          if "group.id" == name
          then some ("kafka_file_writer-" <> uuid)
          else last_setting name config.data_kafka_consumer_settings (get k.new_config name))
  unfolding make_data_kafka_client_config
  make_data_config_lem config uuid name =
      get_set _ "group.id" _ name
      ∙ ap
          (λ (o : Option String).
            if "group.id" == name then some ("kafka_file_writer-" <> uuid) else o)
          (get-set_all name config.data_kafka_consumer_settings k.new_config)

  -- The consumer of the job pool has the parameters of its settings.
  pub make_job_pool_config_lem :
      (config : GlobalConfig) (name : String)
      → get (make_job_pool_kafka_client_config k config) name
        ≡ last_setting name config.job_pool_kafka_consumer_settings (get k.new_config name)
  unfolding make_job_pool_kafka_client_config
  make_job_pool_config_lem config name =
      get-set_all name config.job_pool_kafka_consumer_settings k.new_config

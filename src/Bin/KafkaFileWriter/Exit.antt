-- ===== src/Bin/KafkaFileWriter/Exit.antt =====
-- bin/kafka_file_writer.rs: when the file writer exits with success.
use kafka_file_writer.Base.{
  ℕ, zero, suc, String, ◌≡◌, refl, sym, ap, subst, ◌∙◌, ◌<>◌, Option, none, some, Bool, true, false,
  if◌then◌else◌,
}
use kafka_file_writer.Base.Equality.{◌==◌, string_eq}
use kafka_file_writer.Base.Exec.{Result, ok, err, map_err}
use kafka_file_writer.Error.{Cause, FileWriterError, consumer_creation_error}
use kafka_file_writer.Config.{ConfigError, GlobalConfig, from_path}
use kafka_file_writer.Json.{Value}
use kafka_file_writer.Structure.{StructureSource}
use kafka_file_writer.Stream.Kafka.{
  Rdkafka, kafka_stream, from_config, make_job_pool_kafka_client_config,
  make_data_kafka_client_config,
}
use kafka_file_writer.Stream.Kafka.Settings.{
  SettingLaws, last_setting, make_job_pool_config_lem, make_data_config_lem,
}
use kafka_file_writer.Run.{RunStartParameters}
use kafka_file_writer.Task.{write_data_for_run}
use kafka_file_writer.FileWriter.Success.{write_one_file-TwoConsumers}
use kafka_file_writer.Hdf.{Hdf5}
use kafka_file_writer.Hdf.FileCreator.{FileCreator}
use kafka_file_writer.JobPool.{Deserializer, wait_for_run_start}
use kafka_file_writer.Writer.Ixseblock.{IxseblockConfig}
use kafka_file_writer.Writer.Nxeventdata.{Floats, Element, NxeventdataConfig}
use kafka_file_writer.Writer.Registry.{writer_modules}
use kafka_file_writer.FileWriter.{write_files, write_one_file, write_files_lem}
use kafka_file_writer.Bin.KafkaFileWriter.{
  Args, Draws, State, kafka_host, data_consumer, environment, reported, with_config, main,
}

module _ (fl : Floats) (hdf : Hdf5 (Element fl.F64 fl.F32)) (k : Rdkafka) (draws : Draws)
    (deserialize_message : Deserializer) (ixseblock_config : Value → Result Cause IxseblockConfig)
    (nxeventdata_config : Value → Result Cause NxeventdataConfig) (json_text : Value → String)
    (src : StructureSource) (from_toml : String → Result Cause GlobalConfig) where
  abbrev Here : Type 0
  Here = State hdf draws

  -- What the program does with its settings, for one file.
  abbrev one_file :
      GlobalConfig → (fuel : ℕ) → Here → Option (Result FileWriterError (Unit {0}) × Here)
  one_file config =
      write_one_file hdf (writer_modules fl hdf)
        (environment fl hdf k draws deserialize_message ixseblock_config nxeventdata_config
          json_text src from_toml config)
        (kafka_stream k) (kafka_host k draws config) FileCreator.disk

  abbrev files :
      GlobalConfig → (rounds fuel : ℕ) → Here → Option (Result FileWriterError (Unit {0}) × Here)
  files config =
      write_files hdf (writer_modules fl hdf)
        (environment fl hdf k draws deserialize_message ixseblock_config nxeventdata_config
          json_text src from_toml config)
        (kafka_stream k) (kafka_host k draws config) FileCreator.disk

  reported-ok :
      (o : Option (Result FileWriterError (Unit {0}) × Here)) (st : Here)
      → reported o ≡ some (ok tt, st)
      → o ≡ some (ok tt, st)
  unfolding reported
  reported-ok none st e = absurd (cc)
  reported-ok (some (ok _, s)) st e = cc
  reported-ok (some (err x, s)) st e = absurd (cc)

  -- The file writer ended in its single-file mode, with its file written.
  abbrev OneFile : GlobalConfig → (fuel : ℕ) → (st st' : Here) → Type 0
  OneFile config fuel st st' =
      (config.exit_after_writing_one_file ≡ true) × (one_file config fuel st ≡ some (ok tt, st'))

  choose-ok :
      (exit : Bool) (o : Option (Result FileWriterError (Unit {0}) × Here)) (st' : Here)
      → (if exit then o else none) ≡ some (ok tt, st')
      → (exit ≡ true) × (o ≡ some (ok tt, st'))
  choose-ok true o st' e = (refl, e)
  choose-ok false o st' e = absurd (cc)

  files-ok :
      (config : GlobalConfig) (rounds fuel : ℕ) (st st' : Here)
      → files config rounds fuel st ≡ some (ok tt, st')
      → OneFile config fuel st st'
  unfolding write_files
  files-ok config zero fuel st st' e = absurd (cc)
  files-ok config (suc rounds) fuel st st' e =
      choose-ok config.exit_after_writing_one_file (one_file config fuel st) st' (
        sym (
          write_files_lem hdf (writer_modules fl hdf)
            (environment fl hdf k draws deserialize_message ixseblock_config nxeventdata_config
              json_text src from_toml config)
            (kafka_stream k) (kafka_host k draws config) FileCreator.disk rounds fuel st)
        ∙ e)

  with_config-ok :
      (rounds fuel : ℕ) (st st' : Here) (x : Result ConfigError GlobalConfig)
      → with_config fl hdf k draws deserialize_message ixseblock_config nxeventdata_config json_text
          src from_toml rounds fuel st x
        ≡ some (ok tt, st')
      → (config : GlobalConfig) × (x ≡ ok config) × OneFile config fuel st st'
  unfolding with_config
  with_config-ok rounds fuel st st' (err e) p = absurd (cc)
  with_config-ok rounds fuel st st' (ok config) p =
      (config, refl, files-ok config rounds fuel st st' (reported-ok _ st' p))

  created :
      (r : Result Cause k.State) (s : k.State) → map_err consumer_creation_error r ≡ ok s → r ≡ ok s
  created (ok a) s e = cc
  created (err x) s e = absurd (cc)

  from_config-ok : (c : k.ClientConfig) (s : k.State) → from_config k c ≡ ok s → k.create c ≡ ok s
  unfolding from_config
  from_config-ok c s e = created (k.create c) s e

  module _ (laws : SettingLaws k) where
    open laws use {get}

    -- The parameters of the consumer of the job pool.
    abbrev pub HasJobPoolSettings : GlobalConfig → k.ClientConfig → Type 0
    HasJobPoolSettings config c =
        (name : String)
        → get c name
          ≡ last_setting name config.job_pool_kafka_consumer_settings (get k.new_config name)

    -- The parameters of the consumer of data.
    abbrev pub HasDataSettings : GlobalConfig → (uuid : String) → k.ClientConfig → Type 0
    HasDataSettings config uuid c =
        (name : String)
        → get c name ≡ (
            if "group.id" == name
            then some ("kafka_file_writer-" <> uuid)
            else last_setting name config.data_kafka_consumer_settings (get k.new_config name))

    -- The data were written with this consumer, with the UUID and time that are drawn in this state.
    abbrev pub Wrote :
        GlobalConfig
        → (fuel : ℕ) → RunStartParameters
        → (h h' : hdf.State) → k.State
        → draws.World
        → Type 0
    Wrote config fuel params h h' s w =
        (s' : k.State) × (write_data_for_run hdf (writer_modules fl hdf)
            (environment fl hdf k draws deserialize_message ixseblock_config nxeventdata_config
              json_text src from_toml config)
            (kafka_stream k) fuel params FileCreator.disk (draws.uuid w).0
            (draws.time (draws.uuid w).1).0 (h, s)
          ≡ some (ok tt, (h', s')))

    -- One file was written: a run came from a consumer of the job pool with its settings, and its
    -- data were written with a consumer of data with its own.
    abbrev pub WrittenOnKafka :
        GlobalConfig → (fuel : ℕ) → (h h' : hdf.State) → draws.World → Type 0
    WrittenOnKafka config fuel h h' w =
        (c c' : k.ClientConfig) × (pool pool' s : k.State) × (params : RunStartParameters)
        × HasJobPoolSettings config c
        × (k.create c ≡ ok pool)
        × (wait_for_run_start deserialize_message config (kafka_stream k) fuel (tt, pool)
            ≡ some (ok params, (tt, pool')))
        × HasDataSettings config (draws.uuid w).0 c'
        × (k.create c' ≡ ok s)
        × Wrote config fuel params h h' s (draws.uuid w).1

    one_file-WrittenOnKafka :
        (config : GlobalConfig) (fuel : ℕ) (h h' : hdf.State) (w w' : draws.World)
        → one_file config fuel (h, w) ≡ some (ok tt, (h', w'))
        → WrittenOnKafka config fuel h h' w
    one_file-WrittenOnKafka config fuel h h' w w' e =
        let (pool, pool', s, params, w₁, w₂, made, waited, made', wrote) =
          write_one_file-TwoConsumers hdf (writer_modules fl hdf)
            (environment fl hdf k draws deserialize_message ixseblock_config nxeventdata_config
              json_text src from_toml config)
            (kafka_stream k) (kafka_host k draws config) FileCreator.disk fuel h h' w w' e in
        let made_data : data_consumer k draws config w ≡ (ok s, w₂) =
          ap (λ v. data_consumer k draws config v) (ap (λ x. x.1) made) ∙ made' in
        (
          make_job_pool_kafka_client_config k config,
          make_data_kafka_client_config k config (draws.uuid w).0,
          pool,
          pool',
          s,
          params,
          make_job_pool_config_lem k laws config,
          from_config-ok _ pool (ap (λ x. x.0) made),
          waited,
          make_data_config_lem k laws config (draws.uuid w).0,
          from_config-ok _ s (ap (λ x. x.0) made_data),
          subst (λ v. Wrote config fuel params h h' s v) (sym (ap (λ x. x.1) made_data)) wrote,
        )

    -- The executable exits with success only if it could read its settings, they say that it exits
    -- after one file, and that file was written. For it a consumer of the job pool was made whose
    -- parameters are those that the settings give for it; the wait on it gave a run. A consumer of
    -- data was made whose parameters are those that the settings give for it, except that its
    -- `group.id` has the first UUID drawn, whatever the settings say; the data of the run were
    -- written with it. It relies on what `ClientConfig::set` is documented to do.
    pub main-one_file :
        (rounds fuel : ℕ) (args : Result Cause Args) (h h' : hdf.State) (w w' : draws.World)
        → main fl hdf k draws deserialize_message ixseblock_config nxeventdata_config json_text src
            from_toml rounds fuel args
            (h, w)
          ≡ some (ok tt, (h', w'))
        → (a : Args) × (config : GlobalConfig) × (args ≡ ok a)
          × (from_path src.read_to_string from_toml a.config ≡ ok config)
          × (config.exit_after_writing_one_file ≡ true)
          × WrittenOnKafka config fuel h h' w
    unfolding main
    main-one_file rounds fuel (err e) h h' w w' p = absurd (cc)
    main-one_file rounds fuel (ok a) h h' w w' p =
        let (config, parsed, ended) =
          with_config-ok rounds fuel (h, w) (h', w')
            (from_path src.read_to_string from_toml a.config) p in
        (a, config, refl, parsed, ended.0, one_file-WrittenOnKafka config fuel h h' w w' ended.1)

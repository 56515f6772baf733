-- ===== src/Bin/KafkaFileWriter.antt =====
-- bin/kafka_file_writer.rs: the file writer itself, on Kafka. clap's `try_parse`, the file system and
-- the drawing of UUIDs and times are parameters; the set-up of the log leaves no trace.
pub mod Exit
use kafka_file_writer.Base.{ℕ, String, Option, none, some}
use kafka_file_writer.Base.Exec.{Result, ok, err, Exec, map_err}
use kafka_file_writer.Error.{Cause, FileWriterError, StreamError}
use kafka_file_writer.Config.{ConfigError, GlobalConfig, from_path}
use kafka_file_writer.Stream.Kafka.{
  Rdkafka, kafka_stream, from_config, make_job_pool_kafka_client_config,
  make_data_kafka_client_config,
}
use kafka_file_writer.Hdf.{Hdf5}
use kafka_file_writer.Hdf.FileCreator.{FileCreator}
use kafka_file_writer.Json.{Value}
use kafka_file_writer.Structure.{StructureSource}
use kafka_file_writer.JobPool.{Deserializer}
use kafka_file_writer.Writer.Ixseblock.{IxseblockConfig}
use kafka_file_writer.Writer.Nxeventdata.{Floats, Element, NxeventdataConfig}
use kafka_file_writer.Writer.Registry.{writer_modules, default_registry}
use kafka_file_writer.Task.{Environment}
use kafka_file_writer.FileWriter.{Host, write_files}
use kafka_file_writer.Bin.{Report, from_cause, from_config_error, from_writer_error}

-- Without the verbosity, which sets up the log.
pub record Args : Type 0 where
  pub config : String

-- Where UUIDs and times are drawn from.
pub record Draws : Type 1 where
  pub World : Type 0
  pub uuid : World → String × World
  pub time : World → String × World

module _ (k : Rdkafka) (draws : Draws) where
  -- The two closures that make consumers.
  abbrev pub job_pool_consumer : GlobalConfig → Exec draws.World StreamError k.State
  job_pool_consumer config w = (from_config k (make_job_pool_kafka_client_config k config), w)

  abbrev pub data_consumer : GlobalConfig → Exec draws.World StreamError k.State
  data_consumer config w =
      let (uuid, w') = draws.uuid w in
      (from_config k (make_data_kafka_client_config k config uuid), w')

  abbrev pub kafka_host : GlobalConfig → Host (kafka_stream k)
  kafka_host config = record {
    World = draws.World;
    job_pool_consumer_factory = job_pool_consumer config;
    data_consumer_factory = data_consumer config;
    draw_uuid = draws.uuid;
    draw_time = draws.time;
  }

module _ {E : Type 0} (hdf : Hdf5 E) (draws : Draws) where
  abbrev pub State : Type 0
  State = hdf.State × draws.World

module _ {S : Type 0} where
  -- `?` on the result of the file writer.
  reported : Option (Result FileWriterError (Unit {0}) × S) → Option (Result Report (Unit {0}) × S)
  reported none = none
  reported (some (r, st)) = some (map_err from_writer_error r, st)

-- The deserializers of flatbuffers messages, of the configurations of the writer modules and of the
-- settings, and `Value::to_string`.
module _ (fl : Floats) (hdf : Hdf5 (Element fl.F64 fl.F32)) (k : Rdkafka) (draws : Draws)
    (deserialize_message : Deserializer) (ixseblock_config : Value → Result Cause IxseblockConfig)
    (nxeventdata_config : Value → Result Cause NxeventdataConfig) (json_text : Value → String)
    (src : StructureSource) (from_toml : String → Result Cause GlobalConfig) where
  abbrev pub environment : GlobalConfig → Environment hdf (writer_modules fl hdf)
  environment config = record {
    deserialize_message = deserialize_message;
    source = src;
    json_text = json_text;
    config = config;
    factories = default_registry fl hdf ixseblock_config nxeventdata_config;
  }

  with_config :
      (rounds fuel : ℕ)
      → State hdf draws
      → Result ConfigError GlobalConfig
      → Option (Result Report (Unit {0}) × State hdf draws)
  with_config rounds fuel st (err e) = some (err (from_config_error e), st)
  with_config rounds fuel st (ok config) = reported (
      write_files hdf (writer_modules fl hdf) (environment config) (kafka_stream k)
        (kafka_host k draws config) FileCreator.disk rounds fuel st)

  -- `args` is what `Args::try_parse` returns; `rounds` bounds the number of files and `fuel` the
  -- rounds of the loops of one file.
  unfoldable pub main :
      (rounds fuel : ℕ) (args : Result Cause Args)
      → State hdf draws
      → Option (Result Report (Unit {0}) × State hdf draws)
  unfolding with_config reported
  main rounds fuel (err e) st = some (err (from_cause e), st)
  main rounds fuel (ok args) st =
      with_config rounds fuel st (from_path src.read_to_string from_toml args.config)

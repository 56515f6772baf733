-- ===== src/Structure.antt =====
-- run_writer/nexus_structure.rs: the tree that a run start message asks for.
use kafka_file_writer.Base.{ℕ, String, List}
use kafka_file_writer.Base.Exec.{Result, map_err}
use kafka_file_writer.Error.{Cause, FileWriterError, NexusStructureError}
use kafka_file_writer.Error.{io_error, nexus_structure_error, failed_parse}
use kafka_file_writer.Json.{Value}

pub data NexusGroupType : Type 0 where
  group_type : NexusGroupType

pub record NexusWriterModule : Type 0 where
  pub module_name : String
  pub config : Value

-- A `HashMap<String, Value>`, in the order in which it is walked.
abbrev pub Attributes : Type 0
Attributes = List (String × Value)

mutual
  pub data NexusStructureItem : Type 0 where
    group : NexusGroup → NexusStructureItem
    writer_module : NexusWriterModule → NexusStructureItem
    invalid : Value → NexusStructureItem

  pub data NexusGroup : Type 0 where
    nexus_group :
        NexusGroupType
        → (name : String) (children : NexusStructureItems) (attributes : Attributes) → NexusGroup

  -- `Vec<NexusStructureItem>`
  pub data NexusStructureItems : Type 0 where
    nil : NexusStructureItems
    cons : NexusStructureItem → NexusStructureItems → NexusStructureItems

pub record NexusFileStructure : Type 0 where
  pub children : NexusStructureItems
  pub attributes : Attributes

-- A `serde_json::Error`, by its text and accessors.
pub record SerdeError : Type 0 where
  pub text : String
  pub line : ℕ
  pub column : ℕ

-- What is not in the repository: the deserializer that serde derives, miette's
-- `SourceOffset::from_location`, and the file system's `read_to_string`.
pub record StructureSource : Type 0 where
  pub from_json : String → Result SerdeError NexusFileStructure
  pub from_location : String → ℕ → ℕ → ℕ
  pub read_to_string : String → Result Cause String

module _ (src : StructureSource) where
  -- `NexusFileStructure::from_str`
  unfoldable pub from_str : String → Result NexusStructureError NexusFileStructure
  from_str json =
      map_err
        (λ cause. failed_parse cause.text json (src.from_location json cause.line cause.column))
        (src.from_json json)

  -- `structure.parse().map_err(..)`, the tail of both constructors.
  abbrev parse_file : Result FileWriterError String → Result FileWriterError NexusFileStructure
  parse_file (Result.ok json) = map_err nexus_structure_error (from_str json)
  parse_file (Result.err e) = Result.err e

  unfoldable pub from_local_file : String → Result FileWriterError NexusFileStructure
  from_local_file file_path =
      parse_file (map_err (λ e. io_error e file_path) (src.read_to_string file_path))

  unfoldable pub from_run_start : String → Result FileWriterError NexusFileStructure
  from_run_start nexus_structure = map_err nexus_structure_error (from_str nexus_structure)

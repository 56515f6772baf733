-- ===== src/Json.antt =====
-- serde_json's `Value`. The program matches on its `String` case; a number is kept as its text.
use kafka_file_writer.Base.{String, Bool}

mutual
  pub data Value : Type 0 where
    null : Value
    bool : Bool → Value
    number : String → Value
    string : String → Value
    array : Values → Value
    object : Entries → Value

  pub data Values : Type 0 where
    nil : Values
    cons : Value → Values → Values

  pub data Entries : Type 0 where
    end : Entries
    entry : String → Value → Entries → Entries

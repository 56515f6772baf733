-- ===== src/Writer/Nxeventdata.antt =====
-- writer_modules/nxevent_data.rs: the module that writes neutron events.
pub mod Append
pub mod Pulses
pub mod Recording
pub mod Creation
pub mod Invalid
pub mod Records
pub mod Life
pub mod Apart
pub mod Window
pub mod Building
use kafka_file_writer.Base.{
  ℕ, zero, suc, String, ◌<>◌, Bool, true, false, not, ◌||◌, Option, none, some,
}
use kafka_file_writer.Base.{List, [], ◌∷◌, map, length, ltb, leb, if◌then◌else◌}
use kafka_file_writer.Base.Equality.{nat_beq}
use kafka_file_writer.Base.Show.{show}
use kafka_file_writer.Base.Int.{ℤ, pos, negsuc, add_usize}
use kafka_file_writer.Base.Exec.{
  Result, ok, err, Exec, ◌>>=◌, ◌>>◌, pure, raise, lift, with_context, on_second,
}
use kafka_file_writer.Error.{
  Cause, Hdf5Error, WriterModuleError, failed_file_write, invalid_data, fatal,
  WriterModuleCreationError, initialization_hdf5_error,
}
use kafka_file_writer.Message.{
  KafkaMessageMeta, DeserializedMessage, RunStop, EventData, PulseMetadata, pulse_metadata_pu00,
  event_data_ev44,
}
use kafka_file_writer.Subscription.{Subscription, SubscriptionKey}
use kafka_file_writer.Json.{Value}
use kafka_file_writer.Run.{RunStartParameters}
use kafka_file_writer.Hdf.{Hdf5, ElementType}
use kafka_file_writer.Hdf.Context.{err_dataset, err_parent_dataset}
use kafka_file_writer.Hdf.Attr.{add_ascii_string_attribute}
use kafka_file_writer.Writer.{WriterModuleCreateResult, WriterModuleSpec}

-- Floating-point numbers are not modelled: their types and the conversions that the module makes
-- are a parameter.
pub record Floats : Type 1 where
  pub F64 : Type 0
  pub F32 : Type 0
  -- `t as f64`, and `(t as f32) / 1000.`
  pub to_f64 : ℤ → F64
  pub to_f32_div_1000 : ℤ → F32

pub data Element (F64 F32 : Type 0) : Type 0 where
  f64 : F64 → Element F64 F32
  u32 : ℕ → Element F64 F32
  f32 : F32 → Element F64 F32

pub record NxeventdataConfig : Type 0 where
  pub topic : String

pub record Nxeventdata (G : Type 0) : Type 0 where
  pub config : NxeventdataConfig
  pub group : G
  pub run_start_time_ms : ℕ
  pub run_stop_time_ms : ℕ
  pub latest_message_time_ms : ℕ

module _ {G : Type 0} where
  unfoldable pub finished : Nxeventdata G → Bool
  finished w = leb w.run_stop_time_ms w.latest_message_time_ms

module _ (fl : Floats) (hdf : Hdf5 (Element fl.F64 fl.F32)) where
  abbrev pub Writes : Type 0
  Writes = Exec hdf.State WriterModuleError (Unit {0})

  -- `?` on an HDF5 result, by `From<Hdf5Error>`.
  abbrev pub write_step :
      {A : Type 0} → Exec hdf.State Hdf5Error A → Exec hdf.State WriterModuleError A
  write_step = with_context failed_file_write

  -- `group.dataset(name)` with its context.
  pub open_dataset : hdf.Location → String → Exec hdf.State WriterModuleError hdf.Dataset
  open_dataset group name = write_step (err_parent_dataset hdf group name (hdf.dataset group name))

  pub resize : hdf.Dataset → ℕ → Writes
  resize d n = write_step (err_dataset hdf d (hdf.resize d n))

  pub write_slice : hdf.Dataset → List (Element fl.F64 fl.F32) → ℕ → Writes
  write_slice d xs from = write_step (err_dataset hdf d (hdf.write_slice d xs from))

  -- One more element in `event_time_zero`, once it is open.
  grow_pulse : PulseMetadata → hdf.Dataset → Writes
  grow_pulse msg event_time_zero h =
      let original_length = hdf.size event_time_zero h in
      (do
        resize event_time_zero (add_usize original_length 1)
        write_slice event_time_zero (f64 (fl.to_f64 msg.reference_time) ∷ []) original_length)
        h

  pub write_pulse : hdf.Location → PulseMetadata → Writes
  write_pulse group msg = do
    event_time_zero ← open_dataset group "event_time_zero"
    grow_pulse msg event_time_zero

  write_events : (event_id event_time_offset : hdf.Dataset) → ℕ → List ℕ → List ℤ → Writes
  write_events event_id event_time_offset original_length pixel_ids time_of_flight = do
    write_slice event_id (map u32 pixel_ids) original_length
    write_slice event_time_offset (map (λ t. f32 (fl.to_f32_div_1000 t)) time_of_flight)
        original_length

  -- The two data sets, once they are open, both from the length of `event_time_offset`.
  grow_events : List ℕ → List ℤ → (event_time_offset event_id : hdf.Dataset) → Writes
  grow_events pixel_ids time_of_flight event_time_offset event_id h =
      let original_length = hdf.size event_time_offset h in
      (do
        resize event_id (add_usize original_length (length pixel_ids))
        resize event_time_offset (add_usize original_length (length time_of_flight))
        write_events event_id event_time_offset original_length pixel_ids time_of_flight)
        h

  pub append_events : hdf.Location → (pixel_ids : List ℕ) (time_of_flight : List ℤ) → Writes
  append_events group pixel_ids time_of_flight = do
    event_time_offset ← open_dataset group "event_time_offset"
    event_id ← open_dataset group "event_id"
    grow_events pixel_ids time_of_flight event_time_offset event_id

  length_mismatch : ℕ → ℕ → WriterModuleError
  length_mismatch pixels times =
      invalid_data (
        "pixel_id length " <> show pixels <> " does not match time_of_flight length " <> show times)

  pub check_events : hdf.Location → Option (List ℕ) → Option (List ℤ) → Writes
  check_events group none tof = raise (invalid_data "Missing pixel_id")
  check_events group (some ids) none = raise (invalid_data "Missing time_of_flight")
  check_events group (some ids) (some tof) =
      if not (nat_beq (length ids) (length tof))
      then raise (length_mismatch (length ids) (length tof))
      else append_events group ids tof

  -- The `match` on the schema.
  pub write_message : hdf.Location → DeserializedMessage → Writes
  write_message group (pulse_metadata_pu00 msg) = write_pulse group msg
  write_message group (event_data_ev44 msg) = check_events group msg.pixel_id msg.time_of_flight
  write_message group _ = pure tt

  abbrev pub State : Type 0
  State = Nxeventdata hdf.Location × hdf.State

  -- After the time stamp, if there is one, is known not to be negative.
  stamped : ℕ → DeserializedMessage → Exec State WriterModuleError (Unit {0})
  stamped timestamp message (w, h) =
      let w' : Nxeventdata hdf.Location = record w { latest_message_time_ms = timestamp } in
      if ltb timestamp w.run_start_time_ms || ltb w.run_stop_time_ms timestamp
      then (ok tt, (w', h))
      else on_second (write_message w.group message) (w', h)

  timed : Option ℤ → DeserializedMessage → Exec State WriterModuleError (Unit {0})
  timed none message (w, h) = on_second (write_message w.group message) (w, h)
  timed (some (pos t)) message st = stamped t message st
  timed (some (negsuc t)) message st = (
    err (
        fatal "out of range integral type conversion attempted"
          "Kafka message timestamp was negative"),
    st,
  )

  unfoldable pub on_message :
      KafkaMessageMeta → DeserializedMessage → Exec State WriterModuleError (Unit {0})
  unfolding timed stamped write_message check_events length_mismatch append_events grow_events
      write_events write_pulse grow_pulse open_dataset resize write_slice
  on_message meta message = timed meta.timestamp message

  unfoldable pub on_run_stop : KafkaMessageMeta → RunStop → Exec State WriterModuleError (Unit {0})
  on_run_stop meta message (w, h) = (ok tt, (record w { run_stop_time_ms = message.stop_time }, h))

  unfoldable pub flush : Exec State WriterModuleError (Unit {0})
  flush = pure tt

  pub make_dataset :
      hdf.Location → ElementType → String → Exec hdf.State WriterModuleCreationError hdf.Dataset
  make_dataset group type name =
      with_context initialization_hdf5_error
        (err_parent_dataset hdf group name (hdf.create_dataset group type 0 32000 name))

  -- `init`, which sets `run_start_time_ms` once more.
  unfoldable pub init : RunStartParameters → Exec State WriterModuleCreationError (Unit {0})
  unfolding make_dataset
  init run_start_parameters (w, h) =
      on_second
        (do
          make_dataset w.group ElementType.f64 "event_time_zero"
          make_dataset w.group ElementType.u32 "event_id"
          make_dataset w.group ElementType.f32 "event_time_offset"
          with_context initialization_hdf5_error
              (add_ascii_string_attribute hdf w.group "NX_class" "NXevent_data"))
        (record w { run_start_time_ms = run_start_parameters.start_time_ms }, h)

  pub created :
      List Subscription
      → Result WriterModuleCreationError (Unit {0}) × State
      → Result WriterModuleCreationError (WriterModuleCreateResult (Nxeventdata hdf.Location))
        × hdf.State
  created subscriptions (ok _, (w, h)) =
      (ok (record { module_ = w; subscriptions = subscriptions }), h)
  created subscriptions (err e, (w, h)) = (err e, h)

  unfoldable pub create :
      hdf.Location
      → RunStartParameters
      → NxeventdataConfig
      → Exec hdf.State WriterModuleCreationError
          (WriterModuleCreateResult (Nxeventdata hdf.Location))
  unfolding init created
  create group run_start_parameters config h =
      created (record { topic = config.topic; key = SubscriptionKey.all } ∷ []) (
        init run_start_parameters (
          record {
            config = config;
            group = group;
            run_start_time_ms = run_start_parameters.start_time_ms;
            run_stop_time_ms = run_start_parameters.stop_time_ms;
            latest_message_time_ms = 0;
          },
          h,
        ))

  -- `impl WriterModuleSpec for NXeventdata`
  abbrev pub spec :
      (Value → Result Cause NxeventdataConfig) → WriterModuleSpec hdf.Location hdf.State
  spec from_value = record {
    Module = Nxeventdata hdf.Location;
    Config = NxeventdataConfig;
    name = "NXevent_data";
    config = from_value;
    config_type_name = "kafka_file_writer::writer_modules::nxevent_data::NXeventdataConfig";
    create = create;
  }

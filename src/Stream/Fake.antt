-- ===== src/Stream/Fake.antt =====
-- stream/fake.rs: the consumer that tests use, which delivers messages that were put into it.
pub mod Runinfo
pub mod Roundtrip
use kafka_file_writer.Base.{ℕ, String, Bool, true, false, Option, none, some, List, [], ◌∷◌, ◌++◌}
use kafka_file_writer.Base.{if◌then◌else◌}
use kafka_file_writer.Base.Int.{ℤ, pos}
use kafka_file_writer.Base.Exec.{Result, ok, err, Exec}
use kafka_file_writer.Error.{Cause, StreamError, assignment_error, commit_error}
use kafka_file_writer.Message.{Message}
use kafka_file_writer.Stream.{Stream, CommitMode}

pub record FakeStream : Type 0 where
  pub assign_from_timestamp_causes_error : Bool
  pub subscribe_causes_error : Bool
  pub unassign_causes_error : Bool
  pub commit_causes_error : Bool
  pub messages : List (Result StreamError Message)
  pub topics : List String
  pub is_assigned : Bool

abbrev pub default : FakeStream
default = record {
  assign_from_timestamp_causes_error = false;
  subscribe_causes_error = false;
  unassign_causes_error = false;
  commit_causes_error = false;
  messages = [];
  topics = [];
  is_assigned = false;
}

abbrev fake_stream_error : Cause
fake_stream_error = "Fake stream error"

unfoldable pub assign_from_timestamp : List String → ℤ → ℕ → Exec FakeStream StreamError (Unit {0})
assign_from_timestamp topics timestamp timeout s =
    if s.assign_from_timestamp_causes_error
    then (err (assignment_error fake_stream_error topics "faked error"), s)
    else (ok tt, record s { is_assigned = true; topics = topics })

pop_front :
    List (Result StreamError Message)
    → FakeStream
    → Option (Result StreamError Message) × FakeStream
pop_front [] s = (none, s)
pop_front (m ∷ ms) s = (some m, record s { messages = ms })

unfoldable pub poll : ℕ → FakeStream → Option (Result StreamError Message) × FakeStream
unfolding pop_front
poll timeout s = pop_front s.messages s

unfoldable pub subscribe : List String → Exec FakeStream StreamError (Unit {0})
subscribe topics s =
    if s.subscribe_causes_error
    then (
      err (
          assignment_error fake_stream_error topics
            "FakeKafkaConsumer caused an error in subscribe"),
      s,
    )
    else (ok tt, record s { is_assigned = true; topics = topics })

unfoldable pub unsubscribe : FakeStream → FakeStream
unsubscribe s = record s { is_assigned = false; topics = [] }

unfoldable pub unassign : Exec FakeStream StreamError (Unit {0})
unassign s =
    if s.unassign_causes_error
    then (
      err (assignment_error fake_stream_error [] "FakeKafkaConsumer caused an error in unassign"),
      s,
    )
    else (ok tt, record s { is_assigned = false; topics = [] })

unfoldable pub commit_message : Message → CommitMode → Exec FakeStream StreamError (Unit {0})
commit_message message mode s =
    if s.commit_causes_error
    then (err (commit_error fake_stream_error message.topic message.partition message.offset), s)
    else (ok tt, s)

-- `impl Stream for FakeStream`
abbrev pub fake_stream : Stream
fake_stream = record {
  State = FakeStream;
  assign_from_timestamp = assign_from_timestamp;
  poll = poll;
  subscribe = subscribe;
  unsubscribe = unsubscribe;
  unassign = unassign;
  commit_message = commit_message;
}

-- The message of `append_runinfo_message_with_payload`; `now` is the time of the call.
unfoldable pub runinfo_message : Option (List ℕ) → (now : ℤ) → Message
runinfo_message payload now = record {
  payload = payload;
  key = none;
  topic = "runInfo";
  timestamp = some now;
  partition = pos 0;
  offset = pos 0;
}

unfoldable pub append_runinfo_message_with_payload :
    Option (List ℕ) → (now : ℤ) → FakeStream → FakeStream
append_runinfo_message_with_payload payload now s = record s {
  messages = s.messages ++ (ok (runinfo_message payload now) ∷ []);
}

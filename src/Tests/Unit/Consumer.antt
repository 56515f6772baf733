-- ===== src/Tests/Unit/Consumer.antt =====
-- stream/fake.rs: the unit tests.
use kafka_file_writer.Base.{
  ℕ, String, ◌≡◌, refl, Bool, true, false, ◌&&◌, Option, none, some, List, [], ◌∷◌, length,
}
use kafka_file_writer.Base.Equality.{nat_beq, bytes_beq}
use kafka_file_writer.Base.Int.{ℤ, pos}
use kafka_file_writer.Base.Exec.{Result, ok, err}
use kafka_file_writer.Error.{StreamError, poll_error}
use kafka_file_writer.Message.{Message}
use kafka_file_writer.Stream.Fake.{
  FakeStream, default, poll, subscribe, unsubscribe, assign_from_timestamp, unassign,
}
use kafka_file_writer.Tests.Unit.{bytes, is_ok, is_err, is_assignment_error, is_err_and}

-- A message of the test; `now` is the time of its making.
abbrev owned : String → String → (now : ℤ) → Message
owned payload key now = record {
  payload = some (bytes payload);
  key = some (bytes key);
  topic = "some_topic";
  timestamp = some now;
  partition = pos 0;
  offset = pos 0;
}

abbrev equals : String → Option (List ℕ) → Bool
equals text none = false
equals text (some found) = bytes_beq found (bytes text)

-- The message has this payload and this key.
abbrev holds : String → String → Option (Result StreamError Message) → Bool
holds payload key (some (ok msg)) = equals payload msg.payload && equals key msg.key
holds payload key _ = false

abbrev failed : Option (Result StreamError Message) → Bool
failed (some r) = is_err r
failed none = false

abbrev is_none : Option (Result StreamError Message) → Bool
is_none none = true
is_none (some r) = false

abbrev test_poll_messages_from_fake_consumer : (now later : ℤ) → Bool
test_poll_messages_from_fake_consumer now later =
    let consumer : FakeStream = record default {
      messages =
          ok (owned "some_payload" "some_key" now)
          ∷ ok (owned "another_payload" "another_key" later)
          ∷ err (poll_error "Fake stream error")
          ∷ [];
    } in
    let (msg₁, c₁) = poll 0 consumer in
    let (msg₂, c₂) = poll 0 c₁ in
    let (msg₃, c₃) = poll 0 c₂ in
    let (msg₄, c₄) = poll 0 c₃ in
    holds "some_payload" "some_key" msg₁
    && holds "another_payload" "another_key" msg₂
    && failed msg₃
    && is_none msg₄

test_poll_messages_from_fake_consumer_passes :
    (now later : ℤ) → test_poll_messages_from_fake_consumer now later ≡ true
unfolding poll
test_poll_messages_from_fake_consumer_passes now later = refl

abbrev topics_are : ℕ → FakeStream → Bool
topics_are n s = nat_beq (length s.topics) n

abbrev three : List String
three = "foo" ∷ "bar" ∷ "baz" ∷ []

abbrev test_subscribe_unsubscribe : Bool
test_subscribe_unsubscribe =
    let (r₁, s₁) = subscribe three (record default { subscribe_causes_error = true }) in
    let (r₂, s₂) = subscribe three (record s₁ { subscribe_causes_error = false }) in
    let s₃ = unsubscribe s₂ in
    is_err_and is_assignment_error r₁
    && topics_are 0 s₁
    && is_ok r₂
    && topics_are 3 s₂
    && topics_are 0 s₃

test_subscribe_unsubscribe_passes : test_subscribe_unsubscribe ≡ true
unfolding subscribe unsubscribe
test_subscribe_unsubscribe_passes = refl

abbrev test_assign_unassign : Bool
test_assign_unassign =
    let (r₁, s₁) =
      assign_from_timestamp three (pos 0) 1
        (record default { assign_from_timestamp_causes_error = true }) in
    let (r₂, s₂) =
      assign_from_timestamp three (pos 0) 1
        (record s₁ { assign_from_timestamp_causes_error = false }) in
    let (r₃, s₃) = unassign (record s₂ { unassign_causes_error = true }) in
    let (r₄, s₄) = unassign (record s₃ { unassign_causes_error = false }) in
    is_err_and is_assignment_error r₁
    && topics_are 0 s₁
    && is_ok r₂
    && topics_are 3 s₂
    && is_err_and is_assignment_error r₃
    && topics_are 3 s₃
    && is_ok r₄
    && topics_are 0 s₄

test_assign_unassign_passes : test_assign_unassign ≡ true
unfolding assign_from_timestamp unassign
test_assign_unassign_passes = refl

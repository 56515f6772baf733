-- ===== src/Tests/Unit/Scopes.antt =====
-- stream/scope.rs: the unit tests. The state beside the consumer says whether the closure has found what
-- it asserts.
use kafka_file_writer.Base.{
  String, ◌≡◌, refl, Bool, true, false, not, ◌&&◌, Option, none, some, [], ◌∷◌,
}
use kafka_file_writer.Base.Equality.{◌==◌, string_eq}
use kafka_file_writer.Base.Int.{pos}
use kafka_file_writer.Base.Exec.{Result, ok, err}
use kafka_file_writer.Base.Loop.{Run}
use kafka_file_writer.Error.{FileWriterError}
use kafka_file_writer.Stream.Fake
use kafka_file_writer.Stream.Fake.{FakeStream, fake_stream, default}
use kafka_file_writer.Stream.Scope.{with_assignment, with_subscription_to_job_pool}
use kafka_file_writer.Tests.Unit.{
  is_assignment_error, is_stream_error, is_unit_test_error, is_err_and,
}

-- The closures of the tests: one that asserts that the consumer is assigned, and gives a result; one
-- that gives a result; and one that panics.
abbrev assert_assigned :
    Result FileWriterError String → Run (Bool × FakeStream) FileWriterError String
assert_assigned result (held, s) = some (result, (held && s.is_assigned, s))

abbrev just : Result FileWriterError String → Run (Bool × FakeStream) FileWriterError String
just result (held, s) = some (result, (held, s))

abbrev panic : Run (Bool × FakeStream) FileWriterError String
panic (held, s) = none

abbrev works : Result FileWriterError String
works = ok "it worked"

abbrev fails : Result FileWriterError String
fails = err FileWriterError.unit_test_error

abbrev Ended : Type 0
Ended = Option (Result FileWriterError String × (Bool × FakeStream))

-- What a test asserts at its end: what the result is, that the closure held, and that the consumer is
-- not assigned.
abbrev then_free : (Result FileWriterError String → Bool) → Ended → Bool
then_free p none = false
then_free p (some (r, (held, s))) = p r && held && not s.is_assigned

abbrev then_result : (Result FileWriterError String → Bool) → Ended → Bool
then_result p none = false
then_result p (some (r, (held, s))) = p r && held

abbrev worked : Result FileWriterError String → Bool
worked (ok s) = s == "it worked"
worked (err e) = false

abbrev subscribing : Run (Bool × FakeStream) FileWriterError String → FakeStream → Ended
subscribing func s = with_subscription_to_job_pool fake_stream "runInfo" func (true, s)

abbrev assigning : Run (Bool × FakeStream) FileWriterError String → FakeStream → Ended
assigning func s = with_assignment fake_stream ("events" ∷ []) (pos 123) 100 func (true, s)

abbrev test_with_subscription_to_job_pool : Bool
test_with_subscription_to_job_pool = then_free worked (subscribing (assert_assigned works) default)

test_with_subscription_to_job_pool_passes : test_with_subscription_to_job_pool ≡ true
unfolding with_subscription_to_job_pool Fake.subscribe Fake.unsubscribe
test_with_subscription_to_job_pool_passes = refl

abbrev test_with_subscription_to_job_pool_func_failed : Bool
test_with_subscription_to_job_pool_func_failed =
    then_free (is_err_and is_unit_test_error) (subscribing (assert_assigned fails) default)

test_with_subscription_to_job_pool_func_failed_passes :
    test_with_subscription_to_job_pool_func_failed ≡ true
unfolding with_subscription_to_job_pool Fake.subscribe Fake.unsubscribe
test_with_subscription_to_job_pool_func_failed_passes = refl

abbrev test_with_subscription_to_job_pool_subscription_failed : Bool
test_with_subscription_to_job_pool_subscription_failed =
    then_free (is_err_and (is_stream_error is_assignment_error))
      (subscribing panic (record default { subscribe_causes_error = true }))

test_with_subscription_to_job_pool_subscription_failed_passes :
    test_with_subscription_to_job_pool_subscription_failed ≡ true
unfolding with_subscription_to_job_pool Fake.subscribe
test_with_subscription_to_job_pool_subscription_failed_passes = refl

abbrev test_with_assignment_to_job_pool : Bool
test_with_assignment_to_job_pool = then_free worked (assigning (assert_assigned works) default)

test_with_assignment_to_job_pool_passes : test_with_assignment_to_job_pool ≡ true
unfolding with_assignment Fake.assign_from_timestamp Fake.unassign
test_with_assignment_to_job_pool_passes = refl

abbrev test_with_assignment_to_job_pool_func_failed : Bool
test_with_assignment_to_job_pool_func_failed =
    then_free (is_err_and is_unit_test_error) (assigning (assert_assigned fails) default)

test_with_assignment_to_job_pool_func_failed_passes :
    test_with_assignment_to_job_pool_func_failed ≡ true
unfolding with_assignment Fake.assign_from_timestamp Fake.unassign
test_with_assignment_to_job_pool_func_failed_passes = refl

abbrev test_with_assignment_to_job_pool_assignment_failed : Bool
test_with_assignment_to_job_pool_assignment_failed =
    then_free (is_err_and (is_stream_error is_assignment_error))
      (assigning panic (record default { assign_from_timestamp_causes_error = true }))

test_with_assignment_to_job_pool_assignment_failed_passes :
    test_with_assignment_to_job_pool_assignment_failed ≡ true
unfolding with_assignment Fake.assign_from_timestamp
test_with_assignment_to_job_pool_assignment_failed_passes = refl

abbrev test_with_assignment_to_job_pool_unassign_failed : Bool
test_with_assignment_to_job_pool_unassign_failed =
    then_result (is_err_and (is_stream_error is_assignment_error))
      (assigning (just works) (record default { unassign_causes_error = true }))

test_with_assignment_to_job_pool_unassign_failed_passes :
    test_with_assignment_to_job_pool_unassign_failed ≡ true
unfolding with_assignment Fake.assign_from_timestamp Fake.unassign
test_with_assignment_to_job_pool_unassign_failed_passes = refl

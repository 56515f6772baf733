-- ===== src/Tests/Unit.antt =====
-- The unit tests of the repository, each a test that the model passes: `assert!` and `assert_eq!` are
-- Boolean tests, a closure that asserts says so in the state beside the consumer, and a panic is
-- a test that fails.
mod Routing
mod Scopes
mod Consumer
mod Parameters
mod Modules
mod Building
mod Writing
mod Passing
use Prim.Native.Char.{code}
use Prim.Native.String
use kafka_file_writer.Base.{
  ℕ, String, Bool, true, false, ◌&&◌, ◌||◌, Option, none, some, List, [], ◌∷◌,
}
use kafka_file_writer.Base.Equality.{nat_beq}
use kafka_file_writer.Base.Exec.{Result, ok, err}
use kafka_file_writer.Error.{
  StreamError, assignment_error, commit_error, FileWriterError, stream_error,
}

-- A byte string `b".."`.
abbrev pub bytes : String → List ℕ
bytes String.[] = []
bytes (String.◌∷◌ c s) = code c ∷ bytes s

-- `is_ok` and `is_err`
abbrev pub is_ok : {E A : Type 0} → Result E A → Bool
is_ok (ok a) = true
is_ok (err e) = false

abbrev pub is_err : {E A : Type 0} → Result E A → Bool
is_err (ok a) = false
is_err (err e) = true

-- `matches!(err, StreamError::AssignmentError { .. })`, and as an error of the writer
abbrev pub is_assignment_error : StreamError → Bool
is_assignment_error (assignment_error _ _ _) = true
is_assignment_error _ = false

abbrev pub is_commit_error : StreamError → Bool
is_commit_error (commit_error _ _ _ _) = true
is_commit_error _ = false

abbrev pub is_stream_error : (StreamError → Bool) → FileWriterError → Bool
is_stream_error p (stream_error e) = p e
is_stream_error p _ = false

abbrev pub is_unit_test_error : FileWriterError → Bool
is_unit_test_error FileWriterError.unit_test_error = true
is_unit_test_error _ = false

-- `is_err_and`
abbrev pub is_err_and : {E A : Type 0} → (E → Bool) → Result E A → Bool
is_err_and p (ok a) = false
is_err_and p (err e) = p e

-- Sets of numbers.
abbrev member : ℕ → List ℕ → Bool
member n [] = false
member n (m ∷ ms) = nat_beq n m || member n ms

abbrev included : List ℕ → List ℕ → Bool
included [] ms = true
included (n ∷ ns) ms = member n ms && included ns ms

abbrev pub same_set : List ℕ → List ℕ → Bool
same_set ns ms = included ns ms && included ms ns

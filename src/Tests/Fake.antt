-- ===== src/Tests/Fake.antt =====
-- Examples for the run starts of the fake consumer.
use kafka_file_writer.Base.{ℕ, zero, ◌≡◌, refl, some, List, [], ◌∷◌, arith}
use kafka_file_writer.Base.Int.{pos}
use kafka_file_writer.Base.Exec.{Result, ok, err}
use kafka_file_writer.Error.{Cause, poll_error}
use kafka_file_writer.Message.{DeserializedMessage, run_start_pl72, other}
use kafka_file_writer.JobPool.{wait_for_run_start}
use kafka_file_writer.Stream.Fake.{FakeStream, fake_stream, default}
use kafka_file_writer.Stream.Fake.Runinfo.{
  Flatbuffers, run_start_of, run_start_args, make_run_start, append_runinfo_run_start_message,
}
use kafka_file_writer.Stream.Fake.Roundtrip.{test_parameters, wait_for_run_start-append}
use kafka_file_writer.Tests.Fixtures.{config, message}

-- Short buffers, which read as one run start and one other message.
abbrev buffers : Flatbuffers
buffers = record { run_start_buffer = λ a. 0 ∷ []; run_stop_buffer = λ a. 1 ∷ [] }

abbrev read : List ℕ → Result Cause DeserializedMessage
read (zero ∷ []) = ok (run_start_pl72 (run_start_of run_start_args))
read _ = ok other

abbrev quiet : FakeStream
quiet = record default { messages = err (poll_error "broker down") ∷ ok (message (3 ∷ []) 6) ∷ [] }

wait_for_run_start-append_example :
    wait_for_run_start read config fake_stream 3
      (tt, append_runinfo_run_start_message buffers (pos 9) quiet)
    ≡ some (ok test_parameters, (tt, default))
unfolding make_run_start
wait_for_run_start-append_example =
    wait_for_run_start-append buffers read config (pos 9) quiet 3 refl refl refl (refl, (refl, tt))
      (omega arith)

-- ===== src/Task/Seeking.antt =====
-- run_writer/single_file_write_task.rs: from when on a run reads its topics.
use kafka_file_writer.Base.{ℕ, ◌-◌, ◌+◌, ◌≤◌, ◌<◌, ◌^◌, ◌≡◌, ◌⊎◌, arith}
use kafka_file_writer.Base.Int.{ℤ, pos}
use kafka_file_writer.Base.Exec.{ok}
use kafka_file_writer.Task.{seek_timestamp}

-- If a time to seek to is found, then it is not negative, not after the start of the run, fits into
-- an `i64`, and is exactly as far back as asked unless that is before the epoch.
pub seek_timestamp-ok :
    (start back : ℕ) (t : ℤ)
    → seek_timestamp start back ≡ ok t
    → (n : ℕ) × (t ≡ pos n)
      × (n ≤ start)
      × (n < 2 ^ 63)
      × (start ≤ n + back)
      × ((n + back ≡ start) ⊎ (n ≡ 0))
unfolding seek_timestamp
seek_timestamp-ok start back t e =
    (start - back, ground arith, omega arith, ground arith, omega arith, ground arith)

-- It is found whenever the start of the run fits into an `i64`.
pub seek_timestamp-found :
    (start back : ℕ) → start < 2 ^ 63 → seek_timestamp start back ≡ ok (pos (start - back))
unfolding seek_timestamp
seek_timestamp-found start back lt = ground arith

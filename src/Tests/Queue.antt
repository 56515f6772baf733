-- ===== src/Tests/Queue.antt =====
-- A consumer for the examples, whose polls may time out. Its state is what it has yet to deliver.
use kafka_file_writer.Base.{none, List, [], ◌∷◌}
use kafka_file_writer.Base.Exec.{pure}
use kafka_file_writer.Stream.{Stream}
use kafka_file_writer.Stream.Delivery.{Polled}

abbrev pub next : List Polled → Polled × List Polled
next [] = (none, [])
next (x ∷ xs) = (x, xs)

abbrev pub queue : Stream
queue = record {
  State = List Polled;
  assign_from_timestamp = λ topics timestamp timeout. pure tt;
  poll = λ timeout s. next s;
  subscribe = λ topics. pure tt;
  unsubscribe = λ s. s;
  unassign = pure tt;
  commit_message = λ message mode. pure tt;
}

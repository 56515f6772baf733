-- ===== src/Stream/Delivery.antt =====
-- stream/traits.rs: what a consumer delivers, poll after poll.
use kafka_file_writer.Base.{ℕ, ◌≡◌, Option, none, some, List, [], ◌∷◌}
use kafka_file_writer.Base.Exec.{Result}
use kafka_file_writer.Error.{StreamError}
use kafka_file_writer.Message.{Message}
use kafka_file_writer.Stream.{Stream}

-- A poll that brings `none` timed out.
abbrev pub Polled : Type 0
Polled = Option (Result StreamError Message)

module _ (consumer : Stream) (timeout : ℕ) where
  -- The next polls bring these one after another, and lead the consumer to `t`.
  pub data Delivers (t : consumer.State) : List Polled → consumer.State → Type 0 where
    nothing : Delivers t [] t
    then_poll :
        {x : Polled} {xs : List Polled} {s u : consumer.State}
        → consumer.poll timeout s ≡ (x, u)
        → Delivers t xs u
        → Delivers t (x ∷ xs) s

-- The messages and errors among the polls, without those that timed out.
abbrev pub received : List Polled → List (Result StreamError Message)
received [] = []
received (none ∷ xs) = received xs
received (some m ∷ xs) = m ∷ received xs

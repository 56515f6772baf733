-- ===== src/Subscription.antt =====
-- subscription.rs: what a writer module wants to receive.
use kafka_file_writer.Base.{ℕ, String, List}

pub data SubscriptionKey : Type 0 where
  all : SubscriptionKey
  key : List ℕ → SubscriptionKey

pub record Subscription : Type 0 where
  pub topic : String
  pub key : SubscriptionKey

-- ===== src/File/Once.antt =====
-- run_writer/in_progress_file.rs: a writer that asked for a message gets it once.
use kafka_file_writer.Base.{
  ℕ, zero, suc, String, ◌+◌, ◌≡◌, ◌≢◌, sym, ap, subst, ◌∙◌, List, [], ◌∷◌, ◌++◌, arith, some,
  get_elem?, Bool, true, Bool-cases, inl, inr,
}
use kafka_file_writer.Base.Equality.{◌==◌, string_eq}
use kafka_file_writer.Message.{KafkaMessageMeta}
use kafka_file_writer.Subscription.{Subscription, SubscriptionKey}
use kafka_file_writer.Router
use kafka_file_writer.Router.{WriterId}
use kafka_file_writer.Router.Routes.{
  Entry, chosen, matches_key, matches_all, writers_for-subscribe_all,
}
use kafka_file_writer.Placed.{PlacedWriter}
use kafka_file_writer.File.{InProgressFile}
use kafka_file_writer.File.Sync.{tag, entries_from, requests, IsInSync}
use kafka_file_writer.File.Isolation.{
  Avoids, chosen-entries_above, chosen-entries_unwanted, get_elem?-requests,
}

-- The index stands in the list once.
pub data Once (j : WriterId) : List WriterId → Type 0 where
  here : {ids : List WriterId} → Avoids j ids → Once j (j ∷ ids)
  later : {i : WriterId} {ids : List WriterId} → i ≢ j → Once j ids → Once j (i ∷ ids)

module _ (j : WriterId) where
  append-Once_right : (xs ys : List WriterId) → Avoids j xs → Once j ys → Once j (xs ++ ys)
  append-Once_right [] ys av once = once
  append-Once_right (x ∷ xs) ys (ne, av) once = later ne (append-Once_right xs ys av once)

module _ (p : Subscription → Bool) (j : WriterId) where
  chosen-tag-Once :
      (i : WriterId) (subs : List Subscription) (es : List Entry)
      → i ≢ j
      → Once j (chosen p es)
      → Once j (chosen p (tag i subs ++ es))
  chosen-tag-Once i [] es ne once = once
  chosen-tag-Once i (sub ∷ subs) es ne once = elim (Bool-cases (p sub)) [
    | inl hit ↦ rw hit (later ne (chosen-tag-Once i subs es ne once))
    | inr miss ↦ rw miss (chosen-tag-Once i subs es ne once)
  ]

  chosen-entries-Once :
      (i n : ℕ) (rest : List (List Subscription)) (sub : Subscription)
      → i + n ≡ j
      → get_elem? rest n ≡ some (sub ∷ [])
      → p sub ≡ true
      → Once j (chosen p (entries_from i rest))
  chosen-entries-Once i n [] sub e at hit = absurd (cc)
  chosen-entries-Once i zero (first ∷ rest) sub e at hit =
      let is : first ≡ sub ∷ [] = cc in
      let same : j ≡ i = omega arith in
      subst (λ (s : List Subscription). Once j (chosen p (tag i s ++ entries_from (suc i) rest)))
        (sym is)
        (rw hit (
          subst (λ (k : WriterId). Once j (k ∷ chosen p (entries_from (suc i) rest))) same
            (here (chosen-entries_above p j (suc i) rest (omega arith)))))
  chosen-entries-Once i (suc n) (first ∷ rest) sub e at hit =
      chosen-tag-Once i first (entries_from (suc i) rest) (omega arith)
        (chosen-entries-Once (suc i) n rest sub (omega arith) at hit)

module _ {G W : Type 0} where
  -- A writer with one subscription, to all keys of the topic of a message, stands once among the
  -- receivers of the message.
  pub writers_for-Once :
      (meta : KafkaMessageMeta) (f : InProgressFile G W) (j : WriterId) (w : PlacedWriter G W)
      (topic : String)
      → IsInSync f
      → get_elem? f.writers j ≡ some w
      → w.subscriptions ≡ record { topic = topic; key = SubscriptionKey.all } ∷ []
      → (topic == meta.topic) ≡ true
      → Once j (Router.writers_for f.router meta)
  writers_for-Once meta f j w topic s at one hit =
      let es = entries_from 0 (requests f.writers) in
      let same : Router.writers_for f.router meta
          ≡ chosen (matches_key meta) es ++ chosen (matches_all meta) es =
        ap (λ (r : Router.MessageRouter). Router.writers_for r meta) s
        ∙ writers_for-subscribe_all es meta in
      let sub : Subscription = record { topic = topic; key = SubscriptionKey.all } in
      let asked =
        get_elem?-requests f.writers j w at ∙ ap (λ (x : List Subscription). some x) one in
      subst (λ (ids : List WriterId). Once j ids) (sym same)
        (append-Once_right j (chosen (matches_key meta) es) (chosen (matches_all meta) es)
          (chosen-entries_unwanted (matches_key meta) j 0 j (requests f.writers) (sub ∷ [])
            (omega arith) asked (ground arith, tt))
          (chosen-entries-Once (matches_all meta) j 0 j (requests f.writers) sub (omega arith) asked
            (ground arith)))

-- ===== src/Stream/Kafka/Partitions.antt =====
-- stream/kafka.rs: the partitions of a topic (`partitions_for`).
use kafka_file_writer.Base.{
  ℕ, String, ◌≡◌, refl, sym, subst, Option, none, some, List, [], ◌∷◌, arith,
}
use kafka_file_writer.Base.{Bool-cases, inl, inr, false}
use kafka_file_writer.Base.Equality.{◌==◌, string_eq}
use kafka_file_writer.Base.Int.{ℤ}
use kafka_file_writer.Base.Exec.{ok, continue-eq-ok, map_err_result-eq-ok, with_context, lift}
use kafka_file_writer.Error.{missing_metadata}
use kafka_file_writer.Stream.Kafka.{
  Rdkafka, MetadataTopic, find_topic, partitions_of, partitions_of_topic, partitions_for,
}

-- A topic stands first under its name in the metadata.
pub data FirstNamed (topic : String) (t : MetadataTopic) : List MetadataTopic → Type 0 where
  here : {ts : List MetadataTopic} → t.name ≡ topic → FirstNamed topic t (t ∷ ts)
  later :
      {u : MetadataTopic} {ts : List MetadataTopic}
      → (u.name == topic) ≡ false
      → FirstNamed topic t ts
      → FirstNamed topic t (u ∷ ts)

module _ (k : Rdkafka) where
  find_topic-FirstNamed :
      (topic : String) (ts : List MetadataTopic) (t : MetadataTopic)
      → find_topic k topic ts ≡ some t
      → FirstNamed topic t ts
  unfolding find_topic
  find_topic-FirstNamed topic [] t e = absurd (cc)
  find_topic-FirstNamed topic (u ∷ ts) t e = elim (Bool-cases (u.name == topic)) [
    | inl same ↦
        let is : u ≡ t = ground arith in
        subst (λ (v : MetadataTopic). FirstNamed topic t (v ∷ ts)) (sym is)
          (here (ground (arith, string_eq.equal_iff u.name topic)))
    | inr differ ↦ later differ (find_topic-FirstNamed topic ts t (ground arith))
  ]

  partitions_of_topic-ok :
      (topic : String) (t : MetadataTopic) (o : Option ℤ) (ps : List ℤ)
      → partitions_of_topic k topic t o ≡ ok ps
      → (o ≡ none) × (t.partitions ≡ ps)
  unfolding partitions_of_topic
  partitions_of_topic-ok topic t none ps e = (refl, cc)
  partitions_of_topic-ok topic t (some c) ps e = absurd (cc)

  partitions_of-ok :
      (topic : String) (o : Option MetadataTopic) (ps : List ℤ)
      → partitions_of k topic o ≡ ok ps
      → (t : MetadataTopic) × (o ≡ some t) × (t.error ≡ none) × (t.partitions ≡ ps)
  unfolding partitions_of
  partitions_of-ok topic none ps e = absurd (cc)
  partitions_of-ok topic (some t) ps e =
      let (fine, are) = partitions_of_topic-ok topic t t.error ps e in (t, refl, fine, are)

  -- If the partitions of a topic are found, then the metadata could be fetched, and the first topic
  -- of that name in it has no error and just these partitions. The consumer is as fetching left it.
  pub partitions_for-ok :
      (topic : String) (timeout : ℕ) (s s' : k.State) (ps : List ℤ)
      → partitions_for k topic timeout s ≡ (ok ps, s')
      → (ts : List MetadataTopic) × (t : MetadataTopic) × (k.fetch_metadata topic timeout s
          ≡ (ok ts, s'))
        × FirstNamed topic t ts
        × (t.error ≡ none)
        × (t.partitions ≡ ps)
  unfolding partitions_for
  partitions_for-ok topic timeout s s' ps e =
      let (ts, s₁, fetched, looked) =
        continue-eq-ok
          (with_context (λ c. missing_metadata (some c) topic none "fetching metadata")
            (k.fetch_metadata topic timeout) s)
          (λ metadata. lift (partitions_of k topic (find_topic k topic metadata))) ps s' e in
      let (t, found, fine, are) =
        partitions_of-ok topic (find_topic k topic ts) ps (ground arith) in
      let same : s₁ ≡ s' = cc in
      let fetch : k.fetch_metadata topic timeout s ≡ (ok ts, s₁) =
        map_err_result-eq-ok _ (k.fetch_metadata topic timeout s) ts s₁ fetched in
      (
        ts,
        t,
        subst (λ (u : k.State). k.fetch_metadata topic timeout s ≡ (ok ts, u)) same fetch,
        find_topic-FirstNamed topic ts t found,
        fine,
        are,
      )

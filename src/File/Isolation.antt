-- ===== src/File/Isolation.antt =====
-- run_writer/in_progress_file.rs: a writer and the messages that it did not ask for.
use kafka_file_writer.Base.{
  ℕ, zero, suc, ◌+◌, ◌<◌, ◌≡◌, ◌≢◌, sym, ap, subst, ◌∙◌, List, [], ◌∷◌, ◌++◌, arith, Option, some,
  none, get_elem?, get_elem?-set_ne, All, All-append, All-map, Bool, false, ◌||◌, Bool-cases, inl,
  inr,
}
use kafka_file_writer.Base.Exec.{continue-keeps}
use kafka_file_writer.Message.{KafkaMessageMeta, DeserializedMessage}
use kafka_file_writer.Subscription.{Subscription}
use kafka_file_writer.Router
use kafka_file_writer.Router.{WriterId}
use kafka_file_writer.Router.Routes.{
  Entry, chosen, matches_key, matches_all, writers_for-subscribe_all,
}
use kafka_file_writer.Hdf.{Hdf5}
use kafka_file_writer.Writer.{WriterModule}
use kafka_file_writer.Placed.{PlacedWriter}
use kafka_file_writer.File.{InProgressFile, File, notify_one, notify, put_back, on_message}
use kafka_file_writer.File.Sync.{tag, entries_from, requests, IsInSync}

or_false : (a b : Bool) → (a || b) ≡ false → (a ≡ false) × (b ≡ false)
or_false a b h = ground arith

-- The subscription has the topic of the message, and either all keys or its key.
abbrev pub wants : KafkaMessageMeta → Subscription → Bool
wants meta sub = matches_key meta sub || matches_all meta sub

not_key :
    (meta : KafkaMessageMeta) (sub : Subscription)
    → wants meta sub ≡ false
    → matches_key meta sub ≡ false
not_key meta sub h = (or_false (matches_key meta sub) (matches_all meta sub) h).0

not_all :
    (meta : KafkaMessageMeta) (sub : Subscription)
    → wants meta sub ≡ false
    → matches_all meta sub ≡ false
not_all meta sub h = (or_false (matches_key meta sub) (matches_all meta sub) h).1

abbrev pub Avoids : WriterId → List WriterId → Type 0
Avoids j ids = All (λ i. i ≢ j) ids

module _ (p : Subscription → Bool) (j : WriterId) where
  pub chosen-append-Avoids :
      (es fs : List Entry)
      → Avoids j (chosen p es)
      → Avoids j (chosen p fs)
      → Avoids j (chosen p (es ++ fs))
  chosen-append-Avoids [] fs a b = b
  chosen-append-Avoids ((id, sub) ∷ es) fs a b = elim (Bool-cases (p sub)) [
    | inl hit ↦
        let (ne, rest) : (id ≢ j) × Avoids j (chosen p es) = rw hit at a in
        rw hit (ne, chosen-append-Avoids es fs rest b)
    | inr miss ↦ rw miss (chosen-append-Avoids es fs (rw miss at a) b)
  ]

  pub chosen-tag_ne :
      (i : WriterId) (subs : List Subscription) → i ≢ j → Avoids j (chosen p (tag i subs))
  chosen-tag_ne i [] ne = tt
  chosen-tag_ne i (sub ∷ subs) ne = elim (Bool-cases (p sub)) [
    | inl hit ↦ rw hit (ne, chosen-tag_ne i subs ne)
    | inr miss ↦ rw miss (chosen-tag_ne i subs ne)
  ]

  chosen-tag_unwanted :
      (i : WriterId) (subs : List Subscription)
      → All (λ sub. p sub ≡ false) subs
      → Avoids j (chosen p (tag i subs))
  chosen-tag_unwanted i [] un = tt
  chosen-tag_unwanted i (sub ∷ subs) (miss, un) = rw miss (chosen-tag_unwanted i subs un)

  pub chosen-entries_above :
      (i : WriterId) (rest : List (List Subscription))
      → j < i
      → Avoids j (chosen p (entries_from i rest))
  chosen-entries_above i [] lt = tt
  chosen-entries_above i (subs ∷ rest) lt =
      chosen-append-Avoids (tag i subs) (entries_from (suc i) rest)
        (chosen-tag_ne i subs (omega arith)) (chosen-entries_above (suc i) rest (omega arith))

  pub chosen-entries_unwanted :
      (i n : ℕ) (rest : List (List Subscription)) (subs : List Subscription)
      → i + n ≡ j
      → get_elem? rest n ≡ some subs
      → All (λ sub. p sub ≡ false) subs
      → Avoids j (chosen p (entries_from i rest))
  chosen-entries_unwanted i n [] subs e at un = tt
  chosen-entries_unwanted i zero (first ∷ rest) subs e at un =
      chosen-append-Avoids (tag i first) (entries_from (suc i) rest)
        (let same : subs ≡ first = cc in
          chosen-tag_unwanted i first
            (subst (λ (s : List Subscription). All (λ sub. p sub ≡ false) s) same un))
        (chosen-entries_above (suc i) rest (omega arith))
  chosen-entries_unwanted i (suc n) (first ∷ rest) subs e at un =
      chosen-append-Avoids (tag i first) (entries_from (suc i) rest)
        (chosen-tag_ne i first (omega arith))
        (chosen-entries_unwanted (suc i) n rest subs (omega arith) at un)

module _ {G W : Type 0} where
  pub get_elem?-requests :
      (ws : List (PlacedWriter G W)) (j : ℕ) (w : PlacedWriter G W)
      → get_elem? ws j ≡ some w
      → get_elem? (requests ws) j ≡ some w.subscriptions
  get_elem?-requests [] j w h = cc
  get_elem?-requests (v ∷ ws) zero w h = ground arith
  get_elem?-requests (v ∷ ws) (suc j) w h = get_elem?-requests ws j w h

  pub writers_for-Avoids :
      (meta : KafkaMessageMeta) (f : InProgressFile G W) (j : WriterId) (w : PlacedWriter G W)
      → IsInSync f
      → get_elem? f.writers j ≡ some w
      → All (λ sub. wants meta sub ≡ false) w.subscriptions
      → Avoids j (Router.writers_for f.router meta)
  writers_for-Avoids meta f j w s at un =
      let es = entries_from 0 (requests f.writers) in
      let same : Router.writers_for f.router meta
          ≡ chosen (matches_key meta) es ++ chosen (matches_all meta) es =
        ap (λ (r : Router.MessageRouter). Router.writers_for r meta) s
        ∙ writers_for-subscribe_all es meta in
      subst (λ (ids : List WriterId). Avoids j ids) (sym same)
        (All-append (λ i. i ≢ j) (chosen (matches_key meta) es) (chosen (matches_all meta) es)
          (chosen-entries_unwanted (matches_key meta) j 0 j (requests f.writers) w.subscriptions
            (omega arith) (get_elem?-requests f.writers j w at)
            (All-map _ _ w.subscriptions (λ sub h. not_key meta sub h) un))
          (chosen-entries_unwanted (matches_all meta) j 0 j (requests f.writers) w.subscriptions
            (omega arith) (get_elem?-requests f.writers j w at)
            (All-map _ _ w.subscriptions (λ sub h. not_all meta sub h) un)))

module _ {E : Type 0} (hdf : Hdf5 E) (dyn : WriterModule hdf.State) (meta : KafkaMessageMeta)
    (msg : DeserializedMessage) (j : WriterId) where
  abbrev At : Option (PlacedWriter hdf.Location dyn.Writer) → File hdf dyn × hdf.State → Type 0
  At o (f, h) = get_elem? f.writers j ≡ o

  notify_one-At :
      (i : WriterId) (o v : Option (PlacedWriter hdf.Location dyn.Writer))
      (st : File hdf dyn × hdf.State)
      → i ≢ j
      → At o st
      → At o (notify_one hdf dyn meta msg i v st).1
  unfolding notify_one put_back
  notify_one-At i o none st ne at = at
  notify_one-At i o (some w) (f, h) ne at = get_elem?-set_ne f.writers i j _ ne ∙ at

  notify-At :
      (ids : List WriterId) (o : Option (PlacedWriter hdf.Location dyn.Writer))
      (st : File hdf dyn × hdf.State)
      → Avoids j ids
      → At o st
      → At o (notify hdf dyn meta msg ids st).1
  unfolding notify
  notify-At [] o st av at = at
  notify-At (i ∷ ids) o (f, h) (ne, av) at =
      continue-keeps (At o) (notify_one hdf dyn meta msg i (get_elem? f.writers i) (f, h)) _
        (notify_one-At i o (get_elem? f.writers i) (f, h) ne at) (λ a st k. notify-At ids o st av k)

  -- With the router in step with the writers, a writer none of whose subscriptions wants a message
  -- is the same after it, whatever the other writers do.
  pub on_message-unwanted :
      (f : File hdf dyn) (h : hdf.State) (w : PlacedWriter hdf.Location dyn.Writer)
      → IsInSync f
      → get_elem? f.writers j ≡ some w
      → All (λ sub. wants meta sub ≡ false) w.subscriptions
      → get_elem? (on_message hdf dyn meta msg (f, h)).1.0.writers j ≡ some w
  unfolding on_message
  on_message-unwanted f h w s at un =
      notify-At (Router.writers_for f.router meta) (some w) (f, h)
        (writers_for-Avoids meta f j w s at un) at

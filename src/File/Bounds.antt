-- ===== src/File/Bounds.antt =====
-- run_writer/in_progress_file.rs: the indices that the router gives.
use kafka_file_writer.Base.{
  ℕ, suc, ◌+◌, ◌<◌, ◌≡◌, ◌≢◌, refl, sym, ap, subst, ◌∙◌, List, [], ◌∷◌, length, arith, get_elem?,
  length-set, get_elem?_of_lt, All, All-append, ◌≤◌, Bool-cases, inl, inr, Bool,
}
use kafka_file_writer.Base.Exec.{Result, ok, err, continue}
use kafka_file_writer.Error.{
  FileWriterError, writer_module_not_found, WriterModuleError, invalid_data,
}
use kafka_file_writer.Subscription.{Subscription}
use kafka_file_writer.Message.{KafkaMessageMeta, DeserializedMessage}
use kafka_file_writer.Router
use kafka_file_writer.Router.{WriterId}
use kafka_file_writer.Router.Routes.{
  Entry, chosen, matches_key, matches_all, writers_for-subscribe_all,
}
use kafka_file_writer.Hdf.{Hdf5}
use kafka_file_writer.Writer.{WriterModule}
use kafka_file_writer.Placed
use kafka_file_writer.Placed.{PlacedWriter}
use kafka_file_writer.File.{InProgressFile, File, Method, notify_one, notify, put_back, on_message}
use kafka_file_writer.File.Sync.{tag, entries_from, length-requests, IsInSync, requests}

abbrev pub Bounded : List WriterId → ℕ → Type 0
Bounded ids n = All (λ i. i < n) ids

abbrev EntriesBounded : List Entry → ℕ → Type 0
EntriesBounded es n = All (λ (id, sub). id < n) es

tag-EntriesBounded : (i n : ℕ) (subs : List Subscription) → i < n → EntriesBounded (tag i subs) n
tag-EntriesBounded i n [] lt = tt
tag-EntriesBounded i n (sub ∷ subs) lt = (lt, tag-EntriesBounded i n subs lt)

entries_from-EntriesBounded :
    (i n : ℕ) (rest : List (List Subscription))
    → i + length rest ≤ n
    → EntriesBounded (entries_from i rest) n
entries_from-EntriesBounded i n [] le = tt
entries_from-EntriesBounded i n (subs ∷ rest) le =
    All-append (λ (id, sub). id < n) (tag i subs) (entries_from (suc i) rest)
      (tag-EntriesBounded i n subs (omega arith))
      (entries_from-EntriesBounded (suc i) n rest (omega arith))

chosen-Bounded :
    (p : Subscription → Bool) (n : ℕ) (es : List Entry)
    → EntriesBounded es n
    → Bounded (chosen p es) n
chosen-Bounded p n [] b = tt
chosen-Bounded p n ((id, sub) ∷ es) (lt, b) = elim (Bool-cases (p sub)) [
  | inl hit ↦ rw hit (lt, chosen-Bounded p n es b)
  | inr miss ↦ rw miss (chosen-Bounded p n es b)
]

module _ {G W : Type 0} where
  pub writers_for-Bounded :
      (meta : KafkaMessageMeta) (f : InProgressFile G W)
      → IsInSync f
      → Bounded (Router.writers_for f.router meta) (length f.writers)
  writers_for-Bounded meta f s =
      let es = entries_from 0 (requests f.writers) in
      let n : ℕ = length f.writers in
      let bounded : EntriesBounded es n =
        entries_from-EntriesBounded 0 n (requests f.writers)
          (omega (arith, length-requests f.writers)) in
      subst (λ (ids : List WriterId). Bounded ids n)
        (sym (
          ap (λ (r : Router.MessageRouter). Router.writers_for r meta) s
          ∙ writers_for-subscribe_all es meta))
        (All-append (λ i. i < n) (chosen (matches_key meta) es) (chosen (matches_all meta) es)
          (chosen-Bounded (matches_key meta) n es bounded)
          (chosen-Bounded (matches_all meta) n es bounded))

module _ {E : Type 0} (hdf : Hdf5 E) (dyn : WriterModule hdf.State) where
  module _ (meta : KafkaMessageMeta) (msg : DeserializedMessage) where
    abbrev NeverNotFound : Result FileWriterError (Unit {0}) → Type 0
    NeverNotFound r = (j : WriterId) → r ≢ err (writer_module_not_found j)

    tolerated-NeverNotFound :
        (p : PlacedWriter hdf.Location dyn.Writer) (r : Result WriterModuleError (Unit {0}))
        → NeverNotFound (Placed.tolerated hdf dyn p r)
    tolerated-NeverNotFound p (ok _) j e = cc
    tolerated-NeverNotFound p (err (invalid_data m)) j e = cc
    tolerated-NeverNotFound p (err _) j e = cc

    -- One delivery to a writer that is there: no such error, and as many writers as before.
    abbrev Delivered : ℕ → Result FileWriterError (Unit {0}) × (File hdf dyn × hdf.State) → Type 0
    Delivered n x = NeverNotFound x.0 × (length x.1.0.writers ≡ n)

    notify_one-Delivered :
        (i : ℕ) (f : File hdf dyn) (h : hdf.State)
        → i < length f.writers
        → Delivered
            (length f.writers)
            (notify_one hdf dyn meta msg i (get_elem? f.writers i) (f, h))
    unfolding notify_one put_back
    notify_one-Delivered i f h lt =
        let (w, at) = get_elem?_of_lt f.writers i lt in
        rw (at, notify_one)
          (rw Placed.on_message_lem (tolerated-NeverNotFound w _, length-set f.writers i _))

    continue-Delivered :
        (n : ℕ) (x : Result FileWriterError (Unit {0}) × (File hdf dyn × hdf.State))
        (k : Unit {0} → Method hdf dyn)
        → Delivered n x
        → ((st : File hdf dyn × hdf.State) → length st.0.writers ≡ n → Delivered n (k tt st))
        → Delivered n (continue x k)
    continue-Delivered n (ok _, st) k d next = next st d.1
    continue-Delivered n (err e, st) k d next = d

    notify-Delivered :
        (ids : List WriterId) (n : ℕ) (st : File hdf dyn × hdf.State)
        → length st.0.writers ≡ n
        → Bounded ids n
        → Delivered n (notify hdf dyn meta msg ids st)
    unfolding notify
    notify-Delivered [] n st e b = ((λ j k. cc), e)
    notify-Delivered (i ∷ ids) n (f, h) e (lt, b) =
        continue-Delivered n (notify_one hdf dyn meta msg i (get_elem? f.writers i) (f, h)) _
          (subst
            (λ (m : ℕ). Delivered m (notify_one hdf dyn meta msg i (get_elem? f.writers i) (f, h)))
            e (notify_one-Delivered i f h (omega arith)))
          (λ st q. notify-Delivered ids n st q b)

    -- With the router in step with the writers, a message never meets an index with no writer.
    pub on_message-ne-not_found :
        (f : File hdf dyn) (h : hdf.State) (j : WriterId)
        → IsInSync f
        → (on_message hdf dyn meta msg (f, h)).0 ≢ err (writer_module_not_found j)
    unfolding on_message
    on_message-ne-not_found f h j s =
        (notify-Delivered (Router.writers_for f.router meta) (length f.writers) (f, h) refl
            (writers_for-Bounded meta f s)).0
          j

-- ===== src/Tests/Memory.antt =====
-- An HDF5 library in memory, for the examples: data sets by group and name.
use kafka_file_writer.Base.{
  ℕ, zero, suc, ◌≤◌, String, ◌<>◌, ◌≡◌, ◌≢◌, refl, sym, ap, ◌∙◌, Bool, true, false,
}
use kafka_file_writer.Base.{◌&&◌, Option, none, some, List, [], ◌∷◌, ◌++◌, length, take, arith}
use kafka_file_writer.Base.{if◌then◌else◌, Bool-cases, inl, inr}
use kafka_file_writer.Base.Equality.{◌==◌, string_eq}
use kafka_file_writer.Base.Map.{or_default}
use kafka_file_writer.Base.Exec.{Result, ok, err, pure}
use kafka_file_writer.Hdf.{Hdf5}
use kafka_file_writer.Hdf.Laws.{DatasetLaws, CreationLaws, GroupLaws, BuildingLaws}

abbrev pub Handle : Type 0
Handle = String × String

abbrev same : Handle → Handle → Bool
same (g, m) (h, n) = (g == h) && (m == n)

same_self : (d : Handle) → same d d ≡ true
same_self (g, m) = ground (arith, string_eq.equal_iff g g, string_eq.equal_iff m m)

same_other : (d e : Handle) → e ≢ d → same d e ≡ false
same_other (g, m) (h, n) ne = elim (Bool-cases (same (g, m) (h, n))) [
  | inl eq ↦
      let groups : g ≡ h = ground (arith, string_eq.equal_iff g h) in
      let names : m ≡ n = ground (arith, string_eq.equal_iff m n) in absurd (ne cc)
  | inr differ ↦ differ
]

-- The data sets that were made, with their elements.
abbrev pub Store : Type 0 → Type 0
Store Elem = Handle → Option (List Elem)

module _ {Elem : Type 0} where
  abbrev pub read : Handle → Store Elem → List Elem
  read d s = or_default [] (s d)

  abbrev put : Handle → List Elem → Store Elem → Store Elem
  put d xs s e = if same d e then some xs else s e

  pub read-put : (d : Handle) (xs : List Elem) (s : Store Elem) → read d (put d xs s) ≡ xs
  read-put d xs s = rw (same_self d) refl

  pub read-put_other :
      (d e : Handle) (xs : List Elem) (s : Store Elem) → e ≢ d → read e (put d xs s) ≡ read e s
  read-put_other d e xs s ne = rw (same_other d e ne) refl

  abbrev open_dataset : Handle → Option (List Elem) → Store Elem → Result String Handle × Store Elem
  open_dataset d none s = (err "no such data set", s)
  open_dataset d (some xs) s = (ok d, s)

  pub open_dataset-ok :
      (d d' : Handle) (o : Option (List Elem)) (s s' : Store Elem)
      → open_dataset d o s ≡ (ok d', s')
      → (d' ≡ d) × (s' ≡ s)
  open_dataset-ok d d' none s s' e = absurd (cc)
  open_dataset-ok d d' (some xs) s s' e = (cc, cc)

module _ {Elem : Type 0} (blank : Elem) where
  abbrev resized : ℕ → List Elem → List Elem
  resized zero xs = []
  resized (suc n) [] = blank ∷ resized n []
  resized (suc n) (x ∷ xs) = x ∷ resized n xs

  pub take-resized : (n : ℕ) (xs : List Elem) → length xs ≤ n → take (length xs) (resized n xs) ≡ xs
  take-resized n [] le = refl
  take-resized zero (x ∷ xs) le = absurd (omega arith)
  take-resized (suc n) (x ∷ xs) le =
      ap (λ (ys : List Elem). x ∷ ys) (take-resized n xs (omega arith))

  -- No data set is made under a name that has one.
  abbrev make_dataset :
      Handle → ℕ → Option (List Elem) → Store Elem → Result String Handle × Store Elem
  make_dataset d n none s = (ok d, put d (resized n []) s)
  make_dataset d n (some xs) s = (err "name already exists", s)

  make_dataset-ok :
      (d d' : Handle) (n : ℕ) (o : Option (List Elem)) (s s' : Store Elem)
      → make_dataset d n o s ≡ (ok d', s')
      → (o ≡ none) × (s' ≡ put d (resized n []) s)
  make_dataset-ok d d' n none s s' e = (refl, cc)
  make_dataset-ok d d' n (some xs) s s' e = absurd (cc)

  abbrev Exists : Handle → Store Elem → Type 0
  Exists c s = s c ≢ none

  make_dataset-keeps :
      (d c : Handle) (n : ℕ) (o : Option (List Elem)) (s : Store Elem)
      → s d ≡ o
      → Exists c s
      → Exists c (make_dataset d n o s).1 × (read c (make_dataset d n o s).1 ≡ read c s)
  make_dataset-keeps d c n none s free made =
      let other : c ≢ d = λ e. made (ap s e ∙ free) in
      let same_entry : put d (resized n []) s c ≡ s c = rw (same_other d c other) refl in
      (λ gone. made (sym same_entry ∙ gone), ap (or_default []) same_entry)
  make_dataset-keeps d c n (some xs) s taken made = (made, refl)

  abbrev pub memory : Hdf5 Elem
  memory = record {
    State = Store Elem;
    Location = String;
    Dataset = Handle;
    Attr = String;
    Ascii = String;
    version_major = "1";
    version_minor = "14";
    version_micro = "0";
    name = λ g. g;
    filename = λ g. "memory";
    from_ascii = λ s. ok s;
    create_excl = λ path. pure path;
    create_excl_core = λ increment path. pure path;
    flush = λ g. pure tt;
    close = λ g. pure tt;
    create_group = λ g n. pure (g <> "/" <> n);
    create_attr = λ g n. pure n;
    write_scalar = λ a v. pure tt;
    create_dataset = λ g type n chunk name s. make_dataset (g, name) n (s (g, name)) s;
    dataset = λ g n s. open_dataset (g, n) (s (g, n)) s;
    as_location = λ (g, n). g <> "/" <> n;
    size = λ d s. length (read d s);
    resize = λ d n s. (ok tt, put d (resized n (read d s)) s);
    write_slice = λ d xs from s. (ok tt, put d (take from (read d s) ++ xs) s);
  }

  unfoldable pub memory_laws : DatasetLaws memory
  memory_laws = record {
    handle = λ g n. (g, n);
    read = read;
    handle_injective = λ g m n e. ap (λ (d : Handle). d.1) e;
    dataset_ok = λ g n s s' d e. open_dataset-ok (g, n) d (s (g, n)) s s' e;
    size_read = λ d s. refl;
    resize_grow = λ d n s s' e le.
        let is : s' ≡ put d (resized n (read d s)) s = cc in
        ap (λ t. take (length (read d s)) (read d t)) is
        ∙ ap (take (length (read d s))) (read-put d _ s)
        ∙ take-resized n (read d s) le;
    resize_other = λ d e n s s' h ne.
        let is : s' ≡ put d (resized n (read d s)) s = cc in
        ap (read e) is ∙ read-put_other d e _ s ne;
    write_ok = λ d xs from s s' h.
        let is : s' ≡ put d (take from (read d s) ++ xs) s = cc in ap (read d) is ∙ read-put d _ s;
    write_other = λ d e xs from s s' h ne.
        let is : s' ≡ put d (take from (read d s) ++ xs) s = cc in
        ap (read e) is ∙ read-put_other d e _ s ne;
  }

  pub memory_creation : CreationLaws memory memory_laws
  unfolding memory_laws
  memory_creation = record {
    create_dataset_ok = λ g type chunk n s s' d e.
        let (_, is) = make_dataset-ok (g, n) d 0 (s (g, n)) s s' e in
        ap (read (g, n)) is ∙ read-put (g, n) [] s;
    create_dataset_other = λ g type chunk n s s' d c e ne.
        let (_, is) = make_dataset-ok (g, n) d 0 (s (g, n)) s s' e in
        ap (read c) is ∙ read-put_other (g, n) c [] s ne;
    create_attr_read = λ l n c s. refl;
    write_scalar_read = λ a v c s. refl;
  }

  pub memory_building : BuildingLaws memory memory_laws
  unfolding memory_laws
  memory_building = record {
    Made = Exists;
    create_dataset_fresh =
        λ g type chunk n s s' d e made. made (make_dataset-ok (g, n) d 0 (s (g, n)) s s' e).0;
    create_dataset_made = λ g type chunk n s s' d e gone.
        let (_, is) = make_dataset-ok (g, n) d 0 (s (g, n)) s s' e in
        let there : put (g, n) [] s (g, n) ≡ some [] = rw (same_self (g, n)) refl in
        let at : put (g, n) [] s (g, n) ≡ none = ap (λ t. t (g, n)) (sym is) ∙ gone in absurd (cc);
    create_dataset_keeps =
        λ g type chunk n c s made. make_dataset-keeps (g, n) c 0 (s (g, n)) s refl made;
    create_group_keeps = λ g n c s made. (made, refl);
    create_attr_keeps = λ l n c s made. (made, refl);
    write_scalar_keeps = λ a v c s made. (made, refl);
  }

  pub memory_groups : GroupLaws memory memory_laws
  unfolding memory_laws
  memory_groups = record { handle_group = λ f g m n e. ap (λ (d : Handle). d.0) e }

-- ===== src/File/Building.antt =====
-- run_writer/in_progress_file.rs: what a file that was built from a structure holds.
use mathlib.Core.List.{append-nil, append_assoc}
use kafka_file_writer.Base.{
  String, false, ◌≡◌, ◌≢◌, refl, ap, sym, ◌∙◌, none, List, [], ◌∷◌, ◌++◌, All,
}
use kafka_file_writer.Base.Exec.{Result, ok, err, Exec, continue, continue-eq-ok, on_second_result}
use kafka_file_writer.Error.{FileWriterError, NexusStructureError}
use kafka_file_writer.Json.{Value}
use kafka_file_writer.Structure.{
  NexusFileStructure, NexusGroup, nexus_group, NexusStructureItem, group, writer_module, invalid,
  NexusStructureItems, nil, cons,
}
use kafka_file_writer.Run.{RunStartParameters}
use kafka_file_writer.Router
use kafka_file_writer.Hdf.{Hdf5}
use kafka_file_writer.Writer.{WriterModule}
use kafka_file_writer.Writer.Factories
use kafka_file_writer.Writer.Factories.{WriterModuleFactories}
use kafka_file_writer.Placed
use kafka_file_writer.Placed.{PlacedWriter}
use kafka_file_writer.Placed.Creation.{new-MadeFrom}
use kafka_file_writer.File.{
  File, add_placed_writer, placed, add_child, add_nexus_group, add_children, use_structure, new,
  built,
}

-- The names of the writer modules of a structure, in its order; an item that is neither a group nor
-- a module has none.
mutual
  pub item_modules : NexusStructureItem → List String
  item_modules (group g) = group_modules g
  item_modules (writer_module spec) = spec.module_name ∷ []
  item_modules (invalid json) = []

  pub group_modules : NexusGroup → List String
  group_modules (nexus_group type name children attributes) = modules children

  pub modules : NexusStructureItems → List String
  modules nil = []
  modules (cons item items) = item_modules item ++ modules items

-- What a structure holds that is neither a group nor a writer module, in its order.
mutual
  pub item_strays : NexusStructureItem → List Value
  item_strays (group g) = group_strays g
  item_strays (writer_module spec) = []
  item_strays (invalid json) = json ∷ []

  pub group_strays : NexusGroup → List Value
  group_strays (nexus_group type name children attributes) = strays children

  pub strays : NexusStructureItems → List Value
  strays nil = []
  strays (cons item items) = item_strays item ++ strays items

module _ {G W : Type 0} where
  abbrev pub writer_names : List (PlacedWriter G W) → List String
  writer_names [] = []
  writer_names (w ∷ ws) = w.writer_name ∷ writer_names ws

  writer_names-snoc :
      (ws : List (PlacedWriter G W)) (w : PlacedWriter G W)
      → writer_names (ws ++ (w ∷ [])) ≡ writer_names ws ++ (w.writer_name ∷ [])
  writer_names-snoc [] w = refl
  writer_names-snoc (v ∷ ws) w =
      ap (λ (names : List String). v.writer_name ∷ names) (writer_names-snoc ws w)

All-join : (P : String → Type 0) (xs ys : List String) → All P xs → All P ys → All P (xs ++ ys)
All-join P [] ys hx hy = hy
All-join P (x ∷ xs) ys (h, hx) hy = (h, All-join P xs ys hx hy)

module _ {E : Type 0} (hdf : Hdf5 E) (dyn : WriterModule hdf.State)
    (factories : WriterModuleFactories hdf.Location hdf.State dyn.Writer)
    (json_text : Value → String) where
  abbrev pub IsRegistered : String → Type 0
  IsRegistered name = Factories.get factories name ≢ none

  -- Writers of these names were added, all of them of registered modules, and there was nothing else.
  abbrev Added : List String → List Value → File hdf dyn → File hdf dyn → Type 0
  Added names others f f' =
      (writer_names f'.writers ≡ writer_names f.writers ++ names)
      × All IsRegistered names
      × (others ≡ [])

  Added-join :
      (as' bs : List String) (us vs : List Value) (f g h : File hdf dyn)
      → Added as' us f g
      → Added bs vs g h
      → Added (as' ++ bs) (us ++ vs) f h
  Added-join as' bs us vs f g h (names₁, known₁, none₁) (names₂, known₂, none₂) = (
    names₂
        ∙ ap (λ (names : List String). names ++ bs) names₁
        ∙ append_assoc (writer_names f.writers) as' bs,
    All-join IsRegistered as' bs known₁ known₂,
    rw (none₁, none₂) refl,
  )

  pub placed-eq-ok :
      (x : Result NexusStructureError (PlacedWriter hdf.Location dyn.Writer) × hdf.State)
      (f f' : File hdf dyn) (h' : hdf.State)
      → placed hdf dyn x f ≡ (ok tt, (f', h'))
      → (w : PlacedWriter hdf.Location dyn.Writer) × (x ≡ (ok w, h')) × (f' ≡ add_placed_writer w f)
  unfolding placed
  placed-eq-ok (ok w, h) f f' h' e = (w, ap (λ (k : hdf.State). (ok w, k)) (ap (λ y. y.1.1) e), cc)
  placed-eq-ok (err x, h) f f' h' e = absurd (cc)

  pub after_group :
      (x : Result FileWriterError hdf.Location × hdf.State)
      (k : hdf.Location → Exec (File hdf dyn × hdf.State) FileWriterError (Unit {0}))
      (f f' : File hdf dyn) (h' : hdf.State)
      → continue (on_second_result f x) k ≡ (ok tt, (f', h'))
      → (g : hdf.Location) × (h : hdf.State) × (k g (f, h) ≡ (ok tt, (f', h')))
  after_group (ok g, h) k f f' h' e = (g, h, e)
  after_group (err x, h) k f f' h' e = absurd (cc)

  mutual
    unfolding add_child item_modules item_strays add_placed_writer

    add_child-Added :
        (item : NexusStructureItem) (parent : hdf.Location) (f f' : File hdf dyn) (h h' : hdf.State)
        → add_child hdf dyn factories json_text parent item (f, h) ≡ (ok tt, (f', h'))
        → Added (item_modules item) (item_strays item) f f'
    add_child-Added (group g) parent f f' h h' e = add_nexus_group-Added g parent f f' h h' e
    add_child-Added (writer_module spec) parent f f' h h' e =
        let (w, made, f'_is) =
          placed-eq-ok (Placed.new hdf dyn parent spec f.run_start_parameters factories h) f f' h'
            e in
        let ((name, place), known) =
          new-MadeFrom hdf dyn parent spec f.run_start_parameters factories h h' w made in
        (
          ap (λ (x : File hdf dyn). writer_names x.writers) f'_is
              ∙ writer_names-snoc f.writers w
              ∙ ap (λ (n : String). writer_names f.writers ++ (n ∷ [])) name,
          (known, tt),
          refl,
        )
    add_child-Added (invalid json) parent f f' h h' e = absurd (cc)

    add_nexus_group-Added :
        (g : NexusGroup) (parent : hdf.Location) (f f' : File hdf dyn) (h h' : hdf.State)
        → add_nexus_group hdf dyn factories json_text parent g (f, h) ≡ (ok tt, (f', h'))
        → Added (group_modules g) (group_strays g) f f'
    add_nexus_group-Added (nexus_group type name children attributes) parent f f' h h' e =
        let (g, k, rest) =
          after_group _ (λ g. add_children hdf dyn factories json_text g children) f f' h' e in
        add_children-Added children g f f' k h' rest

    add_children-Added :
        (items : NexusStructureItems) (parent : hdf.Location) (f f' : File hdf dyn)
        (h h' : hdf.State)
        → add_children hdf dyn factories json_text parent items (f, h) ≡ (ok tt, (f', h'))
        → Added (modules items) (strays items) f f'
    add_children-Added nil parent f f' h h' e =
        let same : f ≡ f' = cc in
        (
          ap (λ (x : File hdf dyn). writer_names x.writers) (sym same)
              ∙ sym (append-nil (writer_names f.writers)),
          tt,
          refl,
        )
    add_children-Added (cons child rest) parent f f' h h' e =
        let (_, (g, k), first, second) =
          continue-eq-ok (add_child hdf dyn factories json_text parent child (f, h))
            (λ _. add_children hdf dyn factories json_text parent rest) tt (f', h') e in
        Added-join (item_modules child) (modules rest) (item_strays child) (strays rest) f g f'
          (add_child-Added child parent f g h k cc)
          (add_children-Added rest parent g f' k h' second)

  pub built-eq-ok :
      (x : Result FileWriterError (Unit {0}) × (File hdf dyn × hdf.State)) (f : File hdf dyn)
      (h : hdf.State)
      → built hdf dyn factories json_text x ≡ (ok f, h)
      → x ≡ (ok tt, (f, h))
  built-eq-ok (ok tt, (g, k)) f h e = cc
  built-eq-ok (err _, (g, k)) f h e = absurd (cc)

  pub on_second-keeps :
      (f f' : File hdf dyn) (x : Result FileWriterError (Unit {0}) × hdf.State) (h' : hdf.State)
      → on_second_result f x ≡ (ok tt, (f', h'))
      → f ≡ f'
  on_second-keeps f f' (r, h) h' e = cc

  -- A file that could be built from a structure has one writer for each writer module of the
  -- structure, in the structure's order, all these modules are registered, and the structure
  -- holds nothing but groups and writer modules.
  pub new-writers :
      (file : hdf.Location) (params : RunStartParameters) (structure : NexusFileStructure)
      (now : String) (h h' : hdf.State) (f : File hdf dyn)
      → new hdf dyn factories json_text file params structure now h ≡ (ok f, h')
      → (writer_names f.writers ≡ modules structure.children)
        × All IsRegistered (modules structure.children)
        × (strays structure.children ≡ [])
  unfolding new use_structure
  new-writers file params structure now h h' f e =
      let started : File hdf dyn = record {
        file = file;
        writers = [];
        run_start_parameters = params;
        router = Router.default;
        run_stop_received = false;
      } in
      let (_, (g, k), first, second) =
        continue-eq-ok
          (add_children hdf dyn factories json_text file structure.children (started, h)) _ tt
          (f, h') (built-eq-ok _ f h' e) in
      let same : g ≡ f = on_second-keeps g f _ h' second in
      let (names, known, only) = add_children-Added structure.children file started g h k first in
      (ap (λ (x : File hdf dyn). writer_names x.writers) (sym same) ∙ names, known, only)

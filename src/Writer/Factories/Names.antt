-- ===== src/Writer/Factories/Names.antt =====
-- writer_module_factories.rs: registration under names.
use kafka_file_writer.Base.{
  String, ◌≡◌, refl, ap, ◌∙◌, Bool, not, ◌&&◌, ◌||◌, Option, none, some, List, [], ◌∷◌, arith,
  if◌then◌else◌,
}
use kafka_file_writer.Base.Equality.{◌==◌, string_eq}
use kafka_file_writer.Base.Map
use kafka_file_writer.Base.Map.{contains, distinct, get-insert, HashMap}
use kafka_file_writer.Writer.Factories.{
  WriterModuleFactories, WriterModuleCreateFn, empty, register, get, replaced,
}

module _ {F : Type 0} where
  -- The names that were registered, and the last value under a name, the last registration first.
  abbrev pub names : List (String × F) → List String
  names [] = []
  names ((name, create_fn) ∷ rest) = name ∷ names rest

  abbrev pub last_under : String → List (String × F) → Option F
  last_under n [] = none
  last_under n ((name, create_fn) ∷ rest) = if name == n then some create_fn else last_under n rest

  replaced-last :
      (n : String) (rs : List (String × F)) (b : Bool)
      → replaced (last_under n rs) b ≡ (contains n (names rs) || b)
  unfolding replaced contains
  replaced-last n [] b = refl
  replaced-last n ((name, create_fn) ∷ rest) b = ground (arith, replaced-last n rest b)

or_not_and : (a b c : Bool) → c ≡ not b → (a || c) ≡ not (not a && b)
or_not_and a b c h = ground arith

module _ {G S W : Type 0} where
  pub register_all : List (String × WriterModuleCreateFn G S W) → WriterModuleFactories G S W
  register_all [] = empty
  register_all ((name, create_fn) ∷ rest) = register name create_fn (register_all rest)

  -- After any registrations, `get` gives the last creation function that was registered under the
  -- name, and nothing if there was none.
  pub get-register_all :
      (rs : List (String × WriterModuleCreateFn G S W)) (n : String)
      → get (register_all rs) n ≡ last_under n rs
  unfolding get register_all register Map.get
  get-register_all [] n = refl
  get-register_all ((name, create_fn) ∷ rest) n =
      get-insert name n create_fn _
      ∙ ap (λ (o : Option (WriterModuleCreateFn G S W)). if name == n then some create_fn else o)
          (get-register_all rest n)

  modules-register_all :
      (n : String) (rs : List (String × WriterModuleCreateFn G S W))
      → Map.get n (register_all rs).modules ≡ last_under n rs
  unfolding get
  modules-register_all n rs = get-register_all rs n

  -- The flag is set exactly if some name was registered twice.
  pub has_duplicated-register_all :
      (rs : List (String × WriterModuleCreateFn G S W))
      → (register_all rs).has_duplicated_module_names ≡ not (distinct (names rs))
  unfolding register_all register distinct
  has_duplicated-register_all [] = refl
  has_duplicated-register_all ((name, create_fn) ∷ rest) =
      ap
        (λ (o : Option (WriterModuleCreateFn G S W)).
          replaced o (register_all rest).has_duplicated_module_names)
        (modules-register_all name rest)
      ∙ replaced-last name rest (register_all rest).has_duplicated_module_names
      ∙ or_not_and (contains name (names rest)) (distinct (names rest)) _
          (has_duplicated-register_all rest)

-- ===== src/Bin/StructureVerify/Verdict.antt =====
-- bin/structure_verify.rs: what its exit says of a structure.
use kafka_file_writer.Base.{
  String, ◌≡◌, ◌≢◌, refl, sym, ◌⊎◌, inl, inr, Option, none, some, List, [], ◌∷◌, All, Bool-cases,
  arith,
}
use kafka_file_writer.Base.Equality.{◌==◌, string_eq}
use kafka_file_writer.Base.Map
use kafka_file_writer.Base.Exec.{Result, ok, err}
use kafka_file_writer.Error.{Cause, FileWriterError, NexusStructureError}
use kafka_file_writer.Json.{Value}
use kafka_file_writer.Structure.{NexusFileStructure, StructureSource, from_str}
use kafka_file_writer.Run
use kafka_file_writer.Hdf.{Hdf5}
use kafka_file_writer.Hdf.FileCreator.{FileCreator}
use kafka_file_writer.Hdf.Scope.Closing.{with_nexus_file-ok}
use kafka_file_writer.Writer.Factories
use kafka_file_writer.Writer.Ixseblock.{IxseblockConfig}
use kafka_file_writer.Writer.Nxeventdata.{Floats, Element, NxeventdataConfig}
use kafka_file_writer.Writer.Registry
use kafka_file_writer.Writer.Registry.{writer_modules, default_registry}
use kafka_file_writer.File
use kafka_file_writer.File.Building.{modules, strays, new-writers}
use kafka_file_writer.Bin.StructureVerify.{
  Args, main, with_json, with_structure, reported, instantiate, instantiated,
}

-- The writer modules that the program has.
abbrev pub IsKnown : String → Type 0
IsKnown name = (name ≡ "IXseblock") ⊎ (name ≡ "NXevent_data")

All-map :
    {P Q : String → Type 0} (f : (n : String) → P n → Q n) (ns : List String) → All P ns → All Q ns
All-map f [] all = tt
All-map f (n ∷ ns) (p, all) = (f n p, All-map f ns all)

module _ (fl : Floats) (hdf : Hdf5 (Element fl.F64 fl.F32))
    (ixseblock_config : Value → Result Cause IxseblockConfig)
    (nxeventdata_config : Value → Result Cause NxeventdataConfig) (json_text : Value → String)
    (src : StructureSource) where
  known :
      (name : String)
      → Factories.get (default_registry fl hdf ixseblock_config nxeventdata_config) name ≢ none
      → IsKnown name
  unfolding Factories.get Registry.default_registry Factories.register_module Factories.register
      Map.insert Map.get
  known name found = elim (Bool-cases ("IXseblock" == name)) [
    | inl first ↦
        let is : "IXseblock" ≡ name = ground (arith, string_eq.equal_iff "IXseblock" name) in
        inl (sym is)
    | inr e ↦ elim (Bool-cases ("NXevent_data" == name)) [
      | inl second ↦
          let is : "NXevent_data" ≡ name =
            ground (arith, string_eq.equal_iff "NXevent_data" name) in
          inr (sym is)
      | inr e' ↦ absurd (found (rw (e, e') refl))
    ]
  ]

  instantiated-ok :
      (x : Result FileWriterError (File.File hdf (writer_modules fl hdf)) × hdf.State)
      (h' : hdf.State)
      → instantiated x ≡ some (ok tt, (h', tt))
      → (f : File.File hdf (writer_modules fl hdf)) × (x ≡ (ok f, h'))
  unfolding instantiated
  instantiated-ok (ok f, h) h' e = (f, cc)
  instantiated-ok (err x, h) h' e = absurd (cc)

  -- The structure could be instantiated.
  abbrev Instantiated : NexusFileStructure → Type 0
  Instantiated structure =
      All IsKnown (modules structure.children) × (strays structure.children ≡ [])

  instantiate-ok :
      (structure : NexusFileStructure) (now : String) (file : hdf.Location) (h h' : hdf.State)
      → instantiate fl hdf ixseblock_config nxeventdata_config json_text src structure now file
          (h, tt)
        ≡ some (ok tt, (h', tt))
      → Instantiated structure
  unfolding instantiate
  instantiate-ok structure now file h h' e =
      let (f, built) =
        instantiated-ok
          (File.new hdf (writer_modules fl hdf)
            (default_registry fl hdf ixseblock_config nxeventdata_config) json_text file Run.default
            structure now h)
          h' e in
      let (_, registered, only) =
        new-writers hdf (writer_modules fl hdf)
          (default_registry fl hdf ixseblock_config nxeventdata_config) json_text file Run.default
          structure now h h' f built in
      (All-map known (modules structure.children) registered, only)

  reported-ok :
      (o : Option (Result FileWriterError (Unit {0}) × (hdf.State × Unit {0}))) (h' : hdf.State)
      → reported o ≡ some (ok tt, h')
      → o ≡ some (ok tt, (h', tt))
  unfolding reported
  reported-ok none h' e = absurd (cc)
  reported-ok (some (ok _, (h, _))) h' e = cc
  reported-ok (some (err x, (h, _))) h' e = absurd (cc)

  with_structure-ok :
      (uuid now : String) (h h' : hdf.State) (x : Result NexusStructureError NexusFileStructure)
      → with_structure fl hdf ixseblock_config nxeventdata_config json_text src uuid now h x
        ≡ some (ok tt, h')
      → (structure : NexusFileStructure) × (x ≡ ok structure) × Instantiated structure
  unfolding with_structure
  with_structure-ok uuid now h h' (err e) p = absurd (cc)
  with_structure-ok uuid now h h' (ok structure) p =
      let (file, h₁, h₂, ran) =
        with_nexus_file-ok hdf FileCreator.memory "structure_verify" uuid _ tt h h' tt tt
          (reported-ok _ h' p) in
      (structure, refl, instantiate-ok structure now file h₁ h₂ ran)

  with_json-ok :
      (uuid now : String) (h h' : hdf.State) (x : Result Cause String)
      → with_json fl hdf ixseblock_config nxeventdata_config json_text src uuid now h x
        ≡ some (ok tt, h')
      → (json : String) × (structure : NexusFileStructure) × (x ≡ ok json)
        × (from_str src json ≡ ok structure)
        × Instantiated structure
  unfolding with_json
  with_json-ok uuid now h h' (err e) p = absurd (cc)
  with_json-ok uuid now h h' (ok json) p =
      let (structure, parsed, good) = with_structure-ok uuid now h h' (from_str src json) p in
      (json, structure, refl, parsed, good)

  -- If `structure_verify` succeeds, then the file that it was given holds a structure, with nothing
  -- in it but groups and writer modules, and all its modules are ones that the program has.
  pub main-ok :
      (args : Result Cause Args) (uuid now : String) (h h' : hdf.State)
      → main fl hdf ixseblock_config nxeventdata_config json_text src args uuid now h
        ≡ some (ok tt, h')
      → (a : Args) × (json : String) × (structure : NexusFileStructure) × (args ≡ ok a)
        × (src.read_to_string a.file ≡ ok json)
        × (from_str src json ≡ ok structure)
        × All IsKnown (modules structure.children)
        × (strays structure.children ≡ [])
  unfolding main
  main-ok (err e) uuid now h h' p = absurd (cc)
  main-ok (ok a) uuid now h h' p =
      let (json, structure, read, parsed, good) =
        with_json-ok uuid now h h' (src.read_to_string a.file) p in
      (a, json, structure, refl, read, parsed, good.0, good.1)

-- ===== src/File/Calls.antt =====
-- run_writer/placed_writer.rs and writer_modules/: what a call of one writer does to the events of a
-- group.
use kafka_file_writer.Base.{List, some, get_elem?, ◌≡◌, ◌≢◌, refl, sym, ap, subst, ◌∙◌}
use kafka_file_writer.Base.Equality.{string_eq}
use kafka_file_writer.Base.Exec.{Result, ok, err}
use kafka_file_writer.Error.{WriterModuleError, invalid_data, failed_file_write, fatal}
use kafka_file_writer.Message.{KafkaMessageMeta, DeserializedMessage}
use kafka_file_writer.Router.{WriterId}
use kafka_file_writer.Hdf.{Hdf5}
use kafka_file_writer.Hdf.Laws.{DatasetLaws, GroupLaws}
use kafka_file_writer.Writer.Ixseblock
use kafka_file_writer.Writer.Nxeventdata
use kafka_file_writer.Writer.Nxeventdata.{Floats, Element, Nxeventdata}
use kafka_file_writer.Writer.Nxeventdata.Recording.{Log, IsAligned, Fits, recorded, view}
use kafka_file_writer.Writer.Nxeventdata.Life.{Passed, on_message-SameRun, step-recorded}
use kafka_file_writer.Writer.Nxeventdata.Apart.{on_message-apart}
use kafka_file_writer.Writer.Registry
use kafka_file_writer.Writer.Registry.{AnyWriter, nxeventdata, ixseblock, writer_modules}
use kafka_file_writer.Placed
use kafka_file_writer.Placed.{PlacedWriter, tolerated, on_message_lem}

module _ {G : Type 0} (g : G) where
  -- A module of events stands elsewhere.
  abbrev pub Elsewhere : AnyWriter G → Type 0
  Elsewhere x = (v : Nxeventdata G) → x ≡ nxeventdata v → v.group ≢ g

  -- The modules of events but one stand elsewhere.
  abbrev pub Apart : WriterId → List (PlacedWriter G (AnyWriter G)) → Type 0
  Apart j ws =
      (i : WriterId) (q : PlacedWriter G (AnyWriter G))
      → i ≢ j
      → get_elem? ws i ≡ some q
      → Elsewhere q.writer

module _ (fl : Floats) (hdf : Hdf5 (Element fl.F64 fl.F32)) (laws : DatasetLaws hdf)
    (groups : GroupLaws hdf laws) (meta : KafkaMessageMeta) (msg : DeserializedMessage)
    (g : hdf.Location) where
  abbrev pub Writer : Type 0
  Writer = AnyWriter hdf.Location

  abbrev pub P : Type 0
  P = PlacedWriter hdf.Location Writer

  pub writer-apart :
      (x x' : Writer) (h h' : hdf.State) (r : Result WriterModuleError (Unit {0}))
      → Registry.on_message fl hdf meta msg (x, h) ≡ (r, (x', h'))
      → Passed r
      → Elsewhere g x
      → (view fl hdf laws g h' ≡ view fl hdf laws g h) × Elsewhere g x'
  unfolding Registry.on_message Ixseblock.on_message
  writer-apart (ixseblock w) x' h h' r run p out =
      let same : h' ≡ h = cc in
      let is : x' ≡ ixseblock w = cc in (ap (view fl hdf laws g) same, λ v e. absurd (cc))
  writer-apart (nxeventdata w) x' h h' r run p out =
      let y : Result WriterModuleError (Unit {0}) × Nxeventdata.State fl hdf =
        Nxeventdata.on_message fl hdf meta msg (w, h) in
      let ran : y ≡ (r, (y.1.0, h')) = cc in
      let is : x' ≡ nxeventdata y.1.0 = cc in
      let kept = on_message-SameRun fl hdf meta msg w h in
      (
        on_message-apart fl hdf laws groups meta msg w y.1.0 h h' r g ran p (out w refl),
        λ v e c.
            let same : v ≡ y.1.0 = cc in
            out w refl (sym kept.0 ∙ ap (λ (u : Nxeventdata hdf.Location). u.group) (sym same) ∙ c),
      )

  pub writer-recorded :
      (w : Nxeventdata hdf.Location) (x' : Writer) (h h' : hdf.State)
      (r : Result WriterModuleError (Unit {0})) (l : Log fl)
      → Registry.on_message fl hdf meta msg (nxeventdata w, h) ≡ (r, (x', h'))
      → Passed r
      → w.group ≡ g
      → view fl hdf laws g h ≡ l
      → IsAligned l
      → Fits (recorded fl w meta msg l)
      → view fl hdf laws g h' ≡ recorded fl w meta msg l
  unfolding Registry.on_message
  writer-recorded w x' h h' r l run p in_g events a fits =
      let y : Result WriterModuleError (Unit {0}) × Nxeventdata.State fl hdf =
        Nxeventdata.on_message fl hdf meta msg (w, h) in
      let ran : y ≡ (r, (y.1.0, h')) = cc in
      let at_l : view fl hdf laws w.group h ≡ l =
        ap (λ (k : hdf.Location). view fl hdf laws k h) in_g ∙ events in
      ap (λ (k : hdf.Location). view fl hdf laws k h') (sym in_g)
      ∙ step-recorded fl hdf laws meta msg w y.1.0 h h' r ran p
          (subst (λ (m : Log fl). IsAligned m) (sym at_l) a)
          (subst (λ (m : Log fl). Fits (recorded fl w meta msg m)) (sym at_l) fits)
      ∙ ap (recorded fl w meta msg) at_l

  tolerated-Passed :
      (q : P) (r : Result WriterModuleError (Unit {0}))
      → tolerated hdf (writer_modules fl hdf) q r ≡ ok tt
      → Passed r
  tolerated-Passed q (ok _) e = tt
  tolerated-Passed q (err (invalid_data m)) e = tt
  tolerated-Passed q (err (failed_file_write x)) e = absurd (cc)
  tolerated-Passed q (err (fatal cause context)) e = absurd (cc)

  -- A call that the file takes is one that the writer took.
  abbrev pub TookAs : P → P → (h h' : hdf.State) → Type 0
  TookAs q q' h h' =
      (r : Result WriterModuleError (Unit {0})) × (Registry.on_message fl hdf meta msg (q.writer, h)
        ≡ (r, (q'.writer, h')))
      × Passed r

  pub placed-TookAs :
      (q q' : P) (h h' : hdf.State)
      → Placed.on_message hdf (writer_modules fl hdf) meta msg (q, h) ≡ (ok tt, (q', h'))
      → TookAs q q' h h'
  placed-TookAs q q' h h' run =
      let out : Result WriterModuleError (Unit {0}) × (Writer × hdf.State) =
        Registry.on_message fl hdf meta msg (q.writer, h) in
      let is : (
        tolerated hdf (writer_modules fl hdf) q out.0,
        (record q { writer = out.1.0 }, out.1.1),
      )
          ≡ (ok tt, (q', h')) =
        sym (on_message_lem hdf (writer_modules fl hdf) meta msg q h) ∙ run in
      (
        out.0,
        ap (λ x. (out.0, (PlacedWriter.writer x.1.0, x.1.1))) is,
        tolerated-Passed q out.0 (ap (λ x. x.0) is),
      )

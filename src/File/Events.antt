-- ===== src/File/Events.antt =====
-- run_writer/in_progress_file.rs: what a message of a file does to the events of one of its groups.
use kafka_file_writer.Base.{
  String, ◌≡◌, ◌≢◌, refl, sym, ap, subst, ◌∙◌, false, Bool-cases, inl, inr, Option, none, some,
  List, [], ◌∷◌, get_elem?, set, All, get_elem?-set_ne, get_elem?-set_cases, if◌then◌else◌, arith,
}
use kafka_file_writer.Base.Equality.{◌==◌, string_eq}
use kafka_file_writer.Base.Exec.{Result, ok, continue-eq-ok}
use kafka_file_writer.Error.{FileWriterError}
use kafka_file_writer.Message.{KafkaMessageMeta, DeserializedMessage}
use kafka_file_writer.Subscription.{Subscription, SubscriptionKey}
use kafka_file_writer.Router
use kafka_file_writer.Router.{WriterId}
use kafka_file_writer.Hdf.{Hdf5}
use kafka_file_writer.Hdf.Laws.{DatasetLaws, GroupLaws}
use kafka_file_writer.Writer.Nxeventdata.{Floats, Element, Nxeventdata}
use kafka_file_writer.Writer.Nxeventdata.Recording.{Log, IsAligned, Fits, recorded, view}
use kafka_file_writer.Writer.Registry
use kafka_file_writer.Writer.Registry.{AnyWriter, nxeventdata, ixseblock, writer_modules}
use kafka_file_writer.Placed
use kafka_file_writer.Placed.{PlacedWriter, tolerated, on_message_lem}
use kafka_file_writer.File.{File, notify_one, notify, put_back, on_message}
use kafka_file_writer.File.Sync.{IsInSync}
use kafka_file_writer.File.Isolation.{Avoids, wants, writers_for-Avoids}
use kafka_file_writer.File.Once.{Once, here, later, writers_for-Once}
use kafka_file_writer.File.Calls.{
  Apart, Elsewhere, TookAs, writer-apart, writer-recorded, placed-TookAs,
}

module _ (fl : Floats) (hdf : Hdf5 (Element fl.F64 fl.F32)) (laws : DatasetLaws hdf)
    (groups : GroupLaws hdf laws) (meta : KafkaMessageMeta) (msg : DeserializedMessage)
    (g : hdf.Location) where
  abbrev Writer : Type 0
  Writer = AnyWriter hdf.Location

  abbrev P : Type 0
  P = PlacedWriter hdf.Location Writer

  module _ (j : WriterId) where
    Apart-set :
        (ws : List P) (i : WriterId) (q : P)
        → Apart g j ws
        → Elsewhere g q.writer
        → Apart g j (set ws i q)
    Apart-set ws i q apart new k v ne at = elim (get_elem?-set_cases ws i k q v at) [
      | inl is ↦ subst (λ (u : P). Elsewhere g u.writer) (sym is) new
      | inr old ↦ apart k v ne old
    ]

    Apart-set_own : (ws : List P) (q : P) → Apart g j ws → Apart g j (set ws j q)
    Apart-set_own ws q apart k v ne at =
        apart k v ne (sym (get_elem?-set_ne ws j k q (λ e. ne (sym e))) ∙ at)

    -- What the writer with the index is, that no other module stands in its group, and its events.
    abbrev Stands : Option P → Log fl → File hdf (writer_modules fl hdf) × hdf.State → Type 0
    Stands o l (f, h) =
        (get_elem? f.writers j ≡ o) × Apart g j f.writers × (view fl hdf laws g h ≡ l)

    put-Stands :
        (i : WriterId) (q q' : P) (o : Option P) (l : Log fl) (f : File hdf (writer_modules fl hdf))
        (h h' : hdf.State)
        → i ≢ j
        → get_elem? f.writers i ≡ some q
        → TookAs fl hdf laws groups meta msg g q q' h h'
        → Stands o l (f, h)
        → Stands o l (record f { writers = set f.writers i q' }, h')
    put-Stands i q q' o l f h h' ne at (r, ran, passed) (mine, apart, events) =
        let (kept, new) =
          writer-apart fl hdf laws groups meta msg g q.writer q'.writer h h' r ran passed
            (apart i q ne at) in
        (
          get_elem?-set_ne f.writers i j q' ne ∙ mine,
          Apart-set f.writers i q' apart new,
          kept ∙ events,
        )

    put_back-ok :
        (i : WriterId) (f f' : File hdf (writer_modules fl hdf)) (h' : hdf.State)
        (x : Result FileWriterError (Unit {0}) × (P × hdf.State))
        → put_back hdf (writer_modules fl hdf) i f x ≡ (ok tt, (f', h'))
        → (q' : P) × (x ≡ (ok tt, (q', h'))) × (f' ≡ record f { writers = set f.writers i q' })
    unfolding put_back
    put_back-ok i f f' h' (r, (q, h)) run = (q, cc, cc)

    -- Whom a call for an index reached.
    notify_one-ok :
        (i : WriterId) (o : Option P) (f f' : File hdf (writer_modules fl hdf)) (h h' : hdf.State)
        → notify_one hdf (writer_modules fl hdf) meta msg i o (f, h) ≡ (ok tt, (f', h'))
        → (q q' : P) × (o ≡ some q)
          × TookAs fl hdf laws groups meta msg g q q' h h'
          × (f' ≡ record f { writers = set f.writers i q' })
    unfolding notify_one
    notify_one-ok i none f f' h h' run = absurd (cc)
    notify_one-ok i (some q) f f' h h' run =
        let (q', ran, is) =
          put_back-ok i f f' h' (Placed.on_message hdf (writer_modules fl hdf) meta msg (q, h))
            run in
        (q, q', refl, placed-TookAs fl hdf laws groups meta msg g q q' h h' ran, is)

    step-Stands :
        (i : WriterId) (o : Option P) (l : Log fl) (f f' : File hdf (writer_modules fl hdf))
        (h h' : hdf.State)
        → i ≢ j
        → notify_one hdf (writer_modules fl hdf) meta msg i (get_elem? f.writers i) (f, h)
          ≡ (ok tt, (f', h'))
        → Stands o l (f, h)
        → Stands o l (f', h')
    step-Stands i o l f f' h h' ne run stands =
        let (q, q', at, took, is) = notify_one-ok i (get_elem? f.writers i) f f' h h' run in
        subst (λ (k : File hdf (writer_modules fl hdf)). Stands o l (k, h')) (sym is)
          (put-Stands i q q' o l f h h' ne at took stands)

    notify-Stands :
        (ids : List WriterId) (o : Option P) (l : Log fl) (f f' : File hdf (writer_modules fl hdf))
        (h h' : hdf.State)
        → Avoids j ids
        → notify hdf (writer_modules fl hdf) meta msg ids (f, h) ≡ (ok tt, (f', h'))
        → Stands o l (f, h)
        → Stands o l (f', h')
    unfolding notify
    notify-Stands [] o l f f' h h' av run stands =
        subst (λ (x : File hdf (writer_modules fl hdf) × hdf.State). Stands o l x)
          (ap (λ x. x.1) run) stands
    notify-Stands (i ∷ ids) o l f f' h h' (ne, av) run stands =
        let (a, s, first, second) =
          continue-eq-ok
            (notify_one hdf (writer_modules fl hdf) meta msg i (get_elem? f.writers i) (f, h)) _ tt
            (f', h') run in
        notify-Stands ids o l s.0 f' s.1 h' av second
          (step-Stands i o l f s.0 h s.1 ne first stands)

    own-Stands :
        (p : P) (w : Nxeventdata hdf.Location) (l : Log fl)
        (f f' : File hdf (writer_modules fl hdf)) (h h' : hdf.State)
        → p.writer ≡ nxeventdata w
        → w.group ≡ g
        → IsAligned l
        → Fits (recorded fl w meta msg l)
        → notify_one hdf (writer_modules fl hdf) meta msg j (get_elem? f.writers j) (f, h)
          ≡ (ok tt, (f', h'))
        → Stands (some p) l (f, h)
        → Stands (get_elem? f'.writers j) (recorded fl w meta msg l) (f', h')
    own-Stands p w l f f' h h' its in_g a fits run (mine, apart, events) =
        let (q, q', at, (r, ran, passed), is) =
          notify_one-ok j (get_elem? f.writers j) f f' h h' run in
        let is_p : q ≡ p = cc in
        (
          refl,
          subst (λ (k : File hdf (writer_modules fl hdf)). Apart g j k.writers) (sym is)
              (Apart-set_own f.writers q' apart),
          writer-recorded fl hdf laws groups meta msg g w q'.writer h h' r l
              (ap (λ (x : Writer). Registry.on_message fl hdf meta msg (x, h))
                  (sym its ∙ ap (λ (u : P). u.writer) (sym is_p))
                ∙ ran)
              passed in_g events a fits,
        )

    notify-recorded :
        (ids : List WriterId) (p : P) (w : Nxeventdata hdf.Location) (l : Log fl)
        (f f' : File hdf (writer_modules fl hdf)) (h h' : hdf.State)
        → Once j ids
        → p.writer ≡ nxeventdata w
        → w.group ≡ g
        → IsAligned l
        → Fits (recorded fl w meta msg l)
        → notify hdf (writer_modules fl hdf) meta msg ids (f, h) ≡ (ok tt, (f', h'))
        → Stands (some p) l (f, h)
        → view fl hdf laws g h' ≡ recorded fl w meta msg l
    unfolding notify
    notify-recorded [] p w l f f' h h' once its in_g a fits run stands = elim once [ ]
    notify-recorded (_ ∷ ids) p w l f f' h h' (here av) its in_g a fits run stands =
        let (_, s, first, second) =
          continue-eq-ok
            (notify_one hdf (writer_modules fl hdf) meta msg j (get_elem? f.writers j) (f, h)) _ tt
            (f', h') run in
        let after = own-Stands p w l f s.0 h s.1 its in_g a fits first stands in
        (notify-Stands ids (get_elem? s.0.writers j) (recorded fl w meta msg l) s.0 f' s.1 h' av
          second after).2
    notify-recorded (i ∷ ids) p w l f f' h h' (later ne once) its in_g a fits run stands =
        let (_, s, first, second) =
          continue-eq-ok
            (notify_one hdf (writer_modules fl hdf) meta msg i (get_elem? f.writers i) (f, h)) _ tt
            (f', h') run in
        notify-recorded ids p w l s.0 f' s.1 h' once its in_g a fits second
          (step-Stands i (some p) l f s.0 h s.1 ne first stands)

    -- In a file whose router is in step with its writers, a message that is taken without an error
    -- adds to the events of a module, if they come from its topic, what the run records of the
    -- message, once, and nothing else; the other writers add nothing. No other module of
    -- events stands in its group, its events are aligned, and the lengths after are `usize`s.
    pub on_message-events :
        (p : P) (w : Nxeventdata hdf.Location) (topic : String)
        (f f' : File hdf (writer_modules fl hdf)) (h h' : hdf.State)
        → IsInSync f
        → get_elem? f.writers j ≡ some p
        → p.writer ≡ nxeventdata w
        → w.group ≡ g
        → p.subscriptions ≡ record { topic = topic; key = SubscriptionKey.all } ∷ []
        → Apart g j f.writers
        → IsAligned (view fl hdf laws g h)
        → Fits (
            if topic == meta.topic
            then recorded fl w meta msg (view fl hdf laws g h)
            else view fl hdf laws g h)
        → on_message hdf (writer_modules fl hdf) meta msg (f, h) ≡ (ok tt, (f', h'))
        → view fl hdf laws g h' ≡ (
            if topic == meta.topic
            then recorded fl w meta msg (view fl hdf laws g h)
            else view fl hdf laws g h)
    unfolding on_message
    on_message-events p w topic f f' h h' sync mine its in_g asks apart a fits run =
        elim (Bool-cases (topic == meta.topic)) [
          | inl hit ↦ rw hit (
              notify-recorded (Router.writers_for f.router meta) p w (view fl hdf laws g h) f f' h
                h' (writers_for-Once meta f j p topic sync mine asks hit) its in_g a
                (rw hit at fits) run (mine, apart, refl))
          | inr miss ↦
              rw miss
                (notify-Stands (Router.writers_for f.router meta) (some p) (view fl hdf laws g h) f
                  f' h h'
                  (writers_for-Avoids meta f j p sync mine (
                    subst (λ (subs : List Subscription). All (λ sub. wants meta sub ≡ false) subs)
                      (sym asks) (ground arith, tt)))
                  run (mine, apart, refl)).2
        ]

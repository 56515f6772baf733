-- ===== src/File/Delivery.antt =====
-- run_writer/in_progress_file.rs: building, messages and run stops against the router's indices.
use kafka_file_writer.Base.{
  ℕ, String, ◌≡◌, refl, sym, ap, subst, ◌∙◌, List, [], ◌∷◌, Option, some, none, get_elem?,
}
use kafka_file_writer.Base.Exec.{Result, ok, err, continue-keeps}
use kafka_file_writer.Error.{FileWriterError}
use kafka_file_writer.Subscription.{Subscription}
use kafka_file_writer.Message.{KafkaMessageMeta, DeserializedMessage, RunStop}
use kafka_file_writer.Structure.{
  NexusFileStructure, NexusGroup, nexus_group, NexusStructureItem, group, writer_module, invalid,
  NexusStructureItems, nil, cons,
}
use kafka_file_writer.Json.{Value}
use kafka_file_writer.Run.{RunStartParameters}
use kafka_file_writer.Router
use kafka_file_writer.Router.{WriterId}
use kafka_file_writer.Router.Routes.{subscribe_all}
use kafka_file_writer.Hdf.{Hdf5}
use kafka_file_writer.Writer.{WriterModule}
use kafka_file_writer.Writer.Factories.{WriterModuleFactories}
use kafka_file_writer.Placed
use kafka_file_writer.Placed.{PlacedWriter}
use kafka_file_writer.File.{
  File, placed, add_child, add_nexus_group, add_children, new, built, notify_one, notify, put_back,
  on_message, stop_all, stop_rest, keep_first, stopped, Stopping, on_run_stop,
}
use kafka_file_writer.File.Sync.{
  entries_from, IsInSync, requests, requests-set, add_placed_writer-IsInSync,
}

module _ {E : Type 0} (hdf : Hdf5 E) (dyn : WriterModule hdf.State) where
  abbrev InSync : File hdf dyn × hdf.State → Type 0
  InSync (f, h) = IsInSync f

  placed-InSync :
      (x : Result _ (PlacedWriter hdf.Location dyn.Writer) × hdf.State) (f : File hdf dyn)
      → IsInSync f
      → InSync (placed hdf dyn x f).1
  unfolding placed
  placed-InSync (ok w, h) f s = add_placed_writer-IsInSync w f s
  placed-InSync (err e, h) f s = s

  module _ (factories : WriterModuleFactories hdf.Location hdf.State dyn.Writer)
      (json_text : Value → String) where
    mutual
      unfolding add_child

      add_child-InSync :
          (item : NexusStructureItem) (parent : hdf.Location) (st : File hdf dyn × hdf.State)
          → InSync st
          → InSync (add_child hdf dyn factories json_text parent item st).1
      add_child-InSync (group g) parent st s = add_nexus_group-InSync g parent st s
      add_child-InSync (writer_module spec) parent (f, h) s =
          placed-InSync (Placed.new hdf dyn parent spec f.run_start_parameters factories h) f s
      add_child-InSync (invalid json) parent st s = s

      add_nexus_group-InSync :
          (g : NexusGroup) (parent : hdf.Location) (st : File hdf dyn × hdf.State)
          → InSync st
          → InSync (add_nexus_group hdf dyn factories json_text parent g st).1
      add_nexus_group-InSync (nexus_group t name children attributes) parent (f, h) s =
          continue-keeps InSync _ _ s (λ a st k. add_children-InSync children a st k)

      add_children-InSync :
          (items : NexusStructureItems) (parent : hdf.Location) (st : File hdf dyn × hdf.State)
          → InSync st
          → InSync (add_children hdf dyn factories json_text parent items st).1
      add_children-InSync nil parent st s = s
      add_children-InSync (cons child rest) parent st s =
          continue-keeps InSync (add_child hdf dyn factories json_text parent child st) _
            (add_child-InSync child parent st s) (λ a st' k. add_children-InSync rest parent st' k)

    built-InSync :
        (x : Result FileWriterError (Unit {0}) × (File hdf dyn × hdf.State)) (f : File hdf dyn)
        (h : hdf.State)
        → InSync x.1
        → built hdf dyn factories json_text x ≡ (ok f, h)
        → IsInSync f
    built-InSync (ok _, (g, k)) f h s e =
        let same : g ≡ f = cc in subst (λ (x : File hdf dyn). IsInSync x) same s
    built-InSync (err _, (g, k)) f h s e = absurd (cc)

    -- `new` leaves the router in step with the writers, whatever the structure.
    pub new-IsInSync :
        (file : hdf.Location) (params : RunStartParameters) (structure : NexusFileStructure)
        (now : String) (h h' : hdf.State) (f : File hdf dyn)
        → new hdf dyn factories json_text file params structure now h ≡ (ok f, h')
        → IsInSync f
    unfolding new subscribe_all
    new-IsInSync file params structure now h h' f e =
        built-InSync _ f h'
          (continue-keeps InSync
            (add_children hdf dyn factories json_text file structure.children _) _
            (add_children-InSync structure.children file _ refl) (λ a st k. k))
          e

  put_back-InSync :
      (i : ℕ) (f : File hdf dyn) (v : PlacedWriter hdf.Location dyn.Writer)
      (x : Result FileWriterError (Unit {0}) × (PlacedWriter hdf.Location dyn.Writer × hdf.State))
      → get_elem? f.writers i ≡ some v
      → x.1.0.subscriptions ≡ v.subscriptions
      → IsInSync f
      → InSync (put_back hdf dyn i f x).1
  unfolding put_back
  put_back-InSync i f v (r, (w, h)) at same s =
      s
      ∙ ap (λ (rs : List (List Subscription)). subscribe_all (entries_from 0 rs) Router.default)
          (sym (requests-set f.writers i v w at same))

  module _ (meta : KafkaMessageMeta) (msg : DeserializedMessage) where
    notify_one-InSync :
        (i : ℕ) (o : Option (PlacedWriter hdf.Location dyn.Writer)) (f : File hdf dyn)
        (h : hdf.State)
        → get_elem? f.writers i ≡ o
        → IsInSync f
        → InSync (notify_one hdf dyn meta msg i o (f, h)).1
    unfolding notify_one
    notify_one-InSync i none f h at s = s
    notify_one-InSync i (some w) f h at s =
        put_back-InSync i f w (Placed.on_message hdf dyn meta msg (w, h)) at
          (Placed.on_message-SamePlace hdf dyn meta msg w h).2 s

    notify-InSync :
        (ids : List WriterId) (st : File hdf dyn × hdf.State)
        → InSync st
        → InSync (notify hdf dyn meta msg ids st).1
    unfolding notify
    notify-InSync [] st s = s
    notify-InSync (i ∷ ids) (f, h) s =
        continue-keeps InSync (notify_one hdf dyn meta msg i (get_elem? f.writers i) (f, h)) _
          (notify_one-InSync i (get_elem? f.writers i) f h refl s)
          (λ a st k. notify-InSync ids st k)

    -- A message leaves the router in step with the writers, also where a writer fails.
    pub on_message-IsInSync :
        (f : File hdf dyn) (h : hdf.State)
        → IsInSync f
        → IsInSync (on_message hdf dyn meta msg (f, h)).1.0
    unfolding on_message
    on_message-IsInSync f h s = notify-InSync (Router.writers_for f.router meta) (f, h) s

  module _ (meta : KafkaMessageMeta) (run_stop : RunStop) where
    keep_first-requests :
        (v w : PlacedWriter hdf.Location dyn.Writer)
        (ws : List (PlacedWriter hdf.Location dyn.Writer)) (x : Stopping hdf dyn)
        → w.subscriptions ≡ v.subscriptions
        → requests x.1.0 ≡ requests ws
        → requests (keep_first hdf dyn w x).1.0 ≡ requests (v ∷ ws)
    unfolding keep_first
    keep_first-requests v w ws (r, (us, h)) e es = cc

    stop_rest-requests :
        (v : PlacedWriter hdf.Location dyn.Writer)
        (ws : List (PlacedWriter hdf.Location dyn.Writer)) (rest : hdf.State → Stopping hdf dyn)
        (x : Result FileWriterError (Unit {0}) × (PlacedWriter hdf.Location dyn.Writer × hdf.State))
        → x.1.0.subscriptions ≡ v.subscriptions
        → ((h : hdf.State) → requests (rest h).1.0 ≡ requests ws)
        → requests (stop_rest hdf dyn ws rest x).1.0 ≡ requests (v ∷ ws)
    unfolding stop_rest
    stop_rest-requests v ws rest (ok _, (w, h)) e es = keep_first-requests v w ws (rest h) e (es h)
    stop_rest-requests v ws rest (err _, (w, h)) e es =
        ap (λ (subs : List Subscription). subs ∷ requests ws) e

    stop_all-requests :
        (ws : List (PlacedWriter hdf.Location dyn.Writer)) (h : hdf.State)
        → requests (stop_all hdf dyn meta run_stop ws h).1.0 ≡ requests ws
    unfolding stop_all
    stop_all-requests [] h = refl
    stop_all-requests (w ∷ ws) h =
        stop_rest-requests w ws (λ h'. stop_all hdf dyn meta run_stop ws h')
          (Placed.on_run_stop hdf dyn meta run_stop (w, h))
          (Placed.on_run_stop-SamePlace hdf dyn meta run_stop w h).2 (λ h'. stop_all-requests ws h')

    stopped-InSync :
        (f : File hdf dyn) (x : Stopping hdf dyn)
        → requests x.1.0 ≡ requests f.writers
        → IsInSync f
        → InSync (stopped hdf dyn f x).1
    unfolding stopped
    stopped-InSync f (ok _, (ws, h)) e s =
        s
        ∙ ap (λ (rs : List (List Subscription)). subscribe_all (entries_from 0 rs) Router.default)
            (sym e)
    stopped-InSync f (err _, (ws, h)) e s =
        s
        ∙ ap (λ (rs : List (List Subscription)). subscribe_all (entries_from 0 rs) Router.default)
            (sym e)

    -- A run stop leaves the router in step with the writers, also where a writer fails.
    pub on_run_stop-IsInSync :
        (f : File hdf dyn) (h : hdf.State)
        → IsInSync f
        → IsInSync (on_run_stop hdf dyn meta run_stop (f, h)).1.0
    unfolding on_run_stop
    on_run_stop-IsInSync f h s =
        stopped-InSync f (stop_all hdf dyn meta run_stop f.writers h)
          (stop_all-requests f.writers h) s

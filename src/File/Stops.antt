-- ===== src/File/Stops.antt =====
-- run_writer/in_progress_file.rs: which writers hear of a run stop.
use kafka_file_writer.Base.{◌≡◌, ◌↔◌, refl, sym, ap, ◌∙◌, subst, true, false, List, [], ◌∷◌}
use kafka_file_writer.Base.Exec.{Result, ok, err}
use kafka_file_writer.Error.{FileWriterError}
use kafka_file_writer.Message.{KafkaMessageMeta, RunStop}
use kafka_file_writer.Hdf.{Hdf5}
use kafka_file_writer.Writer.{WriterModule}
use kafka_file_writer.Placed
use kafka_file_writer.Placed.{PlacedWriter}
use kafka_file_writer.File.{File, stopped, Stopping, stop_all, stop_rest, keep_first, on_run_stop}

module _ {E : Type 0} (hdf : Hdf5 E) (dyn : WriterModule hdf.State) (meta : KafkaMessageMeta)
    (run_stop : RunStop) where
  abbrev Placements : Type 0
  Placements = List (PlacedWriter hdf.Location dyn.Writer)

  -- Each of the writers was told, one after another, and none failed: from the writers and files
  -- before to those after.
  pub data AllStopped : Placements → hdf.State → Placements → hdf.State → Type 0 where
    nobody : {h : hdf.State} → AllStopped [] h [] h
    told :
        {w w' : PlacedWriter hdf.Location dyn.Writer} {ws ws' : Placements} {h h' h'' : hdf.State}
        → Placed.on_run_stop hdf dyn meta run_stop (w, h) ≡ (ok tt, (w', h'))
        → AllStopped ws h' ws' h''
        → AllStopped (w ∷ ws) h (w' ∷ ws') h''

  keep_first-ok :
      (w : PlacedWriter hdf.Location dyn.Writer) (x : Stopping hdf dyn) (ws' : Placements)
      (h' : hdf.State)
      → keep_first hdf dyn w x ≡ (ok tt, (ws', h'))
      → (vs : Placements) × (x ≡ (ok tt, (vs, h'))) × (ws' ≡ w ∷ vs)
  unfolding keep_first
  keep_first-ok w (r, (vs, h)) ws' h' e = (vs, cc, cc)

  stop_rest-ok :
      (ws : Placements) (rest : hdf.State → Stopping hdf dyn)
      (x : Result FileWriterError (Unit {0}) × (PlacedWriter hdf.Location dyn.Writer × hdf.State))
      (ws' : Placements) (h' : hdf.State)
      → stop_rest hdf dyn ws rest x ≡ (ok tt, (ws', h'))
      → (w : PlacedWriter hdf.Location dyn.Writer) × (h : hdf.State) × (vs : Placements) × (x
          ≡ (ok tt, (w, h)))
        × (rest h ≡ (ok tt, (vs, h')))
        × (ws' ≡ w ∷ vs)
  unfolding stop_rest
  stop_rest-ok ws rest (err e, (w, h)) ws' h' eq = absurd (cc)
  stop_rest-ok ws rest (ok tt, (w, h)) ws' h' eq =
      let (vs, rest_ok, is) = keep_first-ok w (rest h) ws' h' eq in (w, h, vs, refl, rest_ok, is)

  stop_all-AllStopped :
      (ws ws' : Placements) (h h' : hdf.State)
      → stop_all hdf dyn meta run_stop ws h ≡ (ok tt, (ws', h'))
      → AllStopped ws h ws' h'
  unfolding stop_all
  stop_all-AllStopped [] ws' h h' e =
      let empty : [] ≡ ws' = cc in
      let same : h ≡ h' = cc in
      subst (λ (k : hdf.State). AllStopped [] h ws' k) same
        (subst (λ (vs : Placements). AllStopped [] h vs h) empty nobody)
  stop_all-AllStopped (w ∷ ws) ws' h h' e =
      let (v, k, vs, one, others, is) =
        stop_rest-ok ws (λ g. stop_all hdf dyn meta run_stop ws g)
          (Placed.on_run_stop hdf dyn meta run_stop (w, h)) ws' h' e in
      subst (λ (us : Placements). AllStopped (w ∷ ws) h us h') (sym is)
        (told one (stop_all-AllStopped ws vs k h' others))

  stopped-ok :
      (f f' : File hdf dyn) (h' : hdf.State) (x : Stopping hdf dyn)
      → stopped hdf dyn f x ≡ (ok tt, (f', h'))
      → (x ≡ (ok tt, (f'.writers, h'))) × (f'.run_stop_received ≡ true)
  unfolding stopped
  stopped-ok f f' h' (ok tt, (ws, h)) e = (cc, cc)
  stopped-ok f f' h' (err _, (ws, h)) e = absurd (cc)

  -- A run stop that is taken without an error was told to every writer of the file, in their order,
  -- and none of them failed; the file has received it.
  pub on_run_stop-AllStopped :
      (f f' : File hdf dyn) (h h' : hdf.State)
      → on_run_stop hdf dyn meta run_stop (f, h) ≡ (ok tt, (f', h'))
      → AllStopped f.writers h f'.writers h' × (f'.run_stop_received ≡ true)
  unfolding on_run_stop
  on_run_stop-AllStopped f f' h h' e =
      let (all_ok, received) = stopped-ok f f' h' (stop_all hdf dyn meta run_stop f.writers h) e in
      (stop_all-AllStopped f.writers f'.writers h h' all_ok, received)

  stop_all-ok :
      (ws ws' : Placements) (h h' : hdf.State)
      → AllStopped ws h ws' h'
      → stop_all hdf dyn meta run_stop ws h ≡ (ok tt, (ws', h'))
  unfolding stop_all stop_rest keep_first
  stop_all-ok [] [] h h' nobody = refl
  stop_all-ok [] (w' ∷ ws') h h' all = elim all [ ]
  stop_all-ok (w ∷ ws) [] h h' all = elim all [ ]
  stop_all-ok (w ∷ ws) (w' ∷ ws') h h' (told {h' = k} one others) =
      ap (stop_rest hdf dyn ws (λ g. stop_all hdf dyn meta run_stop ws g)) one
      ∙ ap (keep_first hdf dyn w') (stop_all-ok ws ws' k h' others)

  stopped-fails :
      (f : File hdf dyn) (x : Stopping hdf dyn)
      → f.run_stop_received ≡ false
      → (stopped hdf dyn f x).1.0.run_stop_received ≡ true
      → x ≡ (ok tt, x.1)
  unfolding stopped
  stopped-fails f (ok tt, (ws, h)) before e = refl
  stopped-fails f (err x, (ws, h)) before e = absurd (cc)

  -- A file that has received no run stop before has received one after `on_run_stop` exactly if every
  -- writer was told of it, in their order, and none of them failed.
  pub on_run_stop-received :
      (f : File hdf dyn) (h : hdf.State)
      → f.run_stop_received ≡ false
      → ((on_run_stop hdf dyn meta run_stop (f, h)).1.0.run_stop_received ≡ true)
        ↔ ((ws' : Placements) × (h' : hdf.State) × AllStopped f.writers h ws' h')
  unfolding on_run_stop stopped
  on_run_stop-received f h before = (
    λ received.
        let x : Stopping hdf dyn = stop_all hdf dyn meta run_stop f.writers h in
        (
          x.1.0,
          x.1.1,
          stop_all-AllStopped f.writers x.1.0 h x.1.1 (stopped-fails f x before received),
        ),
    λ (ws', h', all).
        ap (λ x. (stopped hdf dyn f x).1.0.run_stop_received) (stop_all-ok f.writers ws' h h' all),
  )

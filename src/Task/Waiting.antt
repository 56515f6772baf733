-- ===== src/Task/Waiting.antt =====
-- run_writer/single_file_write_task.rs: why a run goes on.
use kafka_file_writer.Base.{
  suc, ◌<◌, String, ◌≡◌, refl, false, ◌⊎◌, inl, inr, Option, none, some, List, [], ◌∷◌, get_elem?,
  Bool-cases, arith,
}
use kafka_file_writer.Base.Exec.{Result, ok, err}
use kafka_file_writer.Error.{FileWriterError}
use kafka_file_writer.Router.{WriterId}
use kafka_file_writer.Hdf.{Hdf5}
use kafka_file_writer.Writer.Ixseblock
use kafka_file_writer.Writer.Nxeventdata
use kafka_file_writer.Writer.Nxeventdata.{Floats, Element, Nxeventdata}
use kafka_file_writer.Writer.Registry
use kafka_file_writer.Writer.Registry.{AnyWriter, ixseblock, nxeventdata, writer_modules}
use kafka_file_writer.File
use kafka_file_writer.File.{all_finished}
use kafka_file_writer.File.History.{FileTook, took_all}
use kafka_file_writer.File.Writers.{Slot}
use kafka_file_writer.Task.{Environment, handle_one_message}
use kafka_file_writer.Task.Messages.{Messages, Ended, after_message, write_until_finished}
use kafka_file_writer.Task.Noise.{handle_one_message-Job}
use kafka_file_writer.Task.Recorded.{Here, deliveries, message-FileTook}

module _ (fl : Floats) (hdf : Hdf5 (Element fl.F64 fl.F32)) where
  -- The latest message of some module of events is from before the stop of its run.
  abbrev pub Behind : List (Slot hdf.Location) → Type 0
  Behind ws =
      (j : WriterId) × (slot : Slot hdf.Location) × (w : Nxeventdata hdf.Location) × (get_elem? ws j
        ≡ some slot)
      × (slot.writer ≡ nxeventdata w)
      × (w.latest_message_time_ms < w.run_stop_time_ms)

  later-Behind :
      (p : Slot hdf.Location) (ws : List (Slot hdf.Location)) → Behind ws → Behind (p ∷ ws)
  later-Behind p ws (j, slot, w, at, is, late) = (suc j, slot, w, at, is, late)

  unfinished-Behind :
      (x : AnyWriter hdf.Location)
      → Registry.finished fl hdf x ≡ false
      → (w : Nxeventdata hdf.Location) × (x ≡ nxeventdata w)
        × (w.latest_message_time_ms < w.run_stop_time_ms)
  unfolding Registry.finished Ixseblock.finished Nxeventdata.finished
  unfinished-Behind (ixseblock v) e = absurd (cc)
  unfinished-Behind (nxeventdata w) e = (w, refl, ground arith)

  all_finished-Behind :
      (ws : List (Slot hdf.Location))
      → all_finished hdf (writer_modules fl hdf) ws ≡ false
      → Behind ws
  unfolding all_finished
  all_finished-Behind [] e = absurd (cc)
  all_finished-Behind (p ∷ ws) e = elim (Bool-cases (Registry.finished fl hdf p.writer)) [
    | inl done ↦ later-Behind p ws (all_finished-Behind ws (rw done at e))
    | inr open' ↦ let (w, is, late) = unfinished-Behind p.writer open' in (0, p, w, refl, is, late)
  ]

  finished-Behind :
      (f : File.File hdf (writer_modules fl hdf))
      → File.finished hdf (writer_modules fl hdf) f ≡ false
      → (f.run_stop_received ≡ false) ⊎ Behind f.writers
  unfolding File.finished
  finished-Behind f e = elim (Bool-cases f.run_stop_received) [
    | inl received ↦ inr (all_finished-Behind f.writers (rw received at e))
    | inr not_yet ↦ inl not_yet
  ]

  module _ (env : Environment hdf (writer_modules fl hdf)) where
    -- All messages were taken, and the file still waits for its run stop, or for later messages.
    abbrev pub StillWaiting :
        String → Messages hdf (writer_modules fl hdf) env → Here fl hdf env → Type 0
    StillWaiting job ms s =
        (t : Here fl hdf env) × FileTook fl hdf t (deliveries env.deserialize_message job ms) s
        × ((t.0.run_stop_received ≡ false) ⊎ Behind t.0.writers)

    after_message-none :
        (go : Here fl hdf env → Option (Ended hdf (writer_modules fl hdf) env))
        (ms : Messages hdf (writer_modules fl hdf) env)
        (x : Result FileWriterError (Unit {0}) × Here fl hdf env)
        → after_message hdf (writer_modules fl hdf) env go ms x ≡ none
        → (x ≡ (ok tt, x.1)) × (go x.1 ≡ none)
    after_message-none go ms (ok _, s) e = (refl, e)
    after_message-none go ms (err y, s) e = absurd (cc)

    some-ne-none :
        {A : Type 0} (y : Ended hdf (writer_modules fl hdf) env)
        → (let o : Option (Ended hdf (writer_modules fl hdf) env) = some y in o ≡ none)
        → A
    some-ne-none y e = absurd (cc)

    -- If the handling of messages has not returned after some messages, then the file took all of them
    -- without an error, and either it has received no run stop, or it has a module of events whose
    -- latest message is from before the stop of the run.
    pub write_until_finished-StillWaiting :
        (ms : Messages hdf (writer_modules fl hdf) env) (f : File.File hdf (writer_modules fl hdf))
        (h : hdf.State) (job : String)
        → File.job_id f ≡ job
        → write_until_finished hdf (writer_modules fl hdf) env ms (f, h) ≡ none
        → StillWaiting job ms (f, h)
    unfolding write_until_finished
    write_until_finished-StillWaiting [] f h job is run =
        elim (Bool-cases (File.finished hdf (writer_modules fl hdf) f)) [
          | inl e ↦ some-ne-none _ (rw e at run)
          | inr e ↦ ((f, h), took_all, finished-Behind f e)
        ]
    write_until_finished-StillWaiting (err x ∷ ms) f h job is run =
        elim (Bool-cases (File.finished hdf (writer_modules fl hdf) f)) [
          | inl e ↦ some-ne-none _ (rw e at run)
          | inr e ↦ write_until_finished-StillWaiting ms f h job is (rw e at run)
        ]
    write_until_finished-StillWaiting (ok msg ∷ ms) f h job is run =
        elim (Bool-cases (File.finished hdf (writer_modules fl hdf) f)) [
          | inl e ↦ some-ne-none _ (rw e at run)
          | inr e ↦
              let out = handle_one_message hdf (writer_modules fl hdf) env msg (f, h) in
              let (took, on) = after_message-none _ ms out (rw e at run) in
              let (t, rest, why) =
                write_until_finished-StillWaiting ms out.1.0 out.1.1 job
                  (handle_one_message-Job hdf (writer_modules fl hdf) env msg (f, h) job is) on in
              (t, message-FileTook fl hdf env msg _ (f, h) out.1 t job is took rest, why)
        ]

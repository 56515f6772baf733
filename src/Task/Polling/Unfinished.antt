-- ===== src/Task/Polling/Unfinished.antt =====
-- run_writer/single_file_write_task.rs: the loop of a run on any consumer, before the file is
-- finished.
use kafka_file_writer.Base.{
  ℕ, zero, suc, ◌≤◌, ◌≡◌, ◌≢◌, refl, ◌∙◌, sym, true, none, some, List, [], ◌∷◌, length, arith,
  Bool-cases, inl, inr,
}
use kafka_file_writer.Base.Exec.{Result, ok, err}
use kafka_file_writer.Base.Loop.{loop, loop-again}
use kafka_file_writer.Error.{FileWriterError}
use kafka_file_writer.Stream.{Stream}
use kafka_file_writer.Stream.Delivery.{Polled, then_poll, received}
use kafka_file_writer.Hdf.{Hdf5}
use kafka_file_writer.Writer.{WriterModule}
use kafka_file_writer.File
use kafka_file_writer.Task.{
  Environment, Writing, handle_one_message, round, on_poll, handled, handle_messages_until_run_stop,
}
use kafka_file_writer.Task.Messages.{Messages, after_message, write_until_finished}
use kafka_file_writer.Task.Polling.{Delivered, ended, finished-write, round-open}

module _ {E : Type 0} (hdf : Hdf5 E) (dyn : WriterModule hdf.State) (env : Environment hdf dyn)
    (consumer : Stream) where
  never :
      (xs : List Polled) (f : File.File hdf dyn) (h : hdf.State)
      → File.finished hdf dyn f ≡ true
      → write_until_finished hdf dyn env (received xs) (f, h) ≢ none
  never xs f h e w =
      let is : ended hdf dyn env consumer (ok tt, ((f, h), received xs)) ≡ none =
        sym (finished-write hdf dyn env (received xs) f h e) ∙ w in
      absurd (cc)

  unanswered :
      (fuel : ℕ) (st : Writing hdf dyn env) (s u : consumer.State) (ms : Messages hdf dyn env)
      (y : Result FileWriterError (Unit {0}) × Writing hdf dyn env)
      → round hdf dyn env consumer (st, s) ≡ handled hdf dyn env consumer y u
      → ((st₁ : Writing hdf dyn env)
          → write_until_finished hdf dyn env ms st₁ ≡ none
          → loop (round hdf dyn env consumer) fuel (st₁, u) ≡ none)
      → after_message hdf dyn env (λ st₁. write_until_finished hdf dyn env ms st₁) ms y ≡ none
      → loop (round hdf dyn env consumer) (suc fuel) (st, s) ≡ none
  unfolding handled
  unanswered fuel st s u ms (ok _, st₁) ran ih w =
      loop-again (round hdf dyn env consumer) fuel (st, s) (st₁, u) ran ∙ ih st₁ w
  unanswered fuel st s u ms (err e, st₁) ran ih w = absurd (cc)

  -- For any consumer and any of its next polls: if handling the messages among them one after
  -- another neither finishes the file nor fails, then the loop of the run has not returned after
  -- as many rounds as there are polls, nor before.
  pub handle_messages-unfinished :
      (xs : List Polled) (fuel : ℕ) (f : File.File hdf dyn) (h : hdf.State) (s t : consumer.State)
      → Delivered hdf dyn env consumer t xs s
      → fuel ≤ length xs
      → write_until_finished hdf dyn env (received xs) (f, h) ≡ none
      → handle_messages_until_run_stop hdf dyn env consumer fuel ((f, h), s) ≡ none
  unfolding handle_messages_until_run_stop loop on_poll write_until_finished
  handle_messages-unfinished xs zero f h s t polls le w = refl
  handle_messages-unfinished [] (suc fuel) f h s t polls le w = elim le [ ]
  handle_messages-unfinished (none ∷ xs) (suc fuel) f h s t (then_poll {u = u} polled polls) le w =
      elim (Bool-cases (File.finished hdf dyn f)) [
        | inl e ↦ absurd (never (none ∷ xs) f h e w)
        | inr e ↦
            loop-again (round hdf dyn env consumer) fuel ((f, h), s) ((f, h), u)
              (round-open hdf dyn env consumer f h s u (none) e polled)
            ∙ handle_messages-unfinished xs fuel f h u t polls (omega arith) w
      ]
  handle_messages-unfinished (some (err x) ∷ xs) (suc fuel) f h s t (then_poll {u = u} polled polls)
        le w =
      elim (Bool-cases (File.finished hdf dyn f)) [
        | inl e ↦ absurd (never (some (err x) ∷ xs) f h e w)
        | inr e ↦
            loop-again (round hdf dyn env consumer) fuel ((f, h), s) ((f, h), u)
              (round-open hdf dyn env consumer f h s u (some (err x)) e polled)
            ∙ handle_messages-unfinished xs fuel f h u t polls (omega arith) (rw e at w)
      ]
  handle_messages-unfinished (some (ok msg) ∷ xs) (suc fuel) f h s t
        (then_poll {u = u} polled polls) le w =
      elim (Bool-cases (File.finished hdf dyn f)) [
        | inl e ↦ absurd (never (some (ok msg) ∷ xs) f h e w)
        | inr e ↦
            unanswered fuel (f, h) s u (received xs) (handle_one_message hdf dyn env msg (f, h))
              (round-open hdf dyn env consumer f h s u (some (ok msg)) e polled)
              (λ (g, k) v. handle_messages-unfinished xs fuel g k u t polls (omega arith) v)
              (rw e at w)
      ]

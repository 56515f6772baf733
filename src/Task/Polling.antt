-- ===== src/Task/Polling.antt =====
-- run_writer/single_file_write_task.rs: the loop of a run on any consumer, whose polls may time out.
pub mod Unfinished
use kafka_file_writer.Base.{
  ℕ, zero, suc, ◌<◌, ◌≤◌, ◌≡◌, ◌≢◌, refl, ap, ◌∙◌, sym, true, false, Option, none, some, List, [],
  ◌∷◌, ◌++◌, length, arith, Bool-cases, inl, inr,
}
use kafka_file_writer.Base.Exec.{Result, ok, err}
use kafka_file_writer.Base.Loop.{loop, loop-again, loop-return}
use kafka_file_writer.Error.{FileWriterError}
use kafka_file_writer.Message.{Message}
use kafka_file_writer.Stream.{Stream}
use kafka_file_writer.Stream.Delivery.{Polled, Delivers, nothing, then_poll, received}
use kafka_file_writer.Hdf.{Hdf5}
use kafka_file_writer.Writer.{WriterModule}
use kafka_file_writer.File
use kafka_file_writer.Task.{
  Environment, Writing, State, handle_one_message, round, on_poll, handled,
  handle_messages_until_run_stop,
}
use kafka_file_writer.Task.Messages.{Messages, Ended, after_message, write_until_finished}

module _ {E : Type 0} (hdf : Hdf5 E) (dyn : WriterModule hdf.State)
    (env : Environment hdf dyn) where
  finished-write :
      (ms : Messages hdf dyn env) (f : File.File hdf dyn) (h : hdf.State)
      → File.finished hdf dyn f ≡ true
      → write_until_finished hdf dyn env ms (f, h) ≡ some (ok tt, ((f, h), ms))
  unfolding write_until_finished
  finished-write [] f h e = rw e refl
  finished-write (err x ∷ ms) f h e = rw e refl
  finished-write (ok msg ∷ ms) f h e = rw e refl

  module _ (consumer : Stream) where
    abbrev Loop : Type 0
    Loop = State hdf dyn env consumer

    abbrev pub Delivered : consumer.State → List Polled → consumer.State → Type 0
    Delivered t xs s = Delivers consumer env.config.data_consumer_poll_time_ms t xs s

    round-open :
        (f : File.File hdf dyn) (h : hdf.State) (s u : consumer.State) (x : Polled)
        → File.finished hdf dyn f ≡ false
        → consumer.poll env.config.data_consumer_poll_time_ms s ≡ (x, u)
        → round hdf dyn env consumer ((f, h), s) ≡ on_poll hdf dyn env consumer (f, h) (x, u)
    unfolding round
    round-open f h s u x e polled = rw e (ap (on_poll hdf dyn env consumer (f, h)) polled)

    round-finished :
        (f : File.File hdf dyn) (h : hdf.State) (s : consumer.State)
        → File.finished hdf dyn f ≡ true
        → round hdf dyn env consumer ((f, h), s) ≡ (some (ok tt), ((f, h), s))
    unfolding round
    round-finished f h s e = rw e refl

    -- The loop took the first of the polls, and returned with the rest of them to come.
    abbrev pub ReturnsAfter :
        List Polled
        → (fuel : ℕ) → Loop
        → Result FileWriterError (Unit {0})
        → Writing hdf dyn env
        → Messages hdf dyn env
        → Type 0
    ReturnsAfter xs fuel (st, s) r st' rest =
        (ys zs : List Polled) × (s' : consumer.State) × (xs ≡ ys ++ zs)
        × Delivered s' ys s
        × (rest ≡ received zs)
        × (handle_messages_until_run_stop hdf dyn env consumer fuel (st, s) ≡ some (r, (st', s')))

    abbrev ended : Ended hdf dyn env → Option (Ended hdf dyn env)
    ended = some

    at_once :
        (xs : List Polled) (fuel : ℕ) (f : File.File hdf dyn) (h : hdf.State) (s : consumer.State)
        (r : Result FileWriterError (Unit {0})) (st' : Writing hdf dyn env)
        (rest : Messages hdf dyn env)
        → File.finished hdf dyn f ≡ true
        → write_until_finished hdf dyn env (received xs) (f, h) ≡ some (r, (st', rest))
        → ReturnsAfter xs (suc fuel) ((f, h), s) r st' rest
    unfolding handle_messages_until_run_stop
    at_once xs fuel f h s r st' rest e w =
        let is : ended (ok tt, ((f, h), received xs)) ≡ ended (r, (st', rest)) =
          sym (finished-write (received xs) f h e) ∙ w in
        (
          [],
          xs,
          s,
          refl,
          nothing,
          cc,
          loop-return (round hdf dyn env consumer) fuel ((f, h), s) ((f, h), s) (ok tt)
                (round-finished f h s e)
              ∙ cc,
        )

    one_more :
        (x : Polled) (xs : List Polled) (fuel : ℕ) (st st₁ : Writing hdf dyn env)
        (s u : consumer.State) (r : Result FileWriterError (Unit {0})) (st' : Writing hdf dyn env)
        (rest : Messages hdf dyn env)
        → consumer.poll env.config.data_consumer_poll_time_ms s ≡ (x, u)
        → round hdf dyn env consumer (st, s) ≡ (none, (st₁, u))
        → ReturnsAfter xs fuel (st₁, u) r st' rest
        → ReturnsAfter (x ∷ xs) (suc fuel) (st, s) r st' rest
    unfolding handle_messages_until_run_stop
    one_more x xs fuel st st₁ s u r st' rest polled quiet (ys, zs, s', split, took, left, ran) = (
      x ∷ ys,
      zs,
      s',
      ap (λ l. x ∷ l) split,
      then_poll polled took,
      left,
      loop-again (round hdf dyn env consumer) fuel (st, s) (st₁, u) quiet ∙ ran,
    )

    answered :
        (msg : Message) (xs : List Polled) (fuel : ℕ) (st : Writing hdf dyn env)
        (s u : consumer.State) (r : Result FileWriterError (Unit {0})) (st' : Writing hdf dyn env)
        (rest : Messages hdf dyn env) (y : Result FileWriterError (Unit {0}) × Writing hdf dyn env)
        → consumer.poll env.config.data_consumer_poll_time_ms s ≡ (some (ok msg), u)
        → round hdf dyn env consumer (st, s) ≡ handled hdf dyn env consumer y u
        → ((st₁ : Writing hdf dyn env)
            → write_until_finished hdf dyn env (received xs) st₁ ≡ some (r, (st', rest))
            → ReturnsAfter xs fuel (st₁, u) r st' rest)
        → after_message hdf dyn env
            (λ st₁. write_until_finished hdf dyn env (received xs) st₁)
            (received xs)
            y
          ≡ some (r, (st', rest))
        → ReturnsAfter (some (ok msg) ∷ xs) (suc fuel) (st, s) r st' rest
    unfolding handled handle_messages_until_run_stop
    answered msg xs fuel st s u r st' rest (ok _, st₁) polled ran ih w =
        one_more (some (ok msg)) xs fuel st st₁ s u r st' rest polled ran (ih st₁ w)
    answered msg xs fuel st s u r st' rest (err e, st₁) polled ran ih w = (
      some (ok msg) ∷ [],
      xs,
      u,
      refl,
      then_poll polled nothing,
      cc,
      loop-return (round hdf dyn env consumer) fuel (st, s) (st₁, u) (err e) ran ∙ cc,
    )

    -- For any consumer and any of its next polls, which may time out or fail: if handling the
    -- messages among them one after another ends, with the file finished or with a message that
    -- fails, then the loop of the run returns, with the same result, file and calls of HDF5. It
    -- does so before the polls that would bring the messages that are left. One more round than
    -- there are polls is enough. Polls that time out and errors of the stream change nothing.
    pub handle_messages-ReturnsAfter :
        (xs : List Polled) (fuel : ℕ) (f : File.File hdf dyn) (h : hdf.State) (s t : consumer.State)
        (r : Result FileWriterError (Unit {0})) (st' : Writing hdf dyn env)
        (rest : Messages hdf dyn env)
        → Delivered t xs s
        → length xs < fuel
        → write_until_finished hdf dyn env (received xs) (f, h) ≡ some (r, (st', rest))
        → ReturnsAfter xs fuel ((f, h), s) r st' rest
    unfolding on_poll write_until_finished
    handle_messages-ReturnsAfter xs zero f h s t r st' rest polls lt w = elim lt [ ]
    handle_messages-ReturnsAfter [] (suc fuel) f h s t r st' rest polls lt w =
        elim (Bool-cases (File.finished hdf dyn f)) [
          | inl e ↦ at_once [] fuel f h s r st' rest e w
          | inr e ↦ absurd (cc)
        ]
    handle_messages-ReturnsAfter (none ∷ xs) (suc fuel) f h s t r st' rest
          (then_poll {u = u} polled polls) lt w =
        elim (Bool-cases (File.finished hdf dyn f)) [
          | inl e ↦ at_once (none ∷ xs) fuel f h s r st' rest e w
          | inr e ↦
              one_more (none) xs fuel (f, h) (f, h) s u r st' rest polled
                (round-open f h s u (none) e polled)
                (handle_messages-ReturnsAfter xs fuel f h u t r st' rest polls (omega arith) (w))
        ]
    handle_messages-ReturnsAfter (some (err x) ∷ xs) (suc fuel) f h s t r st' rest
          (then_poll {u = u} polled polls) lt w =
        elim (Bool-cases (File.finished hdf dyn f)) [
          | inl e ↦ at_once (some (err x) ∷ xs) fuel f h s r st' rest e w
          | inr e ↦
              one_more (some (err x)) xs fuel (f, h) (f, h) s u r st' rest polled
                (round-open f h s u (some (err x)) e polled)
                (handle_messages-ReturnsAfter xs fuel f h u t r st' rest polls (omega arith)
                  (rw e at w))
        ]
    handle_messages-ReturnsAfter (some (ok msg) ∷ xs) (suc fuel) f h s t r st' rest
          (then_poll {u = u} polled polls) lt w =
        elim (Bool-cases (File.finished hdf dyn f)) [
          | inl e ↦ at_once (some (ok msg) ∷ xs) fuel f h s r st' rest e w
          | inr e ↦
              answered msg xs fuel (f, h) s u r st' rest (handle_one_message hdf dyn env msg (f, h))
                polled (round-open f h s u (some (ok msg)) e polled)
                (λ (g, k) v.
                  handle_messages-ReturnsAfter xs fuel g k u t r st' rest polls (omega arith) v)
                (rw e at w)
        ]

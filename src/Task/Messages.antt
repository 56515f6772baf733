-- ===== src/Task/Messages.antt =====
-- run_writer/single_file_write_task.rs: the loop of a run, for the messages of a fake stream.
use kafka_file_writer.Base.{
  ℕ, zero, suc, ◌<◌, ◌≡◌, refl, Bool, true, false, Option, none, some, List, [], ◌∷◌, length, arith,
  if◌then◌else◌,
}
use kafka_file_writer.Base.Equality.{string_eq}
use kafka_file_writer.Base.Exec.{Result, ok, err}
use kafka_file_writer.Base.Loop.{loop, after_step}
use kafka_file_writer.Error.{FileWriterError, StreamError}
use kafka_file_writer.Message.{Message}
use kafka_file_writer.Stream.Fake
use kafka_file_writer.Stream.Fake.{FakeStream, fake_stream}
use kafka_file_writer.Hdf.{Hdf5}
use kafka_file_writer.Writer.{WriterModule}
use kafka_file_writer.File
use kafka_file_writer.Task.{
  Environment, Writing, State, handle_one_message, round, on_poll, handled,
  handle_messages_until_run_stop,
}

module _ {E : Type 0} (hdf : Hdf5 E) (dyn : WriterModule hdf.State)
    (env : Environment hdf dyn) where
  abbrev pub Messages : Type 0
  Messages = List (Result StreamError Message)

  -- How the handling of messages ended: the result, the file, and the messages that are left.
  abbrev pub Ended : Type 0
  Ended = Result FileWriterError (Unit {0}) × (Writing hdf dyn env × Messages)

  abbrev pub after_message :
      (Writing hdf dyn env → Option Ended)
      → Messages
      → Result FileWriterError (Unit {0}) × Writing hdf dyn env
      → Option Ended
  after_message go rest (ok _, st) = go st
  after_message go rest (err e, st) = some (err e, (st, rest))

  -- The messages, one after another, until the file is finished or a message fails; `none` if they
  -- run out before that.
  unfoldable pub write_until_finished : Messages → Writing hdf dyn env → Option Ended
  write_until_finished [] (f, h) =
      if File.finished hdf dyn f then some (ok tt, ((f, h), [])) else none
  write_until_finished (err e ∷ ms) (f, h) =
      let rest = write_until_finished ms (f, h) in
      if File.finished hdf dyn f then some (ok tt, ((f, h), err e ∷ ms)) else rest
  write_until_finished (ok msg ∷ ms) (f, h) =
      let rest =
        after_message (λ st. write_until_finished ms st) ms
          (handle_one_message hdf dyn env msg (f, h)) in
      if File.finished hdf dyn f then some (ok tt, ((f, h), ok msg ∷ ms)) else rest

  abbrev pub on_stream :
      FakeStream
      → Option Ended
      → Option (Result FileWriterError (Unit {0}) × State hdf dyn env fake_stream)
  on_stream s none = none
  on_stream s (some (r, (st, ms))) = some (r, (st, record s { messages = ms }))

  abbrev Outcome : Type 0
  Outcome = Option (Result FileWriterError (Unit {0}) × State hdf dyn env fake_stream)

  abbrev go : ℕ → State hdf dyn env fake_stream → Outcome
  go fuel = loop (round hdf dyn env fake_stream) fuel

  choose-eq :
      (b : Bool) (st : Writing hdf dyn env) (ms : Messages) (s : FakeStream) (y : Option Ended)
      (k : State hdf dyn env fake_stream → Outcome)
      (w : Option (Result FileWriterError (Unit {0})) × State hdf dyn env fake_stream)
      → (b ≡ false → after_step k w ≡ on_stream s y)
      → after_step k (if b then (some (ok tt), (st, record s { messages = ms })) else w)
        ≡ on_stream s (if b then some (ok tt, (st, ms)) else y)
  choose-eq true st ms s y k w h = refl
  choose-eq false st ms s y k w h = h refl

  handled-eq :
      (fuel : ℕ) (ms : Messages) (s : FakeStream)
      (x : Result FileWriterError (Unit {0}) × Writing hdf dyn env)
      → ((st : Writing hdf dyn env)
          → go fuel (st, record s { messages = ms }) ≡ on_stream s (write_until_finished ms st))
      → after_step (go fuel) (handled hdf dyn env fake_stream x (record s { messages = ms }))
        ≡ on_stream s (after_message (λ st. write_until_finished ms st) ms x)
  unfolding handled
  handled-eq fuel ms s (ok _, st) ih = ih st
  handled-eq fuel ms s (err e, st) ih = refl

  -- Without messages the loop ends at once or not at all.
  idle :
      (fuel : ℕ) (f : File.File hdf dyn) (h : hdf.State) (s : FakeStream)
      → File.finished hdf dyn f ≡ false
      → go fuel ((f, h), record s { messages = [] }) ≡ none
  unfolding loop round on_poll Fake.poll
  idle zero f h s unfinished = refl
  idle (suc fuel) f h s unfinished = rw (unfinished, loop) (idle fuel f h s unfinished)

  loop-eq :
      (ms : Messages) (fuel : ℕ) (f : File.File hdf dyn) (h : hdf.State) (s : FakeStream)
      → length ms < fuel
      → go fuel ((f, h), record s { messages = ms }) ≡ on_stream s (write_until_finished ms (f, h))
  unfolding loop round on_poll Fake.poll write_until_finished
  loop-eq ms zero f h s lt = elim lt [ ]
  loop-eq [] (suc fuel) f h s lt =
      choose-eq (File.finished hdf dyn f) (f, h) [] s none (go fuel) _
        (λ unfinished. idle fuel f h s unfinished)
  loop-eq (err e ∷ ms) (suc fuel) f h s lt =
      choose-eq (File.finished hdf dyn f) (f, h) (err e ∷ ms) s _ (go fuel) _
        (λ _. loop-eq ms fuel f h s (omega arith))
  loop-eq (ok msg ∷ ms) (suc fuel) f h s lt =
      choose-eq (File.finished hdf dyn f) (f, h) (ok msg ∷ ms) s _ (go fuel) _
        (λ _.
          handled-eq fuel ms s (handle_one_message hdf dyn env msg (f, h))
            (λ (g, k). loop-eq ms fuel g k s (omega arith)))

  -- With more fuel than there are messages, the loop of a run does to the file what handling the
  -- messages one after another does. It returns as soon as the file is finished or a message fails,
  -- and leaves the messages behind that one in the stream; errors of the stream change nothing. If
  -- neither happens, then it has not returned.
  pub handle_messages-eq :
      (fuel : ℕ) (st : Writing hdf dyn env) (s : FakeStream)
      → length s.messages < fuel
      → handle_messages_until_run_stop hdf dyn env fake_stream fuel (st, s)
        ≡ on_stream s (write_until_finished s.messages st)
  unfolding handle_messages_until_run_stop
  handle_messages-eq fuel (f, h) s lt = loop-eq s.messages fuel f h s lt

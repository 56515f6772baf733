-- ===== src/Task/Topics.antt =====
-- run_writer/single_file_write_task.rs: the topics that a run reads.
use kafka_file_writer.Base.{
  String, ◌≡◌, refl, ◌∙◌, true, not, ◌&&◌, ◌||◌, List, [], ◌∷◌, ◌++◌, arith,
}
use kafka_file_writer.Base.Equality.{◌==◌, string_eq}
use kafka_file_writer.Base.Map.{contains, distinct}
use kafka_file_writer.Run.{RunStartParameters, control_topic}
use kafka_file_writer.Hdf.{Hdf5}
use kafka_file_writer.Writer.{WriterModule}
use kafka_file_writer.File
use kafka_file_writer.Task.{Environment, unique, unique_after, assignment_topics}

contains-unique_after :
    (x : String) (seen xs : List String)
    → contains x (unique_after seen xs) ≡ (contains x xs && not (contains x seen))
unfolding unique_after contains
contains-unique_after x seen [] = refl
contains-unique_after x seen (y ∷ ys) = ground (
  arith,
  string_eq.equal_iff y x,
  contains-unique_after x seen ys,
  contains-unique_after x (y ∷ seen) ys,
)

distinct-unique_after : (seen xs : List String) → distinct (unique_after seen xs) ≡ true
unfolding unique_after distinct contains
distinct-unique_after seen [] = refl
distinct-unique_after seen (y ∷ ys) = ground (
  arith,
  string_eq.equal_iff y y,
  contains-unique_after y (y ∷ seen) ys,
  distinct-unique_after seen ys,
  distinct-unique_after (y ∷ seen) ys,
)

contains-append :
    (x : String) (xs ys : List String) → contains x (xs ++ ys) ≡ (contains x xs || contains x ys)
unfolding contains
contains-append x [] ys = refl
contains-append x (y ∷ xs) ys = ground (arith, contains-append x xs ys)

module _ {E : Type 0} (hdf : Hdf5 E) (dyn : WriterModule hdf.State)
    (env : Environment hdf dyn) where
  -- A run reads the topics of its file's writers and the control topic, no others, and each once.
  pub assignment_topics_lem :
      (f : File.File hdf dyn) (params : RunStartParameters)
      → ((topic : String)
          → contains topic (assignment_topics hdf dyn env f params)
            ≡ (contains topic (File.topics f) || control_topic params env.config == topic))
        × (distinct (assignment_topics hdf dyn env f params) ≡ true)
  unfolding assignment_topics unique contains
  assignment_topics_lem f params = (
    λ topic.
        contains-unique_after topic [] (File.topics f ++ (control_topic params env.config ∷ []))
        ∙ ground
            (arith, contains-append topic (File.topics f) (control_topic params env.config ∷ [])),
    distinct-unique_after [] (File.topics f ++ (control_topic params env.config ∷ [])),
  )

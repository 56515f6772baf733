-- ===== src/Lib.antt =====
-- A model of kafka_file_writer, the program of the ISIS facility that writes NeXus (HDF5) files from
-- Kafka, with the theorems that make it correct.
--
-- The program waits on a job pool topic for a run start message, builds an HDF5 file from the
-- structure that the message holds, reads the topics that the file's writer modules ask for, hands
-- each message to the writers that subscribed to it, and ends the file when a run stop has come and
-- every writer has all that belongs to the run. Then it starts again.
--
-- The files, and what of the repository they model (paths in src/):
--   Subscription, Router      subscription.rs, run_writer/message_router.rs: who receives a message.
--   Message                   stream/traits.rs (KafkaMessageMeta), and a Kafka message and the
--                             flatbuffers messages by the accessors that the program calls.
--   Structure, Json           run_writer/nexus_structure.rs: the tree that a run start asks for.
--   Run, Config               run_writer/run_start_parameters.rs, config.rs.
--   Error                     error.rs, stream/error.rs, hdf/error.rs and the errors of
--                             writer_module.rs and nexus_structure.rs, whose causes are texts.
--   Hdf                       hdf/: attributes, opening and closing a file, errors with a place.
--   Stream                    stream/: the interface of consumers (the record Stream), the scopes in
--                             which a consumer is assigned, the fake consumer (Stream.Fake and
--                             Stream.Fake.Runinfo) and that on rdkafka (Stream.Kafka).
--   Writer                    writer_module.rs (the record WriterModule stands for `Box<dyn
--                             WriterModule>`), writer_module_factories.rs (Writer.Factories) and
--                             writer_modules/ (Ixseblock, Nxeventdata, Registry).
--   Placed, File              run_writer/placed_writer.rs and run_writer/in_progress_file.rs.
--   JobPool, Task             run_writer/job_pool.rs and run_writer/single_file_write_task.rs.
--   FileWriter                file_writer.rs: the outer loop.
--   Bin                       bin/: the two executables (Bin.KafkaFileWriter, Bin.StructureVerify).
--   Base                      shared types, results, maps and loops.
--   Tests                     examples, with an HDF5 library in memory and a client library without
--                             a broker. Tests.Unit holds the repository's own unit tests (the
--                             `tests` modules of the files above), as tests of the model.
-- A module's child modules hold its proofs, unless the list above names them.
--
-- State and errors: a function that may fail and that changes something is a function from a state
-- to a result and a state (Base.Exec), so that what happened before an error stays. `?` is the
-- step of a do block. A HashMap is a list of pairs; the program's iteration order is open, the
-- model's is the order of first insertion.
--
-- Loops: the two polling loops and the outer loop need not end. They run on fuel, which counts their
-- rounds, and `none` means that the loop has not returned within it (Base.Loop). A round is one
-- poll, which brings at most one message, so one round more than there are polls up to the message
-- that ends the loop is enough. Polls of a Kafka consumer may time out, and use a round then; those of
-- the fake consumer do not while it has messages.
--
-- Parameters, since their code is not in the repository: the HDF5 library (Hdf.Hdf5, with the laws
-- of its data sets and of building a file in Hdf.Laws), rdkafka (Stream.Kafka.Rdkafka, with the laws
-- of its settings in Stream.Kafka.Settings), the deserializers that serde derives, the deserializer and the encoder of flatbuffers messages, floating-point numbers
-- (Writer.Nxeventdata.Floats), the file system, UUIDs and the clock.
--
-- Not modelled: logging and the wait after an error, which change no state; the printing of errors
-- and their reports; the parsing of command lines, which is clap's; and the unit tests of what is a
-- parameter here, which are those of serde's parsers and those that read an HDF5 file back.
pub mod Base
pub mod Error
pub mod Subscription
pub mod Message
pub mod Router
pub mod Json
pub mod Structure
pub mod Config
pub mod Run
pub mod Hdf
pub mod Stream
pub mod Writer
pub mod Placed
pub mod File
pub mod JobPool
pub mod Task
pub mod FileWriter
pub mod Bin
pub mod Tests

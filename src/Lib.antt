-- ===== src/Lib.antt =====
-- Verification of migration-verifier.
--
-- The program compares a source cluster with a destination cluster. Workers take verification
-- tasks from a metadata database; a document task reads the documents of a partition, or of a list
-- of IDs, from both clusters, and the comparator pairs and compares them. A document that differs or
-- is missing is put into the recheck queue of the next generation, and so is each document that a
-- change event names; at the start of a generation the queue becomes document tasks. Calls of the
-- database are wrapped in a retry loop.
--
-- The parts, and the code they model (paths from the repository's root):
--   Base        lists, maps, integers and results that every part shares.
--   Bson        internal/verifier/bson_compare.go. Bson/Types holds documents as trees of fields;
--               bytes that do not parse are the constructor `bad`. Bson/Unordered is the comparison,
--               Bson/Same the sameness of documents that it is held against.
--   Compare     internal/verifier/comparator.go, compare.go, compare_key.go, compare_lookup.go,
--               compare/ and dockey/raw.go. Compare/Methods is compareOneDocument and the comparison
--               methods, Compare/Caches and Compare/Flush are the comparator's state and its
--               operations (processSingleDoc, recordSrcMetrics, sweepMissingDocs, flush,
--               flushIfNeeded), Compare/Run is readBatches and run. A channel is the list of messages
--               that its reader will still send. Compare/Pairing has the reference without caches.
--   NsMap       internal/verifier/nsmap.go.
--   Tasks       internal/verifier/verification_task.go (Tasks/Store, Tasks/Creation), reset.go
--               (Tasks/Reset), tasks/ (Tasks/Types), the status counts of migration_verifier.go, and the
--               workers of check.go as steps that interleave (Tasks/Workers).
--               The task collection is a list; an update or a delete goes through it.
--   Recheck     internal/verifier/recheck.go. Recheck/Queue is insertRecheckDocs, Recheck/Generate
--               and Recheck/Read are GenerateRecheckTasks, with its local variables as a record.
--               Recheck/Split is SplitArrayByBSONMaxSize of internal/util/bson.go.
--   Events      internal/verifier/recheck_persist.go (Events/Persist), event_recorder.go, the counts of
--               change_reader.go and the event of parsed_event.go (Events/Recorder). Events/Named has
--               the documents that a batch names, as a relation.
--   Collection  the comparison of two collections' specifications (Collection/Specs), indexes
--               (Collection/Indexes) and shard keys (Collection/Sharding): internal/verifier/
--               migration_verifier.go and sharding.go, with the normalization of documentdb.go. A Go map
--               of indexes is a list without equal names.
--   Process     what a worker does with a task: ProcessVerifyTask of migration_verifier.go and
--               mismatches.go (Process/Documents, Process/Mismatches), its repetition by processAnyTask of
--               check.go (Process/Attempts), ProcessCollectionVerificationTask
--               (Process/Collections) and partitionCollection (Process/Partitioning). A step takes the
--               metadata and returns them with its result, since what was written before an error stays.
--   Driver      CheckDriver of check.go and the persisted generation of generation.go: Driver/Setup has the
--               steps before the generations, Driver/Generations the loop, with the verifier's lock as a
--               field. What each generation meets is a list of rounds.
--   Retry       internal/retry. Retry/Builders is the Retryer, Retry/Loop is runRetryLoop. What the
--               callbacks, the clock and the context do in each attempt is the loop's environment.
--   History     history/history.go, whose clock is an argument.
--   Keystring   internal/keystring/keystring_decoder.go: a buffer is the bytes that are left of it
--               (Keystring/Buffer); Keystring/Numbers and Keystring/Decoder are readValue and
--               keystringToBsonPartial, Keystring/Encoder the encoder that they are held against. Doubles are
--               bit patterns.
--   Mring       mring/mring.go: the ring's slots, from the one that the pointer is at.
--   Tests       runs on concrete inputs.
--
-- Errors are values of Outcome, and a panic is an error too; the documents of the comparator are
-- those whose ID and size can be read (Compare.Methods.ReadableDoc), since it panics on any other.
-- Counters of 64 bits wrap where the code's do. The order in which a Go map is read is that of a list
-- here, and no statement depends on it. The driver, the server, BSON's encoding and the clock are
-- arguments of the definitions that use them.
--
-- Fuel: the comparison loop (Compare.Run.run) has a round for each message and each close of the two
-- channels and one more, since each round takes a message or a close from each channel that is open.
-- The retry loop takes its fuel as an argument; a limit of m attempts needs m rounds. The count of
-- decimal digits (Recheck/Generate) has 19 steps, enough for 64 bits. The decoder of index keys has
-- one step for each byte and one more, since each round of its loops reads a byte.
--
-- Not modelled: the readers that fill the comparator's channels, change streams and the oplog (a
-- batch of events is an argument of PersistChangeEvents), what CheckWorker does around the
-- workers' steps (what a generation leaves is an argument), WritesOff, the ways in which the
-- partitioners find their bounds (what they find is an argument), summaries, the web
-- server, set-up, logging and vendored code.
pub mod Base
pub mod Bson
pub mod Collection
pub mod Compare
pub mod Driver
pub mod Events
pub mod History
pub mod Keystring
pub mod Mring
pub mod NsMap
pub mod Process
pub mod Recheck
pub mod Retry
pub mod Tasks
mod Tests

-- ===== src/Lib.antt =====
-- A verification library for simplicio-fast: models of the Python package under src/simplicio_fast/,
-- and the theorems that make its parts correct.
--
-- Simplicio Fast is the semantic project memory of AI coding tools. It keeps immutable generations of
-- derived facts beside the source files, hands out bounded context, and records what it did in
-- hash-chained receipts. The parts modelled here share no state; each is a class of its own that callers
-- drive by method calls under the class's lock.
--
-- Prelude: Python's tests, sequences, dicts, exceptions, integers and the JSON that is hashed
-- (Prelude.Dict, Prelude.Json, Prelude.Json.Encode, Prelude.Digests). SHA-256 is the parameter `sha256`,
-- from bytes to the text of the hexadecimal digest: the theorems hold for every such function.
-- Prelude.TestHash is the cheap function that the tests run.
--
-- Ledger: src/simplicio_fast/ledger.py, `DeliveryLedger`. A method takes the ledger and returns its
-- result, or the exception, beside the new ledger. `Call`, `step` and `run` are a history of calls.
-- Floats in the metadata are not modelled, nor is `project_json`, which only copies.
--
-- Pager: src/simplicio_fast/pager.py, `SemanticPager`. `get` holds the lock twice, around the load; its
-- parts are `enter` and `finish`, `lease` adds `pin`, and `run` is any interleaving of what the threads do
-- at the lock. The loader is a value of `Loaded`. The eviction loop has one more unit of fuel than there
-- are pages, and `evict_terminates` shows that it never runs out. `SingleFlightCoordinator` is not
-- modelled.
--
-- Temporal: src/simplicio_fast/temporal.py, `BitemporalOverlay`: versions of facts in world time.
-- `Versions` is the list under an identity, which is never empty. `append`, `tombstone`,
-- `invalidate_dependencies` and `rename` take the overlay and give it back; `Temporal.Query` has `as_of` and
-- `verify`, `Temporal.Calls` the sequences of calls. World times are natural numbers: the program refuses a
-- negative one like every other below its clock. Saving, loading and `receipt` are not modelled.
--
-- Ipc: src/simplicio_fast/ipc.py. `encode_frame` is `IpcFrame.encode`, `Ipc.Stream` is `IpcFrameDecoder`, whose
-- state is its buffer. `json.loads` is the parameter `loads`. The decoder's loop has one more unit of fuel
-- than the buffer has bytes, of which each turn takes sixteen or more; `drain_fuel` shows that more fuel
-- changes nothing.
--
-- Generations: src/simplicio_fast/generation_store.py, `GenerationStore`. The clock is the argument `now`.
-- `Generations.Fences` has the sequences of calls.
--
-- Receipts: src/simplicio_fast/generation_receipts.py. A receipt is the JSON object that its users pass on, and
-- `ReceiptJournal` is the dict of the receipts on record.
--
-- Rollout: src/simplicio_fast/rollout.py, `RolloutController`. The state file is a value of `File`: missing,
-- unreadable, or a JSON document; its atomic replacement is one step.
--
-- Cache: src/simplicio_fast/content_cache.py, `ContentCache`. `Turn` is what the event loop runs between two
-- awaits, and `run` any interleaving of turns.
--
-- Streaming: src/simplicio_fast/streaming.py, `StreamingBlockStore`. `Work` is the directory of a generation and
-- `Store` the root; a JSON file is missing, malformed, or a document. `start`, `consume` and `publish` are what
-- `build` does before, in and after its loop over the blocks. `_blocks` yields a block in each turn of `split`,
-- whose fuel is the count of the pending bytes; a block has at least one. `int` of a text is the parameter
-- `parse_int`. Not modelled: the retries of a locked replacement.
--
-- QueryPlanner: src/simplicio_fast/query_planner.py, `plan_query` and `QueryPlanCache`. `Snapshot` is what the
-- planner reads of one. `Transparency.run` is a sequence of calls on one cache, or on none.
--
-- Journal: src/simplicio_fast/journal.py, `ChangeJournal`. The state is the file: `none` where there is none, and
-- otherwise its bytes. `split_lines` is `bytes.splitlines`. `record_all` is what the journal is for: a list of
-- events, each of which is numbered and holds the hash of the one before. Not modelled: `changed_paths_since`.
--
-- Validation: src/simplicio_fast/validation_cache.py, `ValidationCache`. A method gives the cache back beside its
-- result. `Leases.run` is any sequence of calls that may change it. `Files.load` reads the bytes
-- that `Files.save` wrote through the parameter `loads`. Not modelled: the retries of a locked replacement.
--
-- Not modelled: the command line, the file system and process adapters, benchmarks and the Rust core.
pub mod Prelude
pub mod Ledger
pub mod Pager
pub mod Temporal
pub mod Ipc
pub mod Generations
pub mod Receipts
pub mod Rollout
pub mod Streaming
pub mod QueryPlanner
pub mod Journal
pub mod Validation
pub mod Cache

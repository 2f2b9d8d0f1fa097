-- ===== src/Lib.antt =====
-- newtondb: an embedded, in-memory document database with secondary indexes, snapshot
-- transactions and optimistic commits (src/*.ts). This library models the engine in functions
-- that compute, with theorems on the consistency of its collections and the atomicity of its
-- commits.
--
-- The parts, from the bottom up, with the files that model them:
--
-- * Number, Text, Runtime, Input, NativeMap: what the program takes from JavaScript. A number
--   is a double as an integer count of 2^-1074, or -0, NaN or an infinity; a string is a list
--   of UTF-16 units; a value from a caller is a tree of own properties. A Map is a list of
--   entries in insertion order. `String(number)` is the one parameter, in the record Runtime,
--   with the law that two finite numbers have one text exactly when they are ===.
-- * OverlayMap (src/overlay-map.ts): the copy-on-write map; the methods keep their names, and a
--   write to a sealed map is an error value.
-- * Json, Json/Clone (src/json.ts): JSON values and cloneAndFreezeJsonObject, as `visit` over
--   the caller's tree with a tally of nodes and bytes. Json/Embed has a JSON value as a
--   caller's value, and a caller's value as it is read.
-- * Key (src/key.ts), Path and Path/Pointer (src/path.ts; Path/Escape, Path/Tokens and
--   Path/RoundTrip are about the pointers, Number/Natural about their numbers), Schema
--   (src/schema.ts), Errors (src/errors.ts), Events (src/events.ts).
-- * Query, Query/Parse, Query/Compile (src/query.ts): the condition language, parseWhere with
--   its limits, and the compiled test. The fuel of `visit` is the depth limit and one more, and
--   a deeper node is a depth error before the fuel is out.
-- * Index (src/database.ts: createIndexes, addToIndexes, removeFromIndexes, cloneIndexes,
--   sealIndexes, indexValue): the secondary indexes, name by name, as maps from an encoded
--   value to the set of keys filed under it.
-- * Collection, Collection/Create, Collection/Verify (src/database.ts: StoredCollection,
--   WorkingCollection, createStoredCollection, assertCollectionInvariant and the writes inside
--   _insert, _update and _delete): `put_document` is the part of _insert and _update from the
--   removal of the old index entries to the last write, `remove_document` that of _delete.
-- * Validation (src/database.ts: validateDocument, materializePrimaryKey, mergeDocument) and
--   Transaction (class Transaction): Validation/Inserted is about the document that is
--   inserted; `insert`, `update`, `delete` and `read` are _insert, _update, _delete and _read,
--   and Transaction/Find has _query; Transaction/Notes is about the revisions that are noted.
-- * Database, Database/Commit (src/database.ts: class Database): `commit_working` is _commit
--   and `commit` is Transaction.commit; `enqueue` and one turn of the loop in its microtask,
--   `dispatch`, are #enqueue. Database/Order and Database/Execute: compareJson, choosePlan and
--   _query; below Execute, Match and Select are about the candidates of the plans, Collect
--   about the loop without an order, and Answers about both.
-- * Database/Facade (src/database.ts: class Collection and class Query; src/query.ts:
--   assertNonNegativeInteger), Database/Queue about the event queue.
-- * Storage, Storage/Envelope (src/storage.ts): createCatalog, catalogsEqual,
--   isSnapshotEnvelope and cloneSnapshotCollections; Storage/Reopen is about a snapshot that
--   becomes a collection again. String.prototype.localeCompare and JSON.stringify are
--   arguments.
-- * Persistence (src/database.ts: #persist, flush, close), Persistence/Open (the constructor,
--   memory and open) and Persistence/Transact (transaction and the methods of Collection that
--   call it). A promise is a ticket. The chain of tasks is a list, whose first task takes three
--   turns: `start_task` hands its snapshot to the adapter, `finish_task` reads the answer,
--   `release_task` is the callback of finally. Branches has their equations, Queue, Reach and
--   Steps are about the queue in every order of steps, Durable and Drain about what an awaited
--   promise stands for, Opened about open, Covered, Atomic and Operations about transaction.
-- * Scanner (src/node/json-duplicates.ts): assertNoDuplicateJsonKeys on the text from the index
--   on, with JSON.parse of a string literal as an argument. Each call of `parse` takes one of
--   twice the length of the text and two: every entry of an object or array takes a character,
--   and a value one more call. Lengths and Total are about its fuel, Grammar, Inversion, Value
--   and Sound about how it reads what it accepts, Tokens has the tokens of RFC 8259, and
--   Strings, Words and Written are about the texts that the grammar writes.
--
-- How the parts interact: a Transaction reads the database's collections, notes the revision of
-- each that it touches, and makes a working copy (overlays on the stored maps) of each that it
-- writes. Every operation runs in Exec, which hands the state back beside an error, so that
-- what was written before a throw stays written. A commit compares the noted revisions with the
-- current ones, seals the working copies and makes them the stored ones.
--
-- The invariant is in Collection/Valid: records, order, positions and indexes tell the same
-- story; Index/Agrees has its part for one index. The modules below Index, Collection,
-- Transaction and Database are about the operations in that order: Index/Maintain and
-- Index/Total about additions and removals, Collection/Reindex, Collection/Steps and
-- Collection/Write about the writes, Collection/Copies about working copies and publications,
-- Index/Created and Collection/Seeded about a collection that is created from a seed,
-- Transaction/Sound and Transaction/Operations about a transaction, Database/Install and
-- Database/Isolation about a commit.
--
-- What the model leaves out: messages, locations and causes of errors, and the receipt that a
-- PersistenceError carries; freezing and aliasing, since all data are values and a working copy
-- never shares a bucket that is written (the copyOnWrite flag is kept); the failpoints, which
-- do nothing outside tests; the clock, a generated key and a transaction's id, which are
-- arguments; caller callbacks but for the schema's validator, which is a predicate, and
-- listeners, which are numbers. An index removal that throws half-way hands back the indexes as
-- they were. Object keys are kept in the order of definition. An array of a caller is its
-- elements, which may be holes or have getters, and whether it has other properties; a getter
-- returns a value and has no other effect, and the prototype of an array, which the code does
-- not look at, supplies no element. Revisions and generations, those of an acknowledgement too,
-- are natural numbers without a bound, which doubles are below 2^53: a database after 2^53
-- commits and an adapter that answers with another number are outside of the model. A
-- collection holds fewer than 2^53 positions. The file adapter (src/node/json-file-adapter.ts),
-- the constant JSON schema of queries and the build scripts are not modelled: they are file-
-- system calls, data and tooling.
--
-- Samples holds concrete data and the modules below Examples apply the theorems to them.
pub mod Prelude
pub mod Number
pub mod Text
pub mod Runtime
pub mod Errors
pub mod NativeMap
pub mod OverlayMap
pub mod Json
pub mod Key
pub mod Path
pub mod Input
pub mod Query
pub mod Schema
pub mod Index
pub mod Exec
pub mod Collection
pub mod Validation
pub mod Events
pub mod Transaction
pub mod Database
pub mod Storage
pub mod Persistence
pub mod Scanner
pub mod Samples
pub mod Examples

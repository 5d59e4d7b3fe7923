-- ===== src/Lib.antt =====
-- dalgo2ingitdb: a dalgo database adapter that keeps records in the files of an inGitDB project.
--
-- A record key is resolved to a record file below the directory of its collection, the file is read
-- or written under a lock, and a read-write transaction takes a snapshot of each file before its first
-- change, so that a failed worker or a failed git commit can be rolled back.
--
-- The parts, and the files that model them:
--   Keys          record_io.go: record keys as file names, and their validation.
--   Paths         path/filepath on Unix as the adapter uses it, and requireContainedPath.
--   Schema        the definitions of ingitdb-go, with its functions as the record `Ingitdb`.
--   Records       record_io.go, scoped_collection.go, resolveCollection of tx_readonly.go.
--   Disk          package os as the record `Os`, with the laws that the proofs rely on (Disk/Laws),
--                 and functions that change a state and may fail (Disk/Action).
--   Deps          everything from outside the repository that the program calls, in one record.
--   RecordIo      record_io.go and filelock.go: one record file, under its lock.
--   Columns       computed_columns.go and the column lists of foreign_keys.go.
--   Formula       formula.go: computed columns, evaluated from the stored fields.
--   Readers       query.go: whole collections as they are stored, and with their computed columns.
--   ForeignKeys   foreign_keys.go and write_validation.go.
--   Updates       applyUpdates of tx_readwrite.go and what it calls.
--   Reading       Get and Exists of tx_readonly.go.
--   Query         query.go: the conditions of a query and the rows that they select; groups, aggregates
--                 and HAVING (Grouping), the order and the page (Execution), the whole query (Reader).
--   Rooted        rooted_files.go: reading within a limit (Content, Limits, Delivery), JSONL streams and
--                 their recovery (Lines, Committed, Log, File, Durability, Recovery, Replay), paths and
--                 scopes (Scope), the operations on files (Files), and Close (Lifecycle).
--   Batch         batch_parsers.go: the records of a batch stream.
--   Registry      registry.go: the root collections, and CollectionForKey of collection.go.
--   Ddl           schema_modifier.go and schema_reader.go: names (Names), a portable schema as a
--                 definition (Build) and back (Describe), the lists of collections (Listing), the
--                 alterations (Alter), and the calls on the definition files (Create).
--   Access        access_manifest.go and access_generation.go: the names (Names), the verification
--                 of a generation (Generation), the manifest that selects it (Manifest), and the
--                 building of a generation (Build).
--   Protected     protected.go: the checks of the definition (Definition), revisions (Revision), the
--                 evidence (Prepare), and the execution (Execution).
--   TypeMapping   type_mapping.go: column types and the portable types of dbschema.
--   Git           gitCommitPaths of git_commit.go, with the program git as a parameter.
--   Transaction   tx_readwrite.go, restoreSnapshots of git_commit.go, and runReadwriteTransaction of
--                 database.go. A worker is a tree of record operations that branches on their
--                 results, so that it stands for any worker that uses the transaction alone and
--                 runs no query in it.
--   Tests         a file system in memory, and the results at concrete inputs.
--
-- A path or key is a string of characters, file contents are bytes, a Go map is an association list
-- whose order stands for an order in which range may visit it, and an error is a short name of its
-- message with what it wraps. Floats are bit patterns with their arithmetic as a parameter. Loops
-- are over lists or strings, but for the reading loop of Rooted/Content: its fuel is one turn more than
-- the limit has bytes, and each turn but the last reads at least one.
--
-- Not modelled: the adapters to dalgo's recordset and access packages, the constructors of the
-- databases and of rooted scopes, the platform's locks and seams, and the publication and recovery
-- of owner policies. Policies are read on a system whose paths have slashes, from files that do
-- not change meanwhile. The transaction lock, contexts that are cancelled, and writers that ignore
-- the locks are left out.
pub mod Base
pub mod Keys
pub mod Paths
pub mod Schema
pub mod Records
pub mod Disk
pub mod Deps
pub mod Readers
pub mod ForeignKeys
pub mod Updates
pub mod Reading
pub mod Git
pub mod Transaction
pub mod TypeMapping
pub mod Query
mod Tests
pub mod RecordIo
pub mod Rooted
pub mod Ddl
pub mod Batch
pub mod Registry
pub mod Access
pub mod Protected
pub mod Columns
pub mod Formula

-- ===== src/Lib.antt =====
-- MailKeep, a mail archiver: it reads mail accounts over IMAP, stores each message, and searches
-- them. This library models the parts that decide whether mail is lost, archived twice or shown to
-- another user, whether tasks run twice, and whether a query is misread.
--
-- The program's parts and their files:
-- * Base (helpers on numbers, lists and options), and Error for crates/core/src/error.rs: the
--   errors and which of them are transient. A formatted message keeps its fixed text. Base.Texts
--   has texts as lists of code points or bytes.
-- * Sql for crates/core/src/repository.rs (`transaction`, `read_only_transaction`), with Sql.Table
--   for the statements that the adapters build, over a table as the list of its rows. A statement,
--   `begin` and `commit` may each fail, as a list of faults says; a failed transaction is rolled
--   back. Sql.Order has `order_by`, `limit` and `offset`; Sql.Keeps, Sql.Reads and Sql.Yields are
--   rules for actions that keep an invariant, for those that only read, and for what an action that
--   succeeds has done. Sql.Database is `handle_dberr` of crates/database/src/error.rs, with its
--   laws in Sql.Transient.
-- * Jobs for crates/core/src/jobs and crates/database/src/adapters/jobs.rs: Jobs.Queue is the
--   adapter method by method, Jobs.Service the enqueueing and the registry of handlers, Jobs.Worker
--   one round of `JobWorker::run`, and Jobs.Workers the interleaving of several workers, statement
--   by statement under read committed, as a step relation. Jobs.Held, Jobs.Claim and Jobs.Retry
--   hold the laws of the queue, Jobs.Rounds those of a worker, Jobs.Workers.Safety and
--   Jobs.Workers.Attempts those of several workers.
-- * Imap.Sync for crates/imap/src/sync.rs: `sync_folder` with its loops,
-- `handle_uidvalidity_change`,
--   `map_flags`, in Imap.Sync.Poll the rounds of `poll_task` and `backoff_delay`, and in
--   Imap.Sync.Idle `idle_task` over a script of what happens to it. Imap.Io has the server as a
--   record of its answers; a call of a service is an event of the world, or fails.
--   Imap.Sync.Archive says what the events do to the archive of a folder; Imap.Sync.Windows and
--   Imap.Sync.Folder are about that archive, Imap.Sync.Ends about the end of the loops.
-- * Imap.Service for crates/core/src/imap/service.rs, over the record Imap.Port of what it asks of
--   the adapter (port.rs), and Imap.Adapter for the lifecycle of accounts in
--   crates/imap/src/adapter.rs: handles, and the tasks that run for them. Imap.Interleaved
--   takes its calls apart into the steps between which others may run. Imap.Tasks, Imap.Handles,
--   Imap.Leaks, Imap.Holders, Imap.Held, Imap.Watches and Imap.Start hold the laws of the tasks,
--   Imap.Shutdown those of `stop_all`, Imap.Reconcile, Imap.Driven and Imap.Converge those of
--   `reconcile_statuses`. Imap.Remote reads the folders that a server lists.
-- * Search.Query for crates/core/src/search/query.rs: `tokenize` and `parse`. A text is the list of
--   its code points; dates and their parser are parameters, since they are chrono's.
-- * Accounts for crates/core/src/account and crates/database/src/adapters/account.rs:
-- Accounts.Store
--   is the adapter, Accounts.Service the service with its validation. The cipher is a parameter.
--   Accounts.Laws, Accounts.Versions and Accounts.Status hold the laws.
-- * Folders for crates/core/src/folder: Folders.Store is crates/database/src/adapters/folder.rs,
-- with
--   the laws of the cursor in Folders.Cursor, and Folders.Service the service.
-- * Messages for crates/core/src/message and its adapters in crates/database/src/adapters:
--   Messages.Locations is message_location.rs, Messages.Store is message.rs over the tables of
--   accounts, messages, attachments and locations, Messages.Attachments is message_attachment.rs,
--   and Messages.Record the service, with `record_parsed_message` split at its matches. Their laws
--   are in Messages.Upsert, Messages.Dedup and Messages.Again (a content that comes again),
--   Messages.Order and Messages.Listing (the pages of a listing by folders) and Messages.Access
--   (whose messages a user reads).
-- * Storage for crates/storage/src and crates/core/src/types/content_hash.rs: Storage.Hash is the
-- hash
--   and its hexadecimal form, Storage.Disk the calls of the file system with `atomic_write_all`,
--   Storage.Blobs the storage, which raw.rs and attachment.rs have in the same words.
--   Storage.Paths, Storage.Writes, Storage.Integrity and Storage.Keys hold the laws.
-- * Parser for crates/parser/src/handler.rs and crates/core/src/ingest/service.rs: `ingest_raw`
-- and the
--   handler of parse jobs, with the laws of the handler in Parser.Stored.
-- * Search.Scope, Search.Compile and Search.Service for crates/search/src/service.rs: the scope
--   and the folders of a search, the query that Tantivy gets, and `search` with its phases.
--   Search.Indexer is crates/search/src/indexer.rs with `to_document` of schema.rs.
--   Search.ScopeLaws, Search.Matches, Search.Answers, Search.Safety, Search.Documents,
--   Search.Backlog and Search.Drain hold the laws. What Tantivy answers, the stemmer,
--   `to_lowercase`, the dates of chrono and the extraction of a body from MIME are parameters.
-- * Users for crates/core/src/user, crates/core/src/auth and their adapters: Users.Store and
--   Users.Service are user.rs of the adapters and of the service, Users.Sessions is session.rs and
--   Users.Auth the auth service. Users.SessionMap, Users.SessionRuns and Users.Refinement hold the
--   laws of the sessions, Users.Login and Users.Emails those of the users. Argon2, the lower case
--   of a name and the database's LIKE are parameters.
--
-- How they interact: a worker claims jobs from the queue in transactions; the synchronization calls
-- the ingest service, which enqueues a job for each message, and records its cursor through the
-- folder service; the account service works in transactions over its own table. A parse job records
-- its message through the message service; the indexer drains recorded messages into the index, and
-- a search joins the index with the tables of accounts, folders, messages and locations. The IMAP
-- service starts the tasks of enabled accounts through the adapter, with the folders that the
-- folder service lists, and writes their live status through the account service.
--
-- Choices of the model: counters, versions and ids are natural numbers without a bound, where a
-- run would have to last for centuries to reach 2 ^ 63; UIDs keep their saturating 32-bit sums.
-- Times are microseconds, delays seconds. The claim loop runs on the code's own count of five
-- attempts. The loop over the windows of a folder runs on `sync_fuel` rounds, 2 ^ 32, which is
-- enough as each window begins at a later 32-bit UID than the one before. The drain of the indexer
-- runs on fuel, of which one more than there are messages to index is enough. A refused INSERT
-- lets a transaction go on, as on SQLite and MySQL. A call of the database that fails has done
-- nothing: a commit that is carried out although it reports an error is not modelled, and a
-- transaction that is dropped, or whose rollback fails, is taken back by the database. What the
-- IMAP service does for up to four accounts at once is done for one after another. A script of
-- `idle_task` is finite, and the task still runs at its end.
--
-- Not modelled: the web frontend, the other migrations, logging, configuration and start-up, the
-- IMAP connection, the cryptography, the encoding of tokens, the event bus, the parsing and
-- rendering of MIME, Tantivy, the text of a page without its HTML, statistics, and the settings of
-- a user.
pub mod Base
pub mod Error
pub mod Sql
pub mod Storage
pub mod Users
pub mod Accounts
pub mod Folders
pub mod Imap
pub mod Jobs
pub mod Messages
pub mod Parser
pub mod Search

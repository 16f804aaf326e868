-- ===== src/Lib.antt =====
-- Lenovmail: a mail aggregator that mirrors IMAP and Microsoft Graph mailboxes into Postgres, answers
-- a web client and AI agents, and sends mail from a queue. This library models the parts in which its
-- own logic lies; paths are from the repository's root.
--
-- - Models: the rows of the mail tables (src/lenovmail/models/mail.py). A table is a list of rows.
-- - Table: the SQL statements that the program issues, as passes over a list (select_where,
--   update_where, delete_where, order_by with LIMIT), and their laws. Text is Python's `str`.
-- - Store: the mail writer that both sync paths share (src/lenovmail/sync/store.py): Flags
--   (`apply_flags_by_uid`), Removal (`delete_missing_placements`, `purge_orphan_messages`), Identity
--   (`ensure_dedup_hash`), Upsert (`upsert_messages`) and Placements (`upsert_placements`).
-- - Imap: one cycle of a folder (src/lenovmail/sync/imap_sync.py, `sync_folder`) with what it asks the
--   server (src/lenovmail/providers/imap_ops.py), which is a record of replies. Tables has its rows,
--   Envelope the decoding of header values, Headers the header pass, Cycle the other passes and the
--   transaction; below Cycle are the proofs.
--   A cycle writes through Store and Threads.
-- - Threads: conversation threads (src/lenovmail/sync/threads.py). `assign_thread` is called by the
--   store for each message; it merges the threads that the message's references touch.
-- - Pool: the pool of IMAP connections (src/lenovmail/providers/imap_pool.py) as a step relation on
--   its state, with an event for what a coroutine does between two awaits and for its cancellation.
-- - Actions: flagging, moving and deleting a message (src/lenovmail/sync/actions.py), which sends
--   commands of Imap and changes local placements by Store.
-- - Outbox: the outgoing queue (src/lenovmail/sync/outbox.py): queueing, approval, the claim by a
--   worker with FOR UPDATE SKIP LOCKED, the release of stale claims, `send_one` and `send_pending`;
--   Content is what is sent and Provider how.
-- - Api: who may do what (src/lenovmail/api/deps.py), and the handlers that queue and approve mail
--   (src/lenovmail/api/routes/mail.py) and issue agent tokens (src/lenovmail/api/routes/agent.py).
-- - Maintenance: the janitor (src/lenovmail/maintenance.py), which retires accounts that stay rejected
--   and purges the tokens that Api authenticates with.
-- - Queries: one page of messages and its cursor (src/lenovmail/sync/queries.py); Cursor is the cursor as
--   text.
-- - Workers: the sync lock and the scheduler (src/lenovmail/workers/tasks.py), as sequences of events
--   at given times.
-- - Tests: the theorems at concrete inputs.
--
-- Functions keep the source's names. State is passed explicitly: a function takes the tables and
-- returns them changed; a failure is a value (`Answer` for handlers, `Attempted` and `Sent` for
-- sending). Identifiers, digests and instants are natural numbers, instants in seconds, and a
-- comparison of a difference of instants is written as one of sums. What the database draws, and what
-- mail servers, Graph, the token store and the clock answer, are arguments. One transaction runs at a
-- time, except that a claim is given the rows that other transactions have locked.
--
-- A failed sync cycle gives back the tables from before, as its rollback does; what it had written by
-- then is not followed.
--
-- Every loop is a recursion on its list, so no fuel is needed.
--
-- Not modelled: the network clients (src/lenovmail/providers), the list of folders and the bodies in
-- src/lenovmail/sync/imap_sync.py, the Graph sync (graph_sync.py),
-- the sync after an action (actions.py), what a job does besides its lock, MIME parsing and value
-- mining, autoconfiguration, the MCP tools, sessions, logging and the browser
-- client. Of the store, writing bodies and search rows is left out.
pub mod Prelude
pub mod Table
pub mod Text
pub mod Models
pub mod Store
pub mod Pool
pub mod Actions
pub mod Imap
pub mod Threads
pub mod Outbox
pub mod Api
pub mod Maintenance
pub mod Queries
pub mod Workers
pub mod Tests

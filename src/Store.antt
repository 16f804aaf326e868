-- ===== src/Store.antt =====
-- The mail data writer (src/lenovmail/sync/store.py), shared by the IMAP and the Graph path: flags by
-- groups of equal flags, the removal of placements, the identity of messages, and the two upserts of a
-- batch. The writers take the tables of `MailDb` and return them changed; the caller owns the transaction.
pub mod Flags
pub mod Removal
pub mod Identity
pub mod Upsert
pub mod Placements

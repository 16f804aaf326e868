-- ===== src/Store/Placements.antt =====
-- Writing the placements of a batch (src/lenovmail/sync/store.py, `upsert_placements`). A record is of
-- IMAP, with a UID, or of Graph, with an item identifier; each kind has its own unique index and its
-- own statement. Postgres refuses a statement whose rows conflict with each other: that is `none`.
pub mod Rows
pub mod Written
use mathlib.Core.Option
use lenovmail.Prelude.{
  ℕ, Bool, false, ◌&&◌, Option, none, some, List, [], ◌∷◌, ◌++◌, map, ◌==◌, if◌then◌else◌, length,
  is_some, is_none, opt_eq,
}
use lenovmail.Table.{select_where, update_where, exists_where}
use lenovmail.Models.{MailboxMessage}
use lenovmail.Store.Upsert.{Record}

-- `_placement_payload`
abbrev pub placement_payload : ℕ → Record → ℕ → ℕ → MailboxMessage
placement_payload folder_id r message_id now = record {
  folder_id = folder_id;
  message_id = message_id;
  remote_uid = r.uid;
  remote_item_id = r.remote_item_id;
  flags = r.flags;
  modseq = r.modseq;
  last_seen_at = some now;
}

-- `message_ids.get(hash)`
abbrev pub id_of : ℕ → List (ℕ × ℕ) → Option ℕ
id_of hash [] = none
id_of hash (e ∷ dict) = if e.0 == hash then some e.1 else id_of hash dict

-- The payloads of the records that have an identifier.
abbrev pub with_payload :
    ℕ → ℕ → Record → Option ℕ → List (Record × MailboxMessage) → List (Record × MailboxMessage)
with_payload folder_id now r none rest = rest
with_payload folder_id now r (some id) rest = (r, placement_payload folder_id r id now) ∷ rest

pub kept_payloads : ℕ → ℕ → List Record → List (ℕ × ℕ) → List (Record × MailboxMessage)
kept_payloads folder_id now [] ids = []
kept_payloads folder_id now (r ∷ records) ids =
    with_payload folder_id now r (id_of r.dedup_hash ids) (kept_payloads folder_id now records ids)

-- The rows of the two statements. A record with neither handle is in none.
abbrev pub is_item_row : Record → Bool
is_item_row r = is_some r.remote_item_id

abbrev pub is_uid_row : Record → Bool
is_uid_row r = is_none r.remote_item_id && is_some r.uid

abbrev pub same_value : Option ℕ → Option ℕ → Bool
same_value none b = false
same_value (some a) b = opt_eq b a

-- Two rows that a partial unique index holds apart.
abbrev pub conflicts : (MailboxMessage → Option ℕ) → MailboxMessage → MailboxMessage → Bool
conflicts column a b = b.folder_id == a.folder_id && same_value (column a) (column b)

-- INSERT of one row, ON CONFLICT DO UPDATE: every column but those of the index is set.
pub upsert_row :
    (MailboxMessage → Option ℕ) → MailboxMessage → List MailboxMessage → List MailboxMessage
upsert_row column p rows =
    if exists_where (conflicts column p) rows
    then update_where (conflicts column p) (λ _. p) rows
    else rows ++ p ∷ []

-- The whole statement.
pub upsert_rows :
    (MailboxMessage → Option ℕ)
    → List MailboxMessage
    → List MailboxMessage
    → Option (List MailboxMessage)
unfolding upsert_row
upsert_rows column [] rows = some rows
upsert_rows column (p ∷ payload) rows =
    let rest = upsert_rows column payload (upsert_row column p rows) in
    if exists_where (conflicts column p) payload then none else rest

abbrev rows_of : (Record → Bool) → List (Record × MailboxMessage) → List MailboxMessage
rows_of p kept = map (λ k. k.1) (select_where (λ k. p k.0) kept)

-- The second statement, and the count of the kept records.
write_items :
    List (Record × MailboxMessage) → Option (List MailboxMessage) → Option (List MailboxMessage × ℕ)
unfolding upsert_rows
write_items kept none = none
write_items kept (some rows) =
    Option.map (λ (rs : List MailboxMessage). (rs, length kept))
      (upsert_rows (λ r. r.remote_item_id) (rows_of is_item_row kept) rows)

pub upsert_placements :
    ℕ → ℕ → List Record → List (ℕ × ℕ) → List MailboxMessage → Option (List MailboxMessage × ℕ)
unfolding kept_payloads upsert_rows write_items
upsert_placements folder_id now records ids rows =
    let kept = kept_payloads folder_id now records ids in
    write_items kept (upsert_rows (λ r. r.remote_uid) (rows_of is_uid_row kept) rows)

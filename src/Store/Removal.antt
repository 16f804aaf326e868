-- ===== src/Store/Removal.antt =====
-- Removal of placements (src/lenovmail/sync/store.py), and of the messages that are left without one.
-- Deleting a message deletes its placements and its references with it (ON DELETE CASCADE).
pub mod Gone
pub mod Missing
pub mod Removed
use lenovmail.Prelude.{
  ℕ, ◌+◌, Bool, true, false, not, ◌&&◌, Option, none, some, List, [], ◌∷◌, ◌==◌, if◌then◌else◌,
  elem, opt_in,
}
use lenovmail.Table.{delete_where, count_where, exists_where}
use lenovmail.Models.{Message, MailboxMessage, MailDb}

abbrev pub is_of : (Message → Bool) → List Message → ℕ → Bool
is_of p messages id = exists_where (λ m. p m && m.id == id) messages

-- DELETE FROM messages WHERE p
unfoldable pub delete_messages : (Message → Bool) → MailDb → MailDb
delete_messages p db = record db {
  messages = delete_where p db.messages;
  placements = delete_where (λ r. is_of p db.messages r.message_id) db.placements;
  refs = delete_where (λ r. is_of p db.messages r.message_id) db.refs;
}

abbrev pub has_placement : List MailboxMessage → Message → Bool
has_placement placements m = exists_where (λ r. r.message_id == m.id) placements

abbrev pub is_orphan : ℕ → List MailboxMessage → Message → Bool
is_orphan account_id placements m = m.account_id == account_id && not (has_placement placements m)

pub purge_orphan_messages : ℕ → MailDb → MailDb
unfolding delete_messages
purge_orphan_messages account_id db = delete_messages (is_orphan account_id db.placements) db

abbrev is_nil : List ℕ → Bool
is_nil [] = true
is_nil (_ ∷ _) = false

-- `column IS IN values`, within a folder
abbrev pub in_folder : (MailboxMessage → Option ℕ) → ℕ → List ℕ → MailboxMessage → Bool
in_folder column folder_id values r = r.folder_id == folder_id && opt_in (column r) values

-- `remove_placements` and `remove_placements_by_uid`, which differ in the column. An item identifier
-- that is empty is dropped by the former, so it is not among the values here.
pub remove_placements : (MailboxMessage → Option ℕ) → ℕ → ℕ → List ℕ → MailDb → MailDb × ℕ
unfolding purge_orphan_messages
remove_placements column account_id folder_id values db = if is_nil values then (db, 0) else (
  purge_orphan_messages account_id
      (record db { placements = delete_where (in_folder column folder_id values) db.placements }),
  count_where (in_folder column folder_id values) db.placements,
)

-- The values of a column in a folder, NULL left out.
column_values : (MailboxMessage → Option ℕ) → ℕ → List MailboxMessage → List ℕ
column_values column folder_id [] = []
column_values column folder_id (r ∷ rows) =
    let rest = column_values column folder_id rows in
    if r.folder_id == folder_id then elim (column r) [ none ↦ rest | some v ↦ v ∷ rest ] else rest

-- One of the two halves of `delete_missing_placements`.
pub delete_missing :
    (MailboxMessage → Option ℕ)
    → ℕ
    → Option (List ℕ)
    → List MailboxMessage
    → List MailboxMessage × ℕ
unfolding column_values
delete_missing column folder_id none rows = (rows, 0)
delete_missing column folder_id (some server) rows =
    let gone = delete_where (λ v. elem v server) (column_values column folder_id rows) in
    if is_nil gone then (rows, 0) else (
      delete_where (in_folder column folder_id gone) rows,
      count_where (in_folder column folder_id gone) rows,
    )

pub delete_missing_placements : ℕ → ℕ → Option (List ℕ) → Option (List ℕ) → MailDb → MailDb × ℕ
unfolding delete_missing purge_orphan_messages
delete_missing_placements account_id folder_id server_uids server_item_ids db =
    let (rows, n) = delete_missing (λ r. r.remote_uid) folder_id server_uids db.placements in
    let (rows', k) = delete_missing (λ r. r.remote_item_id) folder_id server_item_ids rows in
    (purge_orphan_messages account_id (record db { placements = rows' }), n + k)

-- The server lists the folder, and does not list this.
abbrev pub is_missing : Option (List ℕ) → Option ℕ → Bool
is_missing none v = false
is_missing (some server) none = false
is_missing (some server) (some v) = not (elem v server)

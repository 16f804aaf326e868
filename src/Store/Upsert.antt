-- ===== src/Store/Upsert.antt =====
-- Writing the header stage of a batch (src/lenovmail/sync/store.py, `upsert_messages`): one row for
-- each identity. The database draws the identifiers: they are counted from an argument. Other
-- transactions do not run in between.
pub mod Insertion
pub mod Batch
use mathlib.Core.Path.{subst}
use lenovmail.Prelude.{
  ℕ, ◌+◌, ◌≡◌, Bool, true, ◌&&◌, Option, none, List, [], ◌∷◌, ◌++◌, map, ◌==◌, if◌then◌else◌, elem,
}
use lenovmail.Table.{select_where, delete_where, exists_where}
use lenovmail.Models.{not_fetched, Display, Message, Flags}

-- `Record`, with the columns that are only shown in one field.
pub record Record : Type 0 where
  pub dedup_hash : ℕ
  pub provisional : Bool
  pub uid : Option ℕ
  pub remote_item_id : Option ℕ
  pub display : Display
  pub internal_date : Option ℕ
  pub size_bytes : Option ℕ
  pub flags : Flags
  pub modseq : Option ℕ

abbrev new_message : ℕ → ℕ → ℕ → Record → Message
new_message account_id id now r = record {
  id = id;
  account_id = account_id;
  thread_id = none;
  dedup_hash = r.dedup_hash;
  provisional = r.provisional;
  internal_date = r.internal_date;
  sent_date = none;
  size_bytes = r.size_bytes;
  body_state = not_fetched;
  blob_sha256 = none;
  values_mined_at = none;
  created_at = now;
  display = r.display;
}

abbrev pub has_identity : ℕ → ℕ → Message → Bool
has_identity account_id hash m = m.account_id == account_id && m.dedup_hash == hash

-- INSERT ... ON CONFLICT DO NOTHING RETURNING dedup_hash, id
pub insert_new : ℕ → ℕ → ℕ → List Record → List Message → List Message × List (ℕ × ℕ)
insert_new account_id id now [] rows = (rows, [])
insert_new account_id id now (r ∷ payload) rows =
    let (skipped, returned) = insert_new account_id (id + 1) now payload rows in
    let (written, returned') =
      insert_new account_id (id + 1) now payload (rows ++ new_message account_id id now r ∷ []) in
    if exists_where (has_identity account_id r.dedup_hash) rows
    then (skipped, returned)
    else (written, (r.dedup_hash, id) ∷ returned')

-- SELECT dedup_hash, id WHERE account_id = ... AND dedup_hash IN hashes
pub ids_by_hash : ℕ → List ℕ → List Message → List (ℕ × ℕ)
ids_by_hash account_id hashes rows =
    map (λ m. (m.dedup_hash, m.id))
      (select_where (λ m. m.account_id == account_id && elem m.dedup_hash hashes) rows)

-- `hash in existing`
abbrev pub has_key : ℕ → List (ℕ × ℕ) → Bool
has_key hash dict = exists_where (λ e. e.0 == hash) dict

abbrev hashes_of : List Record → List ℕ
hashes_of records = map (λ r. r.dedup_hash) records

insert_payload :
    ℕ → ℕ → ℕ → List ℕ → List (ℕ × ℕ) → List Record → List Message → List Message × List (ℕ × ℕ)
unfolding insert_new ids_by_hash
insert_payload account_id id now hashes existing [] rows = (rows, existing)
insert_payload account_id id now hashes existing (r ∷ payload) rows =
    let (rows', inserted) = insert_new account_id id now (r ∷ payload) rows in
    let dict = existing ++ inserted in
    (rows', dict ++ ids_by_hash account_id (delete_where (λ h. has_key h dict) hashes) rows')

pub upsert_messages : ℕ → ℕ → ℕ → List Record → List Message → List Message × List (ℕ × ℕ)
unfolding insert_payload ids_by_hash
upsert_messages account_id id now records rows =
    let existing = ids_by_hash account_id (hashes_of records) rows in
    insert_payload account_id id now (hashes_of records) existing
      (delete_where (λ r. has_key r.dedup_hash existing) records) rows

-- The entry names a stored row of the account.
abbrev pub IsStored : ℕ → List Message → ℕ × ℕ → Type 0
IsStored account_id rows e =
    exists_where (λ m. has_identity account_id e.0 m && m.id == e.1) rows ≡ true

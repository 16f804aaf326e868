-- ===== src/Imap/Cycle.antt =====
-- One sync cycle of a folder (src/lenovmail/sync/imap_sync.py, `sync_folder`). The cycle runs in one
-- transaction: it either ends with the tables changed, or the tables are rolled back and the failure is
-- recorded. The mailbox server, the two hashes, the subject normalisation and the library's decoding
-- of headers are arguments; the message search index is left out.
pub mod Steps
pub mod Uids
pub mod Mirror
pub mod Covered
pub mod Ends
pub mod Readable
pub mod Progress
use lenovmail.Imap.Tables.{
  idle_state, error_state, Folder, Kind, full_kind, incremental_kind, SyncStats, SyncDb, Server,
  Job,
}
use lenovmail.Imap.Headers.{header_pass}
use lenovmail.Imap.Chunks.{chunks_of}
use lenovmail.Store.Removal.{delete_missing_placements}
use lenovmail.Prelude.{
  ℕ, zero, suc, ◌+◌, ◌%◌, max, Bool, true, false, not, ◌&&◌, ◌||◌, Option, none, some, List, [],
  ◌∷◌, ◌++◌, ltb, ◌==◌, if◌then◌else◌, take, is_none, get_or,
}
use lenovmail.Table.{delete_where, count_where, exists_where}
use lenovmail.Text.{Text}
use lenovmail.Models.{BodyState, not_fetched, MailDb}
use lenovmail.Store.Flags.{apply_flags_by_uid}
use lenovmail.Imap.{
  Reply, got, transient, failed, ◌>>=◌, SelectInfo, fetch_flags, search_all_uids, search_uids_since,
}

-- A column that is neither NULL nor 0.
abbrev pub truthy : Option ℕ → Bool
truthy none = false
truthy (some zero) = false
truthy (some (suc n)) = true

-- `info.uidvalidity is not None and local_uidvalidity != info.uidvalidity`
abbrev pub is_reset : Option ℕ → Option ℕ → Bool
is_reset known none = false
is_reset none (some v) = true
is_reset (some u) (some v) = not (u == v)

-- The placements and the cursor after a change of UIDVALIDITY.
pub forget_folder : SyncDb → SyncDb
forget_folder db = record db {
  mail = record db.mail {
    placements = delete_where (λ r. r.folder_id == db.folder.id) db.mail.placements;
  };
  folder = record db.folder { highestmodseq = none; uidnext = none };
}

-- 1) New UIDs.
pub find_new : Server → Bool → List ℕ → Option ℕ → Reply (List ℕ)
unfolding search_uids_since
find_new server whole all_uids uidnext =
    if whole || not (truthy uidnext)
    then got all_uids
    else search_uids_since server.search_since (get_or uidnext 0)

abbrev pub some_uid : List ℕ → Bool
some_uid [] = false
some_uid (_ ∷ _) = true

-- The flags are asked for with CHANGEDSINCE.
abbrev pub by_modseq : Server → Bool → Folder → List ℕ → Bool
by_modseq server whole folder all_uids =
    not whole && server.condstore && truthy folder.highestmodseq && some_uid all_uids

-- 2) Flag changes on already-known messages: what the server reports, and whether it was asked for all.
pub ask_flags : Server → Bool → Bool → Folder → List ℕ → Reply (List (ℕ × List Text) × Bool)
unfolding fetch_flags
ask_flags server whole refresh folder all_uids =
    if by_modseq server whole folder all_uids
    then (do
      changed ← fetch_flags (server.fetch_changed (get_or folder.highestmodseq 0)) all_uids
      got (changed, false))
    else if refresh && some_uid all_uids
    then (do flags ← fetch_flags server.fetch_all all_uids; got (flags, true))
    else got ([], false)

-- `full or folder.sync_pass % max(settings.flag_refresh_every, 1) == 0`
abbrev pub is_refresh : Bool → Job → Folder → Bool
is_refresh whole job folder = whole || folder.sync_pass % max job.flag_refresh_every 1 == 0

-- 4) Deletion detection.
pub remove_gone : Bool → ℕ → ℕ → List ℕ → MailDb → MailDb × ℕ
remove_gone refresh account_id folder_id all_uids mail =
    if refresh
    then delete_missing_placements account_id folder_id (some all_uids) none mail
    else (mail, 0)

-- 5) Folder cursor.
abbrev pub move_cursor : SelectInfo → ℕ → Folder → Folder
move_cursor info now folder = record folder {
  uidvalidity = info.uidvalidity;
  uidnext = info.uidnext;
  highestmodseq = info.highestmodseq;
  sync_pass = folder.sync_pass + 1;
  last_synced_at = some now;
  sync_state = idle_state;
  sync_error = none;
}

abbrev pub is_bodiless : BodyState → Bool
is_bodiless not_fetched = true
is_bodiless _ = false

-- The messages of the folder without a body, counted by placement.
pub count_bodiless : ℕ → MailDb → ℕ
count_bodiless folder_id mail =
    count_where
      (λ r.
        r.folder_id == folder_id
        && exists_where (λ m. m.id == r.message_id && is_bodiless m.body_state) mail.messages)
      mail.placements

abbrev pub kind_of : Bool → Kind
kind_of whole = if whole then full_kind else incremental_kind

-- What the passes 2 to 4 leave.
pub record Passed : Type 0 where
  pub mail : MailDb
  pub next_id : ℕ
  pub added : ℕ
  pub updated : ℕ
  pub removed : ℕ
  pub flag_refresh : Bool

-- The passes, after the UIDs are known.
pub run_passes : Job → Server → Bool → List ℕ → List ℕ → SyncDb → Reply Passed
unfolding ask_flags header_pass remove_gone
run_passes job server whole all_uids new_uids db = do
  let refresh = is_refresh whole job db.folder
  (reported, asked_all) ← ask_flags server whole refresh db.folder all_uids
  let (placements, updated) = apply_flags_by_uid db.folder.id reported db.mail.placements
  (added, mail, next_id) ←
      header_pass job server db.folder.id (chunks_of job.header_fetch_chunk new_uids)
        (record db.mail { placements = placements }) db.next_id
  let (mail', removed) = remove_gone refresh job.account_id db.folder.id all_uids mail
  got (record {
    mail = mail';
    next_id = next_id;
    added = added;
    updated = updated;
    removed = removed;
    flag_refresh = asked_all;
  })

-- The cycle from the selected folder on; `db` is as the change of UIDVALIDITY, if any, leaves it.
unfoldable pub run_cycle :
    Job → Server → SelectInfo → Bool → Bool → SyncDb → Reply (SyncStats × SyncDb)
unfolding search_all_uids find_new run_passes count_bodiless
run_cycle job server info whole reset db = do
  all_uids ← search_all_uids server.search_all
  new_uids ← find_new server whole all_uids db.folder.uidnext
  passed ← run_passes job server whole all_uids new_uids db
  got (
    record {
      kind = kind_of whole;
      added = passed.added;
      updated = passed.updated;
      removed = passed.removed;
      flag_refresh = passed.flag_refresh;
      full_resync = reset;
      body_candidates = count_bodiless db.folder.id passed.mail;
    },
    record {
      mail = passed.mail;
      folder = move_cursor info job.now db.folder;
      runs =
          db.runs
          ++ record {
            kind = kind_of whole;
            started_at = job.now;
            finished_at = some job.now;
            added = passed.added;
            updated = passed.updated;
            removed = passed.removed;
            error = none;
          }
            ∷ [];
      next_id = passed.next_id;
    },
  )

-- The `try` body of `sync_folder`.
unfoldable pub try_folder : Job → Server → SyncDb → Reply (SyncStats × SyncDb)
unfolding forget_folder run_cycle
try_folder job server db = do
  info ← server.select
  let reset = is_reset db.folder.uidvalidity info.uidvalidity
  run_cycle job server info (job.force_full || is_none db.folder.uidvalidity || reset) reset
      (if reset then forget_folder db else db)

-- How `sync_folder` ends; the exception is raised again after it was recorded.
pub data SyncEnd : Type 0 where
  synced : SyncStats → SyncEnd
  raised_transient raised_other : Text → SyncEnd

-- The rows after an exception: those from before, which `session.rollback()` gives back (what the
-- transaction had written is not kept in a `Reply`), the folder's error, and a failed run, with the
-- kind that the cycle had reached. A cancellation, which `except Exception` does not catch, records
-- nothing and is not modelled.
pub fail_folder : Job → Kind → Text → SyncDb → SyncDb
fail_folder job kind error db = record db {
  folder = record db.folder { sync_state = error_state; sync_error = some (take 2000 error) };
  runs =
      db.runs
      ++ record {
        kind = kind;
        started_at = job.now;
        finished_at = some job.now;
        added = 0;
        updated = 0;
        removed = 0;
        error = some (take 2000 error);
      }
        ∷ [];
}

-- The kind that the cycle has reached when it fails.
abbrev pub reached_kind : Job → Server → SyncDb → Kind
reached_kind job server db = kind_of (
    job.force_full || is_none db.folder.uidvalidity || elim server.select [
      | got info ↦ is_reset db.folder.uidvalidity info.uidvalidity
      | transient _ ↦ false
      | failed _ ↦ false
    ])

-- The `except` clauses of `sync_folder`.
abbrev pub settle_folder : Job → Kind → SyncDb → Reply (SyncStats × SyncDb) → SyncEnd × SyncDb
settle_folder job kind db (got (stats, after)) = (synced stats, after)
settle_folder job kind db (transient e) = (raised_transient e, fail_folder job kind e db)
settle_folder job kind db (failed e) = (raised_other e, fail_folder job kind e db)

unfoldable pub sync_folder : Job → Server → SyncDb → SyncEnd × SyncDb
unfolding try_folder fail_folder
sync_folder job server db =
    settle_folder job (reached_kind job server db) db (try_folder job server db)

-- What is published after a cycle that succeeded.
pub data Notice : Type 0 where
  sync_progress message_new folder_counts : Notice

abbrev is_incremental : Kind → Bool
is_incremental incremental_kind = true
is_incremental full_kind = false

pub notices : SyncStats → List Notice
notices s =
    sync_progress
    ∷ ((if ltb 0 s.added && is_incremental s.kind then message_new ∷ [] else [])
        ++ (if ltb 0 s.added || ltb 0 s.updated || ltb 0 s.removed then folder_counts ∷ [] else []))

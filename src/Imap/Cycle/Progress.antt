-- ===== src/Imap/Cycle/Progress.antt =====
-- A cycle (src/lenovmail/sync/imap_sync.py, `sync_folder`) against a server that answers.
use lenovmail.Prelude.{
  ℕ, ◌+◌, ◌≡◌, refl, sym, inl, inr, Bool, not, ◌&&◌, ◌||◌, Option, List, [], ◌∷◌, if◌then◌else◌,
  Bool-cases, length, is_none, get_or, All,
}
use lenovmail.Imap.Tables.{Folder, Kind, SyncStats, SyncDb, HeaderEntry, Server, Hashing, Job}
use lenovmail.Imap.Headers.{records_of, write_chunk, header_pass}
use lenovmail.Imap.Cycle.Steps.{
  write_chunk_lem, IsFaithful, records_of-Fetched, Fetched-ImapRecords, Fetched-AreDistinct,
}
use lenovmail.Imap.Cycle.Readable.{Succeeds, bind-Succeeds, IsReadableEntry, records_of-Succeeds}
use mathlib.Core.Path.{subst}
use lenovmail.Text.{Text}
use lenovmail.Models.{MailDb}
use lenovmail.Imap.{
  Reply, got, transient, failed, SelectInfo, FlagEntry, collect_flags, collect_chunks, uid_chunk,
  fetch_flags, search_all_uids, search_uids_since,
}
use lenovmail.Imap.Chunks.{chunks_of}
use lenovmail.Imap.Cycle.{
  truthy, is_reset, forget_folder, find_new, some_uid, by_modseq, ask_flags, is_refresh, run_passes,
  run_cycle, try_folder, synced, reached_kind, settle_folder, sync_folder,
}

-- Each method of the connection answers.
pub record DoesAnswer (server : Server) : Type 0 where
  pub selected : Succeeds server.select
  pub all_listed : Succeeds server.search_all
  pub since_listed : (first : ℕ) → Succeeds (server.search_since first)
  pub changed_fetched : (modseq : ℕ) (uids : List ℕ) → Succeeds (server.fetch_changed modseq uids)
  pub flags_fetched : (uids : List ℕ) → Succeeds (server.fetch_all uids)
  pub headers_fetched : (uids : List ℕ) → Succeeds (server.fetch_headers uids)

collect_chunks-Succeeds :
    (fetch : List ℕ → Reply (List FlagEntry)) (cs : List (List ℕ)) (out : List (ℕ × List Text))
    → ((uids : List ℕ) → Succeeds (fetch uids))
    → Succeeds (collect_chunks fetch cs out)
unfolding collect_chunks
collect_chunks-Succeeds fetch [] out h = tt
collect_chunks-Succeeds fetch (c ∷ cs) out h =
    bind-Succeeds (fetch c) _ (h c)
      (λ response _. collect_chunks-Succeeds fetch cs (collect_flags response out) h)

fetch_flags-Succeeds :
    (fetch : List ℕ → Reply (List FlagEntry)) (uids : List ℕ)
    → ((us : List ℕ) → Succeeds (fetch us))
    → Succeeds (fetch_flags fetch uids)
unfolding fetch_flags
fetch_flags-Succeeds fetch uids h = collect_chunks-Succeeds fetch (chunks_of uid_chunk uids) [] h

-- No header that the server answers has a malformed encoded word.
abbrev pub IsReadableServer : Hashing → Server → Type 0
IsReadableServer h server =
    (uids : List ℕ) (response : List HeaderEntry)
    → server.fetch_headers uids ≡ got response
    → All (λ e. IsReadableEntry h e.envelope) response

module _ (job : Job) (server : Server) (listed : List ℕ) (faithful : IsFaithful server listed)
    (answers : DoesAnswer server) (readable : IsReadableServer job.hashing server) where
  find_new-Succeeds :
      (whole : Bool) (all_uids : List ℕ) (uidnext : Option ℕ)
      → Succeeds (find_new server whole all_uids uidnext)
  unfolding find_new search_uids_since
  find_new-Succeeds whole all_uids uidnext = elim (Bool-cases (whole || not (truthy uidnext))) [
    | inl e ↦ rw e tt
    | inr e ↦ rw e (
        bind-Succeeds (server.search_since (get_or uidnext 0)) _
          (answers.since_listed (get_or uidnext 0)) (λ uids _. tt))
  ]

  ask_flags-Succeeds :
      (whole refresh : Bool) (folder : Folder) (all_uids : List ℕ)
      → Succeeds (ask_flags server whole refresh folder all_uids)
  unfolding ask_flags
  ask_flags-Succeeds whole refresh folder all_uids =
      elim (Bool-cases (by_modseq server whole folder all_uids)) [
        | inl e ↦ rw e (
            bind-Succeeds
              (fetch_flags (server.fetch_changed (get_or folder.highestmodseq 0)) all_uids) _
              (fetch_flags-Succeeds (server.fetch_changed (get_or folder.highestmodseq 0)) all_uids
                (answers.changed_fetched (get_or folder.highestmodseq 0)))
              (λ changed _. tt))
        | inr e ↦ elim (Bool-cases (refresh && some_uid all_uids)) [
          | inl d ↦
              rw (e, d)
                (bind-Succeeds (fetch_flags server.fetch_all all_uids) _
                  (fetch_flags-Succeeds server.fetch_all all_uids answers.flags_fetched)
                  (λ flags _. tt))
          | inr d ↦ rw (e, d) tt
        ]
      ]

  header_pass-Succeeds :
      (folder_id : ℕ) (cs : List (List ℕ)) (mail : MailDb) (next_id : ℕ)
      → Succeeds (header_pass job server folder_id cs mail next_id)
  unfolding header_pass
  header_pass-Succeeds folder_id [] mail next_id = tt
  header_pass-Succeeds folder_id (c ∷ cs) mail next_id =
      bind-Succeeds (server.fetch_headers c) _ (answers.headers_fetched c) (λ response fetched.
        bind-Succeeds (records_of job.hashing folder_id response) _
          (records_of-Succeeds job.hashing folder_id response (readable c response fetched))
          (λ records made.
            let of = records_of-Fetched job.hashing folder_id response records made in
            let (mail', wrote, _) =
              write_chunk_lem job folder_id records mail next_id
                (Fetched-ImapRecords response records of)
                (Fetched-AreDistinct response records of
                  (faithful.headers_distinct c response fetched)) in
            bind-Succeeds (write_chunk job folder_id records mail next_id) _
              (subst Succeeds (sym wrote) tt)
              (λ written _.
                bind-Succeeds
                  (header_pass job server folder_id cs written.1
                    (next_id + (length records + length records)))
                  _
                  (header_pass-Succeeds folder_id cs written.1
                    (next_id + (length records + length records)))
                  (λ end _. tt))))

  run_passes-Succeeds :
      (whole : Bool) (all_uids new_uids : List ℕ) (db : SyncDb)
      → Succeeds (run_passes job server whole all_uids new_uids db)
  unfolding run_passes
  run_passes-Succeeds whole all_uids new_uids db =
      bind-Succeeds (ask_flags server whole (is_refresh whole job db.folder) db.folder all_uids) _
        (ask_flags-Succeeds whole (is_refresh whole job db.folder) db.folder all_uids)
        (λ asked _.
          bind-Succeeds
            (header_pass job server db.folder.id (chunks_of job.header_fetch_chunk new_uids) _ _) _
            (header_pass-Succeeds db.folder.id (chunks_of job.header_fetch_chunk new_uids) _
              db.next_id)
            (λ end _. tt))

  run_cycle-Succeeds :
      (info : SelectInfo) (whole reset : Bool) (db : SyncDb)
      → Succeeds (run_cycle job server info whole reset db)
  unfolding run_cycle search_all_uids
  run_cycle-Succeeds info whole reset db =
      bind-Succeeds (search_all_uids server.search_all) _
        (bind-Succeeds server.search_all _ answers.all_listed (λ uids _. tt))
        (λ all_uids _.
          bind-Succeeds (find_new server whole all_uids db.folder.uidnext) _
            (find_new-Succeeds whole all_uids db.folder.uidnext)
            (λ new_uids _.
              bind-Succeeds (run_passes job server whole all_uids new_uids db) _
                (run_passes-Succeeds whole all_uids new_uids db) (λ passed _. tt)))

  settle_folder-Succeeds :
      (kind : Kind) (db : SyncDb) (r : Reply (SyncStats × SyncDb))
      → Succeeds r
      → (stats : SyncStats) × (after : SyncDb) × (settle_folder job kind db r
          ≡ (synced stats, after))
  settle_folder-Succeeds kind db (got a) s = (a.0, a.1, refl)
  settle_folder-Succeeds kind db (transient e) s = absurd s
  settle_folder-Succeeds kind db (failed e) s = absurd s

  pub sync_folder-succeeds :
      (db : SyncDb)
      → (stats : SyncStats) × (after : SyncDb) × (sync_folder job server db ≡ (synced stats, after))
  unfolding sync_folder try_folder
  sync_folder-succeeds db =
      settle_folder-Succeeds (reached_kind job server db) db (try_folder job server db) (
        bind-Succeeds server.select _ answers.selected (λ info _.
          let reset : _ = is_reset db.folder.uidvalidity info.uidvalidity in
          run_cycle-Succeeds info (job.force_full || is_none db.folder.uidvalidity || reset) reset
            (if reset then forget_folder db else db)))

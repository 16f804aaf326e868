-- ===== src/Tests/Syncing.antt =====
-- The sync cycle (src/lenovmail/sync/imap_sync.py) against concrete servers.
use lenovmail.Tests.Mailbox.{
  listed_uids, mailbox_server, sync_job, sync_db, mailbox_server-IsFaithful,
  mailbox_server-IsConsistent, sync_db-IsCaughtUp, mailbox_synced, stats_of, db_after,
}
use lenovmail.Imap.Cycle.Covered.{
  IsCaughtUp, sync_folder-kind, sync_folder-mirrors, sync_folder-covers, sync_folder-IsCaughtUp,
}
use lenovmail.Imap.Cycle.Mirror.{uids_in}
use lenovmail.Text.{codes}
use lenovmail.Prelude.{
  ◌≡◌, refl, true, false, not, ◌&&◌, ◌||◌, none, some, [], ◌∷◌, arith, ◌==◌, if◌then◌else◌, elem,
}
use lenovmail.Imap.Tables.{error_state}
use lenovmail.Imap.Cycle.{is_refresh, sync_folder}
use lenovmail.Imap.Cycle.Ends.{sync_folder-retried}

sync_folder-retried_example :
    let again = sync_folder (sync_job true) mailbox_server (record sync_db {
      folder = record sync_db.folder { sync_state = error_state; sync_error = some (codes "lost") };
      runs = [];
    }) in
    let once = sync_folder (sync_job true) mailbox_server sync_db in
    (again.0 ≡ once.0) × (again.1.mail ≡ once.1.mail) × (again.1.next_id ≡ once.1.next_id)
sync_folder-retried_example =
    sync_folder-retried (sync_job true) mailbox_server sync_db error_state (some (codes "lost")) []

-- A message that the folder has not seen.
sync_folder-mirrors_example :
    uids_in (db_after true) 5 12 ≡ (if 5 == 5 then elem 12 listed_uids else uids_in sync_db 5 12)
sync_folder-mirrors_example =
    sync_folder-mirrors (sync_job true) mailbox_server sync_db (db_after true) (stats_of true)
      listed_uids mailbox_server-IsFaithful mailbox_server-IsConsistent (mailbox_synced true).2 refl
      (sync_folder-kind (sync_job true) mailbox_server sync_db (db_after true) (stats_of true)
        listed_uids mailbox_server-IsFaithful mailbox_server-IsConsistent (mailbox_synced true).2
        refl (record { uidvalidity = some 3; uidnext = some 13; highestmodseq = none }) refl)
      5 12

sync_folder-covers_example : uids_in (db_after false) 5 12 ≡ (
    if 5 == 5
    then elem 12 listed_uids
      || (uids_in sync_db 5 12 && not (is_refresh false (sync_job false) sync_db.folder))
    else uids_in sync_db 5 12)
sync_folder-covers_example =
    sync_folder-covers (sync_job false) mailbox_server sync_db (db_after false) (stats_of false)
      listed_uids mailbox_server-IsFaithful mailbox_server-IsConsistent (mailbox_synced false).2
      refl
      (sync_folder-kind (sync_job false) mailbox_server sync_db (db_after false) (stats_of false)
        listed_uids mailbox_server-IsFaithful mailbox_server-IsConsistent (mailbox_synced false).2
        refl (record { uidvalidity = some 3; uidnext = some 13; highestmodseq = none }) refl)
      sync_db-IsCaughtUp 5 12

sync_folder-IsCaughtUp_example : IsCaughtUp (db_after false) (12 ∷ [])
sync_folder-IsCaughtUp_example =
    sync_folder-IsCaughtUp (sync_job false) mailbox_server sync_db (db_after false) (stats_of false)
      listed_uids mailbox_server-IsFaithful mailbox_server-IsConsistent (mailbox_synced false).2
      refl (record { uidvalidity = some 3; uidnext = some 13; highestmodseq = none }) refl
      (λ _. sync_db-IsCaughtUp) (12 ∷ []) (λ uid e k. ground (arith, e))

-- ===== src/Imap/Cycle/Ends.antt =====
-- The end of a cycle by one of the `except` clauses (src/lenovmail/sync/imap_sync.py, `sync_folder`), and
-- the cycle after it.
use lenovmail.Imap.Tables.{SyncState, Kind, SyncRun, SyncStats, SyncDb, Server, Job}
use lenovmail.Imap.{Reply, got, transient, failed, ◌>>=◌, SelectInfo, search_all_uids}
use lenovmail.Prelude.{
  ◌≡◌, refl, ap, inl, inr, Bool, true, false, ◌||◌, Option, List, Bool-cases, is_none,
}
use lenovmail.Text.{Text}
use lenovmail.Imap.Cycle.{
  is_reset, forget_folder, find_new, run_passes, run_cycle, try_folder, synced, raised_transient,
  raised_other, fail_folder, reached_kind, settle_folder, sync_folder,
}

-- Replies that differ in the folder and the runs at most.
abbrev Alike : Reply (SyncStats × SyncDb) → Reply (SyncStats × SyncDb) → Type 0
Alike (got a) (got b) = (a.0 ≡ b.0) × (a.1.mail ≡ b.1.mail) × (a.1.next_id ≡ b.1.next_id)
Alike (transient e) (transient f) = e ≡ f
Alike (failed e) (failed f) = e ≡ f
Alike _ _ = ⊥

bind-Alike :
    {A : Type 0} (m : Reply A) (f g : A → Reply (SyncStats × SyncDb))
    → ((a : A) → Alike (f a) (g a))
    → Alike (m >>= f) (m >>= g)
bind-Alike (got a) f g h = h a
bind-Alike (transient e) f g h = refl
bind-Alike (failed e) f g h = refl

settle_folder-Alike :
    (job : Job) (kind : Kind) (d db : SyncDb) (r s : Reply (SyncStats × SyncDb))
    → Alike r s
    → d.mail ≡ db.mail
    → d.next_id ≡ db.next_id
    → let again = settle_folder job kind d r in
      let once = settle_folder job kind db s in
      (again.0 ≡ once.0) × (again.1.mail ≡ once.1.mail) × (again.1.next_id ≡ once.1.next_id)
unfolding fail_folder
settle_folder-Alike job kind d db (got a) (got b) h m n = (ap synced h.0, h.1, h.2)
settle_folder-Alike job kind d db (transient e) (transient f) h m n = (ap raised_transient h, m, n)
settle_folder-Alike job kind d db (failed e) (failed f) h m n = (ap raised_other h, m, n)
settle_folder-Alike job kind d db (got a) (transient f) h m n = absurd h
settle_folder-Alike job kind d db (got a) (failed f) h m n = absurd h
settle_folder-Alike job kind d db (transient e) (got b) h m n = absurd h
settle_folder-Alike job kind d db (transient e) (failed f) h m n = absurd h
settle_folder-Alike job kind d db (failed e) (got b) h m n = absurd h
settle_folder-Alike job kind d db (failed e) (transient f) h m n = absurd h

module _ (job : Job) (server : Server) (db : SyncDb) (state : SyncState) (error : Option Text)
    (runs : List SyncRun) where
  abbrev marked : SyncDb → SyncDb
  marked d = record d {
    folder = record d.folder { sync_state = state; sync_error = error };
    runs = runs;
  }

  run_cycle-Alike :
      (info : SelectInfo) (whole reset : Bool) (d : SyncDb)
      → Alike
          (run_cycle job server info whole reset (marked d))
          (run_cycle job server info whole reset d)
  unfolding run_cycle run_passes
  run_cycle-Alike info whole reset d =
      bind-Alike (search_all_uids server.search_all) _ _ (λ all_uids.
        bind-Alike (find_new server whole all_uids d.folder.uidnext) _ _ (λ new_uids.
          bind-Alike (run_passes job server whole all_uids new_uids d) _ _
            (λ passed. (refl, refl, refl))))

  try_folder-Alike : Alike (try_folder job server (marked db)) (try_folder job server db)
  unfolding try_folder forget_folder
  try_folder-Alike = bind-Alike server.select _ _ (λ info.
      elim (Bool-cases (is_reset db.folder.uidvalidity info.uidvalidity)) [
        | inl e ↦ rw e (
            run_cycle-Alike info (job.force_full || is_none db.folder.uidvalidity || true) true
              (forget_folder db))
        | inr e ↦ rw e (
            run_cycle-Alike info (job.force_full || is_none db.folder.uidvalidity || false) false
              db)
      ])

  -- The state of the folder, its error and the runs have no influence on a cycle: after a failure, the
  -- next cycle ends the same way and writes the same mail as if the failed one had not been.
  pub sync_folder-retried :
      let again = sync_folder job server (marked db) in
      let once = sync_folder job server db in
      (again.0 ≡ once.0) × (again.1.mail ≡ once.1.mail) × (again.1.next_id ≡ once.1.next_id)
  unfolding sync_folder
  sync_folder-retried =
      settle_folder-Alike job (reached_kind job server db) (marked db) db
        (try_folder job server (marked db)) (try_folder job server db) try_folder-Alike refl refl

-- ===== src/Imap/Cycle/Mirror.antt =====
-- What a folder holds after a cycle (src/lenovmail/sync/imap_sync.py, `sync_folder`), as a set of
-- UIDs.
use lenovmail.Imap.Replies.{bind-got, from_got}
use lenovmail.Store.Placements.Rows.{has_uid}
use lenovmail.Imap.Tables.{SyncStats, SyncDb, Server, Job}
use lenovmail.Imap.Headers.{header_pass}
use lenovmail.Prelude.{ℕ, ◌≡◌, sym, ap, ◌∙◌, Bool, not, ◌&&◌, ◌||◌, List, arith, ◌==◌, elem}
use lenovmail.Table.Order.{order_by}
use lenovmail.Store.Flags.{apply_flags_by_uid}
use lenovmail.Imap.{got, SelectInfo, search_all_uids}
use lenovmail.Imap.Chunks.{chunks_of, concat, concat-chunks_of}
use lenovmail.Imap.Cycle.{
  find_new, ask_flags, is_refresh, move_cursor, kind_of, Passed, run_passes, run_cycle,
}
use lenovmail.Imap.Cycle.Steps.{IsFaithful, header_pass-Adds}
use lenovmail.Imap.Cycle.Uids.{elem-order_by, remove_gone-uids, apply_flags-uids}

-- The set of UIDs of the folder `g` after passes over the folder `folder_id`.
abbrev pub next_uid : Bool → ℕ → List ℕ → List ℕ → (ℕ → ℕ → Bool) → ℕ → ℕ → Bool
next_uid refresh folder_id listed new known g uid =
    (known g uid || (g == folder_id && (elem uid new && elem uid listed)))
    && not (refresh && (g == folder_id && not (elem uid listed)))

abbrev pub uids_in : SyncDb → ℕ → ℕ → Bool
uids_in db g uid = has_uid g uid db.mail.placements

module _ (job : Job) (server : Server) (listed : List ℕ) (faithful : IsFaithful server listed) where
  run_passes-uids :
      (whole : Bool) (all_uids new_uids : List ℕ) (db : SyncDb) (passed : Passed)
      → run_passes job server whole all_uids new_uids db ≡ got passed
      → ((uid : ℕ) → elem uid all_uids ≡ elem uid listed)
      → (g uid : ℕ)
      → has_uid g uid passed.mail.placements
        ≡ next_uid (is_refresh whole job db.folder) db.folder.id listed new_uids (uids_in db) g uid
  unfolding run_passes
  run_passes-uids whole all_uids new_uids db passed h found g uid =
      let refresh : _ = is_refresh whole job db.folder in
      let (asked, _, h₁) =
        bind-got (ask_flags server whole refresh db.folder all_uids) _ passed h in
      let flagged : _ = apply_flags_by_uid db.folder.id asked.0 db.mail.placements in
      let mail : _ = record db.mail { placements = flagged.0 } in
      let chunks : _ = chunks_of job.header_fetch_chunk new_uids in
      let (end, filed, h₂) =
        bind-got (header_pass job server db.folder.id chunks mail db.next_id) _ passed h₁ in
      let added : _ =
        header_pass-Adds job server listed faithful db.folder.id chunks mail db.next_id end filed g
          uid in
      let named : elem uid (concat chunks) ≡ elem uid new_uids =
        ap (elem uid) (concat-chunks_of job.header_fetch_chunk new_uids) in
      let same : _ = apply_flags-uids db.folder.id asked.0 db.mail.placements g uid in
      let kept : _ = remove_gone-uids refresh job.account_id db.folder.id all_uids end.1 g uid in
      let last : has_uid g uid passed.mail.placements ≡ _ =
        ap (λ r. has_uid g uid (from_got passed r).mail.placements) (sym h₂) in
      last ∙ kept ∙ ground (arith, added, named, same, found uid)

  pub run_cycle-uids :
      (info : SelectInfo) (whole reset : Bool) (db : SyncDb) (end : SyncStats × SyncDb)
      → run_cycle job server info whole reset db ≡ got end
      → server.search_all ≡ got listed
      → (new_uids : List ℕ) × (find_new server whole (order_by (λ u. u) listed) db.folder.uidnext
          ≡ got new_uids)
        × ((g uid : ℕ)
            → uids_in end.1 g uid
              ≡ next_uid
                  (is_refresh whole job db.folder)
                  db.folder.id
                  listed
                  new_uids
                  (uids_in db)
                  g
                  uid)
        × (end.0.kind ≡ kind_of whole)
        × (end.1.folder ≡ move_cursor info job.now db.folder)
  unfolding run_cycle search_all_uids
  run_cycle-uids info whole reset db end h l =
      let (all_uids, found, h₁) = bind-got (search_all_uids server.search_all) _ end h in
      let (new_uids, fresh, h₂) =
        bind-got (find_new server whole all_uids db.folder.uidnext) _ end h₁ in
      let (passed, ran, h₃) =
        bind-got (run_passes job server whole all_uids new_uids db) _ end h₂ in
      let sorted : all_uids ≡ order_by (λ u. u) listed =
        ap (from_got all_uids) (sym found ∙ ap search_all_uids l) in
      (
        new_uids,
        ap (λ us. find_new server whole us db.folder.uidnext) (sym sorted) ∙ fresh,
        λ g uid.
            ap (λ r. uids_in (from_got end r).1 g uid) (sym h₃)
            ∙ run_passes-uids whole all_uids new_uids db passed ran
                (λ u. ap (elem u) sorted ∙ elem-order_by u listed) g uid,
        ap (λ r. (from_got end r).0.kind) (sym h₃),
        ap (λ r. (from_got end r).1.folder) (sym h₃),
      )

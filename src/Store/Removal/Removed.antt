-- ===== src/Store/Removal/Removed.antt =====
-- The removal of one value from a folder (src/lenovmail/sync/store.py, `remove_placements` and
-- `remove_placements_by_uid`).
use mathlib.Core.Path.{subst}
use lenovmail.Prelude.{
  ℕ, ◌≡◌, refl, sym, ap, ◌∙◌, false, ◌&&◌, Option, none, some, [], ◌∷◌, arith, ◌==◌, All, opt_eq,
  opt_in,
}
use lenovmail.Table.{delete_where}
use lenovmail.Table.Laws.{All-intro}
use lenovmail.Models.{MailboxMessage, MailDb}
use lenovmail.Store.Removal.{is_orphan, purge_orphan_messages, in_folder, remove_placements}
use lenovmail.Store.Removal.Gone.{delete_where-ext}
use lenovmail.Store.Removal.Missing.{purge_orphan_messages-placements, purge_orphan_messages-placed}

module _ (column : MailboxMessage → Option ℕ) (account_id folder_id v : ℕ) (db : MailDb) where
  opt_in-one : (c : Option ℕ) → opt_in c (v ∷ []) ≡ opt_eq c v
  opt_in-one none = refl
  opt_in-one (some w) = ground arith

  -- The placements with the value are deleted, and no other.
  pub remove_placements-placements :
      (remove_placements column account_id folder_id (v ∷ []) db).0.placements
      ≡ delete_where (λ r. r.folder_id == folder_id && opt_eq (column r) v) db.placements
  unfolding remove_placements
  remove_placements-placements =
      purge_orphan_messages-placements account_id (record db {
        placements = delete_where (in_folder column folder_id (v ∷ [])) db.placements;
      })
      ∙ delete_where-ext (in_folder column folder_id (v ∷ []))
          (λ r. r.folder_id == folder_id && opt_eq (column r) v) db.placements
          (All-intro
            (λ r.
              in_folder column folder_id (v ∷ []) r
              ≡ (r.folder_id == folder_id && opt_eq (column r) v))
            (λ r. ap (λ b. r.folder_id == folder_id && b) (opt_in-one (column r))) db.placements)

  -- No message of the account is left without a placement.
  pub remove_placements-placed :
      let after = (remove_placements column account_id folder_id (v ∷ []) db).0 in
      All (λ m. is_orphan account_id after.placements m ≡ false) after.messages
  unfolding remove_placements
  remove_placements-placed =
      let cut : _ = record db {
        placements = delete_where (in_folder column folder_id (v ∷ [])) db.placements;
      } in
      subst
        (λ rows.
          All (λ m. is_orphan account_id rows m ≡ false)
            (purge_orphan_messages account_id cut).messages)
        (sym (purge_orphan_messages-placements account_id cut))
        (purge_orphan_messages-placed account_id cut)

-- ===== src/Imap/Cycle/Uids.antt =====
-- Which UIDs the passes of a cycle (src/lenovmail/sync/imap_sync.py, `sync_folder`) start from and
-- leave: the searches, the flags, the deletion detection and the change of UIDVALIDITY.
use lenovmail.Store.Placements.Rows.{has_uid}
use lenovmail.Imap.Tables.{SyncDb}
use lenovmail.Text.{Text}
use lenovmail.Prelude.{
  ℕ, ◌≡◌, refl, ap, ◌∙◌, inl, inr, Bool, true, false, not, ◌&&◌, ◌||◌, Option, none, some, List, [],
  ◌∷◌, arith, leb, ◌==◌, ==_iff, Bool-cases, elem, opt_eq,
}
use lenovmail.Table.{select_where, delete_where, exists_where}
use lenovmail.Table.Order.{insert_by, order_by}
use lenovmail.Models.{MailboxMessage, MailDb}
use lenovmail.Store.Flags.{apply_flags_by_uid}
use lenovmail.Store.Flags.Rows.{exists-apply_flags_by_uid}
use lenovmail.Store.Removal.{is_missing}
use lenovmail.Store.Removal.Missing.{delete_missing_placements_lem}
use lenovmail.Imap.Cycle.{forget_folder, remove_gone}

elem-insert_by : (u k : ℕ) (ks : List ℕ) → elem u (insert_by (λ v. v) k ks) ≡ (u == k || elem u ks)
unfolding insert_by
elem-insert_by u k [] = refl
elem-insert_by u k (l ∷ ks) = elim (Bool-cases (leb k l)) [
  | inl e ↦ rw e
  | inr e ↦ rw e (ground (arith, elem-insert_by u k ks))
]

pub elem-order_by : (u : ℕ) (ks : List ℕ) → elem u (order_by (λ v. v) ks) ≡ elem u ks
unfolding order_by
elem-order_by u [] = refl
elem-order_by u (k ∷ ks) =
    elem-insert_by u k (order_by (λ v. v) ks) ∙ ap (λ b. u == k || b) (elem-order_by u ks)

pub elem-select_where :
    (u : ℕ) (p : ℕ → Bool) (ks : List ℕ) → elem u (select_where p ks) ≡ (elem u ks && p u)
unfolding select_where
elem-select_where u p [] = refl
elem-select_where u p (k ∷ ks) = elim (Bool-cases (p k)) [
  | inl e ↦ elim (Bool-cases (u == k)) [
    | inl n ↦
        let same : p u ≡ true = ap p ((==_iff u k).0 n) ∙ e in rw (e, n) (ground (arith, same))
    | inr n ↦ rw (e, n) (elem-select_where u p ks)
  ]
  | inr e ↦ elim (Bool-cases (u == k)) [
    | inl n ↦
        let same : p u ≡ false = ap p ((==_iff u k).0 n) ∙ e in
        rw (e, n) (ground (arith, elem-select_where u p ks, same))
    | inr n ↦ rw (e, n) (elem-select_where u p ks)
  ]
]

-- A deletion that takes all or none of the rows that a search looks for.
exists-delete_where :
    (p q : MailboxMessage → Bool) (gone : Bool) (rows : List MailboxMessage)
    → ((r : MailboxMessage) → p r ≡ true → q r ≡ gone)
    → exists_where p (delete_where q rows) ≡ (exists_where p rows && not gone)
unfolding exists_where delete_where
exists-delete_where p q gone [] h = refl
exists-delete_where p q gone (r ∷ rows) h =
    let rest : _ = exists-delete_where p q gone rows h in
    elim (Bool-cases (p r)) [
      | inl e ↦ rw (h r e) (ground (arith, e, rest))
      | inr e ↦ elim (Bool-cases (q r)) [
        | inl d ↦ rw (d, e) rest
        | inr d ↦ rw (d, e) (ground (arith, e, rest))
      ]
    ]

-- Every placement of the folder is gone, and no other.
pub forget_folder-uids :
    (db : SyncDb) (g uid : ℕ)
    → has_uid g uid (forget_folder db).mail.placements
      ≡ (has_uid g uid db.mail.placements && not (g == db.folder.id))
unfolding forget_folder
forget_folder-uids db g uid =
    exists-delete_where (λ r. r.folder_id == g && opt_eq r.remote_uid uid)
      (λ r. r.folder_id == db.folder.id) (g == db.folder.id) db.mail.placements
      (λ r e. ground (arith, e))

missing_uid :
    (uid : ℕ) (all_uids : List ℕ) (c : Option ℕ)
    → opt_eq c uid ≡ true
    → is_missing (some all_uids) c ≡ not (elem uid all_uids)
missing_uid uid all_uids none e = absurd (cc)
missing_uid uid all_uids (some v) e = ap (λ w. not (elem w all_uids)) ((==_iff v uid).0 e)

gone_uid :
    (folder_id g uid : ℕ) (all_uids : List ℕ) (r : MailboxMessage)
    → (r.folder_id == g && opt_eq r.remote_uid uid) ≡ true
    → (r.folder_id == folder_id
        && (is_missing (some all_uids) r.remote_uid || is_missing none r.remote_item_id))
      ≡ (g == folder_id && not (elem uid all_uids))
gone_uid folder_id g uid all_uids r e =
    let here : r.folder_id == g ≡ true = ground (arith, e) in
    let uid_here : opt_eq r.remote_uid uid ≡ true = ground (arith, e) in
    ground (arith, here, missing_uid uid all_uids r.remote_uid uid_here)

-- The deletion detection keeps the UIDs that the server lists.
pub remove_gone-uids :
    (refresh : Bool) (account_id folder_id : ℕ) (all_uids : List ℕ) (mail : MailDb) (g uid : ℕ)
    → has_uid g uid (remove_gone refresh account_id folder_id all_uids mail).0.placements ≡ (
        has_uid g uid mail.placements
        && not (refresh && (g == folder_id && not (elem uid all_uids))))
unfolding remove_gone
remove_gone-uids false account_id folder_id all_uids mail g uid = ground arith
remove_gone-uids true account_id folder_id all_uids mail g uid =
    ap (has_uid g uid)
      (delete_missing_placements_lem account_id folder_id (some all_uids) none mail).0
    ∙ exists-delete_where (λ r. r.folder_id == g && opt_eq r.remote_uid uid)
        (λ r.
          r.folder_id == folder_id
          && (is_missing (some all_uids) r.remote_uid || is_missing none r.remote_item_id))
        (g == folder_id && not (elem uid all_uids)) mail.placements
        (gone_uid folder_id g uid all_uids)

-- The flag pass leaves the UIDs.
pub apply_flags-uids :
    (folder_id : ℕ) (reported : List (ℕ × List Text)) (rows : List MailboxMessage) (g uid : ℕ)
    → has_uid g uid (apply_flags_by_uid folder_id reported rows).0 ≡ has_uid g uid rows
apply_flags-uids folder_id reported rows g uid =
    exists-apply_flags_by_uid folder_id reported rows
      (λ r. r.folder_id == g && opt_eq r.remote_uid uid) (λ f r. refl)

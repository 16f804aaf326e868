-- ===== src/Actions/Dropping.antt =====
-- What the loop of an action (src/lenovmail/sync/actions.py) drops.
use lenovmail.Imap.Replies.{bind-got, from_got}
use lenovmail.Store.Removal.Missing.{delete_where-twice}
use lenovmail.Store.Removal.Gone.{delete_where-ext}
use lenovmail.Prelude.{
  ℕ, ◌≡◌, refl, sym, ap, ◌∙◌, inl, inr, Bool, false, ◌&&◌, ◌||◌, Option, none, some, List, [], ◌∷◌,
  arith, ◌==◌, Option-cases, is_some, All, opt_eq,
}
use lenovmail.Actions.{Placement, Call, send_all, drop_by, drop_local_placement, act_if, act_each}
use mathlib.Core.Path.{subst}
use lenovmail.Table.{delete_where, exists_where}
use lenovmail.Table.Laws.{delete_where-none, All-intro}
use lenovmail.Models.{MailboxMessage, MailDb}
use lenovmail.Store.Removal.{is_orphan}
use lenovmail.Store.Removal.Removed.{remove_placements-placements, remove_placements-placed}
use lenovmail.Imap.{Reply, got, ◌>>=◌}

-- The row has the handle by which a placement is dropped: its UID, or else its item.
abbrev pub has_handle : Option ℕ → Option ℕ → MailboxMessage → Bool
has_handle (some uid) item r = opt_eq r.remote_uid uid
has_handle none (some item) r = opt_eq r.remote_item_id item
has_handle none none r = false

abbrev pub drops : Placement → MailboxMessage → Bool
drops p r = r.folder_id == p.folder_id && has_handle p.remote_uid p.remote_item_id r

-- No message of the account is without a placement.
abbrev pub AllPlaced : ℕ → MailDb → Type 0
AllPlaced account_id db = All (λ m. is_orphan account_id db.placements m ≡ false) db.messages

drop_by-placements :
    (account_id folder_id : ℕ) (uid item : Option ℕ) (db : MailDb)
    → (drop_by account_id folder_id uid item db).placements
      ≡ delete_where (λ r. r.folder_id == folder_id && has_handle uid item r) db.placements
drop_by-placements account_id folder_id (some u) item db =
    remove_placements-placements (λ r. r.remote_uid) account_id folder_id u db
drop_by-placements account_id folder_id none (some i) db =
    remove_placements-placements (λ r. r.remote_item_id) account_id folder_id i db
drop_by-placements account_id folder_id none none db = sym (
    delete_where-none (λ r. r.folder_id == folder_id && false) db.placements
      (All-intro (λ r. (r.folder_id == folder_id && false) ≡ false) (λ r. ground arith)
        db.placements))

drop_by-AllPlaced :
    (account_id folder_id : ℕ) (uid item : Option ℕ) (db : MailDb)
    → AllPlaced account_id db
    → AllPlaced account_id (drop_by account_id folder_id uid item db)
drop_by-AllPlaced account_id folder_id (some u) item db h =
    remove_placements-placed (λ r. r.remote_uid) account_id folder_id u db
drop_by-AllPlaced account_id folder_id none (some i) db h =
    remove_placements-placed (λ r. r.remote_item_id) account_id folder_id i db
drop_by-AllPlaced account_id folder_id none none db h = h

-- The row is dropped with one of the placements that the action has calls for.
abbrev pub is_dropped : (Placement → Option (List Call)) → List Placement → MailboxMessage → Bool
is_dropped calls_of ps r = exists_where (λ p. is_some (calls_of p) && drops p r) ps

module _ (world : Call → Reply Unit) (account_id : ℕ)
    (calls_of : Placement → Option (List Call)) where
  -- A loop whose calls are all answered deletes exactly the rows of its placements, and leaves no
  -- message without a placement if there was none.
  pub act_each_lem :
      (ps : List Placement) (db after : MailDb)
      → act_each world account_id calls_of ps db ≡ got after
      → (after.placements ≡ delete_where (is_dropped calls_of ps) db.placements)
        × (AllPlaced account_id db → AllPlaced account_id after)
  unfolding act_each drop_local_placement exists_where
  act_each_lem [] db after h =
      let same : db ≡ after = ap (from_got db) h in
      (
        ap (λ d. d.placements) (sym same)
            ∙ sym (
                delete_where-none (λ r. false) db.placements
                  (All-intro (λ r. false ≡ false) (λ r. refl) db.placements)),
        subst (AllPlaced account_id) same,
      )
  act_each_lem (p ∷ ps) db after h =
      let passed : _ = act_each world account_id calls_of ps db in
      let dropped : _ = drop_local_placement account_id p db in
      let acted : _ = act_each world account_id calls_of ps dropped in
      elim (Option-cases (calls_of p)) [
        | inl e ↦
            let k : passed ≡ got after = ap (λ o. act_if world o passed acted) (sym e) ∙ h in
            let (rows, placed) = act_each_lem ps db after k in
            (
              rows
                  ∙ delete_where-ext (is_dropped calls_of ps) (is_dropped calls_of (p ∷ ps))
                      db.placements
                      (All-intro (λ r. is_dropped calls_of ps r ≡ is_dropped calls_of (p ∷ ps) r)
                        (λ r. rw e refl) db.placements),
              placed,
            )
        | inr (calls, e) ↦
            let k : (send_all world calls >>= (λ _. acted)) ≡ got after =
              ap (λ o. act_if world o passed acted) (sym e) ∙ h in
            let (_, _, k₁) = bind-got (send_all world calls) (λ _. acted) after k in
            let (rows, placed) = act_each_lem ps dropped after k₁ in
            (
              rows
                  ∙ ap (delete_where (is_dropped calls_of ps))
                      (drop_by-placements account_id p.folder_id p.remote_uid p.remote_item_id db)
                  ∙ delete_where-twice (drops p) (is_dropped calls_of ps) db.placements
                  ∙ delete_where-ext (λ r. drops p r || is_dropped calls_of ps r)
                      (is_dropped calls_of (p ∷ ps)) db.placements
                      (All-intro
                        (λ r.
                          (drops p r || is_dropped calls_of ps r) ≡ is_dropped calls_of (p ∷ ps) r)
                        (λ r. rw e refl) db.placements),
              (λ all.
                  placed (
                    drop_by-AllPlaced account_id p.folder_id p.remote_uid p.remote_item_id db all)),
            )
      ]

-- ===== src/Store/Removal/Missing.antt =====
-- The whole comparison with the server (src/lenovmail/sync/store.py, `delete_missing_placements`).
use lenovmail.Store.Removal.Gone.{delete_where-ext, delete_missing_lem}
use lenovmail.Table.Laws.{
  length-delete_where, delete_where_sound, delete_where-none, All-intro, All-map,
}
use lenovmail.Prelude.{
  ℕ, ◌+◌, ◌≡◌, refl, ap, ◌∙◌, inl, inr, Bool, true, false, ◌&&◌, ◌||◌, Option, none, some, List, [],
  ◌∷◌, arith, ◌==◌, ==_iff, ==_refl, Bool-cases, length, All, elem,
}
use lenovmail.Table.{delete_where, exists_where}
use lenovmail.Models.{Message, MailboxMessage, MailDb}
use lenovmail.Store.Removal.{
  is_of, delete_messages, has_placement, is_orphan, purge_orphan_messages, in_folder,
  delete_missing, delete_missing_placements, is_missing, is_nil, column_values,
}

-- No placement names a message that the purge deletes, so the cascade takes no placement.
is_of-orphan :
    (account_id : ℕ) (placements : List MailboxMessage) (messages : List Message) (id : ℕ)
    → exists_where (λ r. r.message_id == id) placements ≡ true
    → is_of (is_orphan account_id placements) messages id ≡ false
unfolding exists_where
is_of-orphan account_id placements [] id h = refl
is_of-orphan account_id placements (m ∷ messages) id h = elim (Bool-cases (m.id == id)) [
  | inl e ↦
      let placed : has_placement placements m ≡ true =
        ap (λ k. exists_where (λ r. r.message_id == k) placements) ((==_iff m.id id).0 e) ∙ h in
      rw placed (ground (arith, is_of-orphan account_id placements messages id h))
  | inr e ↦ rw e (ground (arith, is_of-orphan account_id placements messages id h))
]

exists_self :
    (key : MailboxMessage → ℕ) (rows : List MailboxMessage)
    → All (λ r. exists_where (λ p. key p == key r) rows ≡ true) rows
unfolding exists_where
exists_self key [] = tt
exists_self key (r ∷ rows) = (
  ground (arith, ==_refl (key r)),
  All-map (λ q. exists_where (λ p. key p == key q) rows ≡ true)
      (λ q. exists_where (λ p. key p == key q) (r ∷ rows) ≡ true) rows (λ q h. ground (arith, h))
      (exists_self key rows),
)

pub purge_orphan_messages-placements :
    (account_id : ℕ) (db : MailDb)
    → (purge_orphan_messages account_id db).placements ≡ db.placements
unfolding purge_orphan_messages delete_messages
purge_orphan_messages-placements account_id db =
    delete_where-none (λ r. is_of (is_orphan account_id db.placements) db.messages r.message_id)
      db.placements
      (All-map (λ r. exists_where (λ p. p.message_id == r.message_id) db.placements ≡ true)
        (λ r. is_of (is_orphan account_id db.placements) db.messages r.message_id ≡ false)
        db.placements (λ r h. is_of-orphan account_id db.placements db.messages r.message_id h)
        (exists_self (λ r. r.message_id) db.placements))

pub purge_orphan_messages-placed :
    (account_id : ℕ) (db : MailDb)
    → All
        (λ m. is_orphan account_id db.placements m ≡ false)
        (purge_orphan_messages account_id db).messages
unfolding purge_orphan_messages delete_messages
purge_orphan_messages-placed account_id db =
    delete_where_sound (is_orphan account_id db.placements) db.messages

pub delete_where-twice :
    (p q : MailboxMessage → Bool) (rs : List MailboxMessage)
    → delete_where q (delete_where p rs) ≡ delete_where (λ r. p r || q r) rs
unfolding delete_where
delete_where-twice p q [] = refl
delete_where-twice p q (r ∷ rs) = elim (Bool-cases (p r)) [
  | inl e ↦ rw e (delete_where-twice p q rs)
  | inr e ↦ rw (e, delete_where-twice p q rs)
]

delete_missing-count :
    (column : MailboxMessage → Option ℕ) (folder_id : ℕ) (server : Option (List ℕ))
    (rows : List MailboxMessage)
    → let (rows', n) = delete_missing column folder_id server rows in length rows' + n ≡ length rows
unfolding delete_missing
delete_missing-count column folder_id none rows = omega arith
delete_missing-count column folder_id (some server) rows =
    let gone : _ = delete_where (λ v. elem v server) (column_values column folder_id rows) in
    elim (Bool-cases (is_nil gone)) [
      | inl e ↦ rw e (omega arith)
      | inr e ↦ rw e (length-delete_where (in_folder column folder_id gone) rows)
    ]

-- After a comparison with the server, a placement is gone exactly if it is in the folder and its UID,
-- or its item identifier, is one that the server was asked for and did not list; the result is the
-- number of placements that went, and every message of the account that is left has a placement.
pub delete_missing_placements_lem :
    (account_id folder_id : ℕ) (server_uids server_item_ids : Option (List ℕ)) (db : MailDb)
    → let (db', n) =
        delete_missing_placements account_id folder_id server_uids server_item_ids db in
      (db'.placements
        ≡ delete_where
            (λ r.
              r.folder_id == folder_id
              && (is_missing server_uids r.remote_uid
                  || is_missing server_item_ids r.remote_item_id))
            db.placements)
      × (length db'.placements + n ≡ length db.placements)
      × All (λ m. is_orphan account_id db'.placements m ≡ false) db'.messages
unfolding delete_missing_placements
delete_missing_placements_lem account_id folder_id server_uids server_item_ids db =
    let by_uid : (MailboxMessage → Bool) =
      λ r. r.folder_id == folder_id && is_missing server_uids r.remote_uid in
    let by_item : (MailboxMessage → Bool) =
      λ r. r.folder_id == folder_id && is_missing server_item_ids r.remote_item_id in
    let first : _ = delete_missing (λ r. r.remote_uid) folder_id server_uids db.placements in
    let second : _ = delete_missing (λ r. r.remote_item_id) folder_id server_item_ids first.0 in
    let db' : _ = record db { placements = second.0 } in
    let kept : _ = purge_orphan_messages-placements account_id db' in
    let n : _ = delete_missing-count (λ r. r.remote_uid) folder_id server_uids db.placements in
    let k : _ = delete_missing-count (λ r. r.remote_item_id) folder_id server_item_ids first.0 in
    let placed : _ = purge_orphan_messages-placed account_id db' in
    (
      kept
          ∙ delete_missing_lem (λ r. r.remote_item_id) folder_id server_item_ids first.0
          ∙ ap (delete_where by_item)
              (delete_missing_lem (λ r. r.remote_uid) folder_id server_uids db.placements)
          ∙ delete_where-twice by_uid by_item db.placements
          ∙ delete_where-ext (λ r. by_uid r || by_item r)
              (λ r.
                r.folder_id == folder_id
                && (is_missing server_uids r.remote_uid
                    || is_missing server_item_ids r.remote_item_id))
              db.placements
              (All-intro
                (λ r. (by_uid r || by_item r) ≡ (
                  r.folder_id == folder_id
                  && (is_missing server_uids r.remote_uid
                      || is_missing server_item_ids r.remote_item_id)))
                (λ r. ground arith) db.placements),
      ap (λ rs. length rs + (first.1 + second.1)) kept ∙ omega (arith, n, k),
      rw kept placed,
    )

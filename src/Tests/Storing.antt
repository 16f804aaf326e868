-- ===== src/Tests/Storing.antt =====
-- The mail store (src/lenovmail/sync/store.py) at concrete tables.
use lenovmail.Models.{MailboxMessage}
use lenovmail.Store.Placements.{upsert_placements}
use lenovmail.Store.Placements.Rows.{has_uid, IsSlot}
use lenovmail.Store.Placements.Written.{payload_of, names_uid, upsert_placements_imap}
use lenovmail.Prelude.{
  ℕ, ◌+◌, ◌≡◌, refl, true, false, ◌&&◌, ◌||◌, none, some, List, [], ◌∷◌, map, ◌==◌, length, All,
}
use lenovmail.Table.{delete_where, exists_where}
use lenovmail.Text.{codes}
use lenovmail.Store.Flags.{apply_flags_by_uid}
use lenovmail.Store.Flags.Grouping.{reported}
use lenovmail.Store.Removal.{is_orphan, delete_missing_placements, is_missing}
use lenovmail.Store.Identity.{move_to, ensure_dedup_hash, IsUnique}
use lenovmail.Store.Upsert.{upsert_messages, IsStored}
use lenovmail.Tests.Samples.{two_threads, header, ids-IsKeyed, messages-IsUnique}
use lenovmail.Store.Flags.Rows.{update_each, apply_flags_by_uid-eq-map}
use lenovmail.Store.Identity.Merging.{ensure_dedup_hash_lem}
use lenovmail.Store.Identity.Uniqueness.{ensure_dedup_hash-IsUnique}
use lenovmail.Store.Removal.Missing.{delete_missing_placements_lem}
use lenovmail.Store.Upsert.Batch.{HaveKeys, upsert_messages_lem}

apply_flags_by_uid-eq-map_example :
    (apply_flags_by_uid 5 ((7, codes "\\Seen" ∷ []) ∷ (8, []) ∷ []) two_threads.placements).0
    ≡ map
        (update_each 5 (reported ((7, codes "\\Seen" ∷ []) ∷ (8, []) ∷ [])))
        two_threads.placements
apply_flags_by_uid-eq-map_example =
    apply_flags_by_uid-eq-map 5 ((7, codes "\\Seen" ∷ []) ∷ (8, []) ∷ []) two_threads.placements
      ((refl, tt), (tt, tt))

delete_missing_placements_lem_example :
    let (db', n) = delete_missing_placements 1 5 (some (7 ∷ [])) none two_threads in
    (db'.placements
      ≡ delete_where
          (λ r.
            r.folder_id == 5
            && (is_missing (some (7 ∷ [])) r.remote_uid || is_missing none r.remote_item_id))
          two_threads.placements)
    × (length db'.placements + n ≡ length two_threads.placements)
    × All (λ m. is_orphan 1 db'.placements m ≡ false) db'.messages
delete_missing_placements_lem_example =
    delete_missing_placements_lem 1 5 (some (7 ∷ [])) none two_threads

ensure_dedup_hash-IsUnique_example : IsUnique (ensure_dedup_hash 1 102 two_threads).1.messages
ensure_dedup_hash-IsUnique_example =
    ensure_dedup_hash-IsUnique 1 102 two_threads (ids-IsKeyed) (messages-IsUnique)

ensure_dedup_hash_lem_example :
    let (id', db') = ensure_dedup_hash 1 102 two_threads in
    (exists_where (λ m. m.id == id' && m.dedup_hash == 102) db'.messages ≡ true)
    × (db'.placements ≡ map (move_to 1 id') two_threads.placements)
unfolding exists_where
ensure_dedup_hash_lem_example = ensure_dedup_hash_lem 1 102 two_threads refl

upsert_messages_lem_example :
    let (rows', dict) =
      upsert_messages 1 20 70 (header 101 ∷ header 300 ∷ header 300 ∷ []) two_threads.messages in
    HaveKeys (header 101 ∷ header 300 ∷ header 300 ∷ []) dict
    × All (IsStored 1 rows') dict
    × IsUnique rows'
upsert_messages_lem_example =
    upsert_messages_lem 1 20 70 (header 101 ∷ header 300 ∷ header 300 ∷ []) two_threads.messages
      (messages-IsUnique)

upsert_placements_imap_example :
    (rows' : List MailboxMessage) × (upsert_placements 5 80
        (header 101 ∷ header 300 ∷ [])
        ((101, 1) ∷ (300, 20) ∷ [])
        two_threads.placements
      ≡ some (rows', length (header 101 ∷ header 300 ∷ [])))
    × ((g uid : ℕ)
        → has_uid g uid rows' ≡ (
            has_uid g uid two_threads.placements
            || (g == 5 && names_uid uid (header 101 ∷ header 300 ∷ []))))
    × All
        (IsSlot (λ m. m.remote_uid) rows')
        (map (payload_of 5 80 ((101, 1) ∷ (300, 20) ∷ [])) (header 101 ∷ header 300 ∷ []))
unfolding exists_where
upsert_placements_imap_example =
    upsert_placements_imap 5 80 (header 101 ∷ header 300 ∷ []) ((101, 1) ∷ (300, 20) ∷ [])
      two_threads.placements ((refl, (refl, tt))) ((refl, (refl, tt))) ((refl, (refl, tt)))

-- ===== src/Store/Upsert/Batch.antt =====
-- The whole of `upsert_messages` (src/lenovmail/sync/store.py).
use lenovmail.Store.Removal.Gone.{elem-delete_where}
use lenovmail.Store.Upsert.Insertion.{
  exists_where-append, IsUnique-insert_new, insert_new-grows, insert_new_complete,
  insert_new-IsStored, ids_by_hash-IsStored, ids_by_hash_complete,
}
use lenovmail.Store.Identity.{IsUnique}
use lenovmail.Table.Laws.{All-delete_where, All-append, All-map, All-map₂}
use lenovmail.Prelude.{
  ℕ, ◌≡◌, ◌∙◌, inl, inr, Bool, true, ◌&&◌, List, [], ◌∷◌, ◌++◌, arith, ◌==◌, ==_refl, Bool-cases,
  All, elem,
}
use lenovmail.Table.{delete_where, exists_where}
use lenovmail.Models.{Message}
use lenovmail.Store.Upsert.{
  Record, has_identity, insert_new, ids_by_hash, has_key, upsert_messages, IsStored, hashes_of,
  insert_payload,
}

-- Every hash of the batch that is stored in the end has a key in the end.
keys_complete :
    (account_id hash : ℕ) (hashes : List ℕ) (dict : List (ℕ × ℕ)) (rows : List Message)
    → elem hash hashes ≡ true
    → exists_where (has_identity account_id hash) rows ≡ true
    → has_key hash (dict ++ ids_by_hash account_id (delete_where (λ h. has_key h dict) hashes) rows)
      ≡ true
keys_complete account_id hash hashes dict rows e h =
    let missing : _ = delete_where (λ k. has_key k dict) hashes in
    exists_where-append (λ k. k.0 == hash) dict (ids_by_hash account_id missing rows)
    ∙ elim (Bool-cases (has_key hash dict)) [
      | inl k ↦ rw k
      | inr k ↦ rw k (
          ids_by_hash_complete account_id missing rows hash
            (elem-delete_where hash (λ x. has_key x dict) hashes ∙ rw (e, k)) h)
    ]

elem-hashes_of :
    (records : List Record) → All (λ r. elem r.dedup_hash (hashes_of records) ≡ true) records
elem-hashes_of [] = tt
elem-hashes_of (r ∷ records) = (
  ground (arith, ==_refl r.dedup_hash),
  All-map (λ q. elem q.dedup_hash (hashes_of records) ≡ true)
      (λ q. elem q.dedup_hash (hashes_of (r ∷ records)) ≡ true) records (λ q h. ground (arith, h))
      (elem-hashes_of records),
)

abbrev pub HaveKeys : List Record → List (ℕ × ℕ) → Type 0
HaveKeys records dict = All (λ r. has_key r.dedup_hash dict ≡ true) records

insert_payload-IsStored :
    (account_id id now : ℕ) (hashes : List ℕ) (existing : List (ℕ × ℕ)) (payload : List Record)
    (rows : List Message)
    → All (IsStored account_id rows) existing
    → let (rows', dict) = insert_payload account_id id now hashes existing payload rows in
      All (IsStored account_id rows') dict
unfolding insert_payload
insert_payload-IsStored account_id id now hashes existing [] rows h = h
insert_payload-IsStored account_id id now hashes existing (r ∷ payload) rows h =
    let (rows', inserted) = insert_new account_id id now (r ∷ payload) rows in
    let dict : _ = existing ++ inserted in
    All-append (IsStored account_id rows') dict
      (ids_by_hash account_id (delete_where (λ k. has_key k dict) hashes) rows')
      (All-append (IsStored account_id rows') existing inserted
        (All-map (IsStored account_id rows) (IsStored account_id rows') existing
          (λ e k.
            insert_new-grows account_id id now (r ∷ payload) rows
              (λ m. has_identity account_id e.0 m && m.id == e.1) k)
          h)
        (insert_new-IsStored account_id id now (r ∷ payload) rows))
      (ids_by_hash-IsStored account_id (delete_where (λ k. has_key k dict) hashes) rows')

insert_payload-keeps :
    (account_id id now : ℕ) (hashes : List ℕ) (existing : List (ℕ × ℕ)) (payload : List Record)
    (rows : List Message) (hash : ℕ)
    → has_key hash existing ≡ true
    → has_key hash (insert_payload account_id id now hashes existing payload rows).1 ≡ true
unfolding insert_payload
insert_payload-keeps account_id id now hashes existing [] rows hash h = h
insert_payload-keeps account_id id now hashes existing (r ∷ payload) rows hash h =
    let (rows', inserted) = insert_new account_id id now (r ∷ payload) rows in
    let dict : _ = existing ++ inserted in
    let missing : _ = delete_where (λ k. has_key k dict) hashes in
    let first : has_key hash dict ≡ true =
      exists_where-append (λ k. k.0 == hash) existing inserted ∙ rw h in
    exists_where-append (λ k. k.0 == hash) dict (ids_by_hash account_id missing rows') ∙ rw first

insert_payload-adds :
    (account_id id now : ℕ) (hashes : List ℕ) (existing : List (ℕ × ℕ)) (payload : List Record)
    (rows : List Message)
    → All (λ r. elem r.dedup_hash hashes ≡ true) payload
    → HaveKeys payload (insert_payload account_id id now hashes existing payload rows).1
unfolding insert_payload
insert_payload-adds account_id id now hashes existing [] rows h = tt
insert_payload-adds account_id id now hashes existing (r ∷ payload) rows h =
    let (rows', inserted) = insert_new account_id id now (r ∷ payload) rows in
    let dict : _ = existing ++ inserted in
    All-map₂ (λ q. elem q.dedup_hash hashes ≡ true)
      (λ q. exists_where (has_identity account_id q.dedup_hash) rows' ≡ true)
      (λ q.
        has_key q.dedup_hash
          (dict ++ ids_by_hash account_id (delete_where (λ k. has_key k dict) hashes) rows')
        ≡ true)
      (r ∷ payload) (λ q e k. keys_complete account_id q.dedup_hash hashes dict rows' e k) h
      (insert_new_complete account_id id now (r ∷ payload) rows)

insert_payload-IsUnique :
    (account_id id now : ℕ) (hashes : List ℕ) (existing : List (ℕ × ℕ)) (payload : List Record)
    (rows : List Message)
    → IsUnique rows
    → IsUnique (insert_payload account_id id now hashes existing payload rows).0
unfolding insert_payload
insert_payload-IsUnique account_id id now hashes existing [] rows u = u
insert_payload-IsUnique account_id id now hashes existing (r ∷ payload) rows u =
    IsUnique-insert_new account_id id now (r ∷ payload) rows u

All-rejoin :
    (P : Record → Type 0) (p : Record → Bool) (rs : List Record)
    → All P (delete_where p rs)
    → ((r : Record) → p r ≡ true → P r)
    → All P rs
unfolding delete_where
All-rejoin P p [] h k = tt
All-rejoin P p (r ∷ rs) h k = elim (Bool-cases (p r)) [
  | inl e ↦ (k r e, All-rejoin P p rs (rw e at h) k)
  | inr e ↦
      let both : P r × All P (delete_where p rs) = rw e at h in (both.0, All-rejoin P p rs both.1 k)
]

pub upsert_messages-HaveKeys :
    (account_id id now : ℕ) (records : List Record) (rows : List Message)
    → HaveKeys records (upsert_messages account_id id now records rows).1
unfolding upsert_messages
upsert_messages-HaveKeys account_id id now records rows =
    let hashes : _ = hashes_of records in
    let existing : _ = ids_by_hash account_id hashes rows in
    let payload : _ = delete_where (λ r. has_key r.dedup_hash existing) records in
    let dict : _ = (insert_payload account_id id now hashes existing payload rows).1 in
    All-rejoin (λ r. has_key r.dedup_hash dict ≡ true) (λ r. has_key r.dedup_hash existing) records
      (insert_payload-adds account_id id now hashes existing payload rows (
        All-delete_where (λ r. elem r.dedup_hash hashes ≡ true) (λ r. has_key r.dedup_hash existing)
          records (elem-hashes_of records)))
      (λ r e. insert_payload-keeps account_id id now hashes existing payload rows r.dedup_hash e)

-- Writing a batch gives every record of it an identifier, each identifier that is given is that of a
-- stored message of the account with that hash, and no two messages of an account have one hash
-- afterwards, if none had before; repeated records in the batch are no exception.
pub upsert_messages_lem :
    (account_id id now : ℕ) (records : List Record) (rows : List Message)
    → IsUnique rows
    → let (rows', dict) = upsert_messages account_id id now records rows in
      HaveKeys records dict × All (IsStored account_id rows') dict × IsUnique rows'
unfolding upsert_messages
upsert_messages_lem account_id id now records rows u =
    let hashes : _ = hashes_of records in
    let existing : _ = ids_by_hash account_id hashes rows in
    let payload : _ = delete_where (λ r. has_key r.dedup_hash existing) records in
    (
      upsert_messages-HaveKeys account_id id now records rows,
      insert_payload-IsStored account_id id now hashes existing payload rows
          (ids_by_hash-IsStored account_id hashes rows),
      insert_payload-IsUnique account_id id now hashes existing payload rows u,
    )

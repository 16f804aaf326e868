-- ===== src/Store/Placements/Written.antt =====
-- What `upsert_placements` of src/lenovmail/sync/store.py has written.
use lenovmail.Store.Placements.Rows.{
  has_uid, ArePaired, IsSlot, write_rows, upsert_rows-write_rows, write_rows-IsSlot,
  has_uid-write_rows,
}
use mathlib.Core.Option
use lenovmail.Store.Upsert.Batch.{HaveKeys}
use lenovmail.Store.Upsert.{Record, has_key}
use lenovmail.Table.Laws.{All-map}
use mathlib.Core.Option.{some-injective}
use mathlib.Core.Bool.{false≢true}
use lenovmail.Prelude.{
  ℕ, suc, ◌≡◌, refl, ap, ◌∙◌, inl, inr, Bool, true, false, ◌&&◌, ◌||◌, Option, none, some, List, [],
  ◌∷◌, map, arith, ◌==◌, ==_refl, Bool-cases, length, is_some, is_none, get_or, All, opt_eq,
}
use lenovmail.Table.{select_where, exists_where}
use lenovmail.Models.{MailboxMessage}
use lenovmail.Store.Placements.{
  placement_payload, id_of, with_payload, kept_payloads, is_item_row, is_uid_row, same_value,
  conflicts, upsert_rows, upsert_placements, rows_of, write_items,
}

-- A record of the IMAP path.
abbrev pub is_imap : Record → Bool
is_imap r = is_none r.remote_item_id && is_some r.uid

id_of-has_key : (hash : ℕ) (dict : List (ℕ × ℕ)) → is_some (id_of hash dict) ≡ has_key hash dict
unfolding exists_where
id_of-has_key hash [] = refl
id_of-has_key hash (e ∷ dict) = elim (Bool-cases (e.0 == hash)) [
  | inl k ↦ rw k
  | inr k ↦ rw k (id_of-has_key hash dict)
]

-- The payload of a record whose hash has an identifier.
abbrev pub payload_of : ℕ → ℕ → List (ℕ × ℕ) → Record → MailboxMessage
payload_of folder_id now ids r =
    placement_payload folder_id r (get_or (id_of r.dedup_hash ids) 0) now

with_payload-some :
    (folder_id now : ℕ) (r : Record) (o : Option ℕ) (rest : List (Record × MailboxMessage))
    → is_some o ≡ true
    → with_payload folder_id now r o rest
      ≡ (r, placement_payload folder_id r (get_or o 0) now) ∷ rest
with_payload-some folder_id now r none rest h = absurd (false≢true h)
with_payload-some folder_id now r (some id) rest h = refl

kept_payloads_lem :
    (folder_id now : ℕ) (records : List Record) (ids : List (ℕ × ℕ))
    → HaveKeys records ids
    → kept_payloads folder_id now records ids
      ≡ map (λ r. (r, payload_of folder_id now ids r)) records
unfolding kept_payloads
kept_payloads_lem folder_id now [] ids h = refl
kept_payloads_lem folder_id now (r ∷ records) ids h =
    with_payload-some folder_id now r (id_of r.dedup_hash ids)
      (kept_payloads folder_id now records ids) (id_of-has_key r.dedup_hash ids ∙ h.0)
    ∙ ap (λ rest. (r, payload_of folder_id now ids r) ∷ rest)
        (kept_payloads_lem folder_id now records ids h.1)

rows_of-All :
    (p : Record → Bool) (g : Record → MailboxMessage) (records : List Record)
    → All (λ r. p r ≡ true) records
    → rows_of p (map (λ r. (r, g r)) records) ≡ map g records
unfolding select_where
rows_of-All p g [] h = refl
rows_of-All p g (r ∷ records) h = rw h.0 (ap (λ rest. g r ∷ rest) (rows_of-All p g records h.1))

rows_of_none :
    (p : Record → Bool) (g : Record → MailboxMessage) (records : List Record)
    → All (λ r. p r ≡ false) records
    → rows_of p (map (λ r. (r, g r)) records) ≡ []
unfolding select_where
rows_of_none p g [] h = refl
rows_of_none p g (r ∷ records) h = rw h.0 (rows_of_none p g records h.1)

-- The records name the UID.
abbrev pub names_uid : ℕ → List Record → Bool
names_uid uid records = exists_where (λ r. opt_eq r.uid uid) records

abbrev pub ImapRecords : List Record → Type 0
ImapRecords records = All (λ r. is_imap r ≡ true) records

-- No two records have one UID.
abbrev pub AreDistinct : List Record → Type 0
AreDistinct [] = Unit
AreDistinct (r ∷ records) =
    (exists_where (λ s. same_value r.uid s.uid) records ≡ false) × AreDistinct records

length-map {ℓ κ} :
    {A : Type ℓ} {B : Type κ} (f : A → B) (xs : List A) → length (map f xs) ≡ length xs
length-map f [] = refl
length-map f (x ∷ xs) = ap suc (length-map f xs)

module _ (folder_id now : ℕ) (ids : List (ℕ × ℕ)) where
  conflicts-payload_of :
      (r : Record) (records : List Record)
      → exists_where
          (conflicts (λ m. m.remote_uid) (payload_of folder_id now ids r))
          (map (payload_of folder_id now ids) records)
        ≡ exists_where (λ s. same_value r.uid s.uid) records
  unfolding exists_where
  conflicts-payload_of r [] = refl
  conflicts-payload_of r (s ∷ records) =
      ground (arith, ==_refl folder_id, conflicts-payload_of r records)

  ArePaired-payload_of :
      (records : List Record)
      → AreDistinct records
      → ArePaired (λ m. m.remote_uid) (map (payload_of folder_id now ids) records)
  ArePaired-payload_of [] d = tt
  ArePaired-payload_of (r ∷ records) d =
      (conflicts-payload_of r records ∙ d.0, ArePaired-payload_of records d.1)

  has_uid-payload_of :
      (g uid : ℕ) (records : List Record)
      → has_uid g uid (map (payload_of folder_id now ids) records)
        ≡ (g == folder_id && names_uid uid records)
  unfolding exists_where
  has_uid-payload_of g uid [] = ground arith
  has_uid-payload_of g uid (r ∷ records) = ground (arith, has_uid-payload_of g uid records)

  -- The rows that a batch of the IMAP path leaves.
  abbrev pub placed : List Record → List MailboxMessage → List MailboxMessage
  placed records rows =
      write_rows (λ m. m.remote_uid) (map (payload_of folder_id now ids) records) rows

  upsert_placements-placed :
      (records : List Record) (rows : List MailboxMessage)
      → ImapRecords records
      → AreDistinct records
      → HaveKeys records ids
      → upsert_placements folder_id now records ids rows
        ≡ some (placed records rows, length records)
  unfolding upsert_placements upsert_rows write_items
  upsert_placements-placed records rows i d k =
      let g : (Record → MailboxMessage) = payload_of folder_id now ids in
      let kept : _ = kept_payloads_lem folder_id now records ids k in
      let uids : _ =
        rows_of-All is_uid_row g records
          (All-map (λ r. is_imap r ≡ true) (λ r. is_uid_row r ≡ true) records (λ r h. h) i) in
      let items : _ = rows_of_none is_item_row g records (
        All-map (λ r. is_imap r ≡ true) (λ r. is_item_row r ≡ false) records (λ r h. ground arith)
          i) in
      let done : _ =
        upsert_rows-write_rows (λ m. m.remote_uid) (map g records) rows
          (ArePaired-payload_of records d) in
      let all : _ = map (λ r. (r, g r)) records in
      ap (λ ks. write_items ks (upsert_rows (λ m. m.remote_uid) (rows_of is_uid_row ks) rows)) kept
      ∙ ap (write_items all) (ap (λ ps. upsert_rows (λ m. m.remote_uid) ps rows) uids ∙ done)
      ∙ ap
          (λ ps.
            Option.map (λ (rs : List MailboxMessage). (rs, length all))
              (upsert_rows (λ m. m.remote_item_id) ps (placed records rows)))
          items
      ∙ ap (λ n. some (placed records rows, n)) (length-map (λ r. (r, g r)) records)

-- A batch of the IMAP path whose UIDs are distinct and whose messages are stored is written without a
-- refusal: each record counts once, the UIDs of the folder are afterwards the old ones and those of
-- the batch, no other folder gets or loses a UID, and every row in the slot of a record is its payload.
pub upsert_placements_imap :
    (folder_id now : ℕ) (records : List Record) (ids : List (ℕ × ℕ)) (rows : List MailboxMessage)
    → ImapRecords records
    → AreDistinct records
    → HaveKeys records ids
    → (rows' : List MailboxMessage) × (upsert_placements folder_id now records ids rows
        ≡ some (rows', length records))
      × ((g uid : ℕ)
          → has_uid g uid rows' ≡ (has_uid g uid rows || (g == folder_id && names_uid uid records)))
      × All (IsSlot (λ m. m.remote_uid) rows') (map (payload_of folder_id now ids) records)
upsert_placements_imap folder_id now records ids rows i d k = (
  placed folder_id now ids records rows,
  upsert_placements-placed folder_id now ids records rows i d k,
  (λ g uid.
      has_uid-write_rows g uid (map (payload_of folder_id now ids) records) rows
      ∙ ap (λ b. has_uid g uid rows || b) (has_uid-payload_of folder_id now ids g uid records)),
  write_rows-IsSlot (λ m. m.remote_uid) (map (payload_of folder_id now ids) records) rows
      (ArePaired-payload_of folder_id now ids records d),
)

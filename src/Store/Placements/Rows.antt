-- ===== src/Store/Placements/Rows.antt =====
-- The rows that the statements of `upsert_placements` (src/lenovmail/sync/store.py) write, and their
-- UIDs.
use lenovmail.Table.Laws.{All-update_where, All-after_update, All-append, All-intro, All-map}
use mathlib.Core.Bool.{false≢true}
use lenovmail.Prelude.{
  ℕ, ◌≡◌, refl, sym, ap, ◌∙◌, inl, inr, Bool, true, false, ◌&&◌, ◌||◌, Option, some, List, [], ◌∷◌,
  arith, ◌==◌, Bool-cases, is_some, All, opt_eq,
}
use lenovmail.Table.{update_where, exists_where}
use lenovmail.Store.Upsert.Insertion.{exists_where-append, exists_where-none}
use lenovmail.Models.{MailboxMessage}
use lenovmail.Store.Placements.{conflicts, upsert_row, upsert_rows}

-- The folder has a placement with this UID.
abbrev pub has_uid : ℕ → ℕ → List MailboxMessage → Bool
has_uid folder_id uid rows =
    exists_where (λ r. r.folder_id == folder_id && opt_eq r.remote_uid uid) rows

abbrev pub is_uid : ℕ → ℕ → MailboxMessage → Bool
is_uid folder_id uid r = r.folder_id == folder_id && opt_eq r.remote_uid uid

-- A payload of a statement on UIDs.
abbrev pub IsUidRow : ℕ → MailboxMessage → Type 0
IsUidRow folder_id p = (p.folder_id ≡ folder_id) × (is_some p.remote_uid ≡ true)

-- Rows that conflict have the same UID in the same folder.
pub conflicts-is_uid :
    (folder_id uid : ℕ) (p r : MailboxMessage)
    → conflicts (λ m. m.remote_uid) p r ≡ true
    → is_uid folder_id uid p ≡ is_uid folder_id uid r
conflicts-is_uid folder_id uid p r h = ground arith

exists-update_same :
    (p c : MailboxMessage → Bool) (f : MailboxMessage) (rows : List MailboxMessage)
    → ((r : MailboxMessage) → c r ≡ true → p f ≡ p r)
    → exists_where p (update_where c (λ _. f) rows) ≡ exists_where p rows
unfolding exists_where update_where
exists-update_same p c f [] h = refl
exists-update_same p c f (r ∷ rows) h = elim (Bool-cases (c r)) [
  | inl e ↦ rw e (ground (arith, h r e, exists-update_same p c f rows h))
  | inr e ↦ rw e (ground (arith, exists-update_same p c f rows h))
]

exists-found :
    (p c : MailboxMessage → Bool) (f : MailboxMessage) (rows : List MailboxMessage)
    → ((r : MailboxMessage) → c r ≡ true → p f ≡ p r)
    → exists_where c rows ≡ true
    → p f ≡ true
    → exists_where p rows ≡ true
unfolding exists_where
exists-found p c f [] h e k = absurd (false≢true e)
exists-found p c f (r ∷ rows) h e k = elim (Bool-cases (c r)) [
  | inl d ↦ ground (arith, h r d)
  | inr d ↦ ground (arith, exists-found p c f rows h (rw d at e) k)
]

pub or_absorbed : (a b : Bool) → a ≡ true → a ≡ (a || b)
or_absorbed true b h = refl
or_absorbed false b h = absurd (false≢true h)

pub or_nothing : (a b : Bool) → b ≡ false → a ≡ (a || b)
or_nothing true b h = refl
or_nothing false b h = sym h

pub has_uid-upsert_row :
    (folder_id uid : ℕ) (p : MailboxMessage) (rows : List MailboxMessage)
    → has_uid folder_id uid (upsert_row (λ m. m.remote_uid) p rows)
      ≡ (has_uid folder_id uid rows || is_uid folder_id uid p)
unfolding upsert_row exists_where
has_uid-upsert_row folder_id uid p rows =
    let c : (MailboxMessage → Bool) = conflicts (λ m. m.remote_uid) p in
    elim (Bool-cases (exists_where c rows)) [
      | inl e ↦
          let same : _ =
            exists-update_same (is_uid folder_id uid) c p rows (conflicts-is_uid folder_id uid p) in
          elim (Bool-cases (is_uid folder_id uid p)) [
            | inl d ↦
                let there : has_uid folder_id uid rows ≡ true =
                  exists-found (is_uid folder_id uid) c p rows (conflicts-is_uid folder_id uid p) e
                    d in
                rw e
                  (same ∙ or_absorbed (has_uid folder_id uid rows) (is_uid folder_id uid p) there)
            | inr d ↦
                rw e (same ∙ or_nothing (has_uid folder_id uid rows) (is_uid folder_id uid p) d)
          ]
      | inr e ↦ rw e (exists_where-append (is_uid folder_id uid) rows (p ∷ []) ∙ ground arith)
    ]

-- The statement is refused only if two of its rows conflict.
abbrev pub ArePaired : (MailboxMessage → Option ℕ) → List MailboxMessage → Type 0
ArePaired column [] = Unit
ArePaired column (p ∷ ps) = (exists_where (conflicts column p) ps ≡ false) × ArePaired column ps

-- Every row in the slot of `p` is `p`.
abbrev pub IsSlot : (MailboxMessage → Option ℕ) → List MailboxMessage → MailboxMessage → Type 0
IsSlot column rows p = All (λ r. conflicts column p r ≡ true → r ≡ p) rows

module _ (column : MailboxMessage → Option ℕ) where
  IsSlot-upsert_row :
      (p : MailboxMessage) (rows : List MailboxMessage) → IsSlot column (upsert_row column p rows) p
  unfolding upsert_row
  IsSlot-upsert_row p rows =
      let P : (MailboxMessage → Type 0) = λ r. conflicts column p r ≡ true → r ≡ p in
      elim (Bool-cases (exists_where (conflicts column p) rows)) [
        | inl e ↦ rw e (
            All-after_update P (conflicts column p) (λ _. p) rows (λ r _ _. refl)
              (All-intro (λ r. conflicts column p r ≡ false → P r)
                (λ r n y. absurd (false≢true (sym n ∙ y))) rows))
        | inr e ↦ rw e (
            All-append P rows (p ∷ [])
              (All-map (λ r. conflicts column p r ≡ false) P rows
                (λ r n y. absurd (false≢true (sym n ∙ y)))
                (exists_where-none (conflicts column p) rows e))
              (λ _. refl, tt))
      ]

  IsSlot-kept :
      (p q : MailboxMessage) (rows : List MailboxMessage)
      → conflicts column p q ≡ false
      → IsSlot column rows p
      → IsSlot column (upsert_row column q rows) p
  unfolding upsert_row
  IsSlot-kept p q rows n h =
      let P : (MailboxMessage → Type 0) = λ r. conflicts column p r ≡ true → r ≡ p in
      let out : P q = λ y. absurd (false≢true (sym n ∙ y)) in
      elim (Bool-cases (exists_where (conflicts column q) rows)) [
        | inl e ↦ rw e (All-update_where P (conflicts column q) (λ _. q) rows (λ r _ _. out) h)
        | inr e ↦ rw e (All-append P rows (q ∷ []) h (out, tt))
      ]

  -- The rows after the statement, one row after the other.
  pub write_rows : List MailboxMessage → List MailboxMessage → List MailboxMessage
  write_rows [] rows = rows
  write_rows (p ∷ payload) rows = write_rows payload (upsert_row column p rows)

  pub upsert_rows-write_rows :
      (payload rows : List MailboxMessage)
      → ArePaired column payload
      → upsert_rows column payload rows ≡ some (write_rows payload rows)
  unfolding upsert_rows write_rows
  upsert_rows-write_rows [] rows a = refl
  upsert_rows-write_rows (p ∷ payload) rows a =
      rw a.0 (upsert_rows-write_rows payload (upsert_row column p rows) a.1)

  write_rows-keeps_IsSlot :
      (p : MailboxMessage) (payload rows : List MailboxMessage)
      → exists_where (conflicts column p) payload ≡ false
      → IsSlot column rows p
      → IsSlot column (write_rows payload rows) p
  unfolding write_rows exists_where
  write_rows-keeps_IsSlot p [] rows n h = h
  write_rows-keeps_IsSlot p (q ∷ payload) rows n h =
      write_rows-keeps_IsSlot p payload (upsert_row column q rows) (ground arith)
        (IsSlot-kept p q rows (ground arith) h)

  -- Every slot that the statement names holds its row.
  pub write_rows-IsSlot :
      (payload rows : List MailboxMessage)
      → ArePaired column payload
      → All (IsSlot column (write_rows payload rows)) payload
  unfolding write_rows
  write_rows-IsSlot [] rows a = tt
  write_rows-IsSlot (p ∷ payload) rows a = (
    write_rows-keeps_IsSlot p payload (upsert_row column p rows) a.0 (IsSlot-upsert_row p rows),
    write_rows-IsSlot payload (upsert_row column p rows) a.1,
  )

pub has_uid-write_rows :
    (folder_id uid : ℕ) (payload rows : List MailboxMessage)
    → has_uid folder_id uid (write_rows (λ m. m.remote_uid) payload rows)
      ≡ (has_uid folder_id uid rows || has_uid folder_id uid payload)
unfolding write_rows exists_where
has_uid-write_rows folder_id uid [] rows = or_nothing (has_uid folder_id uid rows) false refl
has_uid-write_rows folder_id uid (p ∷ payload) rows =
    has_uid-write_rows folder_id uid payload (upsert_row (λ m. m.remote_uid) p rows)
    ∙ ap (λ b. b || has_uid folder_id uid payload) (has_uid-upsert_row folder_id uid p rows)
    ∙ ground arith

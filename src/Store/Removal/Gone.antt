-- ===== src/Store/Removal/Gone.antt =====
-- The values that src/lenovmail/sync/store.py finds gone from the server.
use lenovmail.Table.Laws.{delete_where-none, All-intro, All-map}
use lenovmail.Prelude.{
  ℕ, ◌≡◌, refl, sym, ap, ◌∙◌, inl, inr, Bool, true, false, not, ◌&&◌, Option, none, some, List, [],
  ◌∷◌, arith, ◌==◌, ==_iff, ==_refl, Bool-cases, All, elem, opt_in,
}
use lenovmail.Table.{delete_where}
use lenovmail.Models.{MailboxMessage}
use lenovmail.Store.Removal.{in_folder, delete_missing, is_missing, is_nil, column_values}

module _ {ℓ} {A : Type ℓ} where
  pub delete_where-ext :
      (p q : A → Bool) (rs : List A)
      → All (λ r. p r ≡ q r) rs
      → delete_where p rs ≡ delete_where q rs
  unfolding delete_where
  delete_where-ext p q [] h = refl
  delete_where-ext p q (r ∷ rs) h = rw (h.0, delete_where-ext p q rs h.1)

pub elem-delete_where :
    (v : ℕ) (q : ℕ → Bool) (vs : List ℕ) → elem v (delete_where q vs) ≡ (elem v vs && not (q v))
unfolding delete_where
elem-delete_where v q [] = refl
elem-delete_where v q (w ∷ vs) =
    let rest : _ = elem-delete_where v q vs in
    elim (Bool-cases (q w)) [
      | inl e ↦ elim (Bool-cases (v == w)) [
        | inl n ↦
            let same : q v ≡ true = ap q ((==_iff v w).0 n) ∙ e in
            rw (e, n) (ground (arith, rest, same))
        | inr n ↦ rw (e, n) rest
      ]
      | inr e ↦ elim (Bool-cases (v == w)) [
        | inl n ↦
            let same : q v ≡ false = ap q ((==_iff v w).0 n) ∙ e in rw (e, n) (ground (arith, same))
        | inr n ↦ rw (e, n) rest
      ]
    ]

HasValue : (MailboxMessage → Option ℕ) → ℕ → List ℕ → MailboxMessage → Type 0
HasValue column folder_id values r =
    (r.folder_id == folder_id) ≡ true → (v : ℕ) → column r ≡ some v → elem v values ≡ true

column_values-here :
    (column : MailboxMessage → Option ℕ) (folder_id : ℕ) (r : MailboxMessage)
    (rows : List MailboxMessage)
    → HasValue column folder_id (column_values column folder_id (r ∷ rows)) r
unfolding HasValue column_values
column_values-here column folder_id r rows e v c = rw e (rw c (ground (arith, ==_refl v)))

column_values-there :
    (column : MailboxMessage → Option ℕ) (folder_id : ℕ) (r : MailboxMessage)
    (rows : List MailboxMessage) (v : ℕ)
    → elem v (column_values column folder_id rows) ≡ true
    → elem v (column_values column folder_id (r ∷ rows)) ≡ true
unfolding column_values
column_values-there column folder_id r rows v h = ground (arith, h)

column_values-elem :
    (column : MailboxMessage → Option ℕ) (folder_id : ℕ) (rows : List MailboxMessage)
    → All (HasValue column folder_id (column_values column folder_id rows)) rows
unfolding HasValue
column_values-elem column folder_id [] = tt
column_values-elem column folder_id (r ∷ rows) = (
  column_values-here column folder_id r rows,
  All-map (HasValue column folder_id (column_values column folder_id rows))
      (HasValue column folder_id (column_values column folder_id (r ∷ rows))) rows
      (λ a h e v c. column_values-there column folder_id r rows v (h e v c))
      (column_values-elem column folder_id rows),
)

is_nil-elem : (v : ℕ) (vs : List ℕ) → is_nil vs ≡ true → elem v vs ≡ false
is_nil-elem v [] h = refl
is_nil-elem v (w ∷ vs) h = absurd (cc)

-- What is gone is what the folder has and the server does not list.
opt_in-gone :
    (server values : List ℕ) (c : Option ℕ)
    → ((v : ℕ) → c ≡ some v → elem v values ≡ true)
    → opt_in c (delete_where (λ v. elem v server) values) ≡ is_missing (some server) c
opt_in-gone server values none h = refl
opt_in-gone server values (some v) h =
    elem-delete_where v (λ w. elem w server) values ∙ rw (h v refl)

opt_in-nil : (vs : List ℕ) (c : Option ℕ) → is_nil vs ≡ true → opt_in c vs ≡ false
opt_in-nil vs none h = refl
opt_in-nil vs (some v) h = is_nil-elem v vs h

in_folder-gone :
    (column : MailboxMessage → Option ℕ) (folder_id : ℕ) (server : List ℕ)
    (rows : List MailboxMessage)
    → All
        (λ r.
          in_folder column folder_id
            (delete_where (λ v. elem v server) (column_values column folder_id rows))
            r
          ≡ (r.folder_id == folder_id && is_missing (some server) (column r)))
        rows
unfolding HasValue
in_folder-gone column folder_id server rows =
    let values : _ = column_values column folder_id rows in
    All-map (HasValue column folder_id values)
      (λ r.
        in_folder column folder_id (delete_where (λ v. elem v server) values) r
        ≡ (r.folder_id == folder_id && is_missing (some server) (column r)))
      rows
      (λ r h. elim (Bool-cases (r.folder_id == folder_id)) [
        | inl e ↦ rw e (opt_in-gone server values (column r) (h e))
        | inr e ↦ rw e
      ])
      (column_values-elem column folder_id rows)

delete_missing-nil :
    (column : MailboxMessage → Option ℕ) (folder_id : ℕ) (server : List ℕ)
    (rows : List MailboxMessage)
    → (delete_missing column folder_id (some server) rows).0
      ≡ delete_where
          (in_folder column folder_id
            (delete_where (λ v. elem v server) (column_values column folder_id rows)))
          rows
unfolding delete_missing
delete_missing-nil column folder_id server rows =
    let gone : _ = delete_where (λ v. elem v server) (column_values column folder_id rows) in
    elim (Bool-cases (is_nil gone)) [
      | inl e ↦ rw e (
          sym (
            delete_where-none (in_folder column folder_id gone) rows (
              All-intro (λ r. in_folder column folder_id gone r ≡ false)
                (λ r. ground (arith, opt_in-nil gone (column r) e)) rows)))
      | inr e ↦ rw e
    ]

pub delete_missing_lem :
    (column : MailboxMessage → Option ℕ) (folder_id : ℕ) (server : Option (List ℕ))
    (rows : List MailboxMessage)
    → (delete_missing column folder_id server rows).0
      ≡ delete_where (λ r. r.folder_id == folder_id && is_missing server (column r)) rows
unfolding delete_missing
delete_missing_lem column folder_id none rows = sym (
    delete_where-none (λ r. r.folder_id == folder_id && false) rows
      (All-intro (λ r. (r.folder_id == folder_id && false) ≡ false) (λ r. ground arith) rows))
delete_missing_lem column folder_id (some server) rows =
    delete_missing-nil column folder_id server rows
    ∙ delete_where-ext
        (in_folder column folder_id
          (delete_where (λ v. elem v server) (column_values column folder_id rows)))
        (λ r. r.folder_id == folder_id && is_missing (some server) (column r)) rows
        (in_folder-gone column folder_id server rows)

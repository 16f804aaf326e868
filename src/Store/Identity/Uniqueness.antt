-- ===== src/Store/Identity/Uniqueness.antt =====
-- The unique index on account and hash, under `ensure_dedup_hash` of src/lenovmail/sync/store.py.
use lenovmail.Table.Keys.{IsKeyed}
use mathlib.Core.Option.{some-injective, some-ne-none}
use lenovmail.Prelude.{
  ℕ, ◌≡◌, sym, ap, ◌∙◌, inl, inr, Bool, true, false, none, some, List, [], ◌∷◌, arith, ◌==◌,
  Bool-cases, Option-cases, All, opt_eq,
}
use lenovmail.Table.{select_where, update_where, delete_where, exists_where}
use lenovmail.Table.Laws.{All-delete_where, All-map, All-map₂}
use lenovmail.Models.{Message, MailDb}
use lenovmail.Store.Removal.{delete_messages}
use lenovmail.Store.Identity.{
  first_row, is_twin, current_hash, ensure_dedup_hash, same_identity, IsUnique, merge_twin,
  set_hash, merge_or_set,
}

pub first_row_sound :
    (p : Message → Bool) (ms : List Message) (m : Message)
    → first_row (select_where p ms) ≡ some m
    → p m ≡ true
unfolding select_where
first_row_sound p [] m h = absurd (cc)
first_row_sound p (n ∷ ms) m h = elim (Bool-cases (p n)) [
  | inl e ↦ ap p (sym (some-injective n m (rw e at h))) ∙ e
  | inr e ↦ first_row_sound p ms m (rw e at h)
]

first_row-none :
    (p : Message → Bool) (ms : List Message)
    → first_row (select_where p ms) ≡ none
    → All (λ m. p m ≡ false) ms
unfolding select_where
first_row-none p [] h = tt
first_row-none p (n ∷ ms) h = elim (Bool-cases (p n)) [
  | inl e ↦ absurd (some-ne-none n (rw e at h))
  | inr e ↦ (e, first_row-none p ms (rw e at h))
]

pub first_row-exists :
    (p q : Message → Bool) (ms : List Message) (m : Message)
    → first_row (select_where p ms) ≡ some m
    → q m ≡ true
    → exists_where q ms ≡ true
unfolding select_where exists_where
first_row-exists p q [] m h e = absurd (cc)
first_row-exists p q (n ∷ ms) m h e = elim (Bool-cases (p n)) [
  | inl d ↦ let here : q n ≡ true = ap q (some-injective n m (rw d at h)) ∙ e in rw here
  | inr d ↦ ground (arith, first_row-exists p q ms m (rw d at h) e)
]

-- A row of a result is still there after a deletion that does not take it.
pub first_row-kept :
    (p q r : Message → Bool) (ms : List Message) (m : Message)
    → first_row (select_where p ms) ≡ some m
    → q m ≡ false
    → r m ≡ true
    → exists_where r (delete_where q ms) ≡ true
unfolding select_where delete_where exists_where
first_row-kept p q r [] m h out e = absurd (cc)
first_row-kept p q r (n ∷ ms) m h out e = elim (Bool-cases (p n)) [
  | inl d ↦
      let same : n ≡ m = some-injective n m (rw d at h) in
      let stays : q n ≡ false = ap q same ∙ out in
      let here : r n ≡ true = ap r same ∙ e in rw stays (rw here)
  | inr d ↦
      let rest : _ = first_row-kept p q r ms m (rw d at h) out e in
      elim (Bool-cases (q n)) [ inl k ↦ rw k rest | inr k ↦ rw k (ground (arith, rest)) ]
]

IsUnique-delete_where :
    (p : Message → Bool) (ms : List Message) → IsUnique ms → IsUnique (delete_where p ms)
unfolding delete_where
IsUnique-delete_where p [] u = tt
IsUnique-delete_where p (m ∷ ms) u = elim (Bool-cases (p m)) [
  | inl e ↦ rw e (IsUnique-delete_where p ms u.1)
  | inr e ↦
      rw e
        (All-delete_where (λ n. same_identity m n ≡ false) p ms u.0, IsUnique-delete_where p ms u.1)
]

All-update_each {ℓ} :
    {A : Type ℓ} (P : A → Type 0) (p : A → Bool) (f : A → A) (rs : List A)
    → All (λ r. (p r ≡ true → P (f r)) × (p r ≡ false → P r)) rs
    → All P (update_where p f rs)
unfolding update_where
All-update_each P p f [] h = tt
All-update_each P p f (r ∷ rs) h = elim (Bool-cases (p r)) [
  | inl e ↦ rw e (h.0.0 e, All-update_each P p f rs h.1)
  | inr e ↦ rw e (h.0.1 e, All-update_each P p f rs h.1)
]

abbrev pub with_hash : ℕ → Message → Message
with_hash desired m = record m { dedup_hash = desired }

-- A hash that no other row has may be given to a row.
IsUnique-set_hash :
    (id desired : ℕ) (ms : List Message)
    → All (λ m. is_twin id desired m ≡ false) ms
    → IsKeyed (λ m. m.id) ms
    → IsUnique ms
    → IsUnique (update_where (λ m. m.id == id) (with_hash desired) ms)
unfolding update_where
IsUnique-set_hash id desired [] t k u = tt
IsUnique-set_hash id desired (m ∷ ms) t k u =
    let rest : _ = IsUnique-set_hash id desired ms t.1 k.1 u.1 in
    elim (Bool-cases (m.id == id)) [
      | inl e ↦ rw e (
        All-update_each (λ n. same_identity (with_hash desired m) n ≡ false) (λ n. n.id == id)
            (with_hash desired) ms
            (All-map₂ (λ n. is_twin id desired n ≡ false) (λ n. (n.id == m.id) ≡ false)
              (λ n.
                ((n.id == id) ≡ true
                  → same_identity (with_hash desired m) (with_hash desired n) ≡ false)
                × ((n.id == id) ≡ false → same_identity (with_hash desired m) n ≡ false))
              ms (λ n a b. (λ c. ground arith, λ c. ground arith)) t.1 k.0),
        rest,
      )
      | inr e ↦ rw e (
        All-update_each (λ n. same_identity m n ≡ false) (λ n. n.id == id) (with_hash desired) ms
            (All-map (λ n. same_identity m n ≡ false)
              (λ n.
                ((n.id == id) ≡ true → same_identity m (with_hash desired n) ≡ false)
                × ((n.id == id) ≡ false → same_identity m n ≡ false))
              ms (λ n a. (λ c. ground (arith, t.0), λ c. a)) u.0),
        rest,
      )
    ]

-- The rows of the messages stay unique in account and hash, whichever branch is taken.
pub ensure_dedup_hash-IsUnique :
    (id desired : ℕ) (db : MailDb)
    → IsKeyed (λ m. m.id) db.messages
    → IsUnique db.messages
    → IsUnique (ensure_dedup_hash id desired db).1.messages
unfolding ensure_dedup_hash merge_or_set merge_twin set_hash delete_messages
ensure_dedup_hash-IsUnique id desired db k u =
    let twin : _ = first_row (select_where (is_twin id desired) db.messages) in
    elim (Bool-cases (opt_eq (current_hash id db.messages) desired)) [
      | inl e ↦ rw e u
      | inr e ↦ elim (Option-cases twin) [
        | inl n ↦
            rw (e, n)
              (IsUnique-set_hash id desired db.messages
                (first_row-none (is_twin id desired) db.messages n) k u)
        | inr n ↦ rw (e, n.1) (IsUnique-delete_where (λ m. m.id == id) db.messages u)
      ]
    ]

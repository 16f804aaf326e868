-- ===== src/Store/Upsert/Insertion.antt =====
-- The statements of `upsert_messages` (src/lenovmail/sync/store.py), one by one.
use mathlib.Core.Path.{subst}
use lenovmail.Store.Identity.{same_identity, IsUnique}
use lenovmail.Table.Laws.{select_where_sound, All-select_where, All-append, All-map, All-map₂}
use lenovmail.Prelude.{
  ℕ, ◌+◌, ◌≡◌, refl, sym, ap, ◌∙◌, inl, inr, Bool, true, false, ◌&&◌, ◌||◌, List, [], ◌∷◌, ◌++◌,
  map, arith, ◌==◌, ==_iff, ==_refl, Bool-cases, All, elem,
}
use lenovmail.Table.{select_where, exists_where}
use lenovmail.Models.{Message}
use lenovmail.Store.Upsert.{
  Record, has_identity, insert_new, ids_by_hash, has_key, IsStored, new_message,
}

pub exists_where-append {ℓ} :
    {A : Type ℓ} (p : A → Bool) (xs ys : List A)
    → exists_where p (xs ++ ys) ≡ (exists_where p xs || exists_where p ys)
unfolding exists_where
exists_where-append p [] ys = refl
exists_where-append p (x ∷ xs) ys = ground (arith, exists_where-append p xs ys)

exists-select {ℓ} :
    {A : Type ℓ} (p q : A → Bool) (xs : List A)
    → ((a : A) → q a ≡ true → p a ≡ true)
    → exists_where q xs ≡ true
    → exists_where q (select_where p xs) ≡ true
unfolding exists_where select_where
exists-select p q [] h e = e
exists-select p q (x ∷ xs) h e = elim (Bool-cases (q x)) [
  | inl k ↦ rw (h x k) (rw k)
  | inr k ↦
      let rest : _ = exists-select p q xs h (rw k at e) in
      elim (Bool-cases (p x)) [ inl d ↦ rw d (ground (arith, rest)) | inr d ↦ rw d rest ]
]

exists-map {ℓ κ} :
    {A : Type ℓ} {B : Type κ} (f : A → B) (p : B → Bool) (xs : List A)
    → exists_where p (map f xs) ≡ exists_where (λ a. p (f a)) xs
unfolding exists_where
exists-map f p [] = refl
exists-map f p (x ∷ xs) = ap (λ b. p (f x) || b) (exists-map f p xs)

exists_implied {ℓ} :
    {A : Type ℓ} (p q : A → Bool) (xs : List A)
    → ((a : A) → p a ≡ true → q a ≡ true)
    → exists_where p xs ≡ true
    → exists_where q xs ≡ true
unfolding exists_where
exists_implied p q [] h e = e
exists_implied p q (x ∷ xs) h e = elim (Bool-cases (p x)) [
  | inl k ↦ ground (arith, h x k)
  | inr k ↦ ground (arith, exists_implied p q xs h (rw k at e))
]

pub exists_where-none {ℓ} :
    {A : Type ℓ} (p : A → Bool) (xs : List A)
    → exists_where p xs ≡ false
    → All (λ a. p a ≡ false) xs
unfolding exists_where
exists_where-none p [] h = tt
exists_where-none p (x ∷ xs) h = (ground arith, exists_where-none p xs (ground arith))

IsUnique-append_one :
    (rows : List Message) (m : Message)
    → All (λ n. same_identity n m ≡ false) rows
    → IsUnique rows
    → IsUnique (rows ++ m ∷ [])
IsUnique-append_one [] m h u = (tt, tt)
IsUnique-append_one (n ∷ rows) m h u = (
  All-append (λ k. same_identity n k ≡ false) rows (m ∷ []) u.0 (h.0, tt),
  IsUnique-append_one rows m h.1 u.1,
)

pub IsUnique-insert_new :
    (account_id id now : ℕ) (payload : List Record) (rows : List Message)
    → IsUnique rows
    → IsUnique (insert_new account_id id now payload rows).0
unfolding insert_new
IsUnique-insert_new account_id id now [] rows u = u
IsUnique-insert_new account_id id now (r ∷ payload) rows u =
    elim (Bool-cases (exists_where (has_identity account_id r.dedup_hash) rows)) [
      | inl e ↦ rw e (IsUnique-insert_new account_id (id + 1) now payload rows u)
      | inr e ↦
          let m : _ = new_message account_id id now r in
          rw e (
            IsUnique-insert_new account_id (id + 1) now payload (rows ++ m ∷ []) (
              IsUnique-append_one rows m
                (All-map (λ n. has_identity account_id r.dedup_hash n ≡ false)
                  (λ n. same_identity n m ≡ false) rows (λ n h. h)
                  (exists_where-none (has_identity account_id r.dedup_hash) rows e))
                u))
    ]

-- Rows are only added.
pub insert_new-grows :
    (account_id id now : ℕ) (payload : List Record) (rows : List Message) (p : Message → Bool)
    → exists_where p rows ≡ true
    → exists_where p (insert_new account_id id now payload rows).0 ≡ true
unfolding insert_new
insert_new-grows account_id id now [] rows p h = h
insert_new-grows account_id id now (r ∷ payload) rows p h =
    elim (Bool-cases (exists_where (has_identity account_id r.dedup_hash) rows)) [
      | inl e ↦ rw e (insert_new-grows account_id (id + 1) now payload rows p h)
      | inr e ↦
          let m : _ = new_message account_id id now r in
          rw e (
            insert_new-grows account_id (id + 1) now payload (rows ++ m ∷ []) p
              (exists_where-append p rows (m ∷ []) ∙ rw h))
    ]

appended :
    (p : Message → Bool) (rows : List Message) (m : Message)
    → p m ≡ true
    → exists_where p (rows ++ m ∷ []) ≡ true
unfolding exists_where
appended p rows m h = exists_where-append p rows (m ∷ []) ∙ ground (arith, h)

insert_new-skip :
    (account_id id now : ℕ) (r : Record) (payload : List Record) (rows : List Message)
    → exists_where (has_identity account_id r.dedup_hash) rows ≡ true
    → (insert_new account_id id now (r ∷ payload) rows).0
      ≡ (insert_new account_id (id + 1) now payload rows).0
unfolding insert_new
insert_new-skip account_id id now r payload rows e = rw e

insert_new-write :
    (account_id id now : ℕ) (r : Record) (payload : List Record) (rows : List Message)
    → exists_where (has_identity account_id r.dedup_hash) rows ≡ false
    → (insert_new account_id id now (r ∷ payload) rows).0
      ≡ (insert_new account_id
          (id + 1)
          now
          payload
          (rows ++ new_message account_id id now r ∷ [])).0
unfolding insert_new
insert_new-write account_id id now r payload rows e = rw e

abbrev pub AreStored : ℕ → List Record → List Message → Type 0
AreStored account_id records rows =
    All (λ r. exists_where (has_identity account_id r.dedup_hash) rows ≡ true) records

pub insert_new_complete :
    (account_id id now : ℕ) (payload : List Record) (rows : List Message)
    → AreStored account_id payload (insert_new account_id id now payload rows).0
unfolding insert_new
insert_new_complete account_id id now [] rows = tt
insert_new_complete account_id id now (r ∷ payload) rows =
    let p : (Message → Bool) = has_identity account_id r.dedup_hash in
    elim (Bool-cases (exists_where p rows)) [
      | inl e ↦
          subst (AreStored account_id (r ∷ payload))
            (sym (insert_new-skip account_id id now r payload rows e))
            (
              insert_new-grows account_id (id + 1) now payload rows p e,
              insert_new_complete account_id (id + 1) now payload rows,
            )
      | inr e ↦
          let rows' : _ = rows ++ new_message account_id id now r ∷ [] in
          subst (AreStored account_id (r ∷ payload))
            (sym (insert_new-write account_id id now r payload rows e))
            (
              insert_new-grows account_id (id + 1) now payload rows' p (
                  appended p rows (new_message account_id id now r)
                    (ground (arith, ==_refl account_id, ==_refl r.dedup_hash))),
              insert_new_complete account_id (id + 1) now payload rows',
            )
    ]

pub insert_new-IsStored :
    (account_id id now : ℕ) (payload : List Record) (rows : List Message)
    → let (rows', returned) = insert_new account_id id now payload rows in
      All (IsStored account_id rows') returned
unfolding insert_new
insert_new-IsStored account_id id now [] rows = tt
insert_new-IsStored account_id id now (r ∷ payload) rows =
    elim (Bool-cases (exists_where (has_identity account_id r.dedup_hash) rows)) [
      | inl e ↦ rw e (insert_new-IsStored account_id (id + 1) now payload rows)
      | inr e ↦
          let m : _ = new_message account_id id now r in
          let p : (Message → Bool) = λ n. has_identity account_id r.dedup_hash n && n.id == id in
          rw e (
            insert_new-grows account_id (id + 1) now payload (rows ++ m ∷ []) p (
                appended p rows m
                  (ground (arith, ==_refl account_id, ==_refl r.dedup_hash, ==_refl id))),
            insert_new-IsStored account_id (id + 1) now payload (rows ++ m ∷ []),
          )
    ]

own-IsStored :
    (account_id : ℕ) (rows : List Message)
    → All
        (λ m. (m.account_id == account_id) ≡ true → IsStored account_id rows (m.dedup_hash, m.id))
        rows
unfolding exists_where
own-IsStored account_id [] = tt
own-IsStored account_id (m ∷ rows) = (
  λ e. ground (arith, e, ==_refl m.dedup_hash, ==_refl m.id),
  All-map (λ n. (n.account_id == account_id) ≡ true → IsStored account_id rows (n.dedup_hash, n.id))
      (λ n.
        (n.account_id == account_id) ≡ true → IsStored account_id (m ∷ rows) (n.dedup_hash, n.id))
      rows (λ n h e. ground (arith, h e)) (own-IsStored account_id rows),
)

All-over_map {ℓ κ} :
    {A : Type ℓ} {B : Type κ} (P : B → Type 0) (f : A → B) (xs : List A)
    → All (λ a. P (f a)) xs
    → All P (map f xs)
All-over_map P f [] h = tt
All-over_map P f (x ∷ xs) h = (h.0, All-over_map P f xs h.1)

pub ids_by_hash-IsStored :
    (account_id : ℕ) (hashes : List ℕ) (rows : List Message)
    → All (IsStored account_id rows) (ids_by_hash account_id hashes rows)
unfolding ids_by_hash
ids_by_hash-IsStored account_id hashes rows =
    let p : (Message → Bool) = λ m. m.account_id == account_id && elem m.dedup_hash hashes in
    All-over_map (IsStored account_id rows) (λ m. (m.dedup_hash, m.id)) (select_where p rows)
      (All-map₂ (λ m. p m ≡ true)
        (λ m. (m.account_id == account_id) ≡ true → IsStored account_id rows (m.dedup_hash, m.id))
        (λ m. IsStored account_id rows (m.dedup_hash, m.id)) (select_where p rows)
        (λ m e h. h (ground (arith, e))) (select_where_sound p rows)
        (All-select_where
          (λ m. (m.account_id == account_id) ≡ true → IsStored account_id rows (m.dedup_hash, m.id))
          p rows (own-IsStored account_id rows)))

pub ids_by_hash_complete :
    (account_id : ℕ) (hashes : List ℕ) (rows : List Message) (hash : ℕ)
    → elem hash hashes ≡ true
    → exists_where (has_identity account_id hash) rows ≡ true
    → has_key hash (ids_by_hash account_id hashes rows) ≡ true
unfolding ids_by_hash
ids_by_hash_complete account_id hashes rows hash e h =
    let p : (Message → Bool) = λ m. m.account_id == account_id && elem m.dedup_hash hashes in
    let chosen : _ = select_where p rows in
    exists-map (λ m. (m.dedup_hash, m.id)) (λ k. k.0 == hash) chosen
    ∙ exists_implied (has_identity account_id hash) (λ m. m.dedup_hash == hash) chosen
        (λ m k. ground arith)
        (exists-select p (has_identity account_id hash) rows
          (λ m k.
            let same : m.dedup_hash ≡ hash = (==_iff m.dedup_hash hash).0 (ground arith) in
            let member : elem m.dedup_hash hashes ≡ true = ap (λ x. elem x hashes) same ∙ e in
            ground (arith, member))
          h)

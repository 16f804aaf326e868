-- ===== src/Table/Keys.antt =====
-- A primary key: no two rows of a table have the same one.
use mathlib.Core.Bool.{false≢true}
use mathlib.Core.Path.{subst}
use lenovmail.Prelude.{
  ℕ, zero, suc, ◌≡◌, refl, sym, ap, ◌∙◌, inl, inr, Bool, true, false, List, [], ◌∷◌, map, arith,
  leb, ◌==◌, Bool-cases, take, All, elem,
}
use lenovmail.Table.{select_where, update_where}
use lenovmail.Table.Order.{insert_by, order_by}

abbrev pub HasNoRepeat : List ℕ → Type 0
HasNoRepeat [] = Unit
HasNoRepeat (k ∷ ks) = (elem k ks ≡ false) × HasNoRepeat ks

module _ {ℓ} {A : Type ℓ} (key : A → ℕ) where
  abbrev pub IsKeyed : List A → Type 0
  IsKeyed [] = Unit
  IsKeyed (a ∷ as') = All (λ b. (key b == key a) ≡ false) as' × IsKeyed as'

  abbrev pub keys : List A → List ℕ
  keys as' = map key as'

  keys-update-All :
      (p : A → Bool) (f : A → A) (k : ℕ) (as' : List A)
      → ((a : A) → key (f a) ≡ key a)
      → All (λ b. (key b == k) ≡ false) as'
      → All (λ b. (key b == k) ≡ false) (update_where p f as')
  unfolding update_where
  keys-update-All p f k [] same h = tt
  keys-update-All p f k (a ∷ as') same h = elim (Bool-cases (p a)) [
    | inl e ↦ rw e (ap (λ (x : ℕ). x == k) (same a) ∙ h.0, keys-update-All p f k as' same h.1)
    | inr e ↦ rw e (h.0, keys-update-All p f k as' same h.1)
  ]

  pub update_where-IsKeyed :
      (p : A → Bool) (f : A → A) (as' : List A)
      → ((a : A) → key (f a) ≡ key a)
      → IsKeyed as'
      → IsKeyed (update_where p f as')
  unfolding update_where
  update_where-IsKeyed p f [] same h = tt
  update_where-IsKeyed p f (a ∷ as') same h = elim (Bool-cases (p a)) [
    | inl e ↦ rw e (
      rw (same a) (keys-update-All p f (key a) as' same h.0),
      update_where-IsKeyed p f as' same h.1,
    )
    | inr e ↦ rw e (keys-update-All p f (key a) as' same h.0, update_where-IsKeyed p f as' same h.1)
  ]

  elem-select_where :
      (k : ℕ) (p : A → Bool) (as' : List A)
      → All (λ b. (key b == k) ≡ false) as'
      → elem k (keys (select_where p as')) ≡ false
  unfolding select_where
  elem-select_where k p [] h = refl
  elem-select_where k p (a ∷ as') h = elim (Bool-cases (p a)) [
    | inl e ↦ rw e (ground (arith, h.0, elem-select_where k p as' h.1))
    | inr e ↦ rw e (elem-select_where k p as' h.1)
  ]

  select_where-here :
      (p : A → Bool) (a : A) (as' : List A)
      → p a ≡ true
      → select_where p (a ∷ as') ≡ a ∷ select_where p as'
  unfolding select_where
  select_where-here p a as' e = rw e

  select_where-skip :
      (p : A → Bool) (a : A) (as' : List A)
      → p a ≡ false
      → select_where p (a ∷ as') ≡ select_where p as'
  unfolding select_where
  select_where-skip p a as' e = rw e

  abbrev pub Selected : (A → Bool) → List A → List ℕ → Type 0
  Selected p as' ks = All (λ a. elem (key a) ks ≡ true → p a ≡ true) as'

  Selected-cons :
      (p : A → Bool) (k : ℕ) (bs : List A) (ks : List ℕ)
      → All (λ b. (key b == k) ≡ false) bs
      → Selected p bs ks
      → Selected p bs (k ∷ ks)
  Selected-cons p k [] ks n s = tt
  Selected-cons p k (b ∷ bs) ks n s = (λ x. s.0 (rw n.0 at x), Selected-cons p k bs ks n.1 s.1)

  -- A row whose key was selected is a row that was selected.
  pub Selected-key :
      (p : A → Bool) (as' : List A) → IsKeyed as' → Selected p as' (keys (select_where p as'))
  Selected-key p [] h = tt
  Selected-key p (a ∷ as') h = elim (Bool-cases (p a)) [
    | inl e ↦
        subst (λ (bs : List A). Selected p (a ∷ as') (keys bs)) (sym (select_where-here p a as' e))
          (
            λ _. e,
            Selected-cons p (key a) as' (keys (select_where p as')) h.0 (Selected-key p as' h.1),
          )
    | inr e ↦
        subst (λ (bs : List A). Selected p (a ∷ as') (keys bs)) (sym (select_where-skip p a as' e))
          (
            λ x. absurd (false≢true (sym (elem-select_where (key a) p as' h.0) ∙ x)),
            Selected-key p as' h.1,
          )
  ]

  elem-take :
      (k n : ℕ) (as' : List A) → elem k (keys (take n as')) ≡ true → elem k (keys as') ≡ true
  elem-take k zero as' h = absurd (false≢true h)
  elem-take k (suc n) [] h = h
  elem-take k (suc n) (a ∷ as') h = elim (Bool-cases (k == key a)) [
    | inl e ↦ rw e
    | inr e ↦ rw e (elem-take k n as' (rw e at h))
  ]

  elem-insert_by :
      (by : A → ℕ) (k : ℕ) (a : A) (bs : List A)
      → elem k (keys (insert_by by a bs)) ≡ elem k (keys (a ∷ bs))
  unfolding insert_by
  elem-insert_by by k a [] = refl
  elem-insert_by by k a (b ∷ bs) = elim (Bool-cases (leb (by a) (by b))) [
    | inl e ↦ rw e
    | inr e ↦ rw e (ground (arith, elem-insert_by by k a bs))
  ]

  pub elem-order_by :
      (by : A → ℕ) (k : ℕ) (as' : List A) → elem k (keys (order_by by as')) ≡ elem k (keys as')
  unfolding order_by
  elem-order_by by k [] = refl
  elem-order_by by k (a ∷ as') =
      elem-insert_by by k a (order_by by as') ∙ rw (elem-order_by by k as')

  pub elem-take-order_by :
      (by : A → ℕ) (k n : ℕ) (as' : List A)
      → elem k (keys (take n (order_by by as'))) ≡ true
      → elem k (keys as') ≡ true
  elem-take-order_by by k n as' h = sym (elem-order_by by k as') ∙ elem-take k n (order_by by as') h

  select_where-HasNoRepeat :
      (p : A → Bool) (as' : List A) → IsKeyed as' → HasNoRepeat (keys (select_where p as'))
  unfolding select_where
  select_where-HasNoRepeat p [] h = tt
  select_where-HasNoRepeat p (a ∷ as') h = elim (Bool-cases (p a)) [
    | inl e ↦ rw e (elem-select_where (key a) p as' h.0, select_where-HasNoRepeat p as' h.1)
    | inr e ↦ rw e (select_where-HasNoRepeat p as' h.1)
  ]

  insert_by-HasNoRepeat :
      (by : A → ℕ) (a : A) (bs : List A)
      → elem (key a) (keys bs) ≡ false
      → HasNoRepeat (keys bs)
      → HasNoRepeat (keys (insert_by by a bs))
  unfolding insert_by
  insert_by-HasNoRepeat by a [] out h = (out, h)
  insert_by-HasNoRepeat by a (b ∷ bs) out h = elim (Bool-cases (leb (by a) (by b))) [
    | inl e ↦ rw e (out, h)
    | inr e ↦ rw e (
      elem-insert_by by (key b) a bs ∙ ground (arith, out, h.0),
      insert_by-HasNoRepeat by a bs (ground (arith, out)) h.1,
    )
  ]

  order_by-HasNoRepeat :
      (by : A → ℕ) (as' : List A) → HasNoRepeat (keys as') → HasNoRepeat (keys (order_by by as'))
  unfolding order_by
  order_by-HasNoRepeat by [] h = tt
  order_by-HasNoRepeat by (a ∷ as') h =
      insert_by-HasNoRepeat by a (order_by by as') (elem-order_by by (key a) as' ∙ h.0)
        (order_by-HasNoRepeat by as' h.1)

  take-HasNoRepeat :
      (n : ℕ) (as' : List A) → HasNoRepeat (keys as') → HasNoRepeat (keys (take n as'))
  take-HasNoRepeat zero as' h = tt
  take-HasNoRepeat (suc n) [] h = tt
  take-HasNoRepeat (suc n) (a ∷ as') h = (
    elim (Bool-cases (elem (key a) (keys (take n as')))) [
      | inl e ↦ absurd (false≢true (sym h.0 ∙ elem-take (key a) n as' e))
      | inr e ↦ e
    ],
    take-HasNoRepeat n as' h.1,
  )

  -- The first rows of a selection in an order have different keys, as the table's rows have.
  pub page-HasNoRepeat :
      (p : A → Bool) (by : A → ℕ) (n : ℕ) (as' : List A)
      → IsKeyed as'
      → HasNoRepeat (keys (take n (order_by by (select_where p as'))))
  page-HasNoRepeat p by n as' h =
      take-HasNoRepeat n (order_by by (select_where p as'))
        (order_by-HasNoRepeat by (select_where p as') (select_where-HasNoRepeat p as' h))

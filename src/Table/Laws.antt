-- ===== src/Table/Laws.antt =====
-- How the SQL statements of Table act on one another.
use lenovmail.Prelude.{
  ◌+◌, ◌≡◌, refl, ap₂, inl, inr, Bool, true, false, List, [], ◌∷◌, ◌++◌, map, arith, if◌then◌else◌,
  Bool-cases, length, All,
}
use lenovmail.Table.{select_where, update_where, delete_where, count_where}

module _ {ℓ} {A : Type ℓ} where
  -- An update is one pass over the rows, so updates fuse.
  pub update_where-eq-map :
      (p : A → Bool) (f : A → A) (rs : List A)
      → update_where p f rs ≡ map (λ r. if p r then f r else r) rs
  unfolding update_where
  update_where-eq-map p f [] = refl
  update_where-eq-map p f (r ∷ rs) = ap₂ ◌∷◌ refl (update_where-eq-map p f rs)

  pub select_where_sound : (p : A → Bool) (rs : List A) → All (λ r. p r ≡ true) (select_where p rs)
  unfolding select_where
  select_where_sound p [] = tt
  select_where_sound p (r ∷ rs) = elim (Bool-cases (p r)) [
    | inl e ↦ rw e (e, select_where_sound p rs)
    | inr e ↦ rw e (select_where_sound p rs)
  ]

  pub length-select_where :
      (p : A → Bool) (rs : List A) → length (select_where p rs) ≡ count_where p rs
  unfolding select_where count_where
  length-select_where p [] = refl
  length-select_where p (r ∷ rs) = elim (Bool-cases (p r)) [
    | inl e ↦ rw e (omega (arith, length-select_where p rs))
    | inr e ↦ rw e (omega (arith, length-select_where p rs))
  ]

  pub length-delete_where :
      (p : A → Bool) (rs : List A) → length (delete_where p rs) + count_where p rs ≡ length rs
  unfolding delete_where count_where
  length-delete_where p [] = refl
  length-delete_where p (r ∷ rs) = elim (Bool-cases (p r)) [
    | inl e ↦ rw e (omega (arith, length-delete_where p rs))
    | inr e ↦ rw e (omega (arith, length-delete_where p rs))
  ]

  -- What is left after a deletion does not meet its condition.
  pub delete_where_sound : (p : A → Bool) (rs : List A) → All (λ r. p r ≡ false) (delete_where p rs)
  unfolding delete_where
  delete_where_sound p [] = tt
  delete_where_sound p (r ∷ rs) = elim (Bool-cases (p r)) [
    | inl e ↦ rw e (delete_where_sound p rs)
    | inr e ↦ rw e (e, delete_where_sound p rs)
  ]

  -- A count does not see the rows that a deletion takes, if its condition excludes them.
  pub count-delete_where_other :
      (p q : A → Bool) (rs : List A)
      → ((r : A) → p r ≡ true → q r ≡ false)
      → count_where q (delete_where p rs) ≡ count_where q rs
  unfolding delete_where count_where
  count-delete_where_other p q [] h = refl
  count-delete_where_other p q (r ∷ rs) h = elim (Bool-cases (p r)) [
    | inl e ↦ rw (e, h r e) (omega (arith, count-delete_where_other p q rs h))
    | inr e ↦ rw e (omega (arith, count-delete_where_other p q rs h))
  ]

module _ {ℓ κ} {A : Type ℓ} (P : A → Type κ) where
  pub All-select_where : (p : A → Bool) (rs : List A) → All P rs → All P (select_where p rs)
  unfolding select_where
  All-select_where p [] h = tt
  All-select_where p (r ∷ rs) h = elim (Bool-cases (p r)) [
    | inl e ↦ rw e (h.0, All-select_where p rs h.1)
    | inr e ↦ rw e (All-select_where p rs h.1)
  ]

  pub All-delete_where : (p : A → Bool) (rs : List A) → All P rs → All P (delete_where p rs)
  unfolding delete_where
  All-delete_where p [] h = tt
  All-delete_where p (r ∷ rs) h = elim (Bool-cases (p r)) [
    | inl e ↦ rw e (All-delete_where p rs h.1)
    | inr e ↦ rw e (h.0, All-delete_where p rs h.1)
  ]

  pub All-update_where :
      (p : A → Bool) (f : A → A) (rs : List A)
      → ((r : A) → p r ≡ true → P r → P (f r))
      → All P rs
      → All P (update_where p f rs)
  unfolding update_where
  All-update_where p f [] keep h = tt
  All-update_where p f (r ∷ rs) keep h = elim (Bool-cases (p r)) [
    | inl e ↦ rw e (keep r e h.0, All-update_where p f rs keep h.1)
    | inr e ↦ rw e (h.0, All-update_where p f rs keep h.1)
  ]

module _ {ℓ} {A : Type ℓ} where
  pub count_where-map :
      (p : A → Bool) (f : A → A) (rs : List A)
      → count_where p (map f rs) ≡ count_where (λ r. p (f r)) rs
  unfolding count_where
  count_where-map p f [] = refl
  count_where-map p f (r ∷ rs) = omega (arith, count_where-map p f rs)

  pub count_where-ext :
      (p q : A → Bool) (rs : List A) → All (λ r. p r ≡ q r) rs → count_where p rs ≡ count_where q rs
  unfolding count_where
  count_where-ext p q [] h = refl
  count_where-ext p q (r ∷ rs) h = rw h.0 (omega (arith, count_where-ext p q rs h.1))

  pub count_where-none :
      (p : A → Bool) (rs : List A) → All (λ r. p r ≡ false) rs → count_where p rs ≡ 0
  unfolding count_where
  count_where-none p [] h = refl
  count_where-none p (r ∷ rs) h = rw h.0 (omega (arith, count_where-none p rs h.1))

module _ {ℓ} {A : Type ℓ} where
  -- A selection does not see an update of rows that it leaves out, before and after.
  pub select-update_where_other :
      (p q : A → Bool) (f : A → A) (rs : List A)
      → ((r : A) → p r ≡ true → (q r ≡ false) × (q (f r) ≡ false))
      → select_where q (update_where p f rs) ≡ select_where q rs
  unfolding select_where update_where
  select-update_where_other p q f [] h = refl
  select-update_where_other p q f (r ∷ rs) h = elim (Bool-cases (p r)) [
    | inl e ↦ rw (e, (h r e).0, (h r e).1) (select-update_where_other p q f rs h)
    | inr e ↦ rw (e, select-update_where_other p q f rs h)
  ]

  pub select-delete_where_other :
      (p q : A → Bool) (rs : List A)
      → ((r : A) → p r ≡ true → q r ≡ false)
      → select_where q (delete_where p rs) ≡ select_where q rs
  unfolding select_where delete_where
  select-delete_where_other p q [] h = refl
  select-delete_where_other p q (r ∷ rs) h = elim (Bool-cases (p r)) [
    | inl e ↦ rw (e, h r e) (select-delete_where_other p q rs h)
    | inr e ↦ rw (e, select-delete_where_other p q rs h)
  ]

  pub select_where-append :
      (q : A → Bool) (xs ys : List A)
      → select_where q (xs ++ ys) ≡ select_where q xs ++ select_where q ys
  unfolding select_where
  select_where-append q [] ys = refl
  select_where-append q (x ∷ xs) ys = elim (Bool-cases (q x)) [
    | inl e ↦ rw (e, select_where-append q xs ys)
    | inr e ↦ rw (e, select_where-append q xs ys)
  ]

  pub select_where-none :
      (q : A → Bool) (rs : List A) → All (λ r. q r ≡ false) rs → select_where q rs ≡ []
  unfolding select_where
  select_where-none q [] h = refl
  select_where-none q (r ∷ rs) h = rw (h.0, select_where-none q rs h.1)

  pub delete_where-append :
      (q : A → Bool) (xs ys : List A)
      → delete_where q (xs ++ ys) ≡ delete_where q xs ++ delete_where q ys
  unfolding delete_where
  delete_where-append q [] ys = refl
  delete_where-append q (x ∷ xs) ys = elim (Bool-cases (q x)) [
    | inl e ↦ rw (e, delete_where-append q xs ys)
    | inr e ↦ rw (e, delete_where-append q xs ys)
  ]

  pub delete_where-none :
      (q : A → Bool) (rs : List A) → All (λ r. q r ≡ false) rs → delete_where q rs ≡ rs
  unfolding delete_where
  delete_where-none q [] h = refl
  delete_where-none q (r ∷ rs) h = rw (h.0, delete_where-none q rs h.1)

  pub delete_where_every :
      (q : A → Bool) (rs : List A) → All (λ r. q r ≡ true) rs → delete_where q rs ≡ []
  unfolding delete_where
  delete_where_every q [] h = refl
  delete_where_every q (r ∷ rs) h = rw (h.0, delete_where_every q rs h.1)

  pub select_where_every :
      (q : A → Bool) (rs : List A) → All (λ r. q r ≡ true) rs → select_where q rs ≡ rs
  unfolding select_where
  select_where_every q [] h = refl
  select_where_every q (r ∷ rs) h = rw (h.0, select_where_every q rs h.1)

  pub delete_where_idem :
      (q : A → Bool) (rs : List A) → delete_where q (delete_where q rs) ≡ delete_where q rs
  delete_where_idem q rs = delete_where-none q (delete_where q rs) (delete_where_sound q rs)

module _ {ℓ κ} {A : Type ℓ} (P : A → Type κ) where
  -- A property of every row after an update, from its two cases.
  pub All-after_update :
      (p : A → Bool) (f : A → A) (rs : List A)
      → ((r : A) → p r ≡ true → P (f r))
      → All (λ r. p r ≡ false → P r) rs
      → All P (update_where p f rs)
  unfolding update_where
  All-after_update p f [] new old = tt
  All-after_update p f (r ∷ rs) new old = elim (Bool-cases (p r)) [
    | inl e ↦ rw e (new r e, All-after_update p f rs new old.1)
    | inr e ↦ rw e (old.0 e, All-after_update p f rs new old.1)
  ]

  pub All-after_delete :
      (p : A → Bool) (rs : List A) → All (λ r. p r ≡ false → P r) rs → All P (delete_where p rs)
  unfolding delete_where
  All-after_delete p [] old = tt
  All-after_delete p (r ∷ rs) old = elim (Bool-cases (p r)) [
    | inl e ↦ rw e (All-after_delete p rs old.1)
    | inr e ↦ rw e (old.0 e, All-after_delete p rs old.1)
  ]

  pub All-append : (xs ys : List A) → All P xs → All P ys → All P (xs ++ ys)
  All-append [] ys h k = k
  All-append (x ∷ xs) ys h k = (h.0, All-append xs ys h.1 k)

  pub All-intro : ((a : A) → P a) → (xs : List A) → All P xs
  All-intro h [] = tt
  All-intro h (x ∷ xs) = (h x, All-intro h xs)

pub All-map {ℓ κ μ} :
    {A : Type ℓ} (P : A → Type κ) (Q : A → Type μ) (xs : List A)
    → ((a : A) → P a → Q a)
    → All P xs
    → All Q xs
All-map P Q [] f h = tt
All-map P Q (x ∷ xs) f h = (f x h.0, All-map P Q xs f h.1)

pub All-map₂ {ℓ κ μ ν} :
    {A : Type ℓ} (P : A → Type κ) (Q : A → Type μ) (R : A → Type ν) (xs : List A)
    → ((a : A) → P a → Q a → R a)
    → All P xs
    → All Q xs
    → All R xs
All-map₂ P Q R [] f h k = tt
All-map₂ P Q R (x ∷ xs) f h k = (f x h.0 k.0, All-map₂ P Q R xs f h.1 k.1)

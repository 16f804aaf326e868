-- ===== src/Table/Order.antt =====
-- ORDER BY a numeric key, ascending (a stable sort), and LIMIT; and two tables row by row.
use lenovmail.Table.{update_where}
use lenovmail.Prelude.{
  ℕ, zero, suc, ◌≤◌, ◌≡◌, refl, ap, ◌∙◌, inl, inr, Bool, true, false, List, [], ◌∷◌, arith, leb,
  if◌then◌else◌, Bool-cases, length, take, drop, All,
}

module _ {ℓ} {A : Type ℓ} (key : A → ℕ) where
  unfoldable pub insert_by : A → List A → List A
  insert_by a [] = a ∷ []
  insert_by a (b ∷ bs) = if leb (key a) (key b) then a ∷ b ∷ bs else b ∷ insert_by a bs

  unfoldable pub order_by : List A → List A
  unfolding insert_by
  order_by [] = []
  order_by (a ∷ as') = insert_by a (order_by as')

  length-insert_by : (a : A) (bs : List A) → length (insert_by a bs) ≡ suc (length bs)
  unfolding insert_by
  length-insert_by a [] = refl
  length-insert_by a (b ∷ bs) = elim (Bool-cases (leb (key a) (key b))) [
    | inl e ↦ rw e
    | inr e ↦ rw e (ap suc (length-insert_by a bs))
  ]

  pub length-order_by : (bs : List A) → length (order_by bs) ≡ length bs
  unfolding order_by
  length-order_by [] = refl
  length-order_by (b ∷ bs) = length-insert_by b (order_by bs) ∙ ap suc (length-order_by bs)

  abbrev pub IsOrdered : List A → Type 0
  IsOrdered [] = Unit
  IsOrdered (a ∷ as') = All (λ b. key a ≤ key b) as' × IsOrdered as'

  All-insert_by {κ} :
      (P : A → Type κ) (a : A) (bs : List A) → P a → All P bs → All P (insert_by a bs)
  unfolding insert_by
  All-insert_by P a [] p h = (p, h)
  All-insert_by P a (b ∷ bs) p h = elim (Bool-cases (leb (key a) (key b))) [
    | inl e ↦ rw e (p, h)
    | inr e ↦ rw e (h.0, All-insert_by P a bs p h.1)
  ]

  pub All-order_by {κ} : (P : A → Type κ) (bs : List A) → All P bs → All P (order_by bs)
  unfolding order_by
  All-order_by P [] h = h
  All-order_by P (b ∷ bs) h = All-insert_by P b (order_by bs) h.0 (All-order_by P bs h.1)

  below :
      (a b : A) (bs : List A)
      → key a ≤ key b
      → All (λ c. key b ≤ key c) bs
      → All (λ c. key a ≤ key c) bs
  below a b [] h k = tt
  below a b (c ∷ bs) h k = (omega (arith, k.0), below a b bs h k.1)

  insert_by-IsOrdered : (a : A) (bs : List A) → IsOrdered bs → IsOrdered (insert_by a bs)
  unfolding insert_by
  insert_by-IsOrdered a [] h = (tt, tt)
  insert_by-IsOrdered a (b ∷ bs) h = elim (Bool-cases (leb (key a) (key b))) [
    | inl e ↦ rw e ((ground arith, below a b bs (ground arith) h.0), h)
    | inr e ↦
        rw e
          (All-insert_by (λ c. key b ≤ key c) a bs (ground arith) h.0, insert_by-IsOrdered a bs h.1)
  ]

  pub order_by-IsOrdered : (bs : List A) → IsOrdered (order_by bs)
  unfolding order_by
  order_by-IsOrdered [] = tt
  order_by-IsOrdered (b ∷ bs) = insert_by-IsOrdered b (order_by bs) (order_by-IsOrdered bs)

  -- Under a limit, what is taken does not come after what is left.
  pub take-before-drop :
      (n : ℕ) (bs : List A)
      → IsOrdered bs
      → All (λ a. All (λ b. key a ≤ key b) (drop n bs)) (take n bs)
  take-before-drop zero bs h = tt
  take-before-drop (suc n) [] h = tt
  take-before-drop (suc n) (b ∷ bs) h =
      (All-drop (λ c. key b ≤ key c) n bs h.0, take-before-drop n bs h.1)
    where
      All-drop : (P : A → Type 0) (k : ℕ) (cs : List A) → All P cs → All P (drop k cs)
      All-drop P zero cs p = p
      All-drop P (suc k) [] p = p
      All-drop P (suc k) (c ∷ cs) p = All-drop P k cs p.1

module _ {ℓ κ} {A : Type ℓ} (P : A → Type κ) where
  pub All-take : (n : ℕ) (xs : List A) → All P xs → All P (take n xs)
  All-take zero xs h = tt
  All-take (suc n) [] h = tt
  All-take (suc n) (x ∷ xs) h = (h.0, All-take n xs h.1)

pub length-take_le {ℓ} : {A : Type ℓ} (n : ℕ) (xs : List A) → length (take n xs) ≤ n
length-take_le zero xs = omega arith
length-take_le (suc n) [] = omega arith
length-take_le (suc n) (x ∷ xs) = omega (arith, length-take_le n xs)

-- The rows of two tables correspond one by one.
abbrev pub Along {ℓ} : {A : Type ℓ} → (A → A → Type 0) → List A → List A → Type 0
Along R [] [] = Unit
Along R [] (b ∷ bs) = ⊥
Along R (a ∷ as') [] = ⊥
Along R (a ∷ as') (b ∷ bs) = R a b × Along R as' bs

module _ {ℓ} {A : Type ℓ} (R : A → A → Type 0) where
  pub Along-refl : ((a : A) → R a a) → (xs : List A) → Along R xs xs
  Along-refl h [] = tt
  Along-refl h (x ∷ xs) = (h x, Along-refl h xs)

  pub Along-trans :
      ((a b c : A) → R a b → R b c → R a c)
      → (xs ys zs : List A) → Along R xs ys
      → Along R ys zs
      → Along R xs zs
  Along-trans t [] [] [] h k = tt
  Along-trans t [] [] (z ∷ zs) h k = k
  Along-trans t [] (y ∷ ys) zs h k = absurd h
  Along-trans t (x ∷ xs) [] zs h k = absurd h
  Along-trans t (x ∷ xs) (y ∷ ys) [] h k = k
  Along-trans t (x ∷ xs) (y ∷ ys) (z ∷ zs) h k = (t x y z h.0 k.0, Along-trans t xs ys zs h.1 k.1)

  pub Along-update_where :
      (p : A → Bool) (f : A → A) (xs : List A)
      → ((a : A) → R a a)
      → ((a : A) → p a ≡ true → R a (f a))
      → Along R xs (update_where p f xs)
  unfolding update_where
  Along-update_where p f [] same moved = tt
  Along-update_where p f (x ∷ xs) same moved = elim (Bool-cases (p x)) [
    | inl e ↦ rw e (moved x e, Along-update_where p f xs same moved)
    | inr e ↦ rw e (same x, Along-update_where p f xs same moved)
  ]

  pub Along-update_All :
      (p : A → Bool) (f : A → A) (xs : List A)
      → All (λ a. (p a ≡ true → R a (f a)) × (p a ≡ false → R a a)) xs
      → Along R xs (update_where p f xs)
  unfolding update_where
  Along-update_All p f [] h = tt
  Along-update_All p f (x ∷ xs) h = elim (Bool-cases (p x)) [
    | inl e ↦ rw e (h.0.0 e, Along-update_All p f xs h.1)
    | inr e ↦ rw e (h.0.1 e, Along-update_All p f xs h.1)
  ]

  pub Along-update_right :
      (p : A → Bool) (f : A → A) (xs ys : List A)
      → ((a b : A) → p b ≡ true → R a b → R a (f b))
      → Along R xs ys
      → Along R xs (update_where p f ys)
  unfolding update_where
  Along-update_right p f [] [] step h = tt
  Along-update_right p f [] (y ∷ ys) step h = absurd h
  Along-update_right p f (x ∷ xs) [] step h = h
  Along-update_right p f (x ∷ xs) (y ∷ ys) step h = elim (Bool-cases (p y)) [
    | inl e ↦ rw e (step x y e h.0, Along-update_right p f xs ys step h.1)
    | inr e ↦ rw e (h.0, Along-update_right p f xs ys step h.1)
  ]

pub Along-map {ℓ} :
    {A : Type ℓ} (R Q : A → A → Type 0) (xs ys : List A)
    → ((a b : A) → R a b → Q a b)
    → Along R xs ys
    → Along Q xs ys
Along-map R Q [] [] f h = tt
Along-map R Q [] (y ∷ ys) f h = h
Along-map R Q (x ∷ xs) [] f h = h
Along-map R Q (x ∷ xs) (y ∷ ys) f h = (f x y h.0, Along-map R Q xs ys f h.1)

-- ===== src/Imap/Chunks.antt =====
-- `range(0, len(xs), size)` with a slice of each start, as src/lenovmail/sync/imap_sync.py and
-- src/lenovmail/providers/imap_ops.py cut lists of UIDs. The size is a positive setting.
use lenovmail.Prelude.{
  ℕ, zero, suc, ◌-◌, ◌≤◌, ◌≡◌, refl, ap, ◌∙◌, List, [], ◌∷◌, ◌++◌, arith, length, All,
}

module _ {ℓ} {A : Type ℓ} where
  abbrev put_first : A → List (List A) → List (List A)
  put_first x [] = (x ∷ []) ∷ []
  put_first x (c ∷ cs) = (x ∷ c) ∷ cs

  -- The chunk that is being filled stands first; it has room for so many.
  fill : ℕ → ℕ → List A → List (List A)
  fill size room [] = [] ∷ []
  fill size zero (x ∷ xs) = [] ∷ put_first x (fill size (size - 1) xs)
  fill size (suc room) (x ∷ xs) = put_first x (fill size room xs)

  unfoldable pub chunks_of : ℕ → List A → List (List A)
  unfolding fill
  chunks_of size [] = []
  chunks_of size (x ∷ xs) = put_first x (fill size (size - 1) xs)

  abbrev pub concat : List (List A) → List A
  concat [] = []
  concat (c ∷ cs) = c ++ concat cs

  concat-put_first : (x : A) (cs : List (List A)) → concat (put_first x cs) ≡ x ∷ concat cs
  concat-put_first x [] = refl
  concat-put_first x (c ∷ cs) = refl

  concat-fill : (size room : ℕ) (xs : List A) → concat (fill size room xs) ≡ xs
  unfolding fill
  concat-fill size room [] = refl
  concat-fill size zero (x ∷ xs) =
      concat-put_first x (fill size (size - 1) xs)
      ∙ ap (λ ys. x ∷ ys) (concat-fill size (size - 1) xs)
  concat-fill size (suc room) (x ∷ xs) =
      concat-put_first x (fill size room xs) ∙ ap (λ ys. x ∷ ys) (concat-fill size room xs)

  -- The chunks put together are the list.
  pub concat-chunks_of : (size : ℕ) (xs : List A) → concat (chunks_of size xs) ≡ xs
  unfolding chunks_of
  concat-chunks_of size [] = refl
  concat-chunks_of size (x ∷ xs) =
      concat-put_first x (fill size (size - 1) xs)
      ∙ ap (λ ys. x ∷ ys) (concat-fill size (size - 1) xs)

  -- The first chunk has room for so many more, the others are at most `size` long.
  abbrev Fits : ℕ → ℕ → List (List A) → Type 0
  Fits size room [] = Unit
  Fits size room (c ∷ cs) = (length c ≤ room) × All (λ d. length d ≤ size) cs

  Fits-put_first :
      (size room : ℕ) (x : A) (cs : List (List A))
      → Fits size room cs
      → Fits size (suc room) (put_first x cs)
  Fits-put_first size room x [] h = (omega arith, tt)
  Fits-put_first size room x (c ∷ cs) h = (omega (arith, h.0), h.1)

  Fits-All : (size : ℕ) (cs : List (List A)) → Fits size size cs → All (λ d. length d ≤ size) cs
  Fits-All size [] h = tt
  Fits-All size (c ∷ cs) h = h

  fill-Fits : (size room : ℕ) (xs : List A) → Fits (suc size) room (fill (suc size) room xs)
  unfolding fill
  fill-Fits size room [] = (omega arith, tt)
  fill-Fits size zero (x ∷ xs) =
      let step : suc size - 1 ≡ size = omega arith in
      let rest : Fits (suc size) (suc size) (put_first x (fill (suc size) (suc size - 1) xs)) =
        rw step
          (Fits-put_first (suc size) size x (fill (suc size) size xs) (fill-Fits size size xs)) in
      (omega arith, Fits-All (suc size) (put_first x (fill (suc size) (suc size - 1) xs)) rest)
  fill-Fits size (suc room) (x ∷ xs) =
      Fits-put_first (suc size) room x (fill (suc size) room xs) (fill-Fits size room xs)

  -- No chunk is longer than the size.
  pub length-chunks_of :
      (size : ℕ) (xs : List A) → All (λ c. length c ≤ suc size) (chunks_of (suc size) xs)
  unfolding chunks_of
  length-chunks_of size [] = tt
  length-chunks_of size (x ∷ xs) =
      let step : suc size - 1 ≡ size = omega arith in
      Fits-All (suc size) (put_first x (fill (suc size) (suc size - 1) xs)) (
        rw step
          (Fits-put_first (suc size) size x (fill (suc size) size xs) (fill-Fits size size xs)))

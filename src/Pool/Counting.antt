-- ===== src/Pool/Counting.antt =====
-- How often a connection stands in a list.
use mathlib.Core.Bool.{false≢true}
use lenovmail.Prelude.{
  ℕ, ◌+◌, ◌≤◌, ◌≡◌, refl, ap, inl, inr, true, false, List, [], ◌∷◌, arith, ◌==◌, if◌then◌else◌,
  ==_iff, Bool-cases, length, elem,
}
use lenovmail.Table.{delete_where}
use lenovmail.Pool.{remove}

abbrev pub hit : ℕ → ℕ → ℕ
hit d c = if d == c then 1 else 0

unfoldable pub times : ℕ → List ℕ → ℕ
times c [] = 0
times c (d ∷ ds) = hit d c + times c ds

pub times-remove :
    (c d : ℕ) (ds : List ℕ) → elem d ds ≡ true → times c (remove d ds) + hit d c ≡ times c ds
unfolding times remove
times-remove c d [] h = absurd (false≢true h)
times-remove c d (e ∷ ds) h = elim (Bool-cases (e == d)) [
  | inl n ↦ rw n (omega (arith, ap (λ x. hit x c) ((==_iff e d).0 n)))
  | inr n ↦ rw n (omega (arith, times-remove c d ds (ground (arith, n, h))))
]

pub length-remove : (d : ℕ) (ds : List ℕ) → elem d ds ≡ true → length (remove d ds) + 1 ≡ length ds
unfolding remove
length-remove d [] h = absurd (false≢true h)
length-remove d (e ∷ ds) h = elim (Bool-cases (e == d)) [
  | inl n ↦ rw n (omega arith)
  | inr n ↦ rw n (ground (arith, n, length-remove d ds (ground (arith, n, h))))
]

pub times-elem : (c : ℕ) (ds : List ℕ) → elem c ds ≡ true → 1 ≤ times c ds
unfolding times
times-elem c [] h = absurd (false≢true h)
times-elem c (d ∷ ds) h = elim (Bool-cases (c == d)) [
  | inl n ↦ ground (arith, n)
  | inr n ↦ ground (arith, n, times-elem c ds (ground (arith, n, h)))
]

pub times-absent : (c : ℕ) (ds : List ℕ) → elem c ds ≡ false → times c ds ≡ 0
unfolding times
times-absent c [] h = refl
times-absent c (d ∷ ds) h = ground (arith, h, times-absent c ds (ground (arith, h)))

pub times-delete_where :
    (c : ℕ) (ds es : List ℕ)
    → times c (delete_where (λ d. elem d ds) es) ≡ (if elem c ds then 0 else times c es)
unfolding times delete_where
times-delete_where c ds [] = ground arith
times-delete_where c ds (e ∷ es) =
    let rest : _ = times-delete_where c ds es in
    elim (Bool-cases (e == c)) [
      | inl m ↦
          let same : elem e ds ≡ elem c ds = ap (λ x. elem x ds) ((==_iff e c).0 m) in
          elim (Bool-cases (elem e ds)) [
            | inl n ↦ rw n (ground (arith, rest, same, n))
            | inr n ↦ rw n (ground (arith, rest, same, n, m))
          ]
      | inr m ↦ elim (Bool-cases (elem e ds)) [
        | inl n ↦ rw n (ground (arith, rest, m))
        | inr n ↦ rw n (ground (arith, rest, m))
      ]
    ]

-- ===== src/Text.antt =====
-- Python's `str` as the list of its code points: `==`, `<`, `strip`, membership, and `sorted`.
use lenovmail.Prelude.{
  ℕ, ◌≡◌, refl, ◌↔◌, Bool, true, false, ◌&&◌, ◌||◌, List, [], ◌∷◌, arith, ltb, leb, ◌==◌,
  if◌then◌else◌, elem,
}
use Prim.Native.Char.{code}
use Prim.Native.String.{String}
use mathlib.Core.List.{reverse}

abbrev pub Text : Type 0
Text = List ℕ

-- The code points of a literal.
abbrev pub codes : String → Text
codes String.[] = []
codes (String.◌∷◌ c s) = code c ∷ codes s

unfoldable pub text_eq : Text → Text → Bool
text_eq [] [] = true
text_eq [] (y ∷ ys) = false
text_eq (x ∷ xs) [] = false
text_eq (x ∷ xs) (y ∷ ys) = x == y && text_eq xs ys

-- `<` on `str` compares code points from the left.
unfoldable pub text_lt : Text → Text → Bool
text_lt [] [] = false
text_lt [] (y ∷ ys) = true
text_lt (x ∷ xs) [] = false
text_lt (x ∷ xs) (y ∷ ys) = ltb x y || (x == y && text_lt xs ys)

-- `str.isspace` of one character, which is what `str.strip` removes.
abbrev pub is_space : ℕ → Bool
is_space c =
    (leb 9 c && leb c 13)
    || (leb 28 c && leb c 32)
    || (leb 8192 c && leb c 8202)
    || elem c (133 ∷ 160 ∷ 5760 ∷ 8232 ∷ 8233 ∷ 8239 ∷ 8287 ∷ 12288 ∷ [])

unfoldable pub lstrip : Text → Text
lstrip [] = []
lstrip (c ∷ cs) = let rest = lstrip cs in if is_space c then rest else c ∷ cs

unfoldable pub strip : Text → Text
unfolding lstrip
strip t = reverse (lstrip (reverse (lstrip t)))

unfoldable pub is_empty : Text → Bool
is_empty [] = true
is_empty (_ ∷ _) = false

unfoldable pub text_elem : Text → List Text → Bool
text_elem t [] = false
text_elem t (u ∷ us) = text_eq t u || text_elem t us

-- `set.add`
unfoldable pub add_text : Text → List Text → List Text
add_text t us = if text_elem t us then us else t ∷ us

insert_text : Text → List Text → List Text
insert_text t [] = t ∷ []
insert_text t (u ∷ us) = if text_lt u t then u ∷ insert_text t us else t ∷ u ∷ us

-- `sorted` on a set of texts.
unfoldable pub sorted_texts : List Text → List Text
unfolding insert_text
sorted_texts [] = []
sorted_texts (t ∷ ts) = insert_text t (sorted_texts ts)

pub text_eq_refl : (t : Text) → text_eq t t ≡ true
unfolding text_eq
text_eq_refl [] = refl
text_eq_refl (c ∷ t) = ground (arith, text_eq_refl t)

pub text_eq_sound : (t u : Text) → text_eq t u ≡ true → t ≡ u
unfolding text_eq
text_eq_sound [] [] h = refl
text_eq_sound [] (y ∷ u) h = cc
text_eq_sound (x ∷ t) [] h = cc
text_eq_sound (x ∷ t) (y ∷ u) h = ground (arith, text_eq_sound t u)

pub text_eq_iff : (t u : Text) → (text_eq t u ≡ true) ↔ (t ≡ u)
text_eq_iff t u = (text_eq_sound t u, λ e. rw e (text_eq_refl u))

-- Sorting keeps the items.
text_elem-insert_text :
    (t u : Text) (us : List Text) → text_elem t (insert_text u us) ≡ (text_eq t u || text_elem t us)
unfolding text_elem insert_text
text_elem-insert_text t u [] = refl
text_elem-insert_text t u (v ∷ us) = ground (arith, text_elem-insert_text t u us)

pub text_elem-sorted_texts :
    (t : Text) (us : List Text) → text_elem t (sorted_texts us) ≡ text_elem t us
unfolding text_elem sorted_texts
text_elem-sorted_texts t [] = refl
text_elem-sorted_texts t (u ∷ us) = rw text_elem-insert_text (rw (text_elem-sorted_texts t us))

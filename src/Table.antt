-- ===== src/Table.antt =====
-- SQL statements over a table, which is the list of its rows: SELECT, UPDATE and DELETE with a
-- WHERE clause, COUNT and EXISTS.
pub mod Laws
pub mod Keys
pub mod Order
use lenovmail.Prelude.{ℕ, ◌+◌, Bool, false, ◌||◌, List, [], ◌∷◌, if◌then◌else◌}

module _ {ℓ} {A : Type ℓ} where
  unfoldable pub select_where : (A → Bool) → List A → List A
  select_where p [] = []
  select_where p (r ∷ rs) = let rest = select_where p rs in if p r then r ∷ rest else rest

  unfoldable pub update_where : (A → Bool) → (A → A) → List A → List A
  update_where p f [] = []
  update_where p f (r ∷ rs) = (if p r then f r else r) ∷ update_where p f rs

  unfoldable pub delete_where : (A → Bool) → List A → List A
  delete_where p [] = []
  delete_where p (r ∷ rs) = let rest = delete_where p rs in if p r then rest else r ∷ rest

  unfoldable pub count_where : (A → Bool) → List A → ℕ
  count_where p [] = 0
  count_where p (r ∷ rs) = (if p r then 1 else 0) + count_where p rs

  -- EXISTS (SELECT 1 ... WHERE p)
  unfoldable pub exists_where : (A → Bool) → List A → Bool
  exists_where p [] = false
  exists_where p (r ∷ rs) = p r || exists_where p rs

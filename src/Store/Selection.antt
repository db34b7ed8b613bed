-- ===== src/Store/Selection.antt =====
-- WHERE and ORDER BY of a query, on the list of a table's rows.
pub mod Laws
pub mod Members
pub mod Permutations
use rtk_account_manager.Common.{Bool, List, [], ◌∷◌, if◌then◌else◌}

module _ {A : Type 0} where
  -- ORDER BY, by insertion; rows that compare equal keep their order
  unfoldable pub insert_by : (A → A → Bool) → A → List A → List A
  insert_by before x [] = x ∷ []
  insert_by before x (y ∷ ys) = if before y x then y ∷ insert_by before x ys else x ∷ y ∷ ys

  unfoldable pub sort_by : (A → A → Bool) → List A → List A
  unfolding insert_by
  sort_by before [] = []
  sort_by before (x ∷ xs) = insert_by before x (sort_by before xs)

  unfoldable pub filter_by : (A → Bool) → List A → List A
  filter_by p [] = []
  filter_by p (x ∷ xs) = let rest = filter_by p xs in if p x then x ∷ rest else rest

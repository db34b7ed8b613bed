-- ===== src/Store/Rows.antt =====
-- Rows of a table found and updated by a key.
pub mod Distinct
use rtk_account_manager.Common.{
  String, str_eq, eq_iff, ◌≡◌, Bool-cases, inl, inr, Option, none, some, List, [], ◌∷◌,
  if◌then◌else◌, All, arith,
}
use mathlib.Core.Option

module _ {A : Type 0} (key : A → String) where
  -- SELECT … WHERE key = k, for a unique key
  unfoldable pub find_row : String → List A → Option A
  find_row k [] = none
  find_row k (r ∷ rows) = if str_eq (key r) k then some r else find_row k rows

  -- UPDATE … WHERE key = k
  unfoldable pub update_row : String → (A → A) → List A → List A
  update_row k f [] = []
  update_row k f (r ∷ rows) = (if str_eq (key r) k then f r else r) ∷ update_row k f rows

  -- After an update that keeps the key, the row of that key is the changed one and the others stay.
  pub find_row-update_row :
      (k j : String) (f : A → A) (rows : List A)
      → ((r : A) → key (f r) ≡ key r)
      → find_row j (update_row k f rows)
        ≡ (if str_eq k j then Option.map f (find_row j rows) else find_row j rows)
  unfolding find_row update_row
  find_row-update_row k j f [] keeps = ground arith
  find_row-update_row k j f (r ∷ rows) keeps = ground (
    arith,
    eq_iff (key r) k,
    eq_iff (key r) j,
    eq_iff (key (f r)) j,
    eq_iff k j,
    keeps r,
    find_row-update_row k j f rows keeps,
  )

  pub find_row-key : (k : String) (rows : List A) (r : A) → find_row k rows ≡ some r → key r ≡ k
  unfolding find_row
  find_row-key k [] r h = ground arith
  find_row-key k (x ∷ rows) r h = ground (arith, eq_iff (key x) k, find_row-key k rows r)

module _ {A : Type 0} (P : A → Type 0) where
  -- What an update establishes and every row has before it, every row has after it.
  pub All-update_row :
      (key : A → String) (k : String) (f : A → A) (rows : List A)
      → ((r : A) → P (f r))
      → All P rows
      → All P (update_row key k f rows)
  unfolding update_row
  All-update_row key k f [] g h = tt
  All-update_row key k f (r ∷ rows) g h = elim (Bool-cases (str_eq (key r) k)) [
    | inl e ↦ rw e (g r, All-update_row key k f rows g h.1)
    | inr e ↦ rw e (h.0, All-update_row key k f rows g h.1)
  ]

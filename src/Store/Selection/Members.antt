-- ===== src/Store/Selection/Members.antt =====
-- Which keys the selected rows have.
use rtk_account_manager.Common.{
  ℕ, zero, suc, ◌≤◌, String, str_eq, ◌≡◌, refl, ap, ◌∙◌, inl, inr, Bool, true, ◌||◌, Bool-cases,
  some, List, [], ◌∷◌, map, take, length, arith,
}
use rtk_account_manager.Channel.Fields.{contains}
use rtk_account_manager.Store.Rows.{find_row}
use rtk_account_manager.Store.Selection.{insert_by, sort_by, filter_by}

pub take-all : {A : Type 0} (n : ℕ) (xs : List A) → length xs ≤ n → take n xs ≡ xs
take-all zero [] h = refl
take-all zero (x ∷ xs) h = elim (lemma h) [ ]
  where
    lemma : suc (length xs) ≤ 0 → ⊥
    lemma h = omega (arith, h)
take-all (suc n) [] h = refl
take-all (suc n) (x ∷ xs) h = ap (λ ys. x ∷ ys) (take-all n xs (omega (arith, h)))

pub length-filter_by-le :
    {A : Type 0} (p : A → Bool) (xs : List A) → length (filter_by p xs) ≤ length xs
unfolding filter_by
length-filter_by-le p [] = omega arith
length-filter_by-le p (x ∷ xs) = elim (Bool-cases (p x)) [
  | inl b ↦ rw b (omega (arith, length-filter_by-le p xs))
  | inr b ↦ rw b (omega (arith, length-filter_by-le p xs))
]

module _ {A : Type 0} (key : A → String) (k : String) where
  abbrev pub has_key : List A → Bool
  has_key xs = contains (map key xs) k

  has_key-insert_by :
      (before : A → A → Bool) (x : A) (ys : List A)
      → has_key (insert_by before x ys) ≡ (str_eq (key x) k || has_key ys)
  unfolding insert_by
  has_key-insert_by before x [] = refl
  has_key-insert_by before x (y ∷ ys) = elim (Bool-cases (before y x)) [
    | inl e ↦ rw e (ground (arith, has_key-insert_by before x ys))
    | inr e ↦ rw e
  ]

  pub has_key-sort_by :
      (before : A → A → Bool) (xs : List A) → has_key (sort_by before xs) ≡ has_key xs
  unfolding sort_by
  has_key-sort_by before [] = refl
  has_key-sort_by before (x ∷ xs) =
      has_key-insert_by before x (sort_by before xs)
      ∙ ap (λ b. str_eq (key x) k || b) (has_key-sort_by before xs)

  pub has_key-map :
      (f : A → A) (xs : List A) → ((x : A) → key (f x) ≡ key x) → has_key (map f xs) ≡ has_key xs
  has_key-map f [] keeps = refl
  has_key-map f (x ∷ xs) keeps = ground (arith, keeps x, has_key-map f xs keeps)

  pub has_key-filter_by :
      (p : A → Bool) (xs : List A) (x : A)
      → find_row key k xs ≡ some x
      → p x ≡ true
      → has_key (filter_by p xs) ≡ true
  unfolding find_row filter_by
  has_key-filter_by p [] x found h = cc
  has_key-filter_by p (y ∷ ys) x found h = elim (Bool-cases (str_eq (key y) k)) [
    | inl e ↦
        let same : y ≡ x = ground (arith, found, e) in
        let holds : p y ≡ true = ap p same ∙ h in rw holds (ground (arith, e))
    | inr e ↦
        let rest = has_key-filter_by p ys x (ground (arith, found, e)) h in
        elim (Bool-cases (p y)) [ inl b ↦ rw b (ground (arith, rest)) | inr b ↦ rw b rest ]
  ]

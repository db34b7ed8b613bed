-- ===== src/Store/Selection/Permutations.antt =====
-- Reorderings of a list, and what a list of rows keeps in any order.
use rtk_account_manager.Common.{
  String, str_eq, ◌≡◌, ◌≢◌, refl, sym, ap, ◌∙◌, ◌||◌, List, [], ◌∷◌, map, All, arith,
}
use rtk_account_manager.Store.Rows.Distinct.{Distinct}
use rtk_account_manager.Store.Selection.Members.{has_key}

module _ {ℓ} {A : Type ℓ} where
  pub data Reorder : List A → List A → Type ℓ where
    empty : Reorder [] []
    keep : (x : A) {xs ys : List A} → Reorder xs ys → Reorder (x ∷ xs) (x ∷ ys)
    swap : (x y : A) (xs : List A) → Reorder (x ∷ y ∷ xs) (y ∷ x ∷ xs)
    chain : {xs ys zs : List A} → Reorder xs ys → Reorder ys zs → Reorder xs zs

  pub Reorder-sym : {xs ys : List A} → Reorder xs ys → Reorder ys xs
  Reorder-sym Reorder.empty = Reorder.empty
  Reorder-sym (Reorder.keep x p) = Reorder.keep x (Reorder-sym p)
  Reorder-sym (Reorder.swap x y xs) = Reorder.swap y x xs
  Reorder-sym (Reorder.chain p q) = Reorder.chain (Reorder-sym q) (Reorder-sym p)

  pub All-Reorder {κ} : (P : A → Type κ) {xs ys : List A} → Reorder xs ys → All P xs → All P ys
  All-Reorder P Reorder.empty h = tt
  All-Reorder P (Reorder.keep x p) h = (h.0, All-Reorder P p h.1)
  All-Reorder P (Reorder.swap x y xs) (p, (q, h)) = (q, (p, h))
  All-Reorder P (Reorder.chain p q) h = All-Reorder P q (All-Reorder P p h)

pub Reorder-map {ℓ κ} :
    {A : Type ℓ} {B : Type κ} (f : A → B) {xs ys : List A}
    → Reorder xs ys
    → Reorder (map f xs) (map f ys)
Reorder-map f Reorder.empty = Reorder.empty
Reorder-map f (Reorder.keep x p) = Reorder.keep (f x) (Reorder-map f p)
Reorder-map f (Reorder.swap x y xs) = Reorder.swap (f x) (f y) (map f xs)
Reorder-map f (Reorder.chain p q) = Reorder.chain (Reorder-map f p) (Reorder-map f q)

module _ {A : Type 0} (key : A → String) where
  pub Distinct-Reorder : {xs ys : List A} → Reorder xs ys → Distinct key xs → Distinct key ys
  Distinct-Reorder Reorder.empty d = tt
  Distinct-Reorder (Reorder.keep x p) d =
      (All-Reorder (λ y. key x ≢ key y) p d.0, Distinct-Reorder p d.1)
  Distinct-Reorder (Reorder.swap x y xs) ((n, h), (h', d)) = ((λ e. n (sym e), h'), (h, d))
  Distinct-Reorder (Reorder.chain p q) d = Distinct-Reorder q (Distinct-Reorder p d)

  pub has_key-Reorder :
      (k : String) {xs ys : List A} → Reorder xs ys → has_key key k xs ≡ has_key key k ys
  has_key-Reorder k Reorder.empty = refl
  has_key-Reorder k (Reorder.keep x p) = ap (λ b. str_eq (key x) k || b) (has_key-Reorder k p)
  has_key-Reorder k (Reorder.swap x y xs) = ground arith
  has_key-Reorder k (Reorder.chain p q) = has_key-Reorder k p ∙ has_key-Reorder k q

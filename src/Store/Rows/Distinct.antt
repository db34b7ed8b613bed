-- ===== src/Store/Rows/Distinct.antt =====
-- Tables whose rows have distinct keys, and the lists of rows that a query selects from them.
use rtk_account_manager.Common.{
  ℕ, zero, suc, String, str_eq, eq_iff, ◌≡◌, refl, sym, subst, ap, ◌∙◌, ◌≢◌, inl, inr, Bool, true,
  Bool-cases, none, some, List, [], ◌∷◌, ◌++◌, map, take, if◌then◌else◌, All, arith,
}
use mathlib.Core.Option
use rtk_account_manager.Channel.Fields.{contains}
use rtk_account_manager.Store.Rows.{find_row, update_row}
use rtk_account_manager.Store.Selection.{insert_by, sort_by, filter_by}
use rtk_account_manager.Store.Selection.Laws.{
  All-insert_by, All-sort_by, All-take, All-map, All-imp,
}

module _ {A : Type 0} where
  pub All-filter_by :
      (P : A → Type 0) (p : A → Bool) (xs : List A) → All P xs → All P (filter_by p xs)
  unfolding filter_by
  All-filter_by P p [] h = tt
  All-filter_by P p (x ∷ xs) h = elim (Bool-cases (p x)) [
    | inl e ↦ rw e (h.0, All-filter_by P p xs h.1)
    | inr e ↦ rw e (All-filter_by P p xs h.1)
  ]

  pub All-append : (P : A → Type 0) (xs : List A) {y : A} → All P xs → P y → All P (xs ++ y ∷ [])
  All-append P [] h p = (p, tt)
  All-append P (x ∷ xs) h p = (h.0, All-append P xs h.1 p)

  pub All-both : (P Q : A → Type 0) (xs : List A) → All P xs → All Q xs → All (λ x. P x × Q x) xs
  All-both P Q [] g h = tt
  All-both P Q (x ∷ xs) g h = ((g.0, h.0), All-both P Q xs g.1 h.1)

module _ {A : Type 0} (key : A → String) where
  abbrev pub Distinct : List A → Type 0
  Distinct [] = Unit
  Distinct (x ∷ xs) = All (λ y. key x ≢ key y) xs × Distinct xs

  pub find_row-All :
      (P : A → Type 0) (k : String) (rows : List A) (r : A)
      → All P rows
      → find_row key k rows ≡ some r
      → P r
  unfolding find_row
  find_row-All P k [] r h e = cc
  find_row-All P k (x ∷ rows) r h e = elim (Bool-cases (str_eq (key x) k)) [
    | inl b ↦ subst P (let same : x ≡ r = ground (arith, b, e) in same) h.0
    | inr b ↦ find_row-All P k rows r h.1 (ground (arith, b, e))
  ]

  -- A row of a table with distinct keys is the one that its key finds.
  pub find_row_self :
      (rows : List A) → Distinct rows → All (λ r. find_row key (key r) rows ≡ some r) rows
  unfolding find_row
  find_row_self [] d = tt
  find_row_self (x ∷ rows) d = (
    ground (arith, eq_iff (key x) (key x)),
    All-imp rows (λ r h. ground (arith, eq_iff (key x) (key r), h))
        (All-both _ _ rows d.0 (find_row_self rows d.1)),
  )

  pub find_row-map :
      (f : A → A) (k : String) (rows : List A)
      → ((r : A) → key (f r) ≡ key r)
      → find_row key k (map f rows) ≡ Option.map f (find_row key k rows)
  unfolding find_row
  find_row-map f k [] keeps = ground arith
  find_row-map f k (r ∷ rows) keeps =
      ground (arith, eq_iff (key r) k, eq_iff (key (f r)) k, keeps r, find_row-map f k rows keeps)

  pub find_row-append :
      (k : String) (rows more : List A) (r : A)
      → find_row key k rows ≡ some r
      → find_row key k (rows ++ more) ≡ some r
  unfolding find_row
  find_row-append k [] more r e = cc
  find_row-append k (x ∷ rows) more r e = ground (arith, find_row-append k rows more r)

  pub contains-All :
      (P : A → Type 0) (k : String) (xs : List A)
      → All P xs
      → contains (map key xs) k ≡ true
      → (x : A) × P x × (key x ≡ k)
  contains-All P k [] h c = cc
  contains-All P k (x ∷ xs) h c = elim (Bool-cases (str_eq (key x) k)) [
    | inl b ↦ (x, h.0, (eq_iff (key x) k).0 b)
    | inr b ↦ contains-All P k xs h.1 (ground (arith, b, c))
  ]

  Distinct-insert_by :
      (before : A → A → Bool) (x : A) (ys : List A)
      → All (λ y. key x ≢ key y) ys
      → Distinct ys
      → Distinct (insert_by before x ys)
  unfolding insert_by
  Distinct-insert_by before x [] f d = (tt, tt)
  Distinct-insert_by before x (y ∷ ys) f d = elim (Bool-cases (before y x)) [
    | inl e ↦ rw e (
      All-insert_by (λ z. key y ≢ key z) before x ys (λ q. f.0 (sym q)) d.0,
      Distinct-insert_by before x ys f.1 d.1,
    )
    | inr e ↦ rw e (f, d)
  ]

  pub Distinct-sort_by :
      (before : A → A → Bool) (xs : List A) → Distinct xs → Distinct (sort_by before xs)
  unfolding sort_by
  Distinct-sort_by before [] d = tt
  Distinct-sort_by before (x ∷ xs) d =
      Distinct-insert_by before x (sort_by before xs)
        (All-sort_by (λ y. key x ≢ key y) before xs d.0) (Distinct-sort_by before xs d.1)

  pub Distinct-filter_by : (p : A → Bool) (xs : List A) → Distinct xs → Distinct (filter_by p xs)
  unfolding filter_by
  Distinct-filter_by p [] d = tt
  Distinct-filter_by p (x ∷ xs) d = elim (Bool-cases (p x)) [
    | inl e ↦ rw e (All-filter_by (λ y. key x ≢ key y) p xs d.0, Distinct-filter_by p xs d.1)
    | inr e ↦ rw e (Distinct-filter_by p xs d.1)
  ]

  pub Distinct-take : (n : ℕ) (xs : List A) → Distinct xs → Distinct (take n xs)
  Distinct-take zero xs d = tt
  Distinct-take (suc n) [] d = tt
  Distinct-take (suc n) (x ∷ xs) d =
      (All-take (λ y. key x ≢ key y) n xs d.0, Distinct-take n xs d.1)

  All-apart-map :
      (f : A → A) (x : A) (xs : List A)
      → ((r : A) → key (f r) ≡ key r)
      → All (λ y. key x ≢ key y) xs
      → All (λ y. key (f x) ≢ key y) (map f xs)
  All-apart-map f x [] keeps h = tt
  All-apart-map f x (y ∷ ys) keeps h =
      (λ e. h.0 (sym (keeps x) ∙ e ∙ keeps y), All-apart-map f x ys keeps h.1)

  pub Distinct-map :
      (f : A → A) (xs : List A) → ((r : A) → key (f r) ≡ key r) → Distinct xs → Distinct (map f xs)
  Distinct-map f [] keeps d = tt
  Distinct-map f (x ∷ xs) keeps d = (All-apart-map f x xs keeps d.0, Distinct-map f xs keeps d.1)

  pub Distinct-append :
      (xs : List A) (x : A) → find_row key (key x) xs ≡ none → Distinct xs → Distinct (xs ++ x ∷ [])
  unfolding find_row
  Distinct-append [] x e d = (tt, tt)
  Distinct-append (y ∷ ys) x e d = (
    apart ys (λ q. ground (arith, q, eq_iff (key y) (key x), e)) d.0,
    Distinct-append ys x (ground (arith, e)) d.1,
  )
    where
      apart :
          (zs : List A)
          → key y ≢ key x
          → All (λ z. key y ≢ key z) zs
          → All (λ z. key y ≢ key z) (zs ++ x ∷ [])
      apart [] n h = (n, tt)
      apart (z ∷ zs) n h = (h.0, apart zs n h.1)

  -- An update is a map over the rows.
  pub update_row-map :
      (k : String) (f : A → A) (rows : List A)
      → update_row key k f rows ≡ map (λ r. if str_eq (key r) k then f r else r) rows
  unfolding update_row
  update_row-map k f [] = refl
  update_row-map k f (r ∷ rows) =
      ap (λ rest. (if str_eq (key r) k then f r else r) ∷ rest) (update_row-map k f rows)

  pub Distinct-update_row :
      (k : String) (f : A → A) (rows : List A)
      → ((r : A) → key (f r) ≡ key r)
      → Distinct rows
      → Distinct (update_row key k f rows)
  Distinct-update_row k f rows keeps d =
      subst Distinct (sym (update_row-map k f rows)) (Distinct-map _ rows kept d)
    where
      kept : (r : A) → key (if str_eq (key r) k then f r else r) ≡ key r
      kept r = elim (Bool-cases (str_eq (key r) k)) [ inl e ↦ rw e (keeps r) | inr e ↦ rw e ]

  -- To keep a property of all rows, an update has to give it to the one row that it changes.
  pub All-update_found :
      (P : A → Type 0) (k : String) (f : A → A) (rows : List A) (m : A)
      → Distinct rows
      → All P rows
      → find_row key k rows ≡ some m
      → P (f m)
      → All P (update_row key k f rows)
  All-update_found P k f rows m d h found p =
      subst (All P) (sym (update_row-map k f rows))
        (All-map P _ rows (All-imp rows each (All-both _ _ rows h (find_row_self rows d))))
    where
      each :
          (r : A)
          → P r × (find_row key (key r) rows ≡ some r)
          → P (if str_eq (key r) k then f r else r)
      each r (q, self) = elim (Bool-cases (str_eq (key r) k)) [
        | inl e ↦ rw e (
            subst (λ x. P (f x))
              (let same : m ≡ r = ground (arith, self, found, (eq_iff (key r) k).0 e) in same) p)
        | inr e ↦ rw e q
      ]

-- ===== src/Python/Sorting.antt =====
-- `list.sort` by an order that is given by its test, and what it does with a part of the list.
use indigo_matter.Prelude.{
  Bool, true, false, List, [], ◌∷◌, ◌≡◌, refl, inl, inr, if◌then◌else◌, All, All-map, Bool-cases, ℕ,
  zero, suc,
}

-- The items that pass the test.
abbrev pub filter {ℓ} : {A : Type ℓ} → (A → Bool) → List A → List A
filter p [] = []
filter p (x ∷ xs) = let rest = filter p xs in if p x then x ∷ rest else rest

-- `xs[:n]` and `xs[n:]`
abbrev pub take {ℓ} : {A : Type ℓ} → ℕ → List A → List A
take zero xs = []
take (suc n) [] = []
take (suc n) (x ∷ xs) = x ∷ take n xs

abbrev pub drop {ℓ} : {A : Type ℓ} → ℕ → List A → List A
drop zero xs = xs
drop (suc n) [] = []
drop (suc n) (x ∷ xs) = drop n xs

All-filter {ℓ κ} :
    {A : Type ℓ} (P : A → Type κ) (p : A → Bool) (xs : List A) → All P xs → All P (filter p xs)
All-filter P p [] h = tt
All-filter P p (x ∷ xs) h = elim (Bool-cases (p x)) [
  | inl is ↦ rw is (h.0, All-filter P p xs h.1)
  | inr is ↦ rw is (All-filter P p xs h.1)
]

-- `before a b`: `a` is to stand before `b`.
module _ {A : Type 0} (before : A → A → Bool) where
  unfoldable pub insert_sorted : A → List A → List A
  insert_sorted x [] = x ∷ []
  insert_sorted x (y ∷ ys) =
      let rest = insert_sorted x ys in if before y x then y ∷ rest else x ∷ y ∷ ys

  -- Items of which neither stands before the other keep their order.
  unfoldable pub sort : List A → List A
  sort [] = []
  sort (x ∷ xs) = insert_sorted x (sort xs)

  -- Nothing of the list stands before the item.
  abbrev pub IsFirst : A → List A → Type 0
  IsFirst x ys = All (λ y. before y x ≡ false) ys

  abbrev pub IsSorted : List A → Type 0
  IsSorted [] = Unit
  IsSorted (x ∷ xs) = IsFirst x xs × IsSorted xs

  pub All-insert_sorted :
      (P : A → Type 0) (x : A) (xs : List A) → P x → All P xs → All P (insert_sorted x xs)
  unfolding insert_sorted
  All-insert_sorted P x [] h k = (h, tt)
  All-insert_sorted P x (y ∷ ys) h k = elim (Bool-cases (before y x)) [
    | inl is ↦ rw is (k.0, All-insert_sorted P x ys h k.1)
    | inr is ↦ rw is (h, k)
  ]

  pub All-sort : (P : A → Type 0) (xs : List A) → All P xs → All P (sort xs)
  unfolding sort
  All-sort P [] h = tt
  All-sort P (x ∷ xs) h = All-insert_sorted P x (sort xs) h.0 (All-sort P xs h.1)

  insert_sorted_first : (x : A) (ys : List A) → IsFirst x ys → insert_sorted x ys ≡ x ∷ ys
  unfolding insert_sorted
  insert_sorted_first x [] h = refl
  insert_sorted_first x (y ∷ ys) h = rw h.0 refl

  pub record IsOrder : Type 0 where
    pub asym : (a b : A) → before a b ≡ true → before b a ≡ false
    pub negtrans : (a b c : A) → before a b ≡ false → before b c ≡ false → before a c ≡ false

  module _ (order : IsOrder) where
    behind_head : (x y : A) (ys : List A) → before y x ≡ false → IsFirst y ys → IsFirst x ys
    behind_head x y ys h k =
        All-map (λ z. before z y ≡ false) (λ z. before z x ≡ false) ys
          (λ z first. order.negtrans z y x first h) k

    insert_sorted-IsSorted : (x : A) (xs : List A) → IsSorted xs → IsSorted (insert_sorted x xs)
    unfolding insert_sorted
    insert_sorted-IsSorted x [] s = (tt, tt)
    insert_sorted-IsSorted x (y ∷ ys) s = elim (Bool-cases (before y x)) [
      | inl is ↦ rw is (
        All-insert_sorted (λ z. before z y ≡ false) x ys (order.asym y x is) s.0,
        insert_sorted-IsSorted x ys s.1,
      )
      | inr is ↦ rw is ((is, behind_head x y ys is s.0), s)
    ]

    pub sort-IsSorted : (xs : List A) → IsSorted (sort xs)
    unfolding sort
    sort-IsSorted [] = tt
    sort-IsSorted (x ∷ xs) = insert_sorted-IsSorted x (sort xs) (sort-IsSorted xs)

    insert_sorted_behind :
        (x y : A) (ys : List A)
        → before y x ≡ true
        → insert_sorted x (y ∷ ys) ≡ y ∷ insert_sorted x ys
    unfolding insert_sorted
    insert_sorted_behind x y ys is = rw is refl

    filter-insert_sorted :
        (p : A → Bool) (x : A) (ys : List A)
        → IsSorted ys
        → filter p (insert_sorted x ys)
          ≡ (if p x then insert_sorted x (filter p ys) else filter p ys)
    filter-insert_sorted p x [] s = elim (Bool-cases (p x)) [
      | inl px ↦ rw (insert_sorted_first x [] tt, px) refl
      | inr px ↦ rw (insert_sorted_first x [] tt, px) refl
    ]
    filter-insert_sorted p x (y ∷ ys) s = elim (Bool-cases (before y x)) [
      | inl is ↦ elim (Bool-cases (p y)) [
        | inl py ↦ elim (Bool-cases (p x)) [
          | inl px ↦
              rw
                (
                  insert_sorted_behind x y ys is,
                  py,
                  px,
                  insert_sorted_behind x y (filter p ys) is,
                  filter-insert_sorted p x ys s.1,
                  px,
                )
                refl
          | inr px ↦
              rw (insert_sorted_behind x y ys is, py, px, filter-insert_sorted p x ys s.1, px) refl
        ]
        | inr py ↦ rw (insert_sorted_behind x y ys is, py, filter-insert_sorted p x ys s.1) refl
      ]
      | inr is ↦
          rw
            (
              insert_sorted_first x (y ∷ ys) (is, behind_head x y ys is s.0),
              insert_sorted_first x (filter p (y ∷ ys))
                  (All-filter (λ z. before z x ≡ false) p (y ∷ ys) (is, behind_head x y ys is s.0)),
            )
            refl
    ]

    -- Sorting and leaving items out can be done in either order.
    pub filter-sort : (p : A → Bool) (xs : List A) → filter p (sort xs) ≡ sort (filter p xs)
    unfolding sort
    filter-sort p [] = refl
    filter-sort p (x ∷ xs) = elim (Bool-cases (p x)) [
      | inl is ↦
          rw (filter-insert_sorted p x (sort xs) (sort-IsSorted xs), is, filter-sort p xs) refl
      | inr is ↦
          rw (filter-insert_sorted p x (sort xs) (sort-IsSorted xs), is, filter-sort p xs) refl
    ]

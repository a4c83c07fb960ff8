-- ===== src/Filemap/Sort.antt =====
-- Python's `sorted`: a stable sort by a key that is a text.
use xfce_linux.Base.{
  ℕ, ◌+◌, ◌≡◌, Bool, true, false, ◌&&◌, ◌||◌, List, [], ◌∷◌, Text, ltb, ◌==◌, if◌then◌else◌, arith,
  suc, refl, Bool-cases, inl, inr, length, All,
}

-- `s <= t`, by code points
abbrev pub text_le : Text → Text → Bool
text_le [] t = true
text_le (c ∷ s) [] = false
text_le (c ∷ s) (d ∷ t) = ltb c d || (c == d && text_le s t)

abbrev pub sum_of {ℓ} : {A : Type ℓ} → (A → ℕ) → List A → ℕ
sum_of w [] = 0
sum_of w (x ∷ xs) = w x + sum_of w xs

module _ {ℓ} {A : Type ℓ} (key : A → Text) where
  abbrev pub insert : A → List A → List A
  insert x [] = x ∷ []
  insert x (y ∷ ys) = if text_le (key x) (key y) then x ∷ y ∷ ys else y ∷ insert x ys

  abbrev pub sort : List A → List A
  sort [] = []
  sort (x ∷ xs) = insert x (sort xs)

  -- The keys do not descend.
  abbrev pub IsSorted : List A → Type 0
  IsSorted [] = Unit
  IsSorted (x ∷ []) = Unit
  IsSorted (x ∷ y ∷ ys) = (text_le (key x) (key y) ≡ true) × IsSorted (y ∷ ys)

text_le_total : (s t : Text) → text_le s t ≡ false → text_le t s ≡ true
text_le_total [] t h = ground arith
text_le_total (c ∷ s) [] h = refl
text_le_total (c ∷ s) (d ∷ t) h = ground (arith, text_le_total s t)

pub text_le_trans : (s t u : Text) → text_le s t ≡ true → text_le t u ≡ true → text_le s u ≡ true
text_le_trans [] t u h k = refl
text_le_trans (c ∷ s) [] u h k = absurd (cc)
text_le_trans (c ∷ s) (d ∷ t) [] h k = absurd (cc)
text_le_trans (c ∷ s) (d ∷ t) (e ∷ u) h k = ground (arith, text_le_trans s t u)

module _ {ℓ} {A : Type ℓ} (key : A → Text) where
  insert_head :
      (x y : A) (ys : List A)
      → text_le (key y) (key x) ≡ true
      → IsSorted key (y ∷ ys)
      → IsSorted key (insert key x ys)
      → IsSorted key (y ∷ insert key x ys)
  insert_head x y [] h s t = (h, tt)
  insert_head x y (z ∷ zs) h (a, s) t = elim (Bool-cases (text_le (key x) (key z))) [
    | inl e ↦ rw e (h, (e, s))
    | inr e ↦ rw e (a, rw e at t)
  ]

  pub tail-IsSorted : (y : A) (ys : List A) → IsSorted key (y ∷ ys) → IsSorted key ys
  tail-IsSorted y [] h = tt
  tail-IsSorted y (z ∷ zs) (a, h) = h

  insert-IsSorted : (x : A) (ys : List A) → IsSorted key ys → IsSorted key (insert key x ys)
  insert-IsSorted x [] h = tt
  insert-IsSorted x (y ∷ ys) h = elim (Bool-cases (text_le (key x) (key y))) [
    | inl e ↦ rw e (e, h)
    | inr e ↦ rw e (
        insert_head x y ys (text_le_total (key x) (key y) e) h
          (insert-IsSorted x ys (tail-IsSorted y ys h)))
  ]

  pub sort-IsSorted : (xs : List A) → IsSorted key (sort key xs)
  sort-IsSorted [] = tt
  sort-IsSorted (x ∷ xs) = insert-IsSorted x (sort key xs) (sort-IsSorted xs)

  insert-sum_of : (w : A → ℕ) (x : A) (ys : List A) → sum_of w (insert key x ys) ≡ w x + sum_of w ys
  insert-sum_of w x [] = refl
  insert-sum_of w x (y ∷ ys) = elim (Bool-cases (text_le (key x) (key y))) [
    | inl e ↦ rw e refl
    | inr e ↦ rw e (omega (arith, insert-sum_of w x ys))
  ]

  -- The sort keeps what is summed over the items.
  pub sort-sum_of : (w : A → ℕ) (xs : List A) → sum_of w (sort key xs) ≡ sum_of w xs
  sort-sum_of w [] = refl
  sort-sum_of w (x ∷ xs) = omega (arith, insert-sum_of w x (sort key xs), sort-sum_of w xs)

  insert-length : (x : A) (ys : List A) → length (insert key x ys) ≡ suc (length ys)
  insert-length x [] = refl
  insert-length x (y ∷ ys) = elim (Bool-cases (text_le (key x) (key y))) [
    | inl e ↦ rw e refl
    | inr e ↦ rw e (omega (arith, insert-length x ys))
  ]

  pub sort-length : (xs : List A) → length (sort key xs) ≡ length xs
  sort-length [] = refl
  sort-length (x ∷ xs) = omega (arith, insert-length x (sort key xs), sort-length xs)

  insert-All {κ} : (P : A → Type κ) (x : A) (ys : List A) → P x → All P ys → All P (insert key x ys)
  insert-All P x [] h hs = (h, tt)
  insert-All P x (y ∷ ys) h (k, ks) = elim (Bool-cases (text_le (key x) (key y))) [
    | inl e ↦ rw e (h, (k, ks))
    | inr e ↦ rw e (k, insert-All P x ys h ks)
  ]

  pub sort-All {κ} : (P : A → Type κ) (xs : List A) → All P xs → All P (sort key xs)
  sort-All P [] h = tt
  sort-All P (x ∷ xs) (h, hs) = insert-All P x (sort key xs) h (sort-All P xs hs)

-- ===== src/Base/Lists.antt =====
-- Lists measured and indexed by native numbers, under the library's names.
use Prim.Native.Nat.{ℕ, zero, suc, ◌+◌, ◌-◌, ◌≤◌, min}
use mathlib.Core.Path.{◌≡◌, refl, ap}
use mathlib.Core.Bool.{Bool, true, false, ◌||◌}
use mathlib.Core.List.{List, [], ◌∷◌, ◌++◌}
use native.Mathlib.Omega.{arith}
use xfce_linux.Base.Tests.{if◌then◌else◌}

module _ {ℓ} {A : Type ℓ} where
  abbrev pub length : List A → ℕ
  length [] = 0
  length (x ∷ xs) = suc (length xs)

  abbrev pub take : ℕ → List A → List A
  take zero xs = []
  take (suc n) [] = []
  take (suc n) (x ∷ xs) = x ∷ take n xs

  abbrev pub drop : ℕ → List A → List A
  drop zero xs = xs
  drop (suc n) [] = []
  drop (suc n) (x ∷ xs) = drop n xs

  -- `xs[-n:]`
  abbrev pub take_last : ℕ → List A → List A
  take_last n xs = drop (length xs - n) xs

  -- `any(p(x) for x in xs)`
  abbrev pub any : (A → Bool) → List A → Bool
  any p [] = false
  any p (x ∷ xs) = p x || any p xs

  abbrev pub keep : (A → Bool) → List A → List A
  keep p [] = []
  keep p (x ∷ xs) = if p x then x ∷ keep p xs else keep p xs

  -- How many items satisfy `p`.
  abbrev pub tally : (A → Bool) → List A → ℕ
  tally p [] = 0
  tally p (x ∷ xs) = if p x then suc (tally p xs) else tally p xs

  abbrev pub All {κ} : (A → Type κ) → List A → Type κ
  All P [] = Unit
  All P (x ∷ xs) = P x × All P xs

module _ {ℓ} {A : Type ℓ} where
  pub length-append : (xs ys : List A) → length (xs ++ ys) ≡ length xs + length ys
  length-append [] ys = omega arith
  length-append (x ∷ xs) ys = omega (arith, length-append xs ys)

  pub length-drop : (n : ℕ) (xs : List A) → length (drop n xs) ≡ length xs - n
  length-drop zero xs = omega arith
  length-drop (suc n) [] = omega arith
  length-drop (suc n) (x ∷ xs) = omega (arith, length-drop n xs)

  pub length-take : (n : ℕ) (xs : List A) → length (take n xs) ≡ min n (length xs)
  length-take zero xs = omega arith
  length-take (suc n) [] = omega arith
  length-take (suc n) (x ∷ xs) = omega (arith, length-take n xs)

  pub length-take-le : (n : ℕ) (xs : List A) → length (take n xs) ≤ n
  length-take-le n xs = omega (arith, length-take n xs)

  pub take-append-drop : (n : ℕ) (xs : List A) → take n xs ++ drop n xs ≡ xs
  take-append-drop zero xs = refl
  take-append-drop (suc n) [] = refl
  take-append-drop (suc n) (x ∷ xs) = rw (take-append-drop n xs)

  pub take-all : (n : ℕ) (xs : List A) → length xs ≤ n → take n xs ≡ xs
  take-all zero [] h = refl
  take-all zero (x ∷ xs) h = absurd (omega arith)
  take-all (suc n) [] h = refl
  take-all (suc n) (x ∷ xs) h = ap (λ t. x ∷ t) (take-all n xs (omega arith))

  -- Reading on from where a prefix ended gives the longer prefix.
  pub take-take-drop : (m n : ℕ) (xs : List A) → take m xs ++ take n (drop m xs) ≡ take (m + n) xs
  take-take-drop zero n xs = ap (λ (k : ℕ). take k xs) (omega arith)
  take-take-drop (suc m) n [] = goal n
    where
      goal : (k : ℕ) → take {A = A} k [] ≡ take (suc m + k) []
      goal zero = let e : suc m + 0 ≡ suc m = omega arith in rw e refl
      goal (suc k) = let e : suc m + suc k ≡ suc (m + suc k) = omega arith in rw e refl
  take-take-drop (suc m) n (x ∷ xs) =
      let e : suc m + n ≡ suc (m + n) = omega arith in
      rw e (ap (λ t. x ∷ t) (take-take-drop m n xs))

  pub length-keep-le : (p : A → Bool) (xs : List A) → length (keep p xs) ≤ length xs
  length-keep-le p [] = omega arith
  length-keep-le p (x ∷ xs) = ground (arith, length-keep-le p xs)

  pub tally-append : (p : A → Bool) (xs ys : List A) → tally p (xs ++ ys) ≡ tally p xs + tally p ys
  tally-append p [] ys = omega arith
  tally-append p (x ∷ xs) ys = ground (arith, tally-append p xs ys)

  pub any-append : (p : A → Bool) (xs ys : List A) → any p (xs ++ ys) ≡ (any p xs || any p ys)
  any-append p [] ys = refl
  any-append p (x ∷ xs) ys = ground (arith, any-append p xs ys)

module _ {ℓ κ} {A : Type ℓ} (P : A → Type κ) where
  pub All-append : (xs ys : List A) → All P xs → All P ys → All P (xs ++ ys)
  All-append [] ys hx hy = hy
  All-append (x ∷ xs) ys hx hy = (hx.0, All-append xs ys hx.1 hy)

  pub All-append_left : (xs ys : List A) → All P (xs ++ ys) → All P xs
  All-append_left [] ys h = tt
  All-append_left (x ∷ xs) ys h = (h.0, All-append_left xs ys h.1)

  pub All-keep : (p : A → Bool) (xs : List A) → All P xs → All P (keep p xs)
  All-keep p [] h = tt
  All-keep p (x ∷ xs) h = All-if (p x) h.0 (All-keep p xs h.1)
    where
      All-if : (b : Bool) → P x → All P (keep p xs) → All P (if b then x ∷ keep p xs else keep p xs)
      All-if true hx hs = (hx, hs)
      All-if false hx hs = hs

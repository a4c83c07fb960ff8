-- ===== src/Dashboard/Recorded.antt =====
-- tools/bst_dashboard/parser.py: what the loop with `f.update(item)` in `_fail` makes of the failures.
use xfce_linux.Base.{
  ◌≡◌, ◌≢◌, refl, sym, subst, append_assoc, append-nil, ◌∙◌, ap, Bool, true, false, ◌&&◌, List, [],
  ◌∷◌, ◌++◌, Text, any, is_empty, text_eq, text_eq→≡, text_eq_self, All, Bool-cases, inl, inr,
  arith,
}
use xfce_linux.Dashboard.Types.{Item}
use xfce_linux.Dashboard.Updates.{merge_item, record_failure}

-- An entry of the element of `i` with no hash yet is what `i` is written into.
abbrev pub IsOpen : Item → Item → Type 0
IsOpen i f = (f.element ≡ i.element) × (f.hash ≡ [])

-- The failures after `i`: as they were if one has its hash already; or with `i` in the place of the
-- first open entry, or else at the end.
pub data Recorded (i : Item) (fs gs : List Item) : Type 0 where
  known :
      (xs : List Item) (f : Item) (ys : List Item)
      → fs ≡ xs ++ f ∷ ys
      → f.hash ≡ i.hash
      → gs ≡ fs
      → Recorded i fs gs
  merged :
      (xs : List Item) (f : Item) (ys : List Item)
      → All (λ (g : Item). g.hash ≢ i.hash) fs
      → fs ≡ xs ++ f ∷ ys
      → All (λ (g : Item). ¬ IsOpen i g) xs
      → IsOpen i f
      → gs ≡ xs ++ i ∷ ys
      → Recorded i fs gs
  added :
      All (λ (g : Item). g.hash ≢ i.hash) fs
      → All (λ (g : Item). ¬ IsOpen i g) fs
      → gs ≡ fs ++ i ∷ []
      → Recorded i fs gs

text_differs : (s t : Text) → text_eq s t ≡ false → s ≢ t
text_differs s t h e = let p = rw e at h in let q = text_eq_self t in cc

empty→≡ : (s : Text) → is_empty s ≡ true → s ≡ []
empty→≡ [] h = refl
empty→≡ (c ∷ s) h = cc

All-snoc : (P : Item → Type 0) (xs : List Item) (f : Item) → All P xs → P f → All P (xs ++ f ∷ [])
All-snoc P [] f h k = (k, tt)
All-snoc P (x ∷ xs) f (p, h) k = (p, All-snoc P xs f h k)

module _ (i : Item) where
  -- The tests of the code.
  abbrev same_hash : Item → Bool
  same_hash f = text_eq f.hash i.hash

  abbrev is_open : Item → Bool
  is_open f = text_eq f.element i.element && is_empty f.hash

  is_open→IsOpen : (f : Item) → is_open f ≡ true → IsOpen i f
  is_open→IsOpen f h = (text_eq→≡ _ _ (ground arith), empty→≡ _ (ground arith))

  is_open→¬IsOpen : (f : Item) → is_open f ≡ false → ¬ IsOpen i f
  is_open→¬IsOpen f h (e, n) = let p = rw (e, n, text_eq_self i.element) at h in cc

  none_has : (fs : List Item) → any same_hash fs ≡ false → All (λ (g : Item). g.hash ≢ i.hash) fs
  none_has [] h = tt
  none_has (f ∷ fs) h = (text_differs _ _ (ground arith), none_has fs (ground arith))

  -- A list with one entry of a kind.
  abbrev WithOne : (Item → Type 0) → List Item → Type 0
  WithOne P fs = (xs : List Item) × (f : Item) × (ys : List Item) × (fs ≡ xs ++ f ∷ ys) × P f

  find_same : (fs : List Item) → any same_hash fs ≡ true → WithOne (λ f. f.hash ≡ i.hash) fs
  find_same [] h = cc
  find_same (f ∷ fs) h = elim (Bool-cases (same_hash f)) [
    | inl e ↦ ([], f, fs, refl, text_eq→≡ _ _ e)
    | inr e ↦
        let (xs, g, ys, p, k) = find_same fs (ground arith) in (f ∷ xs, g, ys, ap (λ l. f ∷ l) p, k)
  ]

  -- Where `merge_item` writes, for a list without the hash.
  merge_item-Recorded :
      (fs done all : List Item)
      → All (λ (g : Item). g.hash ≢ i.hash) all
      → All (λ (g : Item). ¬ IsOpen i g) done
      → all ≡ done ++ fs
      → Recorded i all (done ++ merge_item i fs)
  merge_item-Recorded [] done all h k e =
      added h (subst (All (λ (g : Item). ¬ IsOpen i g)) (sym (append-nil done) ∙ sym e) k)
        (ap (λ l. l ++ i ∷ []) (sym (append-nil done) ∙ sym e))
  merge_item-Recorded (f ∷ fs) done all h k e = elim (Bool-cases (is_open f)) [
    | inl o ↦ rw o (merged done f fs h e k (is_open→IsOpen f o) refl)
    | inr o ↦ rw o (
        subst (Recorded i all) (append_assoc done (f ∷ []) (merge_item i fs)) (
          merge_item-Recorded fs (done ++ f ∷ []) all h (All-snoc _ done f k (is_open→¬IsOpen f o))
            (e ∙ sym (append_assoc done (f ∷ []) fs))))
  ]

-- `record_failure` is that description.
pub record_failure-Recorded : (i : Item) (fs : List Item) → Recorded i fs (record_failure i fs)
record_failure-Recorded i fs = elim (Bool-cases (any (same_hash i) fs)) [
  | inl e ↦ let (xs, f, ys, p, k) = find_same i fs e in rw e (known xs f ys p k refl)
  | inr e ↦ rw e (merge_item-Recorded i fs [] fs (none_has i fs e) tt refl)
]

-- ===== src/Regex/Forward.antt =====
-- Matches read forwards: where a continuation has a result, a piece of pattern before it has the
-- same result, if what the piece should take stands in front and cannot be longer.
use xfce_linux.Base.{
  starts_with, starts_with_nil, Bool-cases, inl, inr, ℕ, zero, suc, ◌-◌, ◌≤◌, ◌≡◌, refl, ap, Bool,
  true, false, none, some, List, [], ◌∷◌, ◌++◌, Text, length, length-append, take, All, arith, ◌==◌,
  ==_self,
}
use xfce_linux.Regex.{
  Regex, seq, alt, bos, eos, sat, star, group, plus, chr, lit_codes, Cursor, Cont, star_loop, exec,
  with_group,
}

abbrev pub at : Text → List (ℕ × Text) → Cursor
at s caps = record { at_start = false; rest = s; caps = caps }

-- The text does not begin with a character of the class.
abbrev pub NotAt : (ℕ → Bool) → Text → Type 0
NotAt p [] = Unit
NotAt p (x ∷ s) = p x ≡ false

take-append : (w r : Text) → take (length w) (w ++ r) ≡ w
take-append [] r = refl
take-append (x ∷ w) r = ap (λ t. x ∷ t) (take-append w r)

pub group_taken : (w r : Text) → take (length (w ++ r) - length r) (w ++ r) ≡ w
group_taken w r =
    let e : length (w ++ r) - length r ≡ length w = omega (arith, length-append w r) in
    rw e (take-append w r)

module _ (k : Cont) (m : Cursor) where
  star_loop-longest :
      (p : ℕ → Bool) (f : ℕ) (w r : Text) (caps : List (ℕ × Text))
      → length w ≤ f
      → All (λ x. p x ≡ true) w
      → NotAt p r
      → k (at r caps) ≡ some m
      → star_loop (exec (sat p)) f k (at (w ++ r) caps) ≡ some m
  unfolding star_loop exec
  star_loop-longest p zero [] r caps len all stop h = h
  star_loop-longest p zero (x ∷ w) r caps len all stop h = absurd (omega arith)
  star_loop-longest p (suc f) [] [] caps len all stop h = h
  star_loop-longest p (suc f) [] (x ∷ r) caps len all stop h = rw (stop, star_loop) h
  star_loop-longest p (suc f) (x ∷ w) r caps len all stop h =
      rw (all.0, star_loop-longest p f w r caps (omega arith) all.1 stop h, star_loop) refl

  -- Repetition takes all that it can.
  pub exec-star :
      (p : ℕ → Bool) (w r : Text) (caps : List (ℕ × Text))
      → All (λ x. p x ≡ true) w
      → NotAt p r
      → k (at r caps) ≡ some m
      → exec (star (sat p)) k (at (w ++ r) caps) ≡ some m
  unfolding exec
  exec-star p w r caps all stop h =
      star_loop-longest p (suc (length (w ++ r))) w r caps (omega (arith, length-append w r)) all
        stop h

  pub exec-plus :
      (p : ℕ → Bool) (x : ℕ) (w r : Text) (caps : List (ℕ × Text))
      → All (λ y. p y ≡ true) (x ∷ w)
      → NotAt p r
      → k (at r caps) ≡ some m
      → exec (plus (sat p)) k (at (x ∷ w ++ r) caps) ≡ some m
  unfolding exec
  exec-plus p x w r caps all stop h = rw all.0 (exec-star p w r caps all.1 stop h)

  pub exec-chr :
      (x : ℕ) (r : Text) (caps : List (ℕ × Text))
      → k (at r caps) ≡ some m
      → exec (chr x) k (at (x ∷ r) caps) ≡ some m
  unfolding exec
  exec-chr x r caps h = rw ==_self h

-- A group of one repeated class.
pub exec-group_plus :
    (k : Cont) (m : Cursor) (n : ℕ) (p : ℕ → Bool) (x : ℕ) (w r : Text) (caps : List (ℕ × Text))
    → All (λ y. p y ≡ true) (x ∷ w)
    → NotAt p r
    → k (at r ((n, x ∷ w) ∷ caps)) ≡ some m
    → exec (group n (plus (sat p))) k (at (x ∷ w ++ r) caps) ≡ some m
unfolding exec
exec-group_plus k m n p x w r caps all stop h =
    exec-plus (λ d. k (with_group n (at (x ∷ w ++ r) caps) d)) m p x w r caps all stop
      (rw (group_taken (x ∷ w) r) h)

pub exec-group_star :
    (k : Cont) (m : Cursor) (n : ℕ) (p : ℕ → Bool) (w r : Text) (caps : List (ℕ × Text))
    → All (λ y. p y ≡ true) w
    → NotAt p r
    → k (at r ((n, w) ∷ caps)) ≡ some m
    → exec (group n (star (sat p))) k (at (w ++ r) caps) ≡ some m
unfolding exec
exec-group_star k m n p w r caps all stop h =
    exec-star (λ d. k (with_group n (at (w ++ r) caps) d)) m p w r caps all stop
      (rw (group_taken w r) h)

-- The shapes of a pattern, for use while `exec` is shut.
module _ (k : Cont) (c m : Cursor) where
  pub exec-seq : (r s : Regex) → exec r (exec s k) c ≡ some m → exec (seq r s) k c ≡ some m
  unfolding exec
  exec-seq r s h = h

  pub exec-group :
      (n : ℕ) (r : Regex)
      → exec r (λ d. k (with_group n c d)) c ≡ some m
      → exec (group n r) k c ≡ some m
  unfolding exec
  exec-group n r h = h

  pub exec-alt_left : (r s : Regex) → exec r k c ≡ some m → exec (alt r s) k c ≡ some m
  unfolding exec
  exec-alt_left r s h = rw h refl

  pub exec-alt_right :
      (r s : Regex) → exec r k c ≡ none → exec s k c ≡ some m → exec (alt r s) k c ≡ some m
  unfolding exec
  exec-alt_right r s e h = rw e h

pub exec-lit_codes :
    (k : Cont) (m : Cursor) (x : ℕ) (w r : Text) (caps : List (ℕ × Text))
    → k (at r caps) ≡ some m
    → exec (lit_codes (x ∷ w)) k (at (x ∷ w ++ r) caps) ≡ some m
unfolding exec
exec-lit_codes k m x [] r caps h = exec-chr k m x r caps h
exec-lit_codes k m x (y ∷ w) r caps h = rw ==_self (exec-lit_codes k m y w r caps h)

pub exec-lit_codes-none :
    (k : Cont) (s w : Text) (caps : List (ℕ × Text))
    → starts_with s w ≡ false
    → exec (lit_codes w) k (at s caps) ≡ none
unfolding exec
exec-lit_codes-none k s [] caps h = absurd (starts_nil s h)
  where
    starts_nil : (t : Text) → starts_with t [] ≡ false → ⊥
    starts_nil [] e = cc
    starts_nil (c ∷ t) e = cc
exec-lit_codes-none k [] (x ∷ []) caps h = refl
exec-lit_codes-none k (y ∷ s) (x ∷ []) caps h = ground (arith, starts_with_nil s)
exec-lit_codes-none k [] (x ∷ z ∷ w) caps h = refl
exec-lit_codes-none k (y ∷ s) (x ∷ z ∷ w) caps h = elim (Bool-cases (y == x)) [
  | inr e ↦ rw e refl
  | inl e ↦ rw e (exec-lit_codes-none k s (z ∷ w) caps (ground arith))
]

pub exec-seq_none :
    (k : Cont) (c : Cursor) (r s : Regex)
    → ((k' : Cont) → exec r k' c ≡ none)
    → exec (seq r s) k c ≡ none
unfolding exec
exec-seq_none k c r s h = h (exec s k)

pub exec-bos :
    (k : Cont) (m : Cursor) (s : Text) (caps : List (ℕ × Text))
    → k (record { at_start = true; rest = s; caps = caps }) ≡ some m
    → exec bos k (record { at_start = true; rest = s; caps = caps }) ≡ some m
unfolding exec
exec-bos k m s caps h = h

pub exec-chr_first :
    (k : Cont) (m : Cursor) (x : ℕ) (r : Text)
    → k (at r []) ≡ some m
    → exec (chr x) k (record { at_start = true; rest = x ∷ r; caps = [] }) ≡ some m
unfolding exec
exec-chr_first k m x r h = rw ==_self h

pub exec-eos :
    (k : Cont) (m : Cursor) (caps : List (ℕ × Text))
    → k (at [] caps) ≡ some m
    → exec eos k (at [] caps) ≡ some m
unfolding exec
exec-eos k m caps h = h

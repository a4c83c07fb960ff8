-- ===== src/Base/StringLaws.antt =====
-- Lemmas on the text methods.
use xfce_linux.Base.Strings.{
  Text, text_eq_self, is_empty, starts_with, ends_with, drop_while_end, path_join,
}
use Prim.Native.Nat.{ℕ}
use mathlib.Core.Path.{◌≡◌, refl}
use mathlib.Core.Bool.{Bool, true, false}
use mathlib.Core.List.{[], ◌∷◌, ◌++◌}
use native.Mathlib.Omega.{arith}

pub ends_with_self : (p : Text) → ends_with p p ≡ true
ends_with_self [] = refl
ends_with_self (c ∷ p) = ground (arith, text_eq_self p)

pub ends_with-append : (w p : Text) → ends_with (w ++ p) p ≡ true
ends_with-append [] p = ends_with_self p
ends_with-append (c ∷ w) p = ground (arith, ends_with-append w p)

pub starts_with_nil : (t : Text) → starts_with t [] ≡ true
starts_with_nil [] = refl
starts_with_nil (c ∷ t) = refl

pub starts_with-split : (s p : Text) → starts_with s p ≡ true → (rest : Text) × (s ≡ p ++ rest)
starts_with-split s [] h = (s, refl)
starts_with-split [] (d ∷ p) h = cc
starts_with-split (c ∷ s) (d ∷ p) h =
    let (rest, e) = starts_with-split s p (ground arith) in
    let same : c ≡ d = ground arith in (rest, cc)

pub starts_with-append : (p s : Text) → starts_with (p ++ s) p ≡ true
starts_with-append [] s = starts_with_nil s
starts_with-append (c ∷ p) s = ground (arith, starts_with-append p s)

-- What is left by `rstrip` does not end in a character that it strips.
pub drop_while_end-last :
    (p : ℕ → Bool) (s w : Text) (x : ℕ) → drop_while_end p s ≡ w ++ x ∷ [] → p x ≡ false
drop_while_end-last p [] [] x h = absurd (cc)
drop_while_end-last p [] (v ∷ w) x h = absurd (cc)
drop_while_end-last p (c ∷ s) [] x h = ground arith
drop_while_end-last p (c ∷ s) (v ∷ w) x h = drop_while_end-last p s w x (ground arith)

pub is_empty-append_cons : (w : Text) (x : ℕ) (s : Text) → is_empty (w ++ x ∷ s) ≡ false
is_empty-append_cons [] x s = refl
is_empty-append_cons (c ∷ w) x s = refl

pub is_empty-path_join : (a b : Text) → is_empty b ≡ false → is_empty (path_join a b) ≡ false
is_empty-path_join a [] h = absurd (cc)
is_empty-path_join a (c ∷ b) h =
    ground (arith, is_empty-append_cons a c b, is_empty-append_cons a b'/' (c ∷ b))

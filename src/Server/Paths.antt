-- ===== src/Server/Paths.antt =====
-- tools/bst-dashboard.py: `_norm_path` with and without the prefix.
use xfce_linux.Base.{
  ℕ, ◌≡◌, refl, ap, ◌∙◌, Bool, true, false, ◌&&◌, [], ◌∷◌, ◌++◌, Text, codes, starts_with, is_empty,
  before_first, drop_while_end, ◌==◌, arith, Bool-cases, inl, inr,
}
use xfce_linux.Server.Routes.{norm_path, is_slash, or_root, without_prefix, query_of}

starts_with-drop_while_end :
    (p : ℕ → Bool) (s q : Text) → starts_with (drop_while_end p s) q ≡ true → starts_with s q ≡ true
starts_with-drop_while_end p [] q h = h
starts_with-drop_while_end p (c ∷ s) [] h = refl
starts_with-drop_while_end p (c ∷ s) (d ∷ q) h =
    elim (Bool-cases (is_empty (drop_while_end p s) && p c)) [
      | inl e ↦ absurd (let g = rw e at h in cc)
      | inr e ↦ let g = rw e at h in let k = starts_with-drop_while_end p s q in ground arith
    ]

starts_with-before_first :
    (x : ℕ) (s q : Text) → starts_with (before_first x s) q ≡ true → starts_with s q ≡ true
starts_with-before_first x [] q h = h
starts_with-before_first x (c ∷ s) [] h = refl
starts_with-before_first x (c ∷ s) (d ∷ q) h = elim (Bool-cases (c == x)) [
  | inl e ↦ absurd (let g = rw e at h in cc)
  | inr e ↦ let g = rw e at h in let k = starts_with-before_first x s q in ground arith
]

prefixed :
    (x : Text)
    → starts_with x (codes "/bst") ≡ false
    → without_prefix (or_root (codes "/bst" ++ x)) ≡ without_prefix (or_root x)
prefixed [] h = refl
prefixed (c ∷ x) h = rw h refl

drop_while_end-prefix :
    (x : Text)
    → drop_while_end is_slash (codes "/bst" ++ x) ≡ codes "/bst" ++ drop_while_end is_slash x
drop_while_end-prefix x = elim (Bool-cases (is_empty (drop_while_end is_slash x))) [
  | inl e ↦ rw e refl
  | inr e ↦ rw e refl
]

-- A request target behind the prefix is routed as without it, whatever its query, unless it has the
-- prefix itself.
pub norm_path-prefix :
    (s : Text) → starts_with s (codes "/bst") ≡ false → norm_path (codes "/bst" ++ s) ≡ norm_path s
unfolding norm_path
norm_path-prefix s k =
    let x = drop_while_end is_slash (before_first b'?' s) in
    elim (Bool-cases (starts_with x (codes "/bst"))) [
      | inl e ↦ absurd (
          let a = starts_with-drop_while_end is_slash (before_first b'?' s) (codes "/bst") e in
          let b = starts_with-before_first b'?' s (codes "/bst") a in cc)
      | inr e ↦
          ap (λ y. (without_prefix (or_root y), query_of s))
            (drop_while_end-prefix (before_first b'?' s))
          ∙ ap (λ y. (y, query_of s)) (prefixed x e)
    ]

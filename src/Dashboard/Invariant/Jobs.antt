-- ===== src/Dashboard/Invariant/Jobs.antt =====
-- The dict `active` of tools/bst_dashboard/model.py: its keys and its jobs.
use xfce_linux.Base.{
  ◌≡◌, refl, false, none, some, List, [], ◌∷◌, Text, text_eq, text_eq→≡, text_eq_self, text_eq_comm,
  is_empty, arith, if◌then◌else◌, Bool-cases, inl, inr,
}
use xfce_linux.Dashboard.Types.{Job}
use xfce_linux.Dashboard.Updates.{put_job, get_job, pop_job}

-- Each job is filed under its hash and has a log, and no key occurs twice.
abbrev pub JobsFiled : List (Text × Job) → Type 0
JobsFiled [] = Unit
JobsFiled ((k, j) ∷ l) =
    (j.hash ≡ k) × (is_empty j.log ≡ false) × (get_job k l ≡ none) × JobsFiled l

pub get_job-put_job :
    (i k : Text) (v : Job) (l : List (Text × Job))
    → get_job i (put_job k v l) ≡ (if text_eq k i then some v else get_job i l)
get_job-put_job i k v [] = refl
get_job-put_job i k v ((j, w) ∷ l) = elim (Bool-cases (text_eq j k)) [
  | inl e ↦ let same = text_eq→≡ j k e in rw same (rw (text_eq_self k) (ground arith))
  | inr e ↦ rw e (elim (Bool-cases (text_eq k i)) [
    | inl f ↦
        let same = text_eq→≡ k i f in
        let other : text_eq j i ≡ false = rw (← same) e in
        rw (other, f) (ground (arith, get_job-put_job i k v l))
    | inr f ↦ rw f (ground (arith, get_job-put_job i k v l))
  ])
]

get_job-pop_job-none :
    (i k : Text) (l : List (Text × Job)) → get_job i l ≡ none → get_job i (pop_job k l) ≡ none
get_job-pop_job-none i k [] h = refl
get_job-pop_job-none i k ((j, w) ∷ l) h = ground (arith, get_job-pop_job-none i k l)

pub put_job-JobsFiled :
    (k : Text) (v : Job) (l : List (Text × Job))
    → v.hash ≡ k
    → is_empty v.log ≡ false
    → JobsFiled l
    → JobsFiled (put_job k v l)
put_job-JobsFiled k v [] p q h = (p, q, refl, tt)
put_job-JobsFiled k v ((j, w) ∷ l) p q h = elim (Bool-cases (text_eq j k)) [
  | inl e ↦ let same = text_eq→≡ j k e in rw e (rw same p, q, h.2, h.3)
  | inr e ↦
      rw e (
        h.0,
        h.1,
        rw get_job-put_job (rw (text_eq_comm k j, e) h.2),
        put_job-JobsFiled k v l p q h.3,
      )
]

pub pop_job-JobsFiled : (k : Text) (l : List (Text × Job)) → JobsFiled l → JobsFiled (pop_job k l)
pop_job-JobsFiled k [] h = tt
pop_job-JobsFiled k ((j, w) ∷ l) h = elim (Bool-cases (text_eq j k)) [
  | inl e ↦ rw e h.3
  | inr e ↦ rw e (h.0, h.1, get_job-pop_job-none j k l h.2, pop_job-JobsFiled k l h.3)
]

-- A job that was popped is gone.
pub get_job-pop_job :
    (k : Text) (l : List (Text × Job)) → JobsFiled l → get_job k (pop_job k l) ≡ none
get_job-pop_job k [] h = refl
get_job-pop_job k ((j, w) ∷ l) h = elim (Bool-cases (text_eq j k)) [
  | inl e ↦ let same = text_eq→≡ j k e in rw e (rw (← same) h.2)
  | inr e ↦ rw (e, e) (get_job-pop_job k l h.3)
]

pub get_job-HasLog :
    (k : Text) (j : Job) (l : List (Text × Job))
    → JobsFiled l
    → get_job k l ≡ some j
    → (j.hash ≡ k) × (is_empty j.log ≡ false)
get_job-HasLog k j [] h e = absurd (cc)
get_job-HasLog k j ((i, w) ∷ l) h e = elim (Bool-cases (text_eq i k)) [
  | inl f ↦ let same = text_eq→≡ i k f in ground arith
  | inr f ↦ get_job-HasLog k j l h.3 (ground arith)
]

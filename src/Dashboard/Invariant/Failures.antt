-- ===== src/Dashboard/Invariant/Failures.antt =====
-- The list `failures` of tools/bst_dashboard/model.py.
use xfce_linux.Base.{
  ◌≡◌, refl, Bool, true, false, ◌&&◌, ◌||◌, not, List, [], ◌∷◌, ◌++◌, Text, text_eq, text_eq_comm,
  is_empty, any, keep, All, length, arith, Bool-cases, inl, inr, any-append, ◌⊎◌, ◌∙◌,
}
use xfce_linux.Dashboard.Types.{Item, failure}
use xfce_linux.Dashboard.Updates.{lacks_log, attach_log, merge_item, record_failure, summary_item}

-- A failure that was seen live, so one with a hash, has its log.
abbrev pub IsRecorded : Item → Type 0
IsRecorded f = (f.status ≡ failure) × ((is_empty f.hash || not (lacks_log f)) ≡ true)

abbrev pub has_hash : Text → Item → Bool
has_hash h f = text_eq f.hash h

-- No two failures have the same hash, other than the empty one of the Failure Summary.
abbrev pub DistinctHashes : List Item → Type 0
DistinctHashes [] = Unit
DistinctHashes (f ∷ fs) =
    ((is_empty f.hash || not (any (has_hash f.hash) fs)) ≡ true) × DistinctHashes fs

-- Only entries that lack a log change.
abbrev pub SameLogged : List Item → List Item → Type 0
SameLogged [] [] = Unit
SameLogged (f ∷ fs) (g ∷ gs) = ((lacks_log f ≡ true) ⊎ (g ≡ f)) × SameLogged fs gs
SameLogged _ _ = ⊥

SameLogged-refl : (fs : List Item) → SameLogged fs fs
SameLogged-refl [] = tt
SameLogged-refl (f ∷ fs) = (inr refl, SameLogged-refl fs)

module _ (p : Text) where
  pub attach_log-SameLogged : (fs : List Item) → SameLogged fs (attach_log p fs)
  attach_log-SameLogged [] = tt
  attach_log-SameLogged (f ∷ fs) = elim (Bool-cases (any lacks_log fs)) [
    | inl a ↦ rw a (inr refl, attach_log-SameLogged fs)
    | inr a ↦ rw a (ground arith, SameLogged-refl fs)
  ]

  pub attach_log-IsRecorded :
      (fs : List Item) → All IsRecorded fs → All IsRecorded (attach_log p fs)
  attach_log-IsRecorded [] h = tt
  attach_log-IsRecorded (f ∷ fs) h = elim (Bool-cases (any lacks_log fs)) [
    | inl a ↦ rw a (h.0, attach_log-IsRecorded fs h.1)
    | inr a ↦ rw a (ground (arith, h.0), h.1)
  ]

  pub length-attach_log : (fs : List Item) → length (attach_log p fs) ≡ length fs
  length-attach_log [] = refl
  length-attach_log (f ∷ fs) = ground (arith, length-attach_log fs)

  any-attach_log :
      (k : Text) (fs : List Item) → any (has_hash k) (attach_log p fs) ≡ any (has_hash k) fs
  any-attach_log k [] = refl
  any-attach_log k (f ∷ fs) = ground (arith, any-attach_log k fs)

  pub attach_log-DistinctHashes :
      (fs : List Item) → DistinctHashes fs → DistinctHashes (attach_log p fs)
  attach_log-DistinctHashes [] h = tt
  attach_log-DistinctHashes (f ∷ fs) h = elim (Bool-cases (any lacks_log fs)) [
    | inl a ↦ rw a (rw any-attach_log h.0, attach_log-DistinctHashes fs h.1)
    | inr a ↦ rw a (ground (arith, h.0), h.1)
  ]

-- A failure that is merged into the list.
module _ (i : Item) where
  any-merge_item :
      (k : Text) (fs : List Item)
      → has_hash k i ≡ false
      → any (has_hash k) fs ≡ false
      → any (has_hash k) (merge_item i fs) ≡ false
  any-merge_item k [] e h = ground arith
  any-merge_item k (f ∷ fs) e h = ground (arith, any-merge_item k fs)

  pub merge_item-IsRecorded :
      (fs : List Item) → IsRecorded i → All IsRecorded fs → All IsRecorded (merge_item i fs)
  merge_item-IsRecorded [] r h = (r, tt)
  merge_item-IsRecorded (f ∷ fs) r h =
      elim (Bool-cases (text_eq f.element i.element && is_empty f.hash)) [
        | inl a ↦ rw a (r, h.1)
        | inr a ↦ rw a (h.0, merge_item-IsRecorded fs r h.1)
      ]

  pub merge_item-DistinctHashes :
      (fs : List Item)
      → any (has_hash i.hash) fs ≡ false
      → DistinctHashes fs
      → DistinctHashes (merge_item i fs)
  merge_item-DistinctHashes [] e h = (ground arith, tt)
  merge_item-DistinctHashes (f ∷ fs) e h =
      elim (Bool-cases (text_eq f.element i.element && is_empty f.hash)) [
        | inl a ↦ rw a (ground arith, h.1)
        | inr a ↦ rw a (elim (Bool-cases (is_empty f.hash)) [
          | inl b ↦ (rw b refl, merge_item-DistinctHashes fs (ground arith) h.1)
          | inr b ↦ (
            rw
                (
                  any-merge_item f.hash fs (text_eq_comm i.hash f.hash ∙ ground arith)
                      (ground (arith, h.0)),
                  b,
                )
                refl,
            merge_item-DistinctHashes fs (ground arith) h.1,
          )
        ])
      ]

pub record_failure-IsRecorded :
    (i : Item) (fs : List Item)
    → IsRecorded i
    → All IsRecorded fs
    → All IsRecorded (record_failure i fs)
record_failure-IsRecorded i fs r h = elim (Bool-cases (any (has_hash i.hash) fs)) [
  | inl a ↦ rw a h
  | inr a ↦ rw a (merge_item-IsRecorded i fs r h)
]

pub record_failure-DistinctHashes :
    (i : Item) (fs : List Item) → DistinctHashes fs → DistinctHashes (record_failure i fs)
record_failure-DistinctHashes i fs h = elim (Bool-cases (any (has_hash i.hash) fs)) [
  | inl a ↦ rw a h
  | inr a ↦ rw a (merge_item-DistinctHashes i fs a h)
]

-- An entry of the Failure Summary, which has no hash, at the end.
pub append-DistinctHashes :
    (e : Text) (fs : List Item) → DistinctHashes fs → DistinctHashes (fs ++ summary_item e ∷ [])
append-DistinctHashes e [] h = (refl, tt)
append-DistinctHashes e (f ∷ fs) h = (
  elim (Bool-cases (is_empty f.hash)) [
    | inl b ↦ rw b refl
    | inr b ↦ rw any-append (ground (arith, h.0, nil_eq f.hash))
  ],
  append-DistinctHashes e fs h.1,
)
  where
    nil_eq : (s : Text) → text_eq [] s ≡ is_empty s
    nil_eq [] = refl
    nil_eq (c ∷ s) = refl

any-keep : (p q : Item → Bool) (fs : List Item) → any q fs ≡ false → any q (keep p fs) ≡ false
any-keep p q [] h = refl
any-keep p q (f ∷ fs) h = ground (arith, any-keep p q fs)

pub keep-DistinctHashes :
    (p : Item → Bool) (fs : List Item) → DistinctHashes fs → DistinctHashes (keep p fs)
keep-DistinctHashes p [] h = tt
keep-DistinctHashes p (f ∷ fs) h = elim (Bool-cases (p f)) [
  | inl a ↦ rw a (
    elim (Bool-cases (is_empty f.hash)) [
      | inl b ↦ rw b refl
      | inr b ↦ rw (any-keep p (has_hash f.hash) fs (ground (arith, h.0)), b) refl
    ],
    keep-DistinctHashes p fs h.1,
  )
  | inr a ↦ rw a (keep-DistinctHashes p fs h.1)
]

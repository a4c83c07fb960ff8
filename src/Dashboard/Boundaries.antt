-- ===== src/Dashboard/Boundaries.antt =====
-- The lines of tools/bst_dashboard/parser.py that begin and end a build.
use xfce_linux.Base.{
  ℕ, ◌≡◌, refl, Bool, true, false, some, List, [], ◌∷◌, Text, any, keep, All, length, text_eq,
  text_eq→≡, arith, Bool-cases, inl, inr,
}
use xfce_linux.Regex.{Cursor, search_in}
use xfce_linux.Dashboard.Types.{State, Item, update, is_live, has_items}
use xfce_linux.Dashboard.Updates.{set_start, pipeline_done, mem_text}
use xfce_linux.Dashboard.Patterns.{build_header_re}
use xfce_linux.Dashboard.Parse.{Outside, on_clean}

-- After a build header the state is one of the header, the clock, the version and the total of
-- elements: nothing else of an earlier build is left.
pub on_clean-header :
    (o : Outside) (clean : Text) (s t : State) (m : Cursor)
    → search_in build_header_re clean ≡ some m
    → s.total_elements ≡ t.total_elements
    → s.version ≡ t.version
    → on_clean o clean s ≡ on_clean o clean t
unfolding on_clean update set_start
on_clean-header o clean s t m e p q = rw (e, on_clean, p, q) refl

-- The failure of an element that is among those kept stays among the failures.
any-keep :
    (e : Text) (marked : List Text) (fs : List Item)
    → mem_text e marked ≡ true
    → any (λ (f : Item). text_eq e f.element) fs ≡ true
    → any (λ (f : Item). text_eq e f.element) (keep (λ (f : Item). mem_text f.element marked) fs)
      ≡ true
any-keep e marked [] m h = absurd (cc)
any-keep e marked (f ∷ fs) m h = elim (Bool-cases (text_eq e f.element)) [
  | inl same ↦
      let is = text_eq→≡ e f.element same in rw (← is) (rw m (rw is (ground (arith, same))))
  | inr other ↦ elim (Bool-cases (mem_text f.element marked)) [
    | inl b ↦ rw b (rw other (any-keep e marked fs m (ground arith)))
    | inr b ↦ rw b (any-keep e marked fs m (ground arith))
  ]
]

All-keep_self {ℓ} : {A : Type ℓ} (p : A → Bool) (xs : List A) → All (λ x. p x ≡ true) (keep p xs)
All-keep_self p [] = tt
All-keep_self p (x ∷ xs) = elim (Bool-cases (p x)) [
  | inl b ↦ rw b (b, All-keep_self p xs)
  | inr b ↦ rw b (All-keep_self p xs)
]

-- A Pipeline Summary after a Failure Summary: the state is not live, with no active job; the failures
-- that are left are those of elements of the Failure Summary, none of these is lost, and they are
-- counted anew; the Failure Summary is forgotten.
pub pipeline_done-root_causes :
    (now : ℕ) (line : Text) (s : State)
    → has_items s.summary_elements ≡ true
    → let t = pipeline_done now line s in
      All (λ (f : Item). mem_text f.element s.summary_elements ≡ true) t.failures
      × ((e : Text)
          → mem_text e s.summary_elements ≡ true
          → any (λ (f : Item). text_eq e f.element) s.failures ≡ true
          → any (λ (f : Item). text_eq e f.element) t.failures ≡ true)
      × (t.failure_count ≡ length t.failures)
      × (t.active ≡ [])
      × (is_live t ≡ false)
      × (t.summary_elements ≡ [])
unfolding pipeline_done is_live
pipeline_done-root_causes now line s h = rw h (
  All-keep_self _ s.failures,
  λ e m k. any-keep e s.summary_elements s.failures m k,
  refl,
  refl,
  refl,
  refl,
)

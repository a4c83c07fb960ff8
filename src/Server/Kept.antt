-- ===== src/Server/Kept.antt =====
-- tools/bst-dashboard.py: what every step of the server keeps.
use xfce_linux.Base.{
  ℕ, ◌≡◌, refl, ap, ◌∙◌, Bool, true, false, Option, none, some, List, [], ◌∷◌, ◌++◌, split_on, Text,
  Bytes, is_empty, length, drop, decode, ltb, text_eq, Bool-cases, inl, inr, if◌then◌else◌,
}
use xfce_linux.Dashboard.Types.{State, Job, update}
use xfce_linux.Dashboard.Updates.{get_job}
use xfce_linux.Dashboard.Invariant.Jobs.{JobsFiled}
use xfce_linux.Server.Tail.{
  Tail, all_but_last, poll, parse_lines, read_chunk, read_on, truncated, done_catching_up,
}
use xfce_linux.Server.Enrich.{enrich_cmake, enrich_job-bare}

module _ (tail_of : Text → Option Text) where
  get_job-enriched :
      (k : Text) (l : List (Text × Job))
      → get_job k l ≡ none
      → get_job k (enrich_cmake tail_of l) ≡ none
  get_job-enriched k [] h = refl
  get_job-enriched k ((i, j) ∷ l) h = elim (Bool-cases (text_eq i k)) [
    | inl e ↦ absurd (let g = rw e at h in cc)
    | inr e ↦ rw e (get_job-enriched k l (rw e at h))
  ]

  pub enriched-JobsFiled :
      (l : List (Text × Job)) → JobsFiled l → JobsFiled (enrich_cmake tail_of l)
  enriched-JobsFiled [] h = tt
  enriched-JobsFiled ((k, j) ∷ l) (p, q, r, h) = (
    ap (λ x. x.hash) (enrich_job-bare tail_of j) ∙ p,
    ap (λ x. is_empty x.log) (enrich_job-bare tail_of j) ∙ q,
    get_job-enriched k l r,
    enriched-JobsFiled l h,
  )

if_either {ℓ κ} :
    {A : Type ℓ} (P : A → Type κ) (b : Bool) (x y : A) → P x → P y → P (if b then x else y)
if_either P true x y h k = h
if_either P false x y h k = k

module _ (parse : Text → State → State) (reset : State → State) (P : State → Type 0)
    (by_line : (l : Text) (s : State) → P s → P (parse l s))
    (by_reset : (s : State) → P s → P (reset s))
    (by_end : (m : Option ℕ) (s : State) → P s → P (update (done_catching_up m) s)) where
  parse_lines-keeps : (ls : List Text) (s : State) → P s → P (parse_lines parse reset ls s)
  parse_lines-keeps [] s h = h
  parse_lines-keeps (l ∷ ls) s h = parse_lines-keeps ls (parse l s) (by_line l s h)

  read_chunk-keeps :
      (chunk : Text) (size : ℕ) (t : Tail)
      → P t.state
      → P (read_chunk parse reset chunk size t).state
  read_chunk-keeps chunk size t h =
      parse_lines-keeps (all_but_last (split_on 10 (t.buf ++ chunk))) t.state h

  read_on-keeps :
      (file : Bytes) (readable : Bool) (m : Option ℕ) (t : Tail)
      → P t.state
      → P (read_on parse reset file readable m t).state
  read_on-keeps file readable m t h = elim (Bool-cases (ltb t.pos (length file))) [
    | inl e ↦ rw e (elim (Bool-cases readable) [
      | inl f ↦ rw f (read_chunk-keeps (decode (drop t.pos file)) (length file) t h)
      | inr f ↦ rw f h
    ])
    | inr e ↦ rw e (
        if_either (λ x. P x.state) t.state.catching_up
          (record t { state = update (done_catching_up m) t.state }) t (by_end m t.state h) h)
  ]

  truncated-keeps : (size : ℕ) (t : Tail) → P t.state → P (truncated parse reset size t).state
  truncated-keeps size t h = elim (Bool-cases (ltb size t.pos)) [
    | inl e ↦ rw e (by_reset t.state h)
    | inr e ↦ rw e h
  ]

  -- A turn of `tail_log` keeps what a line, a reset and the end of the catching up keep.
  pub poll-keeps :
      (file : Option Bytes) (readable : Bool) (m : Option ℕ) (t : Tail)
      → P t.state
      → P (poll parse reset file readable m t).state
  unfolding poll
  poll-keeps none readable m t h = h
  poll-keeps (some file) readable m t h =
      read_on-keeps file readable m (truncated parse reset (length file) t)
        (truncated-keeps (length file) t h)

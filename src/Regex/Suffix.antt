-- ===== src/Regex/Suffix.antt =====
-- A match ends in its continuation, at a suffix of the text that it began with.
use xfce_linux.Base.{
  true, ◌==◌, ℕ, zero, suc, ◌≡◌, refl, sym, ◌∙◌, ap, Bool, false, some, [], ◌∷◌, ◌++◌, append_assoc,
  Text, length, arith, Option-cases, inl, inr,
}
use xfce_linux.Regex.{
  search_from, search_in, chr, lit_codes, at_end, Regex, eps, bos, eos, sat, seq, alt, star,
  star_lazy, group, Cursor, Cont, consume, with_group, star_loop, lazy_loop, exec,
}

-- `d` is met on the way from `c` to the result `m` of the continuation `k`.
pub record Ends (k : Cont) (c m : Cursor) : Type 0 where
  pub stop : Cursor
  pub taken : Text
  pub split : c.rest ≡ taken ++ stop.rest
  pub result : k stop ≡ some m

abbrev pub IsSound : (Cont → Cont) → Type 0
IsSound f = (k : Cont) (c m : Cursor) → f k c ≡ some m → Ends k c m

Ends-here : (k : Cont) (c m : Cursor) → k c ≡ some m → Ends k c m
Ends-here k c m h = record { stop = c; taken = []; split = refl; result = h }

Ends-trans : (f : Cont → Cont) (k : Cont) (c m : Cursor) → IsSound f → Ends (f k) c m → Ends k c m
Ends-trans f k c m sound e =
    let e' = sound k e.stop m e.result in
    record {
      stop = e'.stop;
      taken = e.taken ++ e'.taken;
      split =
          e.split
          ∙ ap (λ t. e.taken ++ t) e'.split
          ∙ sym (append_assoc e.taken e'.taken e'.stop.rest);
      result = e'.result;
    }

consume-Ends :
    (p : ℕ → Bool) (s : Text) (k : Cont) (c m : Cursor)
    → c.rest ≡ s
    → consume p s k c ≡ some m
    → Ends k c m
consume-Ends p [] k c m e h = absurd (cc)
consume-Ends p (x ∷ s) k c m e h = record {
  stop = record { at_start = false; rest = s; caps = c.caps };
  taken = x ∷ [];
  split = e;
  result = ground arith;
}

star_loop-IsSound : (one : Cont → Cont) → IsSound one → (f : ℕ) → IsSound (star_loop one f)
unfolding star_loop
star_loop-IsSound one sound zero k c m h = Ends-here k c m h
star_loop-IsSound one sound (suc f) k c m h = elim (Option-cases (one (star_loop one f k) c)) [
  | inl e ↦ Ends-here k c m (ground arith)
  | inr (n, e) ↦
      Ends-trans (star_loop one f) k c m (star_loop-IsSound one sound f)
        (sound (star_loop one f k) c m (ground arith))
]

lazy_loop-IsSound : (one : Cont → Cont) → IsSound one → (f : ℕ) → IsSound (lazy_loop one f)
unfolding lazy_loop
lazy_loop-IsSound one sound zero k c m h = Ends-here k c m h
lazy_loop-IsSound one sound (suc f) k c m h = elim (Option-cases (k c)) [
  | inl e ↦
      Ends-trans (lazy_loop one f) k c m (lazy_loop-IsSound one sound f)
        (sound (lazy_loop one f k) c m (ground arith))
  | inr (n, e) ↦ Ends-here k c m (ground arith)
]

pub exec-IsSound : (r : Regex) → IsSound (exec r)
unfolding exec
exec-IsSound eps k c m h = Ends-here k c m h
exec-IsSound bos k c m h = Ends-here k c m (ground arith)
exec-IsSound eos k c m h = Ends-here k c m (ground arith)
exec-IsSound (sat p) k c m h = consume-Ends p c.rest k c m refl h
exec-IsSound (seq r s) k c m h =
    Ends-trans (exec s) k c m (exec-IsSound s) (exec-IsSound r (exec s k) c m h)
exec-IsSound (alt r s) k c m h = elim (Option-cases (exec r k c)) [
  | inl e ↦ exec-IsSound s k c m (ground arith)
  | inr (n, e) ↦ exec-IsSound r k c m (ground arith)
]
exec-IsSound (star r) k c m h =
    star_loop-IsSound (exec r) (exec-IsSound r) (suc (length c.rest)) k c m h
exec-IsSound (star_lazy r) k c m h =
    lazy_loop-IsSound (exec r) (exec-IsSound r) (suc (length c.rest)) k c m h
exec-IsSound (group n r) k c m h =
    let e = exec-IsSound r (λ d. k (with_group n c d)) c m h in
    record { stop = with_group n c e.stop; taken = e.taken; split = e.split; result = e.result }

-- A match of one character.
pub record Took (x : ℕ) (k : Cont) (c m : Cursor) : Type 0 where
  pub stop : Cursor
  pub split : c.rest ≡ x ∷ stop.rest
  pub result : k stop ≡ some m

consume-Took :
    (x : ℕ) (s : Text) (k : Cont) (c m : Cursor)
    → c.rest ≡ s
    → consume (λ y. y == x) s k c ≡ some m
    → Took x k c m
consume-Took x [] k c m e h = absurd (cc)
consume-Took x (y ∷ s) k c m e h = record {
  stop = record { at_start = false; rest = s; caps = c.caps };
  split = let same : y ≡ x = ground arith in rw (← same) e;
  result = ground arith;
}

pub chr-Took : (x : ℕ) (k : Cont) (c m : Cursor) → exec (chr x) k c ≡ some m → Took x k c m
unfolding exec
chr-Took x k c m h = consume-Took x c.rest k c m refl h

-- A match of a literal takes exactly the literal.
pub lit_codes-Ends :
    (w : Text) (k : Cont) (c m : Cursor)
    → exec (lit_codes w) k c ≡ some m
    → (e : Ends k c m) × (e.taken ≡ w)
unfolding exec Ends-here
lit_codes-Ends [] k c m h = (Ends-here k c m h, refl)
lit_codes-Ends (x ∷ []) k c m h =
    let t = chr-Took x k c m h in
    (record { stop = t.stop; taken = x ∷ []; split = t.split; result = t.result }, refl)
lit_codes-Ends (x ∷ y ∷ w) k c m h =
    let t = chr-Took x (exec (lit_codes (y ∷ w)) k) c m h in
    let (e, same) = lit_codes-Ends (y ∷ w) k t.stop m t.result in
    (
      record {
        stop = e.stop;
        taken = x ∷ e.taken;
        split = t.split ∙ ap (λ s. x ∷ s) e.split;
        result = e.result;
      },
      ap (λ s. x ∷ s) same,
    )

pub eos-at_end : (k : Cont) (c m : Cursor) → exec eos k c ≡ some m → at_end c.rest ≡ true
unfolding exec
eos-at_end k c m h = ground arith

-- A search finds a match of the pattern at some suffix of the text.
search_from-Ends :
    (r : Regex) (start : Bool) (s : Text) (m : Cursor)
    → search_from r start s ≡ some m
    → (c : Cursor) × (w : Text) × (s ≡ w ++ c.rest) × (exec r some c ≡ some m)
unfolding search_from
search_from-Ends r start [] m h = (record { at_start = start; rest = []; caps = [] }, [], refl, h)
search_from-Ends r start (x ∷ s) m h =
    elim (Option-cases (exec r some (record { at_start = start; rest = x ∷ s; caps = [] }))) [
      | inl e ↦
          let (c, w, p, q) = search_from-Ends r false s m (ground arith) in
          (c, x ∷ w, ap (λ t. x ∷ t) p, q)
      | inr (n, e) ↦ (record { at_start = start; rest = x ∷ s; caps = [] }, [], refl, ground arith)
    ]

pub search_in-Ends :
    (r : Regex) (s : Text) (m : Cursor)
    → search_in r s ≡ some m
    → (c : Cursor) × (w : Text) × (s ≡ w ++ c.rest) × (exec r some c ≡ some m)
unfolding search_in
search_in-Ends r s m h = search_from-Ends r true s m h

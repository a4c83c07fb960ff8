-- ===== src/Luks/Lease.antt =====
-- xfce-linux/src/luks-unlock.py: how `run_libvirt` ends, and what it has seen when the keys are sent.
use xfce_linux.Base.{
  ℕ, zero, suc, ◌+◌, ◌*◌, ◌≤◌, ◌<◌, ◌≡◌, ◌≢◌, refl, true, false, Bool, Text, [], ltb, leb, ltb→lt,
  ◌||◌, ◌&&◌, arith, Bool-cases, inl, inr, Option, none, some,
}
use xfce_linux.Luks.Exits.{prompt_rounds}
use xfce_linux.Luks.Libvirt.{
  Guest, look_size, Takeover, taken, not_taken, takeover_raised, takeover_fuel, by_size,
  takeover_loop, after_takeover, run_libvirt,
}

module _ (g : Guest) (mac : Text) where
  -- The rounds after a screenshot of more than 4096 bytes.
  abbrev pub SeenBy : ℕ → Type 0
  SeenBy n = (j : ℕ) × (size : ℕ) × (j < n) × (look_size (g.before j) ≡ some size) × (4096 < size)

  -- A screenshot above 4096 bytes, and a later one, of this round, that is not.
  abbrev pub IsTakeover : ℕ → Type 0
  IsTakeover n = SeenBy n × (size : ℕ) × (look_size (g.before n) ≡ some size) × (size ≤ 4096)

  abbrev TakeoverEnds : Takeover → Type 0
  TakeoverEnds (taken n now) = IsTakeover n
  TakeoverEnds not_taken = Unit
  TakeoverEnds takeover_raised = Unit
  TakeoverEnds takeover_fuel = ⊥

  later_seen : (n : ℕ) → SeenBy n → SeenBy (suc n)
  later_seen n (j, size, l, e, b) = (j, size, omega arith, e, b)

  seen_now :
      (n size : ℕ) (seen : Bool)
      → look_size (g.before n) ≡ some size
      → (seen ≡ true → SeenBy n)
      → (seen || ltb 4096 size) ≡ true
      → SeenBy (suc n)
  seen_now n size seen p h e = elim (Bool-cases seen) [
    | inl s ↦ later_seen n (h s)
    | inr s ↦ (n, size, omega arith, p, ltb→lt _ _ (rw s at e))
  ]

  by_size-ends :
      (n later : ℕ) (o : Option ℕ) (seen : Bool) (go : Bool → Takeover)
      → look_size (g.before n) ≡ o
      → (seen ≡ true → SeenBy n)
      → ((seen' : Bool) → (seen' ≡ true → SeenBy (suc n)) → TakeoverEnds (go seen'))
      → TakeoverEnds (by_size o seen n later go)
  by_size-ends n later none seen go p h k = tt
  by_size-ends n later (some size) seen go p h k =
      elim (Bool-cases ((seen || ltb 4096 size) && leb size 4096)) [
        | inr f ↦ rw f (k _ (seen_now n size seen p h))
        | inl f ↦ rw f (
            let small : size ≤ 4096 = ground arith in
            let before : seen ≡ true = ground arith in (h before, size, p, small))
      ]

  takeover_loop-ends :
      (fuel n now deadline : ℕ) (seen : Bool)
      → deadline ≤ now + 3000 * fuel
      → (seen ≡ true → SeenBy n)
      → TakeoverEnds (takeover_loop g mac fuel n now deadline seen)
  unfolding takeover_loop
  takeover_loop-ends zero n now deadline seen h k = elim (Bool-cases (ltb now deadline)) [
    | inr e ↦ rw e tt
    | inl e ↦ absurd (ground arith)
  ]
  takeover_loop-ends (suc fuel) n now deadline seen h k = elim (Bool-cases (ltb now deadline)) [
    | inr e ↦ rw e tt
    | inl e ↦ rw e (
        by_size-ends n _ (look_size (g.before n)) seen _ refl k
          (λ seen' k'. takeover_loop-ends fuel (suc n) _ deadline seen' (omega (arith, h)) k'))
  ]

  takeover :
      (start : ℕ) → TakeoverEnds (takeover_loop g mac prompt_rounds 0 start (start + 300000) false)
  takeover start =
      takeover_loop-ends prompt_rounds 0 start _ false (ground arith) (λ e. absurd (cc))

  after_takeover-IsTakeover :
      (s : Text) (r : Takeover)
      → TakeoverEnds r
      → (after_takeover g mac s r).sent ≢ []
      → (n : ℕ) × IsTakeover n
  after_takeover-IsTakeover s (taken n now) h k = (n, h)
  after_takeover-IsTakeover s not_taken h k = absurd (k refl)
  after_takeover-IsTakeover s takeover_raised h k = absurd (k refl)
  after_takeover-IsTakeover s takeover_fuel h k = absurd h

  -- Keys are only sent after a screenshot of more than 4096 bytes and a later one of 4096 at most; one
  -- that fails counts as 0.
  pub run_libvirt-IsTakeover :
      (s : Text) (start : ℕ) → (run_libvirt g mac s start).sent ≢ [] → (n : ℕ) × IsTakeover n
  unfolding run_libvirt
  run_libvirt-IsTakeover s start = after_takeover-IsTakeover s _ (takeover start)

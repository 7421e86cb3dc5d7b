-- ===== src/Utils/Feistel/Walk.antt =====
-- Cycle walking: repeating a permutation of the numbers below `bound` from a start below `domain`
-- comes back below `domain`, and two starts come back at different values.
use virtual_people_core_serv.Prelude.{
  ℕ, zero, suc, ◌-◌, ◌≤◌, ◌<◌, ◌≡◌, refl, sym, ap, ◌∙◌, none, some, inl, inr, arith, leb,
  Bool-cases, Option-cases,
}
use virtual_people_core_serv.Utils.Feistel.{cycle_walk}
use virtual_people_core_serv.Utils.Feistel.Pigeonhole.{pigeonhole}

iterate : (ℕ → ℕ) → ℕ → ℕ → ℕ
iterate f zero x = x
iterate f (suc k) x = f (iterate f k x)

iterate-shift : (f : ℕ → ℕ) (k x : ℕ) → iterate f k (f x) ≡ iterate f (suc k) x
unfolding iterate
iterate-shift f zero x = refl
iterate-shift f (suc k) x = ap f (iterate-shift f k x)

-- The first `k` passes after the start stay out of the domain.
abbrev Skips : (ℕ → ℕ) → ℕ → ℕ → ℕ → Type 0
Skips f domain k x = (i : ℕ) → 0 < i → i ≤ k → domain ≤ iterate f i x

Skips-cons :
    (f : ℕ → ℕ) (domain k x : ℕ) → domain ≤ f x → Skips f domain k (f x) → Skips f domain (suc k) x
unfolding iterate
Skips-cons f domain k x first rest zero pos le = absurd (omega arith)
Skips-cons f domain k x first rest (suc zero) pos le = first
Skips-cons f domain k x first rest (suc (suc i)) pos le =
    omega (arith, rest (suc i) (omega arith) (omega arith), iterate-shift f (suc i) x)

record Walked (f : ℕ → ℕ) (domain x y : ℕ) : Type 0 where
  steps : ℕ
  result : y ≡ iterate f (suc steps) x
  inside : y < domain
  skips : Skips f domain steps x

cycle_walk-Walked :
    (f : ℕ → ℕ) (domain fuel x y : ℕ) → cycle_walk f domain fuel x ≡ some y → Walked f domain x y
unfolding cycle_walk iterate
cycle_walk-Walked f domain zero x y e = cc
cycle_walk-Walked f domain (suc fuel) x y e = elim (Bool-cases (leb domain (f x))) [
  | inl out ↦
      let w = cycle_walk-Walked f domain fuel (f x) y (rw out at e) in
      record {
        steps = suc w.steps;
        result = w.result ∙ ap f (iterate-shift f w.steps x);
        inside = w.inside;
        skips = Skips-cons f domain w.steps x (ground arith) w.skips;
      }
  | inr within ↦
      let e' : f x ≡ y = ground (arith, rw within at e) in
      record {
        steps = 0;
        result = sym e';
        inside = ground arith;
        skips = λ i pos le. absurd (omega arith);
      }
]

cycle_walk-none :
    (f : ℕ → ℕ) (domain fuel x : ℕ) → cycle_walk f domain fuel x ≡ none → Skips f domain fuel x
unfolding cycle_walk
cycle_walk-none f domain zero x e = λ i pos le. absurd (omega arith)
cycle_walk-none f domain (suc fuel) x e = elim (Bool-cases (leb domain (f x))) [
  | inl out ↦
      Skips-cons f domain fuel x (ground arith) (cycle_walk-none f domain fuel (f x) (rw out at e))
  | inr within ↦ absurd (ground (arith, rw within at e))
]

module _ (f : ℕ → ℕ) (domain bound : ℕ) (domain_le : domain ≤ bound)
    (into : (v : ℕ) → v < bound → f v < bound)
    (inj : (v w : ℕ) → v < bound → w < bound → f v ≡ f w → v ≡ w) where
  iterate-lt : (k x : ℕ) → x < bound → iterate f k x < bound
  unfolding iterate
  iterate-lt zero x h = h
  iterate-lt (suc k) x h = into _ (iterate-lt k x h)

  -- Peel the same number of passes off both sides.
  same_start :
      (k l x z : ℕ)
      → x < domain
      → z < domain
      → Skips f domain k x
      → Skips f domain l z
      → iterate f (suc k) x ≡ iterate f (suc l) z
      → x ≡ z
  unfolding iterate
  same_start zero zero x z hx hz sx sz e = inj x z (omega arith) (omega arith) e
  same_start zero (suc l) x z hx hz sx sz e =
      let e' = inj x (iterate f (suc l) z) (omega arith) (iterate-lt (suc l) z (omega arith)) e in
      absurd (omega (arith, e', sz (suc l) (omega arith) (omega arith)))
  same_start (suc k) zero x z hx hz sx sz e =
      let e' = inj (iterate f (suc k) x) z (iterate-lt (suc k) x (omega arith)) (omega arith) e in
      absurd (omega (arith, e', sx (suc k) (omega arith) (omega arith)))
  same_start (suc k) (suc l) x z hx hz sx sz e =
      same_start k l x z hx hz (λ i pos le. sx i pos (omega arith))
        (λ i pos le. sz i pos (omega arith))
        (inj (iterate f (suc k) x) (iterate f (suc l) z) (iterate-lt (suc k) x (omega arith))
          (iterate-lt (suc l) z (omega arith)) e)

  -- While the walk stays out of the domain it never repeats a value.
  distinct :
      (k l m x : ℕ)
      → x < domain
      → Skips f domain m x
      → k ≤ m
      → l ≤ m
      → iterate f k x ≡ iterate f l x
      → k ≡ l
  unfolding iterate
  distinct zero zero m x hx s hk hl e = refl
  distinct zero (suc l) m x hx s hk hl e = absurd (omega (arith, s (suc l) (omega arith) hl))
  distinct (suc k) zero m x hx s hk hl e = absurd (omega (arith, s (suc k) (omega arith) hk))
  distinct (suc k) (suc l) m x hx s hk hl e = ap suc (
      distinct k l m x hx s (omega arith) (omega arith) (
        inj (iterate f k x) (iterate f l x) (iterate-lt k x (omega arith))
          (iterate-lt l x (omega arith)) e))

  -- The walk leaves the domain for at most `bound - domain` passes.
  Skips-le : (m x : ℕ) → x < domain → Skips f domain m x → m ≤ bound - domain
  Skips-le m x hx s =
      pigeonhole m (bound - domain) (λ i. iterate f (suc i) x - domain)
        (λ i h.
          omega (arith, s (suc i) (omega arith) (omega arith), iterate-lt (suc i) x (omega arith)))
        (λ i j hi hj e. omega (
          arith,
          distinct (suc i) (suc j) m x hx s (omega arith) (omega arith) (
              omega (
                arith,
                s (suc i) (omega arith) (omega arith),
                s (suc j) (omega arith) (omega arith),
                e,
              )),
        ))

  pub cycle_walk_total :
      (fuel x : ℕ)
      → x < domain
      → bound - domain < fuel
      → (y : ℕ) × (cycle_walk f domain fuel x ≡ some y) × (y < domain)
  cycle_walk_total fuel x hx enough = elim (Option-cases (cycle_walk f domain fuel x)) [
    | inl e ↦ absurd (omega (arith, Skips-le fuel x hx (cycle_walk-none f domain fuel x e)))
    | inr (y, e) ↦ (y, e, (cycle_walk-Walked f domain fuel x y e).inside)
  ]

  pub cycle_walk-injective :
      (fuel fuel' x z y : ℕ)
      → x < domain
      → z < domain
      → cycle_walk f domain fuel x ≡ some y
      → cycle_walk f domain fuel' z ≡ some y
      → x ≡ z
  cycle_walk-injective fuel fuel' x z y hx hz ex ez =
      let wx = cycle_walk-Walked f domain fuel x y ex in
      let wz = cycle_walk-Walked f domain fuel' z y ez in
      same_start wx.steps wz.steps x z hx hz wx.skips wz.skips (sym wx.result ∙ wz.result)

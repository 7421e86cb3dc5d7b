-- ===== src/Utils/Feistel/Pigeonhole.antt =====
-- The pigeonhole principle on functions of the native numbers.
use virtual_people_core_serv.Prelude.{ℕ, zero, suc, ◌≤◌, ◌<◌, ◌≡◌, arith, ◌==◌, if◌then◌else◌}

abbrev pub InjectiveBelow : ℕ → (ℕ → ℕ) → Type 0
InjectiveBelow m g = (i j : ℕ) → i < m → j < m → g i ≡ g j → i ≡ j

-- `g` with the value `top` replaced by `v`.
replaced : (ℕ → ℕ) → ℕ → ℕ → ℕ → ℕ
replaced g top v i = if g i == top then v else g i

module _ (m b : ℕ) (g : ℕ → ℕ) (into : (i : ℕ) → i < suc m → g i < suc b)
    (inj : InjectiveBelow (suc m) g) where
  replaced-lt : (i : ℕ) → i < m → replaced g b (g m) i < b
  unfolding replaced
  replaced-lt i h =
      ground
        (arith, into i (omega arith), into m (omega arith), inj i m (omega arith) (omega arith))

  replaced-injective : InjectiveBelow m (replaced g b (g m))
  unfolding replaced
  replaced-injective i j hi hj e = ground (
    arith,
    inj i j (omega arith) (omega arith),
    inj i m (omega arith) (omega arith),
    inj j m (omega arith) (omega arith),
  )

-- An injection of `m` numbers into `b` numbers has m ≤ b.
pub pigeonhole : (m b : ℕ) (g : ℕ → ℕ) → ((i : ℕ) → i < m → g i < b) → InjectiveBelow m g → m ≤ b
pigeonhole zero b g into inj = omega arith
pigeonhole (suc m) zero g into inj = absurd (omega (arith, into m (omega arith)))
pigeonhole (suc m) (suc b) g into inj = omega (
  arith,
  pigeonhole m b (replaced g b (g m)) (replaced-lt m b g into inj)
      (replaced-injective m b g into inj),
)

-- ===== src/Prelude/Words.antt =====
-- Machine integers: a uint64_t is a number below 2 ^ 64, and its operations wrap. A signed value
-- is `pos n` or `negsuc n`, which is -(n + 1).
use Prim.Native.Nat.{ℕ, zero, suc, ◌+◌, ◌-◌, ◌*◌, ◌%◌, ◌^◌, ◌≤◌, ◌<◌}
use mathlib.Core.Path.{◌≡◌, refl}
use mathlib.Core.Bool.{Bool, true, false}
use mathlib.Core.List.{List}
use mathlib.Core.Option.{Option, none, some}
use native.Mathlib.Nat.{mod-eq_of_lt}
use native.Mathlib.Omega.{arith}
use virtual_people_core_serv.Prelude.Lists.{get_elem?, get_elem?_total, length}
use virtual_people_core_serv.Prelude.Tests.{ltb, if◌then◌else◌}

pub data ℤ : Type 0 where
  pos : ℕ → ℤ
  negsuc : ℕ → ℤ

-- `i < n` for an int64_t `i` that is not negative.
abbrev pub ltb_ℤ : ℕ → ℤ → Bool
ltb_ℤ i (pos n) = ltb i n
ltb_ℤ i (negsuc n) = false

-- kNoMatchingIndex of utils/constants.h, and the test for it.
abbrev pub no_matching_index : ℤ
no_matching_index = negsuc 0

abbrev pub is_no_match : ℤ → Bool
is_no_match (pos n) = false
is_no_match (negsuc zero) = true
is_no_match (negsuc (suc n)) = false

-- `xs[i]`, or none where `i < 0 || i >= xs.size()`.
abbrev pub at_index {ℓ} : {A : Type ℓ} → List A → ℤ → Option A
at_index xs (pos n) = get_elem? xs n
at_index xs (negsuc n) = none

-- kNoMatchingIndex, or an index below `n`.
abbrev pub IsIndex : ℕ → ℤ → Type 0
IsIndex n (pos i) = i < n
IsIndex n (negsuc zero) = Unit
IsIndex n (negsuc (suc i)) = ⊥

-- Such an index is in the list, unless it is kNoMatchingIndex.
pub at_index_total {ℓ} :
    {A : Type ℓ} (xs : List A) (index : ℤ)
    → IsIndex (length xs) index
    → is_no_match index ≡ false
    → (i : ℕ) × (a : A) × (index ≡ pos i) × (get_elem? xs i ≡ some a) × (at_index xs index ≡ some a)
at_index_total xs (pos i) h e =
    let (a, found) = get_elem?_total xs i h in (i, a, refl, found, found)
at_index_total xs (negsuc zero) h e = cc
at_index_total xs (negsuc (suc n)) h e = absurd h

unfoldable pub add64 : ℕ → ℕ → ℕ
add64 a b = (a + b) % 2 ^ 64

-- Both arguments are below 2 ^ 64.
unfoldable pub sub64 : ℕ → ℕ → ℕ
sub64 a b = (a + 2 ^ 64 - b) % 2 ^ 64

unfoldable pub mul64 : ℕ → ℕ → ℕ
mul64 a b = (a * b) % 2 ^ 64

-- static_cast<int32_t> of a uint64_t.
unfoldable pub to_int32 : ℕ → ℤ
to_int32 n = let m = n % 2 ^ 32 in if ltb m (2 ^ 31) then pos m else negsuc (2 ^ 32 - 1 - m)

-- The conversion of an int32_t to uint64_t.
unfoldable pub of_int32 : ℤ → ℕ
of_int32 (pos n) = n
of_int32 (negsuc n) = 2 ^ 64 - 1 - n

pub add64_exact : (a b : ℕ) → a + b < 2 ^ 64 → add64 a b ≡ a + b
unfolding add64
add64_exact a b h = omega arith

pub sub64_exact : (a b : ℕ) → b ≤ a → a < 2 ^ 64 → sub64 a b ≡ a - b
unfolding sub64
sub64_exact a b h small = omega arith

pub mul64_exact : (a b : ℕ) → a * b < 2 ^ 64 → mul64 a b ≡ a * b
unfolding mul64
mul64_exact a b h = mod-eq_of_lt h

pub to_int32_small : (n : ℕ) → n < 2 ^ 31 → to_int32 n ≡ pos n
unfolding to_int32
to_int32_small n h = ground arith

pub add64-lt : (a b : ℕ) → add64 a b < 2 ^ 64
unfolding add64
add64-lt a b = omega arith

pub to_int32_negative :
    (n : ℕ) → 2 ^ 31 ≤ n % 2 ^ 32 → to_int32 n ≡ negsuc (2 ^ 32 - 1 - n % 2 ^ 32)
unfolding to_int32
to_int32_negative n h = ground arith

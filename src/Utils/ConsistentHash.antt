-- ===== src/Utils/ConsistentHash.antt =====
-- utils/consistent_hash.cc: JumpConsistentHash. The loop takes fuel; `Bounds` shows that one more
-- than the number of buckets is enough. A uint64_t key is a number below 2 ^ 64.
pub mod Bounds
use virtual_people_core_serv.Prelude.{
  ℕ, zero, suc, ◌+◌, ◌/◌, ◌^◌, Option, none, some, ℤ, pos, negsuc, ltb_ℤ, if◌then◌else◌, add64,
  mul64,
}
use virtual_people_core_serv.External.Doubles.{Doubles}

-- key * 2862933555777941757ULL + 1
unfoldable pub next_key : ℕ → ℕ
next_key key = add64 (mul64 key 2862933555777941757) 1

module _ (D : Doubles) where
  -- (j + 1) * (double(1LL << 31) / double((key >> 33) + 1)), cut to an int64_t.
  unfoldable pub next_jump : ℕ → ℕ → ℕ
  next_jump key j =
      D.to_ℕ (D.mul (D.of_ℕ (j + 1)) (D.div (D.of_ℕ (2 ^ 31)) (D.of_ℕ (key / 2 ^ 33 + 1))))

  -- `none` means that the fuel ran out.
  unfoldable pub jump_loop : ℕ → ℕ → ℤ → ℤ → ℕ → Option ℤ
  jump_loop zero key num_buckets b j = none
  jump_loop (suc fuel) key num_buckets b j =
      let key' = next_key key in
      let rest = jump_loop fuel key' num_buckets (pos j) (next_jump key' j) in
      if ltb_ℤ j num_buckets then rest else some b

  unfoldable pub jump_consistent_hash : ℕ → ℕ → ℤ → Option ℤ
  jump_consistent_hash fuel key num_buckets = jump_loop fuel key num_buckets (negsuc 0) 0

-- ===== src/Utils/ConsistentHash/Bounds.antt =====
-- The loop ends within the number of buckets, the bucket is in range, and the hash is consistent.
use virtual_people_core_serv.Prelude.{
  ℕ, zero, suc, ◌+◌, ◌-◌, ◌*◌, ◌/◌, ◌%◌, ◌^◌, ℤ, to_int32, ◌≤◌, ◌<◌, ◌≡◌, refl, sym, ◌∙◌, lt→ltb,
  ◌⊎◌, inl, inr, some, pos, negsuc, arith, ltb, Bool-cases, add64-lt, true, ltb→lt, ltb_false→le,
}
use virtual_people_core_serv.External.Doubles.{Doubles, RoundsMonotonically}
use virtual_people_core_serv.Utils.ConsistentHash.{
  next_key, next_jump, jump_loop, jump_consistent_hash,
}

next_key-lt : (key : ℕ) → next_key key < 2 ^ 64
unfolding next_key
next_key-lt key = add64-lt _ 1

module _ (D : Doubles) (rounds : RoundsMonotonically D) where
  -- A jump goes forward.
  next_jump-lt : (key j : ℕ) → key < 2 ^ 64 → j < 2 ^ 31 → j < next_jump D key j
  unfolding next_jump
  next_jump-lt key j hk hj =
      let k = key / 2 ^ 33 + 1 in
      let (ge_one, le_all) =
        rounds.div_bounds (2 ^ 31) k (omega arith) (omega arith) (omega arith) in
      let (ge_j, le_top) =
        rounds.mul_bounds (j + 1) (2 ^ 31) _ (omega arith) (omega arith) ge_one le_all in
      let bound =
        rounds.trunc_ge (j + 1) ((j + 1) * 2 ^ 31) _ (omega arith) (omega arith) ge_j le_top in
      omega (arith, bound)

  jump_loop_total :
      (fuel key m b j : ℕ)
      → m ≤ 2 ^ 31
      → m - j < fuel
      → b < m
      → (r : ℕ) × (jump_loop D fuel key (pos m) (pos b) j ≡ some (pos r)) × (r < m)
  unfolding jump_loop
  jump_loop_total zero key m b j hm enough hb = absurd (omega arith)
  jump_loop_total (suc fuel) key m b j hm enough hb = elim (Bool-cases (ltb j m)) [
    | inl more ↦
        let grows =
          next_jump-lt (next_key key) j (next_key-lt key) (omega (arith, ltb→lt j m more)) in
        rw more (
          jump_loop_total fuel (next_key key) m j (next_jump D (next_key key) j) hm
            (omega (arith, grows, ltb→lt j m more)) (ltb→lt j m more))
    | inr done ↦ (b, rw done, hb)
  ]

  first_jump :
      (fuel key m : ℕ)
      → 0 < m
      → jump_consistent_hash D (suc fuel) key (pos m)
        ≡ jump_loop D fuel (next_key key) (pos m) (pos 0) (next_jump D (next_key key) 0)
  unfolding jump_consistent_hash jump_loop
  first_jump fuel key m h = rw (lt→ltb 0 m h)

  -- With 1 to 2 ^ 31 buckets and more fuel than buckets, the loop of JumpConsistentHash ends
  -- and its result is a bucket. The double arithmetic rounds monotonically.
  pub jump_consistent_hash_total :
      (fuel key m : ℕ)
      → 0 < m
      → m ≤ 2 ^ 31
      → m < fuel
      → (r : ℕ) × (jump_consistent_hash D fuel key (pos m) ≡ some (pos r)) × (r < m)
  jump_consistent_hash_total zero key m h hm enough = absurd (omega arith)
  jump_consistent_hash_total (suc fuel) key m h hm enough =
      let grows = next_jump-lt (next_key key) 0 (next_key-lt key) (omega arith) in
      rw (first_jump fuel key m h) (
        jump_loop_total fuel (next_key key) m 0 (next_jump D (next_key key) 0) hm
          (omega (arith, grows)) h)

  -- What the loop ends with is the bucket it started with, or one that it reached.
  jump_loop-ge :
      (fuel key m b j r : ℕ)
      → m ≤ 2 ^ 31
      → jump_loop D fuel key (pos m) (pos b) j ≡ some (pos r)
      → b ≤ j
      → b ≤ r
  unfolding jump_loop
  jump_loop-ge zero key m b j r hm e h = cc
  jump_loop-ge (suc fuel) key m b j r hm e h = elim (Bool-cases (ltb j m)) [
    | inl more ↦
        let grows =
          next_jump-lt (next_key key) j (next_key-lt key) (omega (arith, ltb→lt j m more)) in
        omega (
          arith,
          jump_loop-ge fuel (next_key key) m j (next_jump D (next_key key) j) r hm (rw more at e)
              (omega (arith, grows)),
        )
    | inr done ↦ ground (arith, rw done at e)
  ]

  jump_loop-consistent :
      (fuel fuel' key m m' b j r r' : ℕ)
      → m ≤ m'
      → m' ≤ 2 ^ 31
      → b ≤ j
      → jump_loop D fuel key (pos m) (pos b) j ≡ some (pos r)
      → jump_loop D fuel' key (pos m') (pos b) j ≡ some (pos r')
      → (r' ≡ r) ⊎ (m ≤ r')
  unfolding jump_loop
  jump_loop-consistent zero fuel' key m m' b j r r' hm hm' hb e e' = cc
  jump_loop-consistent (suc fuel) zero key m m' b j r r' hm hm' hb e e' = cc
  jump_loop-consistent (suc fuel) (suc fuel') key m m' b j r r' hm hm' hb e e' =
      elim (Bool-cases (ltb j m)) [
        | inl more ↦
            let lt = ltb→lt j m more in
            let more' : ltb j m' ≡ true = ground arith in
            let grows = next_jump-lt (next_key key) j (next_key-lt key) (omega arith) in
            jump_loop-consistent fuel fuel' (next_key key) m m' j (next_jump D (next_key key) j) r
              r' hm hm' (omega (arith, grows)) (rw more at e) (rw more' at e')
        | inr done ↦ elim (Bool-cases (ltb j m')) [
          | inl more' ↦
              let grows =
                next_jump-lt (next_key key) j (next_key-lt key)
                  (omega (arith, ltb→lt j m' more')) in
              let ge =
                jump_loop-ge fuel' (next_key key) m' j (next_jump D (next_key key) j) r' hm'
                  (rw more' at e') (omega (arith, grows)) in
              inr (omega (arith, ge, ltb_false→le j m done))
          | inr done' ↦ inl (ground (arith, rw done at e, rw done' at e'))
        ]
      ]

  -- When buckets are added, JumpConsistentHash keeps the bucket of a key or moves it to an
  -- added one. The double arithmetic rounds monotonically.
  pub jump_consistent_hash-consistent :
      (fuel fuel' key m m' r r' : ℕ)
      → 0 < m
      → m ≤ m'
      → m' ≤ 2 ^ 31
      → jump_consistent_hash D fuel key (pos m) ≡ some (pos r)
      → jump_consistent_hash D fuel' key (pos m') ≡ some (pos r')
      → (r' ≡ r) ⊎ (m ≤ r')
  unfolding jump_consistent_hash jump_loop
  jump_consistent_hash-consistent zero fuel' key m m' r r' h le le' e e' = cc
  jump_consistent_hash-consistent (suc fuel) zero key m m' r r' h le le' e e' = cc
  jump_consistent_hash-consistent (suc fuel) (suc fuel') key m m' r r' h le le' e e' =
      let grows = next_jump-lt (next_key key) 0 (next_key-lt key) (omega arith) in
      jump_loop-consistent fuel fuel' (next_key key) m m' 0 (next_jump D (next_key key) 0) r r' le
        le' (omega arith) (sym (first_jump fuel key m h) ∙ e)
        (sym (first_jump fuel' key m' (omega arith)) ∙ e')

-- A bucket count of zero or below gives -1.
pub jump_consistent_hash_none :
    (D : Doubles) (fuel key n : ℕ)
    → (jump_consistent_hash D (suc fuel) key (pos 0) ≡ some (negsuc 0))
      × (jump_consistent_hash D (suc fuel) key (negsuc n) ≡ some (negsuc 0))
unfolding jump_consistent_hash jump_loop
jump_consistent_hash_none D fuel key n = (refl, refl)

jump_consistent_hash_small :
    (D : Doubles) (rounds : RoundsMonotonically D) (fuel key m : ℕ)
    → m < 2 ^ 31
    → 2 ^ 32 ≤ suc fuel
    → (r : ℤ) × (jump_consistent_hash D (suc fuel) key (pos m) ≡ some r)
jump_consistent_hash_small D rounds fuel key zero h enough =
    (negsuc 0, (jump_consistent_hash_none D fuel key 0).0)
jump_consistent_hash_small D rounds fuel key (suc m) h enough =
    let (r, e, _) =
      jump_consistent_hash_total D rounds (suc fuel) key (suc m) (omega arith) (omega arith)
        (omega arith) in
    (pos r, e)

-- The hash into any uint64_t taken as an int32_t ends: a size of 2 ^ 31 and more is negative.
pub jump_consistent_hash-to_int32 :
    (D : Doubles) (rounds : RoundsMonotonically D) (fuel key size : ℕ)
    → 2 ^ 32 ≤ fuel
    → (r : ℤ) × (jump_consistent_hash D fuel key (to_int32 size) ≡ some r)
unfolding to_int32
jump_consistent_hash-to_int32 D rounds zero key size enough = absurd (omega arith)
jump_consistent_hash-to_int32 D rounds (suc fuel) key size enough =
    elim (Bool-cases (ltb (size % 2 ^ 32) (2 ^ 31))) [
      | inl small ↦ rw small (
          jump_consistent_hash_small D rounds fuel key (size % 2 ^ 32)
            (ltb→lt (size % 2 ^ 32) (2 ^ 31) small) enough)
      | inr large ↦ (negsuc 0, rw large (jump_consistent_hash_none D fuel key _).1)
    ]

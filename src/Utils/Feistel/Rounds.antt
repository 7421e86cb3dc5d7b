-- ===== src/Utils/Feistel/Rounds.antt =====
-- One pass of the network is a permutation of the square of side `half`.
use native.Mathlib.Nat.{mul-le-mul, mod-lt, div-add-mod'}
use virtual_people_core_serv.Prelude.{
  ℕ, zero, suc, ◌+◌, ◌*◌, ◌/◌, ◌%◌, ◌^◌, ◌≤◌, ◌<◌, ◌≡◌, sym, ap, ◌∙◌, arith, add64, mul64,
  add64_exact, mul64_exact,
}
use virtual_people_core_serv.Utils.Feistel.{feistel_rounds, feistel_pass}

-- Adding the same number modulo `m` is injective.
add-mod_cancel : (a b c m : ℕ) → a < m → b < m → c < m → (a + c) % m ≡ (b + c) % m → a ≡ b
add-mod_cancel a b c m ha hb hc e = grind arith

pub join-lt : (l r half : ℕ) → l < half → r < half → l * half + r < half * half
join-lt l r half hl hr = grind arith

row_le : (l l' half : ℕ) → l < l' → l * half + half ≤ l' * half
row_le l l' half h = grind arith

join_injective :
    (l r l' r' half : ℕ)
    → r < half
    → r' < half
    → l * half + r ≡ l' * half + r'
    → (l ≡ l') × (r ≡ r')
join_injective l r l' r' half hr hr' e =
    let el : l ≡ l' = grind (arith, row_le l l' half, row_le l' l half) in
    (el, omega (arith, ap (λ k. k * half) el))

square_fits : (half : ℕ) → half ≤ 2 ^ 32 → half * half ≤ 2 ^ 64
square_fits half h = mul-le-mul h h

split-lt : (v half : ℕ) → v < half * half → v / half < half
split-lt v half h = grind (arith, div-add-mod' v half)

module _ (hash : ℕ → ℕ → ℕ) (half : ℕ) (small : half ≤ 2 ^ 32) where
  mixed_exact : (left x : ℕ) → left < half → add64 left (x % half) ≡ left + x % half
  mixed_exact left x hl =
      let h = mod-lt x {m = half} (omega arith) in add64_exact left (x % half) (omega arith)

  feistel_rounds-lt :
      (n round : ℕ) (left right : ℕ)
      → left < half
      → right < half
      → ((feistel_rounds hash half n round (left, right)).0 < half)
        × ((feistel_rounds hash half n round (left, right)).1 < half)
  unfolding feistel_rounds
  feistel_rounds-lt zero round left right hl hr = (hl, hr)
  feistel_rounds-lt (suc n) round left right hl hr =
      feistel_rounds-lt n (round + 1) right _ hr (mod-lt _ (omega arith))

  feistel_rounds-injective :
      (n round : ℕ) (left right left' right' : ℕ)
      → left < half
      → right < half
      → left' < half
      → right' < half
      → feistel_rounds hash half n round (left, right)
        ≡ feistel_rounds hash half n round (left', right')
      → (left ≡ left') × (right ≡ right')
  unfolding feistel_rounds
  feistel_rounds-injective zero round l r l' r' hl hr hl' hr' e = (ap (λ p. p.0) e, ap (λ p. p.1) e)
  feistel_rounds-injective (suc n) round l r l' r' hl hr hl' hr' e =
      let (er, em) =
        feistel_rounds-injective n (round + 1) r _ r' _ hr (mod-lt _ (omega arith)) hr'
          (mod-lt _ (omega arith)) e in
      let x : ℕ = hash round r % half in
      let ex : hash round r' % half ≡ x = ap (λ k. hash round k % half) (sym er) in
      let em' : (l + x) % half ≡ (l' + x) % half =
        ap (λ k. k % half) (sym (mixed_exact l (hash round r) hl))
        ∙ em
        ∙ ap (λ k. k % half) (mixed_exact l' (hash round r') hl')
        ∙ ap (λ k. (l' + k) % half) ex in
      (add-mod_cancel l l' x half hl hl' (mod-lt _ (omega arith)) em', er)

  joined_exact :
      (left right : ℕ)
      → left < half
      → right < half
      → add64 (mul64 left half) right ≡ left * half + right
  joined_exact left right hl hr =
      let square = square_fits half small in
      let fits = join-lt left right half hl hr in
      rw (mul64_exact left half (omega arith)) (add64_exact (left * half) right (omega arith))

  -- A pass as the join of the two halves.
  pass_rounds : ℕ → ℕ × ℕ
  pass_rounds v = feistel_rounds hash half 4 0 (v / half, v % half)

  pass_rounds-lt :
      (v : ℕ) → v < half * half → ((pass_rounds v).0 < half) × ((pass_rounds v).1 < half)
  unfolding pass_rounds
  pass_rounds-lt v h =
      feistel_rounds-lt 4 0 (v / half) (v % half) (split-lt v half h)
        (mod-lt v (omega (arith, split-lt v half h)))

  feistel_pass_lem :
      (v : ℕ)
      → v < half * half
      → feistel_pass hash half v ≡ (pass_rounds v).0 * half + (pass_rounds v).1
  unfolding feistel_pass pass_rounds
  feistel_pass_lem v h = let (hl, hr) = pass_rounds-lt v h in joined_exact _ _ hl hr

  -- A pass maps the square into itself.
  pub feistel_pass-lt : (v : ℕ) → v < half * half → feistel_pass hash half v < half * half
  feistel_pass-lt v h =
      let (hl, hr) = pass_rounds-lt v h in
      rw (feistel_pass_lem v h) (join-lt (pass_rounds v).0 (pass_rounds v).1 half hl hr)

  -- A pass is injective on the square.
  pub feistel_pass-injective :
      (v w : ℕ)
      → v < half * half
      → w < half * half
      → feistel_pass hash half v ≡ feistel_pass hash half w
      → v ≡ w
  unfolding pass_rounds
  feistel_pass-injective v w hv hw e =
      let (vl, vr) = pass_rounds-lt v hv in
      let (wl, wr) = pass_rounds-lt w hw in
      let (e0, e1) =
        join_injective (pass_rounds v).0 (pass_rounds v).1 (pass_rounds w).0 (pass_rounds w).1 half
          vr wr (sym (feistel_pass_lem v hv) ∙ e ∙ feistel_pass_lem w hw) in
      let positive : 0 < half = omega arith in
      let (el, er) =
        feistel_rounds-injective 4 0 (v / half) (v % half) (w / half) (w % half)
          (split-lt v half hv) (mod-lt v positive) (split-lt w half hw) (mod-lt w positive)
          (λ i. (e0 i, e1 i)) in
      omega (arith, div-add-mod' v half, div-add-mod' w half, ap (λ k. k * half) el, er)

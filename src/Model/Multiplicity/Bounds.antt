-- ===== src/Model/Multiplicity/Bounds.antt =====
-- A multiplicity is the integral part of an expectation within its bounds, or one more.
use virtual_people_core_serv.Prelude.{
  ℕ, suc, ◌^◌, ◌<◌, ◌≡◌, ap, Option, none, some, or_error, guard, ◌>>◌, ltb, ltb→lt,
  undefined_arithmetic, refl, sym, subst, ◌⊎◌, inl, inr, true, false, ok, err, ok-injective,
  >>=-eq-ok, Bool, Bool-cases, if◌then◌else◌, out_of_range, exceeds_max,
}
use virtual_people_core_serv.External.Doubles.{Doubles, IsOrder}
use virtual_people_core_serv.External.Events.{Platform, LabelerEvent}
use virtual_people_core_serv.External.Protobuf.{Protobuf}
use virtual_people_core_serv.Model.Multiplicity.{
  MultiplicityImpl, compute_bimodal_integer, extract, cap, compute_event_multiplicity,
}

-- An int holds the integral part and the count, which is the integral part or one more.
abbrev pub IsBimodal : (D : Doubles) → D.Double → ℕ → Type 0
IsBimodal D x n =
    (i : ℕ) × (D.to_int (D.floor x) ≡ some i) × ((n ≡ i) ⊎ ((n ≡ suc i) × (suc i < 2 ^ 31)))

compute_bimodal_integer-IsBimodal :
    (D : Doubles) (x : D.Double) (seed n : ℕ)
    → compute_bimodal_integer D x seed ≡ ok n
    → IsBimodal D x n
unfolding compute_bimodal_integer
compute_bimodal_integer-IsBimodal D x seed n e =
    let (i, whole, e') = >>=-eq-ok (or_error (D.to_int (D.floor x)) undefined_arithmetic) _ e in
    (i, or_error-of_ok (D.to_int (D.floor x)) whole, either _ i e')
  where
    or_error-of_ok : (o : Option ℕ) {i : ℕ} → or_error o undefined_arithmetic ≡ ok i → o ≡ some i
    or_error-of_ok none e = cc
    or_error-of_ok (some j) e = ap some (ok-injective e)

    one_more :
        (small : Bool) (i : ℕ)
        → (guard small undefined_arithmetic >> ok (suc i)) ≡ ok n
        → (n ≡ suc i) × (small ≡ true)
    one_more true i e = (sym (ok-injective e), refl)
    one_more false i e = cc

    either :
        (b : Bool) (i : ℕ)
        → (if b then (guard (ltb (suc i) (2 ^ 31)) undefined_arithmetic >> ok (suc i)) else ok i)
          ≡ ok n
        → (n ≡ i) ⊎ ((n ≡ suc i) × (suc i < 2 ^ 31))
    either true i e =
        let (more, small) = one_more _ i e in inr (more, ltb→lt (suc i) (2 ^ 31) small)
    either false i e = inl (sym (ok-injective e))

module _ (P : Platform) (B : Protobuf P) (order : IsOrder P.doubles)
    (m : MultiplicityImpl P B) where
  -- The capped expectation is the extracted one or the maximum, and not above the maximum.
  cap-le :
      (extracted expected : P.doubles.Double)
      → cap P B m extracted ≡ ok expected
      → ((expected ≡ extracted) ⊎ (expected ≡ m.max_value))
        × (P.doubles.lt m.max_value expected ≡ false)
  unfolding cap
  cap-le extracted expected e = by_flags _ _ refl e
    where
      by_flags :
          (above capped : Bool)
          → P.doubles.lt m.max_value extracted ≡ above
          → (if above
              then (if capped then ok m.max_value else err (out_of_range exceeds_max))
              else ok extracted)
            ≡ ok expected
          → ((expected ≡ extracted) ⊎ (expected ≡ m.max_value))
            × (P.doubles.lt m.max_value expected ≡ false)
      by_flags true true above e = (
        inr (sym (ok-injective e)),
        subst (λ x. P.doubles.lt m.max_value x ≡ false) (ok-injective e)
            (order.lt_irrefl m.max_value),
      )
      by_flags true false above e = cc
      by_flags false capped above e = (
        inl (sym (ok-injective e)),
        subst (λ x. P.doubles.lt m.max_value x ≡ false) (ok-injective e) above,
      )

  -- A count that ComputeEventMultiplicity gives is the integral part, which an int holds, or
  -- one more, where an int holds that, of an expectation that is the extracted one or the
  -- maximum, is not above the maximum, and is not negative. The order of the doubles is
  -- irreflexive and transitive.
  pub compute_event_multiplicity-IsBimodal :
      (event : LabelerEvent P) (n : ℕ)
      → compute_event_multiplicity P B m event ≡ ok n
      → (extracted expected : P.doubles.Double) × (extract P B m.multiplicity_extractor event
          ≡ ok extracted)
        × ((expected ≡ extracted) ⊎ (expected ≡ m.max_value))
        × (P.doubles.lt m.max_value expected ≡ false)
        × (P.doubles.lt expected (P.doubles.of_ℕ 0) ≡ false)
        × IsBimodal P.doubles expected n
  unfolding compute_event_multiplicity
  compute_event_multiplicity-IsBimodal event n e =
      let (extracted, e₀, e₁) = >>=-eq-ok (extract P B m.multiplicity_extractor event) _ e in
      let (expected, capped, e₂) = >>=-eq-ok (cap P B m extracted) _ e₁ in
      let (possible, below) = cap-le extracted expected capped in
      elim (Bool-cases (P.doubles.lt expected (P.doubles.of_ℕ 0))) [
        | inl negative ↦ cc (rw negative at e₂)
        | inr fine ↦ (
          extracted,
          expected,
          e₀,
          possible,
          below,
          fine,
          compute_bimodal_integer-IsBimodal P.doubles expected _ n (rw fine at e₂),
        )
      ]

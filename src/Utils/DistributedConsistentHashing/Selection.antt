-- ===== src/Utils/DistributedConsistentHashing/Selection.antt =====
-- What Hash selects: a choice of least xi, and so always a choice of a numbered distribution.
use Prim.Native.String.{String}
use virtual_people_core_serv.Prelude.{
  ℕ, ◌<◌, ◌≡◌, refl, sym, ◌⊎◌, inl, inr, true, false, List, [], ◌∷◌, All, Any, Bool-cases,
}
use virtual_people_core_serv.External.Doubles.{Doubles, IsOrder}
use virtual_people_core_serv.External.Hashing.{Hashing}
use virtual_people_core_serv.Utils.DistributedConsistentHashing.{
  DistributionChoice, compute_xi, hash_loop, hash,
}

module _ (D : Doubles) (H : Hashing) (order : IsOrder D) (seed : String) where
  not_below : (a b c : D.Double) → D.lt a b ≡ true → D.lt a c ≡ false → D.lt b c ≡ false
  not_below a b c ab ac = elim (Bool-cases (D.lt b c)) [
    | inl bc ↦ cc (order.lt_trans a b c ab bc)
    | inr no_bc ↦ no_bc
  ]

  not_above : (a b c : D.Double) → D.lt b c ≡ true → D.lt a c ≡ false → D.lt a b ≡ false
  not_above a b c bc ac = elim (Bool-cases (D.lt a b)) [
    | inl ab ↦ cc (order.lt_trans a b c ab bc)
    | inr no_ab ↦ no_ab
  ]

  -- The xi that the loop ends with: no choice is below it, and it is that of the result.
  record Least (cs : List (DistributionChoice D)) (id : ℕ) (x : D.Double) (result : ℕ)
      : Type 0 where
    xi : D.Double
    least : All (λ c. D.lt (compute_xi D H seed c) xi ≡ false) cs
    start : D.lt x xi ≡ false
    chosen :
        ((result ≡ id) × (xi ≡ x))
        ⊎ ((D.lt xi x ≡ true) × Any (λ c. (c.choice_id ≡ result) × (compute_xi D H seed c ≡ xi)) cs)

  Least-cons_lt :
      (c : DistributionChoice D) (cs : List (DistributionChoice D)) (id : ℕ) (x : D.Double)
      (result : ℕ)
      → D.lt (compute_xi D H seed c) x ≡ true
      → Least cs c.choice_id (compute_xi D H seed c) result
      → Least (c ∷ cs) id x result
  Least-cons_lt c cs id x result less rest = record {
    xi = rest.xi;
    least = (rest.start, rest.least);
    start = not_below (compute_xi D H seed c) x rest.xi less rest.start;
    chosen = inr (elim (rest.chosen) [
      | inl (e, ex) ↦ (cc, inl (sym e, sym ex))
      | inr (lt, later) ↦ (order.lt_trans rest.xi (compute_xi D H seed c) x lt less, inr later)
    ]);
  }

  Least-cons_ge :
      (c : DistributionChoice D) (cs : List (DistributionChoice D)) (id : ℕ) (x : D.Double)
      (result : ℕ)
      → D.lt (compute_xi D H seed c) x ≡ false
      → Least cs id x result
      → Least (c ∷ cs) id x result
  Least-cons_ge c cs id x result ge rest = record {
    xi = rest.xi;
    least = (
      elim (rest.chosen) [
        | inl (e, ex) ↦ cc
        | inr (lt, later) ↦ not_above (compute_xi D H seed c) rest.xi x lt ge
      ],
      rest.least,
    );
    start = rest.start;
    chosen = elim (rest.chosen) [
      | inl (e, ex) ↦ inl (e, ex)
      | inr (lt, later) ↦ inr (lt, inr later)
    ];
  }

  hash_loop-Least :
      (cs : List (DistributionChoice D)) (id : ℕ) (x : D.Double)
      → Least cs id x (hash_loop D H seed cs id x)
  unfolding hash_loop
  hash_loop-Least [] id x = record {
    xi = x;
    least = tt;
    start = order.lt_irrefl x;
    chosen = inl (refl, refl);
  }
  hash_loop-Least (c ∷ cs) id x = elim (Bool-cases (D.lt (compute_xi D H seed c) x)) [
    | inl less ↦
        rw (less, hash_loop)
          (Least-cons_lt c cs id x _ less (hash_loop-Least cs c.choice_id (compute_xi D H seed c)))
    | inr ge ↦ rw (ge, hash_loop) (Least-cons_ge c cs id x _ ge (hash_loop-Least cs id x))
  ]

  -- Hash returns the id of a choice whose xi is below the largest double and above that of no
  -- choice, or 0 where no xi is below the largest double. The order of the doubles is
  -- irreflexive and transitive.
  pub hash-least :
      (cs : List (DistributionChoice D))
      → ((hash D H cs seed ≡ 0) × All (λ c. D.lt (compute_xi D H seed c) D.largest ≡ false) cs)
        ⊎ ((xi : D.Double) × (D.lt xi D.largest ≡ true)
            × Any (λ c. (c.choice_id ≡ hash D H cs seed) × (compute_xi D H seed c ≡ xi)) cs
            × All (λ c. D.lt (compute_xi D H seed c) xi ≡ false) cs)
  unfolding hash
  hash-least cs =
      let l = hash_loop-Least cs 0 D.largest in
      elim (l.chosen) [
        | inl (e, ex) ↦ inl (e, rw ex at l.least)
        | inr (lt, found) ↦ inr (l.xi, lt, found, l.least)
      ]

module _ (D : Doubles) where
  abbrev pub Numbered : ℕ → List (DistributionChoice D) → Type 0
  Numbered n = All (λ c. c.choice_id < n)

  hash_loop-lt :
      (H : Hashing) (seed : String) (n : ℕ) (cs : List (DistributionChoice D)) (id : ℕ)
      (x : D.Double)
      → Numbered n cs
      → id < n
      → hash_loop D H seed cs id x < n
  unfolding hash_loop
  hash_loop-lt H seed n [] id x all h = h
  hash_loop-lt H seed n (c ∷ cs) id x all h = elim (Bool-cases (D.lt (compute_xi D H seed c) x)) [
    | inl less ↦ rw (less, hash_loop) (hash_loop-lt H seed n cs c.choice_id _ all.1 all.0)
    | inr ge ↦ rw (ge, hash_loop) (hash_loop-lt H seed n cs id x all.1 h)
  ]

  -- Where n is not 0 and every choice has an id below n, Hash is below n.
  pub hash-lt :
      (H : Hashing) (seed : String) (n : ℕ) (cs : List (DistributionChoice D))
      → Numbered n cs
      → 0 < n
      → hash D H cs seed < n
  unfolding hash
  hash-lt H seed n cs all h = hash_loop-lt H seed n cs 0 D.largest all h

-- ===== src/Model/Ids/Leaves.antt =====
-- The leaves give ids of their pools.
use virtual_people_core_serv.Prelude.{
  ℕ, ◌+◌, ◌^◌, ◌≤◌, ◌<◌, ◌≡◌, refl, sym, ap, subst, ◌∙◌, inl, inr, List, [], ◌∷◌, Option, none,
  some, Result, ok, ok-injective, All, arith, Bool-cases, ltb, ltb→lt, ltb_false→le, sub64,
  sub64_exact, Returns-by_value, if◌then◌else◌,
}
use virtual_people_core_serv.External.Doubles.{SqrtIsExact, RoundsMonotonically}
use virtual_people_core_serv.External.Events.{Platform, LabelerEvent}
use virtual_people_core_serv.Utils.VirtualPersonSelector.{VirtualPersonPool}
use virtual_people_core_serv.Utils.VirtualPersonSelector.IdSpace.{InSpace}
use virtual_people_core_serv.Model.PopulationNode
use virtual_people_core_serv.Model.PopulationNode.{PopulationNode, PopulationNodeImpl}
use virtual_people_core_serv.Model.PopulationNode.Ids.{apply-InSpace}
use virtual_people_core_serv.Model.RankedPopulationNode
use virtual_people_core_serv.Model.RankedPopulationNode.{
  RankedPopulationNode, RankedPopulationNodeImpl, UnrankedMode, unspecified, disjoint, full_pool,
  build_pools, ranked_id, unranked_id, select_id, find_rank, rank_assignments, announce,
}
use virtual_people_core_serv.Model.RankedPopulationNode.Ids.{
  IsValid, build-IsValid, Within, ranked_id-Within, unranked_id-disjoint, unranked_id-full_pool,
}
use virtual_people_core_serv.Model.RankedPopulationNode.Collisions.{apply-Gets}
use virtual_people_core_serv.Model.RankedPopulationNode.Passes.{apply-pass_one}
use virtual_people_core_serv.Model.Ids.Allows.{PopulationAllows, RankedAllows}
use virtual_people_core_serv.Model.Ids.{IdAllowed, Allowed, Keeps}

module _ (P : Platform) (Q : ℕ → Type 0) (exact : SqrtIsExact P.doubles)
    (rounds : RoundsMonotonically P.doubles) (fuel : ℕ) (enough : 2 ^ 32 ≤ fuel) where
  pub population-Keeps :
      (config : PopulationNode) (node : PopulationNodeImpl)
      → PopulationAllows Q config
      → PopulationNode.build config ≡ ok node
      → Keeps P Q (PopulationNode.apply P fuel node)
  unfolding PopulationNode.apply
  population-Keeps config node allows built event allowed =
      Returns-by_value (PopulationNode.apply P fuel node event) (λ labeled e.
        elim (Bool-cases event.pool_identity_mode) [
          | inl pass_one ↦
              subst (Allowed P Q)
                (ok-injective (
                  sym (
                    ap (λ b. if b then ok event else PopulationNode.label_event P fuel node event)
                      pass_one)
                  ∙ e))
                allowed
          | inr full ↦
              let (id, label, inside, activities) =
                apply-InSpace P rounds fuel config node event labeled built allows.small
                  (omega (arith, allows.small)) allows.fits full e in
              subst (All (λ a. IdAllowed P Q a.virtual_person_id)) (sym activities)
                (allows.allowed id inside, tt)
        ])

  -- A valid node gives ids of its pool.
  module _ (node : RankedPopulationNodeImpl) (valid : IsValid node) where
    InPool : ℕ → Type 0
    InPool id = (node.pool_offset ≤ id) × (id < node.pool_offset + node.pool_size)

    Within-InPool :
        (low high : ℕ) (r : Result ℕ) (id : ℕ)
        → Within low high r
        → r ≡ ok id
        → node.pool_offset ≤ low
        → high ≤ node.pool_offset + node.pool_size
        → InPool id
    unfolding InPool
    Within-InPool low high r id (v, e, ge, lt) e' h h' =
        let same : v ≡ id = ok-injective (sym e ∙ e') in (omega arith, omega arith)

    unranked_id-InPool :
        (mode : UnrankedMode) (seed id : ℕ) → unranked_id P fuel node mode seed ≡ ok id → InPool id
    unfolding unranked_id
    unranked_id-InPool unspecified seed id e = cc
    unranked_id-InPool disjoint seed id e =
        elim (Bool-cases (ltb node.ranked_size node.pool_size)) [
          | inl room ↦
              Within-InPool _ _ _ id
                (unranked_id-disjoint P rounds fuel enough node valid seed
                  (ltb→lt node.ranked_size node.pool_size room))
                e (omega arith) (omega arith)
          | inr full ↦
              let no_space : sub64 node.pool_size node.ranked_size ≡ 0 =
                sub64_exact node.pool_size node.ranked_size valid.ranked
                  (omega (arith, valid.small))
                ∙ omega (arith, valid.ranked, ltb_false→le node.ranked_size node.pool_size full) in
              cc (rw (no_space, unranked_id) at e)
        ]
    unranked_id-InPool full_pool seed id e =
        Within-InPool _ _ _ id (unranked_id-full_pool P rounds fuel enough node valid seed) e
          (omega arith) (omega arith)

    select_id-InPool :
        (event : LabelerEvent P) (rank : Option ℕ) (id : ℕ)
        → select_id P fuel node event rank ≡ ok id
        → InPool id
    unfolding select_id
    select_id-InPool event none id e = unranked_id-InPool node.unranked_mode _ id e
    select_id-InPool event (some rank) id e = elim (Bool-cases (ltb rank node.ranked_size)) [
      | inl ranked ↦
          Within-InPool _ _ _ id
            (ranked_id-Within P exact fuel enough node valid rank
              (ltb→lt rank node.ranked_size ranked))
            (rw (ranked, select_id) at e) (omega arith) (omega (arith, valid.ranked))
      | inr beyond ↦ unranked_id-InPool node.unranked_mode _ id (rw (beyond, select_id) at e)
    ]

  build_pools-single :
      (config : RankedPopulationNode) (pools : List VirtualPersonPool)
      (node : RankedPopulationNodeImpl)
      → build_pools config pools ≡ ok node
      → (pool : VirtualPersonPool) × (pools ≡ pool ∷ [])
        × (node.pool_offset ≡ pool.population_offset)
        × (node.pool_size ≡ pool.total_population)
  unfolding build_pools
  build_pools-single config [] node e = cc
  build_pools-single config (pool ∷ []) node e = (pool, refl, ground arith, ground arith)
  build_pools-single config (pool ∷ other ∷ rest) node e = cc

  pub ranked-Keeps :
      (config : RankedPopulationNode) (node : RankedPopulationNodeImpl)
      → RankedAllows Q config
      → RankedPopulationNode.build config ≡ ok node
      → Keeps P Q (RankedPopulationNode.apply P fuel node)
  unfolding RankedPopulationNode.build InPool announce
  ranked-Keeps config node allows built event allowed =
      let (pool, single, offset, size) = build_pools-single config config.pools node built in
      let fits =
        (subst (All (λ p. p.population_offset + p.total_population < 2 ^ 64)) single
          allows.fits).0 in
      let valid = build-IsValid config node built (omega (arith, fits, offset, size)) in
      Returns-by_value (RankedPopulationNode.apply P fuel node event) (λ labeled e.
        elim (Bool-cases event.pool_identity_mode) [
          | inl pass_one ↦
              subst (Allowed P Q)
                (ok-injective
                  (sym (apply-pass_one P exact fuel enough node valid event pass_one) ∙ e))
                allowed
          | inr full ↦
              let (id, label, gets, activities) =
                apply-Gets P exact fuel enough node valid event labeled full e in
              let (ge, lt) =
                select_id-InPool node valid event
                  (find_rank node.pool_offset (rank_assignments P event)) id gets in
              let inside : InSpace id config.pools =
                subst (InSpace id) (sym single)
                  (inl (omega (arith, ge, offset), omega (arith, lt, offset, size))) in
              subst (All (λ a. IdAllowed P Q a.virtual_person_id)) (sym activities)
                (allows.allowed id inside, tt)
        ])

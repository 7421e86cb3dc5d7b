-- ===== src/Model/RankedPopulationNode/Reports.antt =====
-- A node that is built labels every event or refuses it with a reported error.
use virtual_people_core_serv.Prelude.{
  ℕ, ◌-◌, ◌^◌, ◌≤◌, ◌<◌, not, List, [], ◌∷◌, Option, some, none, arith, guard, ltb, ltb→lt, ◌==◌,
  Returns, Returns-ok, Returns-err, Returns->>=, Returns-guard, Returns-if, AnyStatus,
  invalid_argument, pool_size_zero, pool_size_too_large, ranked_exceeds_pool, Reported,
  report_rules,
}
use virtual_people_core_serv.External.Doubles.{SqrtIsExact, RoundsMonotonically}
use virtual_people_core_serv.External.Events.{Platform, LabelerEvent}
use virtual_people_core_serv.Utils.ConsistentHash.Bounds.{jump_consistent_hash-to_int32}
use virtual_people_core_serv.Utils.Feistel.Bijection.{feistel_permute_total, half_square-le}
use virtual_people_core_serv.Utils.VirtualPersonSelector.{VirtualPersonPool}
use virtual_people_core_serv.Model.PopulationNode.Reports.{add_activity-IsReported}
use virtual_people_core_serv.Model.RankedPopulationNode.{
  UnrankedMode, unspecified, disjoint, full_pool, RankedPopulationNode, RankedPopulationNodeImpl,
  build_pool, build_pools, build, ranked_id, jump_id, unranked_id, select_id, label_event, apply,
}

-- The ranked part is a domain that the permutation takes.
abbrev pub IsPermutable : RankedPopulationNodeImpl → Type 0
IsPermutable node = node.ranked_size < 2 ^ 31

build_pools-IsPermutable :
    (config : RankedPopulationNode) (pools : List VirtualPersonPool)
    → Returns IsPermutable AnyStatus (build_pools config pools)
unfolding build_pools build_pool
build_pools-IsPermutable config [] = Returns-err _ tt
build_pools-IsPermutable config (pool ∷ []) =
    Returns->>= (guard (not (pool.total_population == 0)) (invalid_argument pool_size_zero)) _
      (Returns-guard AnyStatus _ _ tt)
      (λ _ _ filled.
        Returns->>=
          (guard (not (ltb (2 ^ 31 - 1) pool.total_population))
            (invalid_argument pool_size_too_large))
          _ (Returns-guard AnyStatus _ _ tt)
          (λ _ _ small.
            Returns->>=
              (guard (not (ltb pool.total_population config.ranked_size))
                (invalid_argument ranked_exceeds_pool))
              _ (Returns-guard AnyStatus _ _ tt) (λ _ _ ranked. Returns-ok _ (ground arith))))
build_pools-IsPermutable config (pool ∷ other ∷ rest) = Returns-err _ tt

pub build-IsPermutable :
    (config : RankedPopulationNode) → Returns IsPermutable AnyStatus (build config)
unfolding build
build-IsPermutable config = build_pools-IsPermutable config config.pools

module _ (P : Platform) (exact : SqrtIsExact P.doubles) (rounds : RoundsMonotonically P.doubles)
    (fuel : ℕ) (enough : 2 ^ 32 ≤ fuel) where
  jump_id-IsReported : (offset size seed : ℕ) → Reported (jump_id P fuel offset size seed)
  unfolding jump_id
  jump_id-IsReported offset size seed =
      let (bucket, e) = jump_consistent_hash-to_int32 P.doubles rounds fuel seed size enough in
      rw e (Returns-ok _ tt)

  module _ (node : RankedPopulationNodeImpl) (permutable : IsPermutable node) where
    ranked_id-IsReported :
        (rank : ℕ) → rank < node.ranked_size → Reported (ranked_id P fuel node rank)
    unfolding ranked_id
    ranked_id-IsReported rank h =
        let square =
          half_square-le P.hashing P.doubles exact node.ranked_size (omega arith) (omega arith) in
        let (y, found, _) =
          feistel_permute_total P.hashing P.doubles exact node.ranked_size (omega arith)
            node.random_seed fuel rank h (omega (arith, square)) in
        rw found (Returns-ok _ tt)

    unranked_id-IsReported :
        (mode : UnrankedMode) (seed : ℕ) → Reported (unranked_id P fuel node mode seed)
    unfolding unranked_id
    unranked_id-IsReported unspecified seed = Returns-err _ tt
    unranked_id-IsReported disjoint seed = search (report_rules, jump_id-IsReported)
    unranked_id-IsReported full_pool seed = jump_id-IsReported _ _ seed

    select_id-IsReported :
        (event : LabelerEvent P) (rank : Option ℕ) → Reported (select_id P fuel node event rank)
    unfolding select_id
    select_id-IsReported event none = unranked_id-IsReported node.unranked_mode _
    select_id-IsReported event (some rank) =
        Returns-if (ltb rank node.ranked_size) _ _
          (λ ranked. ranked_id-IsReported rank (ltb→lt rank node.ranked_size ranked))
          (λ beyond. unranked_id-IsReported node.unranked_mode _)

    label_event-IsReported : (event : LabelerEvent P) → Reported (label_event P fuel node event)
    unfolding label_event
    label_event-IsReported event =
        search (report_rules, select_id-IsReported, add_activity-IsReported)

    pub apply-IsReported : (event : LabelerEvent P) → Reported (apply P fuel node event)
    unfolding apply
    apply-IsReported event = search (report_rules, label_event-IsReported)

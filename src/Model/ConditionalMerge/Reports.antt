-- ===== src/Model/ConditionalMerge/Reports.antt =====
-- A conditional merge that is built updates every event or refuses it with a reported error.
use virtual_people_core_serv.Prelude.{
  sym, subst, inl, inr, not, length, ◌==◌, guard, Returns, Returns-ok, Returns-err, Returns->>=_any,
  Returns-if, Reports, AnyStatus, invalid_argument, no_nodes, Reported,
}
use virtual_people_core_serv.External.Events.{Platform}
use virtual_people_core_serv.External.Protobuf.{Protobuf}
use virtual_people_core_serv.Model.ConditionalMerge.{
  ConditionalMerge, ConditionalMergeImpl, build_nodes, build, update,
}
use virtual_people_core_serv.Model.ConditionalMerge.Update.{
  IsAligned, build_nodes-lengths, update-cases,
}

module _ (P : Platform) (B : Protobuf P) where
  update-IsReported : (m : ConditionalMergeImpl P B) → IsAligned P B m → Reports (update P B m)
  update-IsReported m aligned event = elim (update-cases P B m event aligned) [
    | inl (_, e) ↦
        subst Reported (sym e)
          (Returns-if m.pass_through_non_matches _ _ (λ _. Returns-ok _ tt) (λ _. Returns-err _ tt))
    | inr (_, _, _, _, e) ↦ subst Reported (sym e) (Returns-ok _ tt)
  ]

  pub build-Reports :
      (config : ConditionalMerge P B)
      → Returns (λ m. Reports (update P B m)) AnyStatus (build P B config)
  unfolding build
  build-Reports config =
      Returns->>=_any (guard (not (length config.nodes == 0)) (invalid_argument no_nodes)) _ (λ _ _.
        Returns->>=_any (build_nodes P B config.nodes) _ (λ parts built.
          Returns-ok _ (update-IsReported _ (build_nodes-lengths P B config.nodes parts built))))

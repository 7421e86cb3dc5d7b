-- ===== src/Model/ConditionalMerge.antt =====
-- conditional_merge_impl.cc.
pub mod Update
pub mod Reports
use virtual_people_core_serv.Prelude.{
  Bool, true, false, not, List, [], ◌∷◌, Option, none, some, Result, ok, err, ◌>>=◌, ◌>>◌, guard,
  invalid_argument, internal, no_nodes, no_condition, no_update, no_node_matching,
  index_out_of_range, or_error, length, ◌==◌, if◌then◌else◌, is_no_match, at_index,
}
use virtual_people_core_serv.External.Events.{Platform, LabelerEvent}
use virtual_people_core_serv.External.Protobuf.{Protobuf}
use virtual_people_core_serv.Utils.FieldFiltersMatcher.{get_first_match}

module _ (P : Platform) (B : Protobuf P) where
  pub record ConditionalMergeNode : Type 0 where
    pub condition : Option B.FieldFilterProto
    pub update : Option (LabelerEvent P)

  pub record ConditionalMerge : Type 0 where
    pub nodes : List ConditionalMergeNode
    pub pass_through_non_matches : Bool

  pub record ConditionalMergeImpl : Type 0 where
    pub matcher : List B.FieldFilter
    pub updates : List (LabelerEvent P)
    pub pass_through_non_matches : Bool

  -- The loop of Build: the filters and the updates of the nodes.
  unfoldable pub build_nodes :
      List ConditionalMergeNode → Result (List B.FieldFilter × List (LabelerEvent P))
  build_nodes [] = ok ([], [])
  build_nodes (node ∷ nodes) = do
    condition ← or_error node.condition (invalid_argument no_condition)
    update ← or_error node.update (invalid_argument no_update)
    filter ← B.new_filter condition
    rest ← build_nodes nodes
    ok (filter ∷ rest.0, update ∷ rest.1)

  unfoldable pub build : ConditionalMerge → Result ConditionalMergeImpl
  build config = do
    guard (not (length config.nodes == 0)) (invalid_argument no_nodes)
    parts ← build_nodes config.nodes
    ok (record {
      matcher = parts.0;
      updates = parts.1;
      pass_through_non_matches = config.pass_through_non_matches;
    })

  unfoldable pub update : ConditionalMergeImpl → LabelerEvent P → Result (LabelerEvent P)
  update m event =
      let index = get_first_match P B m.matcher event in
      if is_no_match index
      then (if m.pass_through_non_matches
          then ok event
          else err (invalid_argument no_node_matching))
      else elim (at_index m.updates index) [
        | none ↦ err (internal index_out_of_range)
        | some part ↦ ok (B.merge_event event part)
      ]

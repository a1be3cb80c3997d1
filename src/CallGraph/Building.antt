-- ===== src/CallGraph/Building.antt =====
-- The operations of checker/src/call_graph.rs that add nodes, edges and call sites, and those that find nodes.
use hepha.Prelude.{
  ℕ, suc, ◌%◌, Bool, not, ◌&&◌, ◌||◌, ◌==◌, ==_iff, Option, none, some, List, [], ◌∷◌,
  if◌then◌else◌,
}
use hepha.Prelude.Lists.{size}
use hepha.TreeMap.{assoc, put}
use hepha.Contract.Text.{contains_codes}
use hepha.CallGraph.Sets.{RawEdge, has_node}
use hepha.CallGraph.Nodes.{DefId, Text, CallGraphNode, new_croot, new_root, text_eq, text_eq_iff}
use hepha.CallGraph.Petgraph.{Petgraph}
use hepha.CallGraph.Graphs.{CallGraph, EdgeType, is_some}

unfoldable pub insert_node : ℕ → List ℕ → List ℕ
unfolding has_node
insert_node n s = if has_node n s then s else n ∷ s

-- The types of the edges that connect two nodes.
unfoldable pub existing_types : ℕ → ℕ → List RawEdge → List ℕ
unfolding insert_node
existing_types a b [] = []
existing_types a b (e ∷ es) =
    let rest = existing_types a b es in if e.0 == a && e.1 == b then insert_node e.2 rest else rest

-- The loops of `get_node_by_name` and `get_node_by_defid`, from index `i` on.
unfoldable pub find_node : (CallGraphNode → Bool) → ℕ → List CallGraphNode → Option ℕ
find_node test i [] = none
find_node test i (w ∷ ws) = if test w then some i else find_node test (suc i) ws

module _ (P : Petgraph) where
  unfoldable pub get_node_by_name : CallGraph P → Text → Option ℕ
  unfolding find_node
  get_node_by_name cg name = find_node (λ w. contains_codes w.name name) 0 (P.node_weights cg.graph)

  unfoldable pub get_node_by_defid : CallGraph P → DefId → Option ℕ
  unfolding find_node
  get_node_by_defid cg defid = find_node (λ w. w.defid == defid) 0 (P.node_weights cg.graph)

  unfoldable pub add_call_site : CallGraph P → ℕ → DefId → DefId → Bool → CallGraph P
  unfolding is_some insert_node
  add_call_site cg loc caller callee external_callee =
      if cg.config.include_calls_in_summaries
        || (is_some cg.config.call_sites_output_path && not (has_node caller cg.non_local_defs))
      then record cg {
        call_sites = put ◌==◌ ==_iff cg.call_sites loc (caller, callee);
        non_local_defs =
            if external_callee then insert_node callee cg.non_local_defs else cg.non_local_defs;
      }
      else cg

  unfoldable pub dominators : Option (List DefId) → List DefId
  dominators none = []
  dominators (some defids) = defids

  unfoldable pub add_dom : CallGraph P → DefId → DefId → CallGraph P
  unfolding insert_node dominators
  add_dom cg defid1 defid2 =
      let old = dominators (assoc ◌==◌ defid1 cg.dominance) in
      record cg { dominance = put ◌==◌ ==_iff cg.dominance defid1 (insert_node defid2 old) }

  -- The next id is the number of types, as a `u32`.
  unfoldable pub add_edge_type : CallGraph P → Text → CallGraph P × ℕ
  add_edge_type cg edge_type_str =
      let new_type_id = size cg.edge_types % 4294967296 in
      let edge_type : EdgeType = record { id = new_type_id; name = edge_type_str } in
      elim (assoc text_eq edge_type_str cg.edge_types) [
        | some old ↦ (cg, old.id)
        | none ↦ (
          record cg { edge_types = put text_eq text_eq_iff cg.edge_types edge_type_str edge_type },
          new_type_id,
        )
      ]

  module _ (format_name : DefId → Text) where
    -- A new node, and its entry in the map.
    unfoldable pub add_new : CallGraph P → CallGraphNode → CallGraph P × ℕ
    add_new cg node =
        let (graph, node_id) = P.add_node cg.graph node in
        (record cg { graph = graph; nodes = put ◌==◌ ==_iff cg.nodes node.defid node_id }, node_id)

    unfoldable pub add_croot : CallGraph P → DefId → CallGraph P
    unfolding add_new new_croot
    add_croot cg defid =
        let croot = new_croot format_name defid in
        elim (assoc ◌==◌ defid cg.nodes) [
          | some node_id ↦ record cg { graph = P.set_node_weight cg.graph node_id croot }
          | none ↦ (add_new cg croot).0
        ]

    unfoldable pub add_root : CallGraph P → DefId → CallGraph P
    unfolding add_new new_root
    add_root cg defid = elim (assoc ◌==◌ defid cg.nodes) [
      | some _ ↦ cg
      | none ↦ (add_new cg (new_root format_name defid)).0
    ]

    unfoldable pub get_or_insert_node : CallGraph P → DefId → CallGraph P × ℕ
    unfolding add_new new_root
    get_or_insert_node cg defid = elim (assoc ◌==◌ defid cg.nodes) [
      | some node_id ↦ (cg, node_id)
      | none ↦ add_new cg (new_root format_name defid)
    ]

    unfoldable pub add_edge : CallGraph P → DefId → DefId → Text → CallGraph P
    unfolding add_edge_type get_or_insert_node existing_types has_node
    add_edge cg caller_id callee_id edge_type_str =
        let (cg1, type_id) = add_edge_type cg edge_type_str in
        let (cg2, caller_node) = get_or_insert_node cg1 caller_id in
        let (cg3, callee_node) = get_or_insert_node cg2 callee_id in
        let types = existing_types caller_node callee_node (P.edge_references cg3.graph) in
        if has_node type_id types
        then cg3
        else record cg3 { graph = P.add_edge cg3.graph (caller_node, callee_node, type_id) }

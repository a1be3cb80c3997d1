-- ===== src/CallGraph/Tests.antt =====
-- Runs of the call graph on graphs that are lists.
use hepha.Prelude.{
  ℕ, ◌≡◌, ◌↔◌, refl, arith, true, false, ◌||◌, ◌==◌, Option, none, some, List, [], ◌∷◌,
  if◌then◌else◌,
}
use hepha.Prelude.Lists.{size}
use hepha.TreeMap.{assoc, put}
use hepha.Contract.Text.{codes, contains_codes}
use hepha.CallGraph.Sets.{HalfRawEdge, RawEdge, has_node, has_half, has_edge, raw_eq}
use hepha.CallGraph.Nodes.{DefId, Text, fold, clean, text_eq}
use hepha.CallGraph.Petgraph.{Reach}
use hepha.CallGraph.Graphs.{CallGraphConfig, CallGraph, EdgeType, new_graph}
use hepha.CallGraph.ListGraph.{list_graph}
use hepha.CallGraph.Building.{add_croot, add_edge, add_root, add_edge_type}
use hepha.CallGraph.Folding.{MidpointExcludedMap, reachable_raw_edges}
use hepha.CallGraph.Reaching.{Leads, reachable_raw_edges_exact}
use hepha.CallGraph.Reducing.{
  reduce_graph, fold_excluded, deduplicate_edges, filter_no_edges, has_in_edges, has_out_edges,
  reachable_from,
}
use hepha.CallGraph.EdgeTypes.{TypesAgree, add_edge_type_exact}
use hepha.CallGraph.Built.{
  IsValid, new_graph-IsValid, add_croot-IsValid, add_root-IsValid, add_edge_exact,
}
use hepha.CallGraph.Deduplicated.{connects, deduplicate_edges_exact}
use hepha.CallGraph.Cleaned.{filter_no_edges_exact}
use hepha.CallGraph.Sliced.{reachable_from_exact}
use hepha.CallGraph.Folded.{Result, fold_excluded_exact}

-- A crate root and a leaf of one crate, a function of another between them, and one that nobody calls.
abbrev format_name : DefId → Text
format_name d =
    if d == 10
    then codes "app::main"
    else if d == 11
    then codes "lib::mid"
    else if d == 12
    then codes "app::leaf"
    else codes "app::alone"

abbrev config : CallGraphConfig
config = record {
  call_sites_output_path = none;
  dot_output_path = none;
  reductions = [];
  included_crates = codes "app" ∷ [];
  datalog_config = none;
  include_calls_in_summaries = false;
}

-- One excluded node, from which edges lead to itself and to another.
abbrev one_excluded : MidpointExcludedMap
one_excluded = record {
  keys = 1 ∷ [];
  in_edges = λ _. [];
  out_edges = λ n. if n == 1 then (1, 0) ∷ (2, 1) ∷ [] else [];
}

abbrev empty : CallGraph list_graph
empty = new_graph list_graph config

abbrev rooted : CallGraph list_graph
rooted = add_croot list_graph format_name empty 10

abbrev called : CallGraph list_graph
called = add_edge list_graph format_name rooted 10 11 (codes "i32")

abbrev called_twice : CallGraph list_graph
called_twice = add_edge list_graph format_name called 11 12 (codes "u8")

abbrev built : CallGraph list_graph
built = add_root list_graph format_name called_twice 13

built_edges : list_graph.edge_references built.graph ≡ (0, 1, 0) ∷ (1, 2, 1) ∷ []
unfolding new_graph add_croot add_edge add_root list_graph put text_eq
built_edges = refl

built_size : size (list_graph.node_weights built.graph) ≡ 4
unfolding new_graph add_croot add_edge add_root list_graph put text_eq
built_size = refl

-- Folding joins the crate root to the leaf, and removing what has no edges leaves these two.
abbrev edges_of : Option (CallGraph list_graph) → List RawEdge
edges_of none = []
edges_of (some cg) = list_graph.edge_references cg.graph

reduced_edges : edges_of (reduce_graph list_graph built (fold ∷ clean ∷ [])) ≡ (0, 1, 0) ∷ []
unfolding reduce_graph new_graph add_croot add_edge add_root list_graph put text_eq contains_codes
    has_edge
reduced_edges = refl

-- The map of nodes stays as it was, where the nodes are numbered anew.
abbrev node_of : Option (CallGraph list_graph) → Option ℕ
node_of none = none
node_of (some cg) = assoc ◌==◌ 12 cg.nodes

stale_node : node_of (reduce_graph list_graph built (fold ∷ [])) ≡ some 2
unfolding reduce_graph new_graph add_croot add_edge add_root list_graph put text_eq contains_codes
    has_edge
stale_node = refl

empty-IsValid : IsValid list_graph empty
empty-IsValid = new_graph-IsValid list_graph config

rooted-IsValid : IsValid list_graph rooted
rooted-IsValid = add_croot-IsValid list_graph format_name empty 10 empty-IsValid

called-IsValid : IsValid list_graph called
called-IsValid = (add_edge_exact list_graph format_name rooted 10 11 (codes "i32") rooted-IsValid).0

called_twice-IsValid : IsValid list_graph called_twice
called_twice-IsValid =
    (add_edge_exact list_graph format_name called 11 12 (codes "u8") called-IsValid).0

built-IsValid : IsValid list_graph built
built-IsValid = add_root-IsValid list_graph format_name called_twice 13 called_twice-IsValid

add_edge_exact_example :
    let out = add_edge list_graph format_name rooted 10 11 (codes "i32") in
    (a : ℕ) × (b : ℕ) × (assoc ◌==◌ 10 out.nodes ≡ some a)
    × (assoc ◌==◌ 11 out.nodes ≡ some b)
    × ((e : RawEdge)
        → has_edge e (list_graph.edge_references out.graph) ≡ (
            has_edge e (list_graph.edge_references rooted.graph)
            || raw_eq e (a, b, (add_edge_type list_graph rooted (codes "i32")).1)))
add_edge_exact_example =
    (add_edge_exact list_graph format_name rooted 10 11 (codes "i32") rooted-IsValid).2

fold_excluded_exact_example :
    (out : CallGraph list_graph) × (fold_excluded list_graph built ≡ some out)
    × Result list_graph built out
fold_excluded_exact_example = fold_excluded_exact list_graph built built-IsValid.in_range

deduplicate_edges_exact_example :
    connects 0 1 (list_graph.edge_references (deduplicate_edges list_graph built).graph)
    ≡ connects 0 1 (list_graph.edge_references built.graph)
deduplicate_edges_exact_example =
    (deduplicate_edges_exact list_graph built built-IsValid.in_range).3 0 1

cleaned_size : size (list_graph.node_weights (filter_no_edges list_graph built).graph) ≡ 3
unfolding filter_no_edges new_graph add_croot add_edge add_root list_graph put text_eq
cleaned_size = refl

filter_no_edges_exact_example :
    (has_in_edges 2 (list_graph.edge_references (filter_no_edges list_graph built).graph)
      || has_out_edges 2 (list_graph.edge_references (filter_no_edges list_graph built).graph))
    ≡ true
filter_no_edges_exact_example =
    (filter_no_edges_exact list_graph built built-IsValid.in_range).3 2
      (rw cleaned_size (omega arith))

leaf_taken : has_node 2 (reachable_from list_graph built 0) ≡ true
unfolding reachable_from new_graph add_croot add_edge add_root list_graph put text_eq has_node
leaf_taken = refl

reachable_from_exact_example : Reach (list_graph.edge_references built.graph) 0 2
reachable_from_exact_example =
    (reachable_from_exact list_graph built 0 (rw built_size (omega arith))).0 2 leaf_taken

reachable_raw_edges_exact_example :
    (out : List HalfRawEdge) × (reachable_raw_edges one_excluded ((1, 0) ∷ []) ≡ some out)
    × ((e : HalfRawEdge) → (has_half e out ≡ true) ↔ Leads one_excluded ((1, 0) ∷ []) e)
reachable_raw_edges_exact_example = reachable_raw_edges_exact one_excluded ((1, 0) ∷ [])

no_types : TypesAgree empty.edge_types
unfolding new_graph
no_types = record { named = λ s t h. absurd cc; different = λ s r t u h k e. absurd cc }

add_edge_type_exact_example :
    (t : EdgeType) × (assoc text_eq
        (codes "i32")
        (add_edge_type list_graph empty (codes "i32")).0.edge_types
      ≡ some t)
    × (t.id ≡ (add_edge_type list_graph empty (codes "i32")).1)
unfolding new_graph
add_edge_type_exact_example =
    (add_edge_type_exact list_graph empty (codes "i32") no_types (omega arith)).1

-- ===== src/CallGraph/Graphs.antt =====
-- The call graph of checker/src/call_graph.rs and its configuration. A hash map is an association list with one
-- pair for each key, a hash set a list; a call site is named by a number that stands for its Span.
use hepha.Prelude.{ℕ, Bool, true, false, ◌||◌, Option, none, some, List, []}
use hepha.CallGraph.Nodes.{DefId, Text, CallGraphReduction}
use hepha.CallGraph.Petgraph.{Petgraph}

pub data DatalogBackend : Type 0 where
  differential_datalog : DatalogBackend
  souffle : DatalogBackend

pub record DatalogConfig : Type 0 where
  pub ddlog_output_path : Text
  pub type_map_output_path : Text
  pub type_relations_path : Option Text
  pub datalog_backend : DatalogBackend

pub record CallGraphConfig : Type 0 where
  pub call_sites_output_path : Option Text
  pub dot_output_path : Option Text
  pub reductions : List CallGraphReduction
  pub included_crates : List Text
  pub datalog_config : Option DatalogConfig
  pub include_calls_in_summaries : Bool

-- What `CallGraphConfig::new` makes.
unfoldable pub new_config :
    Option Text
    → Option Text
    → List CallGraphReduction
    → List Text
    → Option DatalogConfig
    → CallGraphConfig
new_config call_sites dot reductions included_crates datalog = record {
  call_sites_output_path = call_sites;
  dot_output_path = dot;
  reductions = reductions;
  included_crates = included_crates;
  datalog_config = datalog;
  include_calls_in_summaries = false;
}

pub record EdgeType : Type 0 where
  pub id : ℕ
  pub name : Text

pub record CallGraph (P : Petgraph) : Type 0 where
  pub config : CallGraphConfig
  pub non_local_defs : List DefId
  pub call_sites : List (ℕ × (DefId × DefId))
  pub graph : P.Graph
  pub nodes : List (DefId × ℕ)
  pub edge_types : List (Text × EdgeType)
  pub dominance : List (DefId × List DefId)

unfoldable pub is_some {ℓ} : {A : Type ℓ} → Option A → Bool
is_some none = false
is_some (some _) = true

module _ (P : Petgraph) where
  -- What `CallGraph::new` makes of a configuration that is read.
  unfoldable pub new_graph : CallGraphConfig → CallGraph P
  new_graph config = record {
    config = config;
    non_local_defs = [];
    call_sites = [];
    graph = P.new;
    nodes = [];
    edge_types = [];
    dominance = [];
  }

  unfoldable pub needs_edges : CallGraph P → Bool
  unfolding is_some
  needs_edges cg = is_some cg.config.dot_output_path || is_some cg.config.datalog_config

  unfoldable pub update : CallGraph P → P.Graph → CallGraph P
  update cg graph = record cg { graph = graph }

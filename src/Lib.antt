-- ===== src/Lib.antt =====
-- Verification of the core of Hepha, an abstract interpreter for Solana contracts (crate `hepha`,
-- checker/src, with the crate of annotations in annotations/src).
--
-- The checker visits the basic blocks of a function in an order in which predecessors come first,
-- computes an abstract state for each block, repeats the body of a loop until its states no longer
-- change, and at the end asks four detectors for contract errors. The states are made of abstract
-- values, whose numbers are approximated by intervals and whose tags by maps into sets of Booleans.
-- The parts, each a module of its own:
--
-- - `Interval` (checker/src/interval_domain.rs): a record of two bounds and one function for each
--   method, of the same name. `Interval.Bounds` has the methods on single bounds and on the ranges of
--   types. `Interval.Contains` says which integers an interval stands for.
-- - `ExpressionType` (checker/src/expression.rs): the types of places and their predicates.
-- - `BoolDomain` (checker/src/bool_domain.rs): sets of Booleans.
-- - `TagPropagation` (annotations/src/lib.rs): the operations and the sets of operations, as the bits
--   of a `u128`.
-- - `Tag`, `TagDomain` (checker/src/tag_domain.rs): tags with their propagation sets, and the maps
--   from tags to `BoolDomain`. The map of the crate `rpds` is the parameter `TreeMap`, a record of
--   operations and laws, that association lists fill.
-- - `FixedPoint` (checker/src/fixed_point_visitor.rs): the sort of the blocks, and in
--   `FixedPoint.Loop` the loop of `compute_fixed_point`.
-- - `Contract` (checker/src/contract_errors.rs): the states and verdicts of the detectors.
--   `Contract.Events` has what the block visitor (checker/src/block_visitor.rs) does to them, as a
--   step for each statement, assignment, use and call.
-- - `Constant` (checker/src/constant_domain.rs): constants and their transfer functions.
--   `Constant.Overflow` has the overflow tests, `Constant.Cast` the casts, `Constant.Equality` the
--   tests of equality, `Constant.Bits` the operations on bits and the constants of a type
--   (`max_value`, `min_value`, `modulo_constant` of checker/src/expression.rs).
-- - `Value` (checker/src/expression.rs, abstract_value.rs, path.rs): the data of expressions, abstract
--   values and paths, which refer to each other. `Value.Kinds`, `Value.InferType`, `Value.Locals` and
--   `Value.Tops` have the predicates and the types of expressions; `Value.Equality` the derived `==`,
--   as the equality of trees of numbers (`Value.Codes`); `Value.Operands` induction on values.
-- - `AbstractValues` (checker/src/abstract_value.rs): constants, tests, implications and the order;
--   `AbstractValues.Intervals`, `Tags`, `Uses` and `Widened` below it have `get_as_interval`,
--   `get_tags`, `uses` and `get_widened_subexpression`. `Evaluation` there says which integers an
--   expression may evaluate to, `Carries` which sets of tags it may carry, `Truth` what the truth values
--   of conditions are and `Sets` what the sets of concrete values are.
-- - `Paths` (checker/src/path.rs): constructors, selectors and roots of paths.
-- - `Environment` (checker/src/environment.rs): the values of paths, compared. The map of the crate
--   `rpds` is the parameter `TrieMap`, whose keys are equal up to what their `==` ignores.
-- - `CallGraph` (checker/src/call_graph.rs): `CallGraph.Graphs` and `Nodes` have the state, `Building` the
--   operations that add to it, `Reducing` the reductions and `Folding` the helpers of `fold_excluded`;
--   `Types` has the relations between types and `CallSites` the table of call sites.
--   The graphs of the crate `petgraph` are the parameter `CallGraph.Petgraph`, a record of operations
--   and laws, that two lists fill (`ListGraph`).
-- - `ExpectedErrors` (checker/src/expected_errors.rs): the messages that a test case expects, and how
--   they are matched with diagnostics.
-- - `Summaries` (checker/src/summaries.rs): the records and the comparison of summaries.
--
-- The fixed point loop compares environments with `Environment.subset`, which compares abstract values
-- with `AbstractValues.subset`; an abstract value computes its interval and its tags with `Interval` and
-- `TagDomain`.
--
-- `Machine` has the integers of the machine, and `Prelude` the shared notation and lemmas.
--
-- Bounds and fuel. `isize` and `usize` have 64 bits. Paths have at most 300 parts, the constant of
-- checker/src/k_limits.rs. Integers are unbounded, and where the code saturates or wraps this is
-- written out. The sort of n blocks has fuel n + 1, since each nested call
-- adds a block; the loop of a fixed point has fuel 11 for its ten rounds; the search through excluded
-- nodes has fuel for each half edge that it starts with or can find, since a node is queued only with a
-- new one. In each case the result is shown to be there.
--
-- Parameters. Predecessors and dominance of blocks are the compiler's. One round of a loop is an
-- argument of the loop, as are the parts of the visitor's state that the loop restores before a round
-- and that the early break reads and sets, and the clock. Iteration over a hash map is an argument where
-- the code depends on its order. The name that `format_name` of the call graph cuts out of the debug text of
-- a definition is an argument, and so are the tests `<` of paths and of source locations in summaries, of
-- which nothing is assumed, the lines of a test file and the diagnostics of the compiler.
--
-- Not modelled: the order and the intrinsics of constants and their cache (in
-- checker/src/constant_domain.rs); of abstract values the caches, so also the values that
-- `make_from` replaces because of their size, and the transfer functions, joins and refinement; of
-- paths the refinement and replacement; of environments the joins and weak updates; of summaries all
-- but their comparison; of the call graph the output in Datalog, dot and JSON; the encoding for the solver Z3, and the visitors
-- that read the data structures of the compiler.
-- Floating point arithmetic is a parameter of the constants. A known name in an expression is one that
-- `infer_type` accepts there; with another name the checker stops.
pub mod AbstractValues
pub mod BoolDomain
pub mod CallGraph
pub mod Constant
pub mod Contract
pub mod Environment
pub mod ExpectedErrors
pub mod ExpressionType
pub mod FixedPoint
pub mod Interval
pub mod Machine
pub mod Paths
pub mod Prelude
pub mod Summaries
pub mod Tag
pub mod TagDomain
pub mod TagPropagation
pub mod TreeMap
pub mod TrieMap
pub mod Value

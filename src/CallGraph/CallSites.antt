-- ===== src/CallGraph/CallSites.antt =====
-- The table of call sites that checker/src/call_graph.rs writes. A file of the compiler is named by a number;
-- what the compiler says of definitions and call sites is an argument.
use hepha.Prelude.{ℕ, ◌+◌, Bool, not, ◌==◌, ==_iff, Option, none, some, List, [], ◌∷◌, ◌++◌}
use hepha.Prelude.Lists.{size}
use hepha.TreeMap.{assoc, put}
use hepha.CallGraph.Sets.{has_node}
use hepha.CallGraph.Nodes.{DefId, Text}

pub record Callable : Type 0 where
  pub name : Text
  pub file_index : Option ℕ
  pub first_line : Option ℕ
  pub local : Bool

-- File index, line, column, caller index, callee index.
pub record Call : Type 0 where
  pub file : ℕ
  pub line : ℕ
  pub column : ℕ
  pub caller_index : ℕ
  pub callee_index : ℕ

-- What the compiler knows: the qualified name of a definition, the file and the first line of its span, the file,
-- line and column of a call site, and the text of a file name, if it has one.
pub record Compiler : Type 0 where
  pub def_id_as_qualified_name_str : DefId → Text
  pub def_lines : DefId → Option (ℕ × Option ℕ)
  pub site_lines : ℕ → Option (ℕ × ℕ × ℕ)
  pub file_name : ℕ → Option Text
  pub unknown : Text

pub record Tables : Type 0 where
  pub files : List Text
  pub file_map : List (ℕ × ℕ)
  pub callables : List Callable
  pub callable_index : List (DefId × ℕ)

unfoldable pub unwrap_or : Option Text → Text → Text
unwrap_or none default = default
unwrap_or (some t) default = t

unfoldable pub next_line : Option ℕ → Option ℕ
next_line none = none
next_line (some n) = some (n + 1)

module _ (compiler : Compiler) where
  unfoldable pub get_file_index : Tables → ℕ → Tables × ℕ
  unfolding unwrap_or
  get_file_index t fname = elim (assoc ◌==◌ fname t.file_map) [
    | some index ↦ (t, index)
    | none ↦
        let index = size t.files in
        let file_name = unwrap_or (compiler.file_name fname) compiler.unknown in
        (
          record t {
            file_map = put ◌==◌ ==_iff t.file_map fname index;
            files = t.files ++ file_name ∷ [];
          },
          index,
        )
  ]

  -- The file and the first line of a definition.
  unfoldable pub locate : Tables → Option (ℕ × Option ℕ) → Tables × (Option ℕ × Option ℕ)
  unfolding get_file_index next_line
  locate t none = (t, (none, none))
  locate t (some (fname, first)) =
      let (t', file_index) = get_file_index t fname in (t', (some file_index, next_line first))

  unfoldable pub get_callable_index : List DefId → Tables → DefId → Tables × ℕ
  unfolding locate has_node
  get_callable_index non_local_defs t callable =
      let index = size t.callable_index in
      elim (assoc ◌==◌ callable t.callable_index) [
        | some known ↦ (t, known)
        | none ↦
            let entered = record t {
              callable_index = put ◌==◌ ==_iff t.callable_index callable index;
            } in
            let (t', place) = locate entered (compiler.def_lines callable) in
            let made : Callable = record {
              name = compiler.def_id_as_qualified_name_str callable;
              file_index = place.0;
              first_line = place.1;
              local = not (has_node callable non_local_defs);
            } in
            (record t' { callables = t'.callables ++ made ∷ [] }, index)
      ]

  -- One call site: its location, its caller and its callee.
  unfoldable pub add_site :
      List DefId → Tables × List Call → ℕ × (DefId × DefId) → Tables × List Call
  unfolding get_file_index get_callable_index
  add_site non_local_defs (t, calls) (loc, (caller, callee)) = elim (compiler.site_lines loc) [
    | none ↦ (t, calls)
    | some (fname, line_index, start_col) ↦
        let (t1, file_index) = get_file_index t fname in
        let (t2, caller_index) = get_callable_index non_local_defs t1 caller in
        let (t3, callee_index) = get_callable_index non_local_defs t2 callee in
        let call : Call = record {
          file = file_index;
          line = line_index + 1;
          column = start_col + 1;
          caller_index = caller_index;
          callee_index = callee_index;
        } in
        (t3, calls ++ call ∷ [])
  ]

  -- The loop over the call sites in the order of their spans.
  unfoldable pub add_sites :
      List DefId → Tables × List Call → List (ℕ × (DefId × DefId)) → Tables × List Call
  unfolding add_site
  add_sites non_local_defs s [] = s
  add_sites non_local_defs s (site ∷ sites) =
      add_sites non_local_defs (add_site non_local_defs s site) sites

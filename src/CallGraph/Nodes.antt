-- ===== src/CallGraph/Nodes.antt =====
-- The nodes and the reductions of checker/src/call_graph.rs. A definition is named by a number that stands for
-- the DefId of the compiler, and the name that `format_name` cuts out of its debug text is an argument.
use hepha.Prelude.{
  ℕ, ◌≡◌, ◌↔◌, refl, arith, Bool, true, false, ◌&&◌, ◌||◌, ◌==◌, ltb, List, [], ◌∷◌, if◌then◌else◌,
}
use hepha.Contract.Text.{contains_codes}

abbrev pub DefId : Type 0
DefId = ℕ

-- The characters of a text.
abbrev pub Text : Type 0
Text = List ℕ

pub data CallGraphReduction : Type 0 where
  slice : Text → CallGraphReduction
  fold : CallGraphReduction
  deduplicate : CallGraphReduction
  clean : CallGraphReduction

pub data NodeType : Type 0 where
  root : NodeType
  croot : NodeType

pub record CallGraphNode : Type 0 where
  pub defid : DefId
  pub name : Text
  pub node_type : NodeType

module _ (format_name : DefId → Text) where
  unfoldable pub new_croot : DefId → CallGraphNode
  new_croot defid = record { defid = defid; name = format_name defid; node_type = croot }

  unfoldable pub new_root : DefId → CallGraphNode
  new_root defid = record { defid = defid; name = format_name defid; node_type = root }

-- The loop ends at the first crate whose name is in the node's.
unfoldable pub is_excluded : CallGraphNode → List Text → Bool
is_excluded node [] = true
is_excluded node (crate_name ∷ included_crates) =
    if contains_codes node.name crate_name then false else is_excluded node included_crates

unfoldable pub is_croot_type : NodeType → Bool
is_croot_type root = false
is_croot_type croot = true

unfoldable pub is_croot : CallGraphNode → Bool
unfolding is_croot_type
is_croot node = is_croot_type node.node_type

unfoldable pub text_eq : Text → Text → Bool
text_eq [] [] = true
text_eq [] (_ ∷ _) = false
text_eq (_ ∷ _) [] = false
text_eq (a ∷ s) (b ∷ t) = a == b && text_eq s t

pub text_eq_iff : (s t : Text) → (text_eq s t ≡ true) ↔ (s ≡ t)
unfolding text_eq
text_eq_iff [] [] = (λ _. refl, λ _. refl)
text_eq_iff [] (b ∷ t) = (λ h. cc, λ h. cc)
text_eq_iff (a ∷ s) [] = (λ h. cc, λ h. cc)
text_eq_iff (a ∷ s) (b ∷ t) = ground (arith, text_eq_iff s t)

-- The lexicographic order of texts.
unfoldable pub text_lt : Text → Text → Bool
text_lt [] [] = false
text_lt [] (_ ∷ _) = true
text_lt (_ ∷ _) [] = false
text_lt (a ∷ s) (b ∷ t) = ltb a b || (a == b && text_lt s t)

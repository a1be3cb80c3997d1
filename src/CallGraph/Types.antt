-- ===== src/CallGraph/Types.antt =====
-- The types of checker/src/call_graph.rs as texts: their simplification and the relations between them. The
-- input relations are those of the file that the source reads.
use hepha.Prelude.{
  ℕ, zero, suc, ◌+◌, ◌-◌, Bool, true, false, ◌&&◌, ◌||◌, ◌==◌, ==_iff, ltb, leb, Option, none, some,
  List, [], ◌∷◌, ◌++◌, map, if◌then◌else◌,
}
use hepha.Prelude.Lists.{size}
use hepha.TreeMap.{assoc, put}
use hepha.Contract.Text.{codes, contains_codes, is_prefix}
use hepha.CallGraph.Nodes.{Text, text_eq, text_eq_iff, text_lt}

pub data TypeRelationKind : Type 0 where
  eq : TypeRelationKind
  member : TypeRelationKind

pub record TypeRelation : Type 0 where
  pub kind : TypeRelationKind
  pub type1 : Text
  pub type2 : Text

unfoldable pub new_eq : Text → Text → TypeRelation
new_eq t1 t2 = record { kind = eq; type1 = t1; type2 = t2 }

unfoldable pub new_member : Text → Text → TypeRelation
new_member t1 t2 = record { kind = member; type1 = t1; type2 = t2 }

abbrev pub collection_types : List Text
collection_types =
    codes "std::slice::Iter"
    ∷ codes "std::iter::Enumerate"
    ∷ codes "std::iter::Map"
    ∷ codes "std::collections::HashSet"
    ∷ codes "std::collections::HashMap"
    ∷ codes "std::vec::Vec"
    ∷ []

pub data SimpleType : Type 0 where
  base : Text → SimpleType
  collection : Text → SimpleType

-- `str::replace` of a pattern by nothing; the first argument counts what is left of a match.
unfoldable pub remove_from : ℕ → Text → Text → Text
unfolding is_prefix
remove_from skip pattern [] = []
remove_from (suc skip) pattern (c ∷ s) = remove_from skip pattern s
remove_from zero pattern (c ∷ s) =
    let here = is_prefix pattern (c ∷ s) in
    let rest = remove_from (if here then size pattern - 1 else 0) pattern s in
    if here then rest else c ∷ rest

unfoldable pub remove : Text → Text → Text
unfolding remove_from
remove = remove_from 0

unfoldable pub has_text : Text → List Text → Bool
unfolding text_eq
has_text s [] = false
has_text s (t ∷ ts) = text_eq s t || has_text s ts

-- Some text of the list stands in `name`.
unfoldable pub contains_any : Text → List Text → Bool
unfolding contains_codes
contains_any name [] = false
contains_any name (t ∷ ts) = contains_codes name t || contains_any name ts

-- The characters that end a match of `[^<>,\s]+`; `\s` is white space.
abbrev pub is_separator : ℕ → Bool
is_separator c =
    c == b'<'
    || c == b'>'
    || c == b','
    || c == 32
    || (leb 9 c && leb c 13)
    || c == 133
    || c == 160
    || c == 5760
    || (leb 8192 c && leb c 8202)
    || c == 8232
    || c == 8233
    || c == 8239
    || c == 8287
    || c == 12288

-- The matches of that pattern, the longest from left to right; `word` is the match that is open.
abbrev pub close : Text → List Text → List Text
close [] ws = ws
close (c ∷ word) ws = (c ∷ word) ∷ ws

unfoldable pub captures : Text → Text → List Text
captures word [] = close word []
captures word (c ∷ s) =
    let rest = captures (if is_separator c then [] else word ++ c ∷ []) s in
    if is_separator c then close word rest else rest

-- The types that are no collections, in brackets.
unfoldable pub base_types : List Text → List Text
unfolding has_text
base_types [] = []
base_types (t ∷ ts) =
    let rest = base_types ts in
    if has_text t collection_types then rest else (codes "[" ++ (t ++ codes "]")) ∷ rest

unfoldable pub extract_iterator_type : Text → List Text
unfolding remove captures base_types
extract_iterator_type name =
    base_types (captures [] (remove (codes "&") (remove (codes "&mut ") name)))

unfoldable pub simplify_single_type : Text → SimpleType
unfolding remove contains_codes
simplify_single_type name =
    let base_type = remove (codes "&") (remove (codes "mut ") name) in
    if contains_codes base_type (codes "[") && contains_codes base_type (codes "]")
    then collection (remove (codes "]") (remove (codes "[") base_type))
    else base base_type

unfoldable pub simplify_type : Text → List SimpleType
unfolding contains_any extract_iterator_type simplify_single_type
simplify_type name =
    if contains_any name collection_types
    then map simplify_single_type (extract_iterator_type name)
    else simplify_single_type name ∷ []

-- The text that the map has for `t2` is `t1`.
unfoldable pub maps_to : List (Text × Text) → Text → Text → Bool
unfolding text_eq
maps_to eq_map t2 t1 = elim (assoc text_eq t2 eq_map) [ none ↦ false | some t ↦ text_eq t1 t ]

unfoldable pub simple_type_eq : Text → Text → List (Text × Text) → Bool
unfolding text_eq maps_to
simple_type_eq t1 t2 eq_map = text_eq t1 t2 || maps_to eq_map t2 t1 || maps_to eq_map t1 t2

-- The two texts in lexicographic order.
unfoldable pub ordered_eq : Text → Text → TypeRelation
unfolding text_lt new_eq
ordered_eq t1 t2 = if text_lt t1 t2 then new_eq t1 t2 else new_eq t2 t1

-- The relation that the body of the loops of `derive_all_relations` inserts, if any.
unfoldable pub relation_of :
    List (Text × Text) → Text → SimpleType → Text → SimpleType → Option TypeRelation
unfolding simple_type_eq new_member ordered_eq
relation_of eq_map t1 (collection b1) t2 (base b2) =
    if simple_type_eq b1 b2 eq_map then some (new_member t1 t2) else none
relation_of eq_map t1 (base b1) t2 (collection b2) =
    if simple_type_eq b1 b2 eq_map then some (new_member t2 t1) else none
relation_of eq_map t1 (collection b1) t2 (collection b2) =
    if simple_type_eq b1 b2 eq_map then some (ordered_eq t1 t2) else none
relation_of eq_map t1 (base b1) t2 (base b2) =
    if simple_type_eq b1 b2 eq_map then some (ordered_eq t1 t2) else none

abbrev pub kind_eq : TypeRelationKind → TypeRelationKind → Bool
kind_eq eq eq = true
kind_eq member member = true
kind_eq eq member = false
kind_eq member eq = false

abbrev pub relation_eq : TypeRelation → TypeRelation → Bool
relation_eq r q = kind_eq r.kind q.kind && text_eq r.type1 q.type1 && text_eq r.type2 q.type2

unfoldable pub has_relation : TypeRelation → List TypeRelation → Bool
unfolding text_eq
has_relation r [] = false
has_relation r (q ∷ qs) = relation_eq r q || has_relation r qs

unfoldable pub insert_relation : Option TypeRelation → List TypeRelation → List TypeRelation
unfolding has_relation
insert_relation none relations = relations
insert_relation (some r) relations = if has_relation r relations then relations else r ∷ relations

-- The inner loop, for one type.
unfoldable pub relate :
    List (Text × Text)
    → Text × SimpleType
    → List (Text × SimpleType)
    → List TypeRelation
    → List TypeRelation
unfolding relation_of insert_relation text_eq
relate eq_map p [] relations = relations
relate eq_map p (q ∷ qs) relations =
    let found = if text_eq p.0 q.0 then none else relation_of eq_map p.0 p.1 q.0 q.1 in
    relate eq_map p qs (insert_relation found relations)

-- The outer loop.
unfoldable pub relate_all :
    List (Text × Text)
    → List (Text × SimpleType)
    → List (Text × SimpleType)
    → List TypeRelation
    → List TypeRelation
unfolding relate
relate_all eq_map [] types relations = relations
relate_all eq_map (p ∷ ps) types relations =
    relate_all eq_map ps types (relate eq_map p types relations)

unfoldable pub simple_types : List (ℕ × Text) → List (Text × SimpleType)
unfolding simplify_type
simple_types [] = []
simple_types ((_, t) ∷ type_map) = map (λ s. (t, s)) (simplify_type t) ++ simple_types type_map

unfoldable pub derive_all_relations :
    List (ℕ × Text) → List (Text × Text) → List TypeRelation → List TypeRelation
unfolding simple_types relate_all
derive_all_relations type_map eq_map relations =
    let types = simple_types type_map in relate_all eq_map types types relations

unfoldable pub get_input_equivalences : List TypeRelation → List (Text × Text) → List (Text × Text)
unfolding put text_eq
get_input_equivalences [] eq_map = eq_map
get_input_equivalences (r ∷ rs) eq_map = elim r.kind [
  | eq ↦
      get_input_equivalences rs
        (put text_eq text_eq_iff (put text_eq text_eq_iff eq_map r.type1 r.type2) r.type2 r.type1)
  | member ↦ get_input_equivalences rs eq_map
]

pub record Gathered : Type 0 where
  pub type_map : List (ℕ × Text)
  pub max_id : ℕ
  pub type_relations : List TypeRelation

-- The index of a type text, and the greatest id.
unfoldable pub has_type : List (ℕ × Text) → Text → Bool
unfolding text_eq
has_type [] t = false
has_type ((_, s) ∷ type_map) t = text_eq s t || has_type type_map t

unfoldable pub greatest : List (ℕ × Text) → ℕ
greatest [] = 0
greatest ((n, _) ∷ type_map) = let rest = greatest type_map in if ltb rest n then n else rest

-- A type that the map before the loop does not have gets a new id; `max_id` is a `u32` that panics above its
-- range, which needs 2 ^ 32 types.
unfoldable pub add_type : List (ℕ × Text) → Text → Gathered → Gathered
unfolding has_type put
add_type known t g =
    if has_type known t
    then g
    else record g { max_id = g.max_id + 1; type_map = put ◌==◌ ==_iff g.type_map (g.max_id + 1) t }

unfoldable pub to_insert : TypeRelation → TypeRelation
unfolding ordered_eq
to_insert r = elim r.kind [ eq ↦ ordered_eq r.type1 r.type2 | member ↦ r ]

unfoldable pub gather_input : List (ℕ × Text) → List TypeRelation → Gathered → Gathered
unfolding add_type to_insert insert_relation
gather_input known [] g = g
gather_input known (r ∷ rs) g =
    let inserted = record g {
      type_relations = insert_relation (some (to_insert r)) g.type_relations;
    } in
    gather_input known rs (add_type known r.type2 (add_type known r.type1 inserted))

-- The relations, and the map of types with those of the input.
unfoldable pub gather_type_relations :
    List (ℕ × Text) → List TypeRelation → List TypeRelation × List (ℕ × Text)
unfolding greatest gather_input get_input_equivalences derive_all_relations
gather_type_relations type_map input =
    let start : Gathered = record {
      type_map = type_map;
      max_id = greatest type_map;
      type_relations = [];
    } in
    let g = gather_input type_map input start in
    (
      derive_all_relations g.type_map (get_input_equivalences g.type_relations []) g.type_relations,
      g.type_map,
    )

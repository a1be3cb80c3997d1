-- ===== src/CallGraph/TypeTests.antt =====
-- Runs of the relations between types and of the table of call sites.
use hepha.Prelude.{ℕ, ◌≡◌, ◌⊎◌, refl, true, ◌==◌, some, List, [], ◌∷◌, if◌then◌else◌}
use hepha.Contract.Text.{codes}
use hepha.CallGraph.Nodes.{DefId, Text, text_lt}
use hepha.CallGraph.Types.{
  TypeRelation, eq, member, collection, simplify_type, has_relation, derive_all_relations,
  gather_type_relations,
}
use hepha.CallGraph.Derived.{HasMember, AreEqual, derive_all_relations_iff}
use hepha.CallGraph.Relations.{derived-Ordered}
use hepha.CallGraph.CallSites.{Compiler, add_sites}
use hepha.CallGraph.Indexed.{IsValid}
use hepha.CallGraph.Ranged.{AllIn, no_tables, calls_in_range}

simplify_iterator : simplify_type (codes "std::slice::Iter<&mut T>") ≡ collection (codes "T") ∷ []
unfolding simplify_type
simplify_iterator = refl

abbrev two_types : List (ℕ × Text)
two_types = (0, codes "u8") ∷ (1, codes "&u8") ∷ []

abbrev reference : TypeRelation
reference = record { kind = eq; type1 = codes "&u8"; type2 = codes "u8" }

reference_derived : has_relation reference (derive_all_relations two_types [] []) ≡ true
unfolding derive_all_relations has_relation
reference_derived = refl

derive_all_relations_iff_example :
    (has_relation reference [] ≡ true)
    ⊎ (HasMember two_types [] reference ⊎ AreEqual two_types [] reference)
derive_all_relations_iff_example =
    (derive_all_relations_iff two_types [] [] reference).0 reference_derived

none_before :
    (q : TypeRelation) → has_relation q [] ≡ true → q.kind ≡ eq → text_lt q.type1 q.type2 ≡ true
unfolding has_relation
none_before q h k = absurd cc

derived-Ordered_example : text_lt (codes "&u8") (codes "u8") ≡ true
derived-Ordered_example =
    derived-Ordered two_types [] [] none_before reference reference_derived refl

-- A type that two input relations name gets two ids, and the first id is 1.
abbrev named_twice : List TypeRelation
named_twice =
    record { kind = member; type1 = codes "A"; type2 = codes "B" }
    ∷ record { kind = member; type1 = codes "A"; type2 = codes "C" }
    ∷ []

two_ids :
    (gather_type_relations [] named_twice).1
    ≡ (1, codes "A") ∷ (2, codes "B") ∷ (3, codes "A") ∷ (4, codes "C") ∷ []
unfolding gather_type_relations
two_ids = refl

abbrev compiler : Compiler
compiler = record {
  def_id_as_qualified_name_str = λ d. if d == 10 then codes "main" else codes "leaf";
  def_lines = λ d. some (0, some d);
  site_lines = λ s. some (0, s, 4);
  file_name = λ _. some (codes "lib.rs");
  unknown = codes "unknown";
}

abbrev sites : List (ℕ × (DefId × DefId))
sites = (7, (10, 11)) ∷ (8, (11, 10)) ∷ []

calls_in_range_example :
    IsValid compiler (add_sites compiler [] (no_tables compiler [], []) sites).0
    × AllIn compiler []
        (add_sites compiler [] (no_tables compiler [], []) sites).0
        (add_sites compiler [] (no_tables compiler [], []) sites).1
calls_in_range_example = calls_in_range compiler [] sites

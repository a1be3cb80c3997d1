-- ===== src/CallGraph/Indexed.antt =====
-- The indices in the table of call sites of checker/src/call_graph.rs.
use hepha.Prelude.{
  ℕ, ◌<◌, ◌≤◌, ◌≡◌, inl, inr, refl, ap, ◌∙◌, arith, not, ◌==◌, ==_iff, Option, none, some,
  Option-cases, List, [], ◌∷◌, ◌++◌, Bool-cases,
}
use hepha.Prelude.Lists.{
  size, get_elem?, size-append, get_elem?-append_left, get_elem?-append_last, lt-size_of_get_elem?,
}
use hepha.TreeMap.{assoc, put, assoc-put, size-put}
use hepha.CallGraph.Sets.{has_node}
use hepha.CallGraph.Nodes.{DefId}
use hepha.CallGraph.CallSites.{
  Callable, Compiler, Tables, get_file_index, locate, get_callable_index,
}

get_elem?-append_end :
    {A : Type 0} (xs : List A) (v : A) (n : ℕ) → n ≡ size xs → get_elem? (xs ++ v ∷ []) n ≡ some v
get_elem?-append_end xs v n h = rw h (get_elem?-append_last xs v)

module _ (compiler : Compiler) where
  -- A file index that is known is in range.
  abbrev pub FilesKnown : Tables → Type 0
  FilesKnown t = (f i : ℕ) → assoc ◌==◌ f t.file_map ≡ some i → i < size t.files

  -- A callable stands under its qualified name at its index, and the next index is that of the next callable.
  abbrev pub CallablesKnown : Tables → Type 0
  CallablesKnown t =
      (d i : ℕ)
      → assoc ◌==◌ d t.callable_index ≡ some i
      → (c : Callable) × (get_elem? t.callables i ≡ some c)
        × (c.name ≡ compiler.def_id_as_qualified_name_str d)

  pub record IsValid (t : Tables) : Type 0 where
    pub files : FilesKnown t
    pub callables : CallablesKnown t
    pub sized : size t.callable_index ≡ size t.callables

  pub record FileStep (t out : Tables) : Type 0 where
    pub known : FilesKnown out
    pub more : size t.files ≤ size out.files
    pub same_callables : out.callables ≡ t.callables
    pub same_index : out.callable_index ≡ t.callable_index

  pub get_file_index_lem :
      (t : Tables) (f : ℕ)
      → FilesKnown t
      → FileStep t (get_file_index compiler t f).0
        × ((get_file_index compiler t f).1 < size (get_file_index compiler t f).0.files)
  unfolding get_file_index
  get_file_index_lem t f k = elim (Option-cases (assoc ◌==◌ f t.file_map)) [
    | inr (i, e) ↦
        rw (e, get_file_index)
          (
            record { known = k; more = omega arith; same_callables = refl; same_index = refl },
            k f i e,
          )
    | inl e ↦
        rw (e, get_file_index)
          (
            record {
              known = λ g i h. elim (Bool-cases (f == g)) [
                | inl same ↦
                    let eq : some (size t.files) ≡ some i =
                      rw (assoc-put ◌==◌ ==_iff t.file_map f (size t.files) g, same) at h in
                    let last : size t.files ≡ i = ground (arith, eq) in
                    omega (arith, last, size-append t.files)
                | inr other ↦
                    let old =
                      k g i
                        (rw (assoc-put ◌==◌ ==_iff t.file_map f (size t.files) g, other) at h) in
                    omega (arith, old, size-append t.files)
              ];
              more = omega (arith, size-append t.files);
              same_callables = refl;
              same_index = refl;
            },
            omega (arith, size-append t.files),
          )
  ]

  locate_lem :
      (t : Tables) (place : Option (ℕ × Option ℕ))
      → FilesKnown t
      → FileStep t (locate compiler t place).0
  unfolding locate
  locate_lem t none k = record {
    known = k;
    more = omega arith;
    same_callables = refl;
    same_index = refl;
  }
  locate_lem t (some (f, line)) k = (get_file_index_lem t f k).0

  -- What later steps do not change of the tables.
  pub record Grows (t out : Tables) : Type 0 where
    pub more_files : size t.files ≤ size out.files
    pub kept :
        (i : ℕ) (c : Callable)
        → get_elem? t.callables i ≡ some c
        → get_elem? out.callables i ≡ some c

  module _ (non_local_defs : List DefId) where
    -- If the tables are valid, then so are those that are left; the index that is returned is that of a
    -- callable with the qualified name of the definition; no file is lost, and every callable that was there
    -- keeps its index.
    pub get_callable_index_exact :
        (t : Tables) (d : DefId)
        → IsValid t
        → let (out, i) = get_callable_index compiler non_local_defs t d in
          IsValid out
          × ((c : Callable) × (get_elem? out.callables i ≡ some c)
              × (c.name ≡ compiler.def_id_as_qualified_name_str d))
          × Grows t out
    unfolding get_callable_index
    get_callable_index_exact t d v = elim (Option-cases (assoc ◌==◌ d t.callable_index)) [
      | inr (i, e) ↦
          rw (e, get_callable_index)
            (v, v.callables d i e, record { more_files = omega arith; kept = λ j c h. h })
      | inl e ↦
          let index = size t.callable_index in
          let entered = record t { callable_index = put ◌==◌ ==_iff t.callable_index d index } in
          let step = locate_lem entered (compiler.def_lines d) v.files in
          let located = locate compiler entered (compiler.def_lines d) in
          let made : Callable = record {
            name = compiler.def_id_as_qualified_name_str d;
            file_index = located.1.0;
            first_line = located.1.1;
            local = not (has_node d non_local_defs);
          } in
          let at_end : get_elem? (t.callables ++ made ∷ []) index ≡ some made =
            get_elem?-append_end t.callables made index v.sized in
          rw (e, get_callable_index)
            (
              record {
                files = step.known;
                callables = λ f i h. rw step.same_callables (elim (Bool-cases (d == f)) [
                  | inl same ↦
                      let eq : some index ≡ some i =
                        rw (step.same_index, assoc-put ◌==◌ ==_iff t.callable_index d index f, same)
                          at h in
                      let last : index ≡ i = ground (arith, eq) in
                      let named : d ≡ f = (==_iff d f).0 same in
                      (made, rw (← last) at_end, ap compiler.def_id_as_qualified_name_str named)
                  | inr other ↦
                      let (c, g, n) = v.callables f i (
                        rw
                          (step.same_index, assoc-put ◌==◌ ==_iff t.callable_index d index f, other)
                          at h) in
                      (
                        c,
                        get_elem?-append_left t.callables (made ∷ []) i
                              (lt-size_of_get_elem? t.callables i c g)
                            ∙ g,
                        n,
                      )
                ]);
                sized =
                    rw (step.same_index, step.same_callables)
                      (omega (
                        arith,
                        size-put ◌==◌ ==_iff t.callable_index d index e,
                        size-append t.callables (made ∷ []),
                        v.sized,
                      ));
              },
              (made, rw step.same_callables at_end, refl),
              record {
                more_files = step.more;
                kept = λ i c g. rw step.same_callables (
                    get_elem?-append_left t.callables (made ∷ []) i
                      (lt-size_of_get_elem? t.callables i c g)
                    ∙ g);
              },
            )
    ]

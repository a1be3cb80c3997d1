-- ===== src/CallGraph/Ranged.antt =====
-- The calls in the table of call sites of checker/src/call_graph.rs.
use hepha.Prelude.{
  ℕ, suc, ◌<◌, ◌≤◌, ◌≡◌, inl, inr, refl, ap, arith, some, Option-cases, List, [], ◌∷◌, ◌++◌,
}
use hepha.Prelude.Lists.{size, get_elem?, lt-size_of_get_elem?}
use hepha.CallGraph.Nodes.{DefId}
use hepha.CallGraph.CallSites.{
  Callable, Call, Compiler, Tables, get_file_index, get_callable_index, add_site, add_sites,
}
use hepha.CallGraph.Indexed.{IsValid, FileStep, Grows, get_file_index_lem, get_callable_index_exact}

module _ (compiler : Compiler) (non_local_defs : List DefId) where
  -- The file, the caller and the callee of a call are in the tables.
  abbrev pub InTables : Tables → Call → Type 0
  InTables t c =
      (c.file < size t.files)
      × (c.caller_index < size t.callables)
      × (c.callee_index < size t.callables)

  abbrev pub AllIn : Tables → List Call → Type 0
  AllIn t [] = Unit {0}
  AllIn t (c ∷ cs) = InTables t c × AllIn t cs

  -- At least as many files and callables.
  abbrev Above : Tables → Tables → Type 0
  Above t out = (size t.files ≤ size out.files) × (size t.callables ≤ size out.callables)

  AllIn-mono : (t out : Tables) (cs : List Call) → Above t out → AllIn t cs → AllIn out cs
  AllIn-mono t out [] a h = tt
  AllIn-mono t out (c ∷ cs) a (i, h) = (omega (arith, a, i), AllIn-mono t out cs a h)

  AllIn-append :
      (t : Tables) (cs : List Call) (c : Call) → AllIn t cs → InTables t c → AllIn t (cs ++ c ∷ [])
  AllIn-append t [] c h i = (i, tt)
  AllIn-append t (x ∷ cs) c h i = (h.0, AllIn-append t cs c h.1 i)

  FileStep-IsValid :
      {t out : Tables} → FileStep compiler t out → IsValid compiler t → IsValid compiler out
  FileStep-IsValid s v = record {
    files = s.known;
    callables = rw (s.same_callables, s.same_index) v.callables;
    sized = rw (s.same_callables, s.same_index) v.sized;
  }

  callables_grow : (t out : Tables) → Grows compiler t out → size t.callables ≤ size out.callables
  callables_grow t out g = below t.callables out.callables g.kept
    where
      below :
          (xs ys : List Callable)
          → ((i : ℕ) (c : Callable) → get_elem? xs i ≡ some c → get_elem? ys i ≡ some c)
          → size xs ≤ size ys
      below [] ys h = omega arith
      below (x ∷ xs) [] h = absurd (ground (arith, h 0 x refl))
      below (x ∷ xs) (y ∷ ys) h = omega (arith, below xs ys (λ i c k. h (suc i) c k))

  add_site-AllIn :
      (t : Tables) (calls : List Call) (loc caller callee : ℕ)
      → IsValid compiler t
      → AllIn t calls
      → let (out, after) = add_site compiler non_local_defs (t, calls) (loc, (caller, callee)) in
        IsValid compiler out × AllIn out after
  unfolding add_site
  add_site-AllIn t calls loc caller callee v h = elim (Option-cases (compiler.site_lines loc)) [
    | inl e ↦ rw (e, add_site) (v, h)
    | inr ((f, l, k), e) ↦
        let (s1, lt) = get_file_index_lem compiler t f v.files in
        let t1 = (get_file_index compiler t f).0 in
        let (v2, (c2, g2, _), grow2) =
          get_callable_index_exact compiler non_local_defs t1 caller (FileStep-IsValid s1 v) in
        let t2 = (get_callable_index compiler non_local_defs t1 caller).0 in
        let (v3, (c3, g3, _), grow3) =
          get_callable_index_exact compiler non_local_defs t2 callee v2 in
        let (t3, callee_index) = get_callable_index compiler non_local_defs t2 callee in
        let caller_index = (get_callable_index compiler non_local_defs t1 caller).1 in
        let up1 = callables_grow t1 t2 grow2 in
        let up2 = callables_grow t2 t3 grow3 in
        let same : size t1.callables ≡ size t.callables = ap size s1.same_callables in
        rw (e, add_site)
          (
            v3,
            AllIn-append t3 calls _
                (AllIn-mono t t3 calls
                  (
                    omega (arith, s1.more, grow2.more_files, grow3.more_files),
                    omega (arith, same, up1, up2),
                  )
                  h)
                (
                  omega (arith, lt, grow2.more_files, grow3.more_files),
                  lt-size_of_get_elem? t3.callables caller_index c2 (grow3.kept caller_index c2 g2),
                  lt-size_of_get_elem? t3.callables callee_index c3 g3,
                ),
          )
  ]

  add_sites-AllIn :
      (t : Tables) (calls : List Call) (sites : List (ℕ × (DefId × DefId)))
      → IsValid compiler t
      → AllIn t calls
      → let (out, after) = add_sites compiler non_local_defs (t, calls) sites in
        IsValid compiler out × AllIn out after
  unfolding add_sites
  add_sites-AllIn t calls [] v h = (v, h)
  add_sites-AllIn t calls ((loc, (caller, callee)) ∷ sites) v h =
      let (out, after) = add_site compiler non_local_defs (t, calls) (loc, (caller, callee)) in
      let (v', h') = add_site-AllIn t calls loc caller callee v h in
      add_sites-AllIn out after sites v' h'

  abbrev pub no_tables : Tables
  no_tables = record { files = []; file_map = []; callables = []; callable_index = [] }

  -- Whatever the call sites, in the table that is made of them the file, the caller and the callee of every call
  -- are indices of entries, and every definition that is entered stands under its qualified name at its index.
  pub calls_in_range :
      (sites : List (ℕ × (DefId × DefId)))
      → let (out, calls) = add_sites compiler non_local_defs (no_tables, []) sites in
        IsValid compiler out × AllIn out calls
  calls_in_range sites =
      add_sites-AllIn no_tables [] sites
        (record { files = λ f i h. absurd cc; callables = λ d i h. absurd cc; sized = refl }) tt

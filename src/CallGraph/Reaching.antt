-- ===== src/CallGraph/Reaching.antt =====
-- The search through the excluded nodes of checker/src/call_graph.rs: it ends, and finds what can be reached.
use mathlib.Core.Path.{subst}
use hepha.Prelude.{
  ℕ, zero, suc, ◌+◌, ◌≤◌, ◌≡◌, ◌↔◌, ◌⊎◌, inl, inr, refl, arith, true, false, ◌||◌, ◌==◌, ==_iff,
  some, List, [], ◌∷◌, ◌++◌, map, Bool-cases, or_cases, if◌then◌else◌,
}
use hepha.CallGraph.Sets.{
  HalfRawEdge, has_node, has_half, half_eq, half_eq_lem, half_eq_refl, has_half-append,
}
use hepha.CallGraph.Folding.{
  MidpointExcludedMap, contains_key, child_edges, Search, add_child, add_children, search_loop,
  all_children, length, enough, reachable_raw_edges,
}

pub has_node-append :
    (n : ℕ) (ms ns : List ℕ) → has_node n (ms ++ ns) ≡ (has_node n ms || has_node n ns)
unfolding has_node
has_node-append n [] ns = refl
has_node-append n (m ∷ ms) ns = ground (arith, has_node-append n ms ns)

has_node_eq : (n m : ℕ) (ns : List ℕ) → (n == m) ≡ true → has_node n ns ≡ has_node m ns
has_node_eq n m ns e = rw ((==_iff n m).0 e) refl

module _ (excluded : MidpointExcludedMap) (initial_set : List HalfRawEdge) where
  -- What a walk from the initial half edges through excluded nodes can end with.
  pub data Leads : HalfRawEdge → Type 0 where
    start : {e : HalfRawEdge} → has_half e initial_set ≡ true → Leads e
    through : {d e : HalfRawEdge} → Leads d → has_half e (child_edges excluded d.0) ≡ true → Leads e

  -- The loop over the child edges of `n`, with `todo` still to visit.
  record Visiting (n : ℕ) (todo : List HalfRawEdge) (s : Search) : Type 0 where
    sound : (e : HalfRawEdge) → has_half e s.reachable ≡ true → Leads e
    ahead : (e : HalfRawEdge) → has_half e todo ≡ true → Leads e
    begun : (e : HalfRawEdge) → has_half e initial_set ≡ true → has_half e s.reachable ≡ true
    waiting : (m : ℕ) → has_node m s.queue ≡ true → (t : ℕ) × (has_half (m, t) s.reachable ≡ true)
    closed :
        (d e : HalfRawEdge)
        → has_half d s.reachable ≡ true
        → has_half e (child_edges excluded d.0) ≡ true
        → (has_node d.0 s.queue ≡ true)
          ⊎ (has_half e s.reachable ≡ true)
          ⊎ (d.0 ≡ n) × (has_half e todo ≡ true)

  childless :
      (e d : HalfRawEdge)
      → contains_key d.0 excluded ≡ false
      → has_half e (child_edges excluded d.0) ≡ false
  unfolding child_edges has_half
  childless e d h = rw h refl

  visit_old :
      {n : ℕ} {e : HalfRawEdge} {todo : List HalfRawEdge} {s : Search}
      → has_half e s.reachable ≡ true
      → Visiting n (e ∷ todo) s
      → Visiting n todo s
  unfolding has_half
  visit_old {n} {e} {todo} {s} old v = record {
    sound = v.sound;
    ahead = λ f h. v.ahead f (ground (arith, h));
    begun = v.begun;
    waiting = v.waiting;
    closed = λ d f r c. elim (v.closed d f r c) [
      | inl q ↦ inl q
      | inr (inl h) ↦ inr (inl h)
      | inr (inr (same, h)) ↦
          or_cases (half_eq f e) (has_half f todo) h (λ k. inr (inl (rw (half_eq_lem f e k) old)))
            (λ k. inr (inr (same, k)))
    ];
  }

  visit_new :
      {n : ℕ} {e : HalfRawEdge} {todo : List HalfRawEdge} {s : Search} (queue : List ℕ)
      → ((m : ℕ) → has_node m s.queue ≡ true → has_node m queue ≡ true)
      → ((m : ℕ) → has_node m queue ≡ true → (has_node m s.queue ≡ true) ⊎ (m ≡ e.0))
      → (has_node e.0 queue ≡ true) ⊎ (contains_key e.0 excluded ≡ false)
      → Visiting n (e ∷ todo) s
      → Visiting n todo (record { reachable = e ∷ s.reachable; queue = queue })
  unfolding has_half
  visit_new {n} {e} {todo} {s} queue grows only pushed v = record {
    sound = λ f h.
        or_cases (half_eq f e) (has_half f s.reachable) h (λ k. rw (half_eq_lem f e k) first)
          (v.sound f);
    ahead = λ f h. v.ahead f (ground (arith, h));
    begun = λ f h. ground (arith, v.begun f h);
    waiting = λ m h. elim (only m h) [
      | inl old ↦ let (t, r) = v.waiting m old in (t, ground (arith, r))
      | inr same ↦ (e.1, rw same (ground (arith, half_eq_refl e)))
    ];
    closed = λ d f r c.
        or_cases (half_eq d e) (has_half d s.reachable) r
          (λ k. elim pushed [
            | inl q ↦ inl (rw (half_eq_lem d e k) q)
            | inr out ↦ absurd (ground (arith, childless f d (rw (half_eq_lem d e k) out), c))
          ])
          (λ k. elim (v.closed d f k c) [
            | inl q ↦ inl (grows d.0 q)
            | inr (inl h) ↦ inr (inl (ground (arith, h)))
            | inr (inr (same, h)) ↦
                or_cases (half_eq f e) (has_half f todo) h (λ j. inr (inl (ground (arith, j))))
                  (λ j. inr (inr (same, j)))
          ]);
  }
    where
      first : Leads e
      first = v.ahead e (ground (arith, half_eq_refl e))

  visit :
      {n : ℕ} {e : HalfRawEdge} {todo : List HalfRawEdge} {s : Search}
      → Visiting n (e ∷ todo) s
      → Visiting n todo (add_child excluded s e)
  unfolding add_child has_node
  visit {n} {e} {todo} {s} v = elim (Bool-cases (has_half e s.reachable)) [
    | inl old ↦ rw old (visit_old old v)
    | inr new ↦ rw new (elim (Bool-cases (contains_key e.0 excluded)) [
      | inl key ↦ rw key (
          visit_new (s.queue ++ e.0 ∷ [])
            (λ m h. ground (arith, has_node-append m s.queue (e.0 ∷ [])))
            (λ m h. ground (arith, has_node-append m s.queue (e.0 ∷ []), ==_iff m e.0))
            (inl (ground (arith, has_node-append e.0 s.queue (e.0 ∷ []), ==_iff e.0 e.0))) v)
      | inr out ↦ rw out (visit_new s.queue (λ m h. h) (λ m h. inl h) (inr out) v)
    ])
  ]

  visit_all :
      {n : ℕ} (todo : List HalfRawEdge) {s : Search}
      → Visiting n todo s
      → Visiting n [] (add_children excluded s todo)
  unfolding add_children
  visit_all [] v = v
  visit_all (e ∷ todo) v = visit_all todo (visit v)

  -- A node leaves the queue, and its child edges are to visit.
  pop :
      {k n : ℕ} {reachable : List HalfRawEdge} {queue : List ℕ}
      → Visiting k [] (record { reachable = reachable; queue = n ∷ queue })
      → Visiting n (child_edges excluded n) (record { reachable = reachable; queue = queue })
  unfolding has_node has_half
  pop {n} {reachable} {queue} v = record {
    sound = v.sound;
    ahead = λ e h.
        let (t, r) = v.waiting n (ground (arith, ==_iff n n)) in through (v.sound (n, t) r) h;
    begun = v.begun;
    waiting = λ m h. v.waiting m (ground (arith, h));
    closed = λ d e r c. elim (v.closed d e r c) [
      | inl q ↦
          or_cases (d.0 == n) (has_node d.0 queue) q
            (λ k.
              let same = (==_iff d.0 n).0 k in
              inr (inr (same, subst (λ m. has_half e (child_edges excluded m) ≡ true) same c)))
            inl
      | inr (inl h) ↦ inr (inl h)
      | inr (inr (_, h)) ↦ absurd cc
    ];
  }

  -- How many half edges of a list the search has not found.
  missing : List HalfRawEdge → List HalfRawEdge → ℕ
  missing reachable [] = 0
  missing reachable (e ∷ es) = (if has_half e reachable then 0 else 1) + missing reachable es

  missing-cons : (e : HalfRawEdge) (r es : List HalfRawEdge) → missing (e ∷ r) es ≤ missing r es
  unfolding missing has_half
  missing-cons e r [] = omega arith
  missing-cons e r (f ∷ es) = ground (arith, missing-cons e r es)

  missing-found :
      (e : HalfRawEdge) (r es : List HalfRawEdge)
      → has_half e r ≡ false
      → has_half e es ≡ true
      → missing (e ∷ r) es + 1 ≤ missing r es
  unfolding missing has_half
  missing-found e r [] new h = absurd cc
  missing-found e r (f ∷ es) new h =
      or_cases (half_eq e f) (has_half e es) h
        (λ k.
          let same = half_eq_lem e f k in
          rw (← same) (rw (new, half_eq_refl e) (omega (arith, missing-cons e r es))))
        (λ k. ground (arith, missing-cons e r es, missing-found e r es new k))

  missing-le-length : (r es : List HalfRawEdge) → missing r es ≤ length es
  unfolding missing
  missing-le-length r [] = omega arith
  missing-le-length r (e ∷ es) = ground (arith, missing-le-length r es)

  length-snoc : (ns : List ℕ) (n : ℕ) → length (ns ++ n ∷ []) ≡ length ns + 1
  length-snoc [] n = omega arith
  length-snoc (m ∷ ns) n = omega (arith, length-snoc ns n)

  abbrev everything : List HalfRawEdge
  everything = all_children excluded excluded.keys

  abbrev work : Search → ℕ
  work s = missing s.reachable everything + length s.queue

  work-add_child :
      (s : Search) (e : HalfRawEdge)
      → has_half e everything ≡ true
      → work (add_child excluded s e) ≤ work s
  unfolding add_child
  work-add_child s e h = elim (Bool-cases (has_half e s.reachable)) [
    | inl old ↦ rw old (omega arith)
    | inr new ↦
        rw new
          (ground (arith, missing-found e s.reachable everything new h, length-snoc s.queue e.0))
  ]

  work-add_children :
      (s : Search) (es : List HalfRawEdge)
      → ((e : HalfRawEdge) → has_half e es ≡ true → has_half e everything ≡ true)
      → work (add_children excluded s es) ≤ work s
  unfolding add_children has_half
  work-add_children s [] sub = omega arith
  work-add_children s (e ∷ es) sub = omega (
    arith,
    work-add_child s e (sub e (ground (arith, half_eq_refl e))),
    work-add_children (add_child excluded s e) es (λ f h. sub f (ground (arith, h))),
  )

  among :
      (n : ℕ) (e : HalfRawEdge) (ns : List ℕ)
      → has_node n ns ≡ true
      → has_half e (excluded.out_edges n) ≡ true
      → has_half e (all_children excluded ns) ≡ true
  unfolding has_node all_children
  among n e [] k o = absurd cc
  among n e (m ∷ ns) k o =
      or_cases (n == m) (has_node n ns) k
        (λ j.
          rw (has_half-append e (excluded.out_edges m) (all_children excluded ns))
            (rw (← (==_iff n m).0 j) (ground (arith, o))))
        (λ j. ground (
          arith,
          has_half-append e (excluded.out_edges m) (all_children excluded ns),
          among n e ns j o,
        ))

  child-everything :
      (n : ℕ) (e : HalfRawEdge)
      → has_half e (child_edges excluded n) ≡ true
      → has_half e everything ≡ true
  unfolding child_edges contains_key has_half
  child-everything n e h = elim (Bool-cases (has_node n excluded.keys)) [
    | inl key ↦ among n e excluded.keys key (ground (arith, key, h))
    | inr out ↦ absurd (ground (arith, out, h))
  ]

  record Found (reachable : List HalfRawEdge) : Type 0 where
    exact : (e : HalfRawEdge) → (has_half e reachable ≡ true) ↔ Leads e

  search_loop-Found :
      (fuel n : ℕ) (r : List HalfRawEdge) (queue : List ℕ)
      → Visiting n [] (record { reachable = r; queue = queue })
      → missing r everything + length queue ≤ fuel
      → (out : List HalfRawEdge) × (search_loop fuel excluded r queue ≡ some out) × Found out
  unfolding search_loop has_node has_half
  search_loop-Found fuel n r [] v le = (r, refl, record { exact = λ e. (v.sound e, complete e) })
    where
      complete : (e : HalfRawEdge) → Leads e → has_half e r ≡ true
      complete e (start h) = v.begun e h
      complete e (through {d} l h) = elim (v.closed d e (complete d l) h) [
        | inl q ↦ absurd cc
        | inr (inl k) ↦ k
        | inr (inr (_, k)) ↦ absurd cc
      ]
  search_loop-Found zero n r (m ∷ queue) v le = absurd (omega arith)
  search_loop-Found (suc fuel) n r (m ∷ queue) v le =
      let start : Search = record { reachable = r; queue = queue } in
      search_loop-Found fuel m _ _ (visit_all (child_edges excluded m) (pop v))
        (omega (arith, work-add_children start (child_edges excluded m) (child-everything m)))

  pub starts :
      (n : ℕ) (es : List HalfRawEdge)
      → has_node n (map (λ (e : HalfRawEdge). e.0) es) ≡ true
      → (t : ℕ) × (has_half (n, t) es ≡ true)
  unfolding has_node has_half
  starts n [] h = absurd cc
  starts n (e ∷ es) h =
      or_cases (n == e.0) (has_node n (map (λ (e : HalfRawEdge). e.0) es)) h
        (λ k. (e.1, ground (arith, k))) (λ k. let (t, j) = starts n es k in (t, ground (arith, j)))

  pub queued :
      (d : HalfRawEdge) (es : List HalfRawEdge)
      → has_half d es ≡ true
      → has_node d.0 (map (λ (e : HalfRawEdge). e.0) es) ≡ true
  unfolding has_node has_half
  queued d [] h = h
  queued d (e ∷ es) h =
      or_cases (half_eq d e) (has_half d es) h (λ k. ground (arith, k))
        (λ k. ground (arith, queued d es k))

  length-starts : (es : List HalfRawEdge) → length (map (λ (e : HalfRawEdge). e.0) es) ≡ length es
  length-starts [] = refl
  length-starts (e ∷ es) = omega (arith, length-starts es)

  -- For every map of excluded nodes and every initial set the search ends, and it finds exactly the initial half
  -- edges and those that leave an excluded node at the end of a half edge that it finds.
  pub reachable_raw_edges_exact :
      (out : List HalfRawEdge) × (reachable_raw_edges excluded initial_set ≡ some out)
      × ((e : HalfRawEdge) → (has_half e out ≡ true) ↔ Leads e)
  unfolding reachable_raw_edges enough has_half
  reachable_raw_edges_exact =
      let queue = map (λ (e : HalfRawEdge). e.0) initial_set in
      let (out, ends, found) =
        search_loop-Found (enough excluded initial_set) 0 initial_set queue
          (record {
            sound = λ e h. start h;
            ahead = λ e h. absurd cc;
            begun = λ e h. h;
            waiting = λ m h. starts m initial_set h;
            closed = λ d e r c. inl (queued d initial_set r);
          })
          (omega (arith, missing-le-length initial_set everything, length-starts initial_set)) in
      (out, ends, found.exact)

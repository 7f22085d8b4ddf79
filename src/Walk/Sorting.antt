-- ===== src/Walk/Sorting.antt =====
-- sort_tlist under twalk sorts each node that the list of the traces points to, once.
use tank_convertor.Base.{
  ℕ, ◌+◌, ◌<◌, ◌≡◌, refl, sym, ap, ◌∙◌, none, some, Option-cases, inl, inr, List, [], ◌∷◌, ◌++◌,
  map, length, length-set, get_elem?, get_elem?-some, get_elem?-set_self, get_elem?-set_ne, All,
  Ordering, arith,
}
use tank_convertor.Floating.{Floating}
use tank_convertor.Libc.Search.{Tree, nil, node, event, Visit, twalk}
use tank_convertor.Libc.Search.Order.{inorder}
use tank_convertor.Trace.{TraceNode, compare_scnl}
use tank_convertor.Trace.Order.{compare_scnl-IsComparison}
use tank_convertor.Scan.{State, key_of}
use tank_convertor.Scan.Invariant.{IsState}
use tank_convertor.Walk.{sort_node, sort_at, visit_sort, sort_tlist, walk_events, collect}
use tank_convertor.Walk.Inorder.{walk_events-append, walk-inorder}
use tank_convertor.Walk.Sorted.{Every-All, IsAscending, inorder-IsAscending}

module _ (f : Floating) where
  abbrev Nodes : Type 0
  Nodes = List (TraceNode f.Double)

  -- The nodes at the pointers, sorted one after the other.
  abbrev sorted_at : List ℕ → Nodes → Nodes
  sorted_at [] nodes = nodes
  sorted_at (p ∷ ps) nodes = sorted_at ps (sort_at f p nodes)

  sorted_at-append :
      (ps qs : List ℕ) (nodes : Nodes)
      → sorted_at (ps ++ qs) nodes ≡ sorted_at qs (sorted_at ps nodes)
  sorted_at-append [] qs nodes = refl
  sorted_at-append (p ∷ ps) qs nodes = sorted_at-append ps qs (sort_at f p nodes)

  abbrev Sorts : Tree → Type 0
  Sorts t =
      (d : ℕ) (nodes : Nodes)
      → walk_events (sort_tlist f) (twalk t d) nodes ≡ sorted_at (inorder t) nodes

  internal :
      (l r : Tree) (p d : ℕ) (nodes : Nodes)
      → Sorts l
      → Sorts r
      → walk_events
          (sort_tlist f)
          (event p Visit.preorder d
            ∷ (twalk l (d + 1)
                ++ (event p Visit.postorder d
                    ∷ (twalk r (d + 1) ++ (event p Visit.endorder d ∷ [])))))
          nodes
        ≡ sorted_at (inorder (node l p r)) nodes
  unfolding walk_events sort_tlist visit_sort
  internal l r p d nodes hl hr =
      walk_events-append (sort_tlist f) (twalk l (d + 1)) _ nodes
      ∙ walk_events-append (sort_tlist f) (twalk r (d + 1)) _ _
      ∙ hr (d + 1) _
      ∙ ap (λ (n : Nodes). sorted_at (inorder r) (sort_at f p n)) (hl (d + 1) nodes)
      ∙ sym (sorted_at-append (inorder l) (p ∷ inorder r) nodes)

  walk-Sorts : (t : Tree) → Sorts t
  unfolding walk_events sort_tlist visit_sort twalk
  walk-Sorts nil d nodes = refl
  walk-Sorts (node nil p nil) d nodes = refl
  walk-Sorts (node (node a q b) p r) d nodes =
      internal (node a q b) r p d nodes (walk-Sorts (node a q b)) (walk-Sorts r)
  walk-Sorts (node nil p (node a q b)) d nodes =
      internal nil (node a q b) p d nodes (walk-Sorts nil) (walk-Sorts (node a q b))

  sort_at_ne :
      (p q : ℕ) (nodes : Nodes) → ¬ (p ≡ q) → get_elem? (sort_at f p nodes) q ≡ get_elem? nodes q
  unfolding sort_at
  sort_at_ne p q nodes h = elim (Option-cases (get_elem? nodes p)) [
    | inl gone ↦ rw (sort_at, gone) refl
    | inr (t, there) ↦ rw (sort_at, there) (get_elem?-set_ne nodes p q (sort_node f t) h)
  ]

  sort_at_self :
      (p : ℕ) (nodes : Nodes) (t : TraceNode f.Double)
      → get_elem? nodes p ≡ some t
      → get_elem? (sort_at f p nodes) p ≡ some (sort_node f t)
  unfolding sort_at
  sort_at_self p nodes t e = rw (sort_at, e) (get_elem?-set_self nodes p (sort_node f t) t e)

  length-sort_at : (p : ℕ) (nodes : Nodes) → length (sort_at f p nodes) ≡ length nodes
  unfolding sort_at
  length-sort_at p nodes = elim (Option-cases (get_elem? nodes p)) [
    | inl gone ↦ rw (sort_at, gone) refl
    | inr (t, there) ↦ rw (sort_at, there) (length-set nodes p (sort_node f t))
  ]

  within : {n k : ℕ} (ps : List ℕ) → k ≡ n → All (λ p. p < n) ps → All (λ p. p < k) ps
  within [] e h = tt
  within (p ∷ ps) e h = (omega (arith, e, h.0), within ps e h.1)

  -- Each pointer of the list, once.
  abbrev Apart : List ℕ → Type 0
  Apart [] = Unit
  Apart (p ∷ ps) = All (λ q. ¬ (p ≡ q)) ps × Apart ps

  sorted_at_ne :
      (ps : List ℕ) (q : ℕ) (nodes : Nodes)
      → All (λ p. ¬ (q ≡ p)) ps
      → get_elem? (sorted_at ps nodes) q ≡ get_elem? nodes q
  sorted_at_ne [] q nodes h = refl
  sorted_at_ne (p ∷ ps) q nodes h =
      sorted_at_ne ps q (sort_at f p nodes) h.1 ∙ sort_at_ne p q nodes (λ e. h.0 (sym e))

  -- The node `p` of the second list is that of the first one, sorted.
  abbrev pub IsSortedFrom : Nodes → Nodes → ℕ → Type 0
  IsSortedFrom before after p =
      (t : TraceNode f.Double) × (get_elem? before p ≡ some t)
      × (get_elem? after p ≡ some (sort_node f t))

  moved :
      (p : ℕ) (ps : List ℕ) (nodes after : Nodes)
      → All (λ q. ¬ (p ≡ q)) ps
      → All (IsSortedFrom (sort_at f p nodes) after) ps
      → All (IsSortedFrom nodes after) ps
  moved p [] nodes after h k = tt
  moved p (q ∷ qs) nodes after h k =
      let (t, before, done) = k.0 in
      ((t, sym (sort_at_ne p q nodes h.0) ∙ before, done), moved p qs nodes after h.1 k.1)

  sorted_at_each :
      (ps : List ℕ) (nodes : Nodes)
      → Apart ps
      → All (λ p. p < length nodes) ps
      → All (IsSortedFrom nodes (sorted_at ps nodes)) ps
  sorted_at_each [] nodes apart inside = tt
  sorted_at_each (p ∷ ps) nodes apart inside =
      let (t, there) = get_elem?-some nodes p inside.0 in
      let rest =
        sorted_at_each ps (sort_at f p nodes) apart.1
          (within ps (length-sort_at p nodes) inside.1) in
      (
        (t, there, sorted_at_ne ps p (sort_at f p nodes) apart.0 ∙ sort_at_self p nodes t there),
        moved p ps nodes _ apart.0 rest,
      )

  -- Pointers to traces that compare as different.
  different :
      (s : State f.Double) (p : ℕ) (ps : List ℕ)
      → All (λ q. compare_scnl (key_of s.nodes p) (key_of s.nodes q) ≡ Ordering.lt) ps
      → All (λ q. ¬ (p ≡ q)) ps
  different s p [] h = tt
  different s p (q ∷ qs) h = (
    λ e.
        let same = compare_scnl-IsComparison.refl_eq (key_of s.nodes p) in
        let less : compare_scnl (key_of s.nodes p) (key_of s.nodes p) ≡ Ordering.lt =
          rw (← e) at h.0 in
        let off : ◌≡◌ {A = Ordering} Ordering.eq Ordering.lt = sym same ∙ less in
        ground (arith, off),
    different s p qs h.1,
  )

  ascending-Apart :
      (s : State f.Double) (ps : List ℕ) → IsAscending compare_scnl (key_of s.nodes) ps → Apart ps
  ascending-Apart s [] h = tt
  ascending-Apart s (p ∷ ps) h = (different s p ps h.0, ascending-Apart s ps h.1)

  -- The walk with sort_tlist leaves each node of the tree there with its list sorted.
  pub walk-IsSortedFrom :
      (s : State f.Double)
      → IsState s
      → All
          (IsSortedFrom s.nodes (walk_events (sort_tlist f) (twalk s.root 0) s.nodes))
          (inorder s.root)
  walk-IsSortedFrom s v =
      let ascending =
        inorder-IsAscending compare_scnl (key_of s.nodes) compare_scnl-IsComparison s.root
          v.search in
      rw (walk-Sorts s.root 0 s.nodes) (
        sorted_at_each (inorder s.root) s.nodes (ascending-Apart s (inorder s.root) ascending)
          (Every-All _ s.root v.inside))

  pub collect-IsSortedFrom :
      (s : State f.Double)
      → IsState s
      → All (IsSortedFrom s.nodes (collect f s).nodes) (inorder s.root)
  unfolding collect
  collect-IsSortedFrom = walk-IsSortedFrom

  -- The array of the traces is the list of the nodes in order, and a null pointer.
  pub collect-inorder :
      (s : State f.Double)
      → IsState s
      → (collect f s).trace_list ≡ map some (inorder s.root) ++ (none ∷ [])
  unfolding collect
  collect-inorder s v =
      let n : s.totaltrace + 1 ≡ length (inorder s.root) + 1 = omega (arith, v.total, v.count) in
      rw n (walk-inorder s.root 1)

  -- Each node that scan_tracebuf lists of a well-formed state is there with its list sorted.
  pub collect_sorted :
      (s : State f.Double)
      → IsState s
      → (ps : List ℕ) × ((collect f s).trace_list ≡ map some ps ++ (none ∷ []))
        × All (IsSortedFrom s.nodes (collect f s).nodes) ps
  collect_sorted s v = (inorder s.root, collect-inorder s v, collect-IsSortedFrom s v)

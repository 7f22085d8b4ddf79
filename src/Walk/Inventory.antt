-- ===== src/Walk/Inventory.antt =====
-- What scan_tracebuf hands on, against what was read: no tracebuf is lost, and none is in a wrong trace.
use mathlib.Core.List.{Mem, not-mem-nil, mem-append_left, mem-append_right, mem-cons_self, Perm}
use tank_convertor.Base.{
  ℕ, ◌≡◌, refl, sym, ◌∙◌, Option, none, some, List, [], ◌∷◌, ◌++◌, map, length, get_elem?, All,
  All-both, All-split, All-get_elem?, Ordering,
}
use tank_convertor.Floating.{Floating, IsOrdered}
use tank_convertor.Libc.Search.{Tree, nil, node, tfind}
use tank_convertor.Libc.Search.Order.{inorder, Every, tfind-Every, tfind-eq}
use tank_convertor.Libc.Search.Found.{Every-Mem, tfind_own}
use tank_convertor.Libc.Qsort.Order.{qsort-All}
use tank_convertor.Trace.{TBuf, Scnl, TraceNode, compare_scnl, compare_time}
use tank_convertor.Trace.Time.{IsChronological}
use tank_convertor.Trace.Order.{compare_scnl-IsComparison}
use tank_convertor.Scan.{State, key_of}
use tank_convertor.Scan.Invariant.{IsNode, IsState}
use tank_convertor.Scan.Locate.{view, packets_at}
use tank_convertor.Scan.Record.{packets_of}
use tank_convertor.Scan.Step.{of_trace}
use tank_convertor.Scan.Rounds.{all_of_trace}
use tank_convertor.Walk.{sort_node, Scanned, collect}
use tank_convertor.Walk.Sorted.{Every-All, sort_node-packets, sort_node-IsChronological}
use tank_convertor.Walk.Sorting.{IsSortedFrom, collect-IsSortedFrom, collect-inorder}

module _ (f : Floating) where
  -- The trace of a tracebuf that was read is among the pointers.
  abbrev pub IsListed : List (TraceNode f.Double) → List ℕ → Option (Scnl × TBuf f.Double) → Type 0
  IsListed nodes ps none = Unit
  IsListed nodes ps (some (k, b)) =
      (p : ℕ) × (t : TraceNode f.Double) × Mem p ps
      × (get_elem? nodes p ≡ some t)
      × (compare_scnl k t.scnl ≡ Ordering.eq)

module _ (f : Floating) (rs : List (Option (Scnl × TBuf f.Double))) where
  -- The node at `p` has exactly the tracebufs that were read of its trace, each as often, in order of
  -- time.
  pub record IsTrace (nodes : List (TraceNode f.Double)) (p : ℕ) : Type 0 where
    pub trace : TraceNode f.Double
    pub there : get_elem? nodes p ≡ some trace
    pub packets : Perm (packets_of trace) (all_of_trace trace.scnl rs)
    pub chronological : IsChronological f (packets_of trace)

  pub record IsInventory (r : Scanned f) : Type 0 where
    pub pointers : List ℕ
    pub trace_list : r.trace_list ≡ map some pointers ++ (none ∷ [])
    pub total : r.totaltrace ≡ length pointers
    pub traces : All (IsTrace r.nodes) pointers
    pub listed : All (IsListed f r.nodes pointers) rs

All-Every : (P : ℕ → Type 0) (t : Tree) → All P (inorder t) → Every P t
All-Every P nil a = tt
All-Every P (node l p r) a =
    let (left, right) = All-split P (inorder l) (p ∷ inorder r) a in
    (All-Every P l left, right.0, All-Every P r right.1)

-- A tracebuf that was read is among those of its trace.
member_of :
    {D : Type 0} (Q : Option (Scnl × TBuf D) → Type 0) (rs : List (Option (Scnl × TBuf D)))
    → Q none
    → ((k : Scnl) (b : TBuf D) → Mem b (all_of_trace k rs) → Q (some (k, b)))
    → All Q rs
member_of Q [] nothing h = tt
member_of Q (none ∷ rs) nothing h = (nothing, member_of Q rs nothing h)
member_of Q (some (j, b) ∷ rs) nothing h = (
  h j b (
      mem-append_left (all_of_trace j rs) (rw (compare_scnl-IsComparison.refl_eq j) mem-cons_self)),
  member_of Q rs nothing (λ k c m. h k c (mem-append_right (of_trace k (some (j, b))) m)),
)

module _ (f : Floating) (s : State f.Double) (v : IsState s)
    (rs : List (Option (Scnl × TBuf f.Double)))
    (views : (k : Scnl) → view s k ≡ all_of_trace k rs) where
  -- The tracebufs in use of a node are those that were read of its trace.
  packets-own :
      (p : ℕ) (t : TraceNode f.Double)
      → get_elem? s.nodes p ≡ some t
      → tfind compare_scnl (key_of s.nodes) (key_of s.nodes p) s.root ≡ some p
      → packets_of t ≡ all_of_trace t.scnl rs
  unfolding view key_of
  packets-own p t e own =
      let key : key_of s.nodes p ≡ t.scnl = rw (e, key_of) refl in
      let here : view s t.scnl ≡ packets_of t = rw (← key, view, own, packets_at, e) refl in
      sym here ∙ views t.scnl

  -- The trace of a tracebuf that is in the view of the state.
  found-IsListed :
      (k : Scnl) (b : TBuf f.Double) (found_at : Option ℕ)
      → tfind compare_scnl (key_of s.nodes) k s.root ≡ found_at
      → Mem b (view s k)
      → IsListed f (collect f s).nodes (inorder s.root) (some (k, b))
  unfolding view key_of sort_node
  found-IsListed k b none e m = absurd (not-mem-nil (rw (view, e) at m))
  found-IsListed k b (some p) e m =
      let sorted = All-Every _ s.root (collect-IsSortedFrom f s v) in
      let laws' = compare_scnl-IsComparison in
      let keys = key_of s.nodes in
      let (t, before, after) =
        tfind-Every compare_scnl keys laws' (IsSortedFrom f s.nodes (collect f s).nodes) k s.root p
          sorted e in
      let listed =
        tfind-Every compare_scnl keys laws' (λ q. Mem q (inorder s.root)) k s.root p
          (Every-Mem s.root) e in
      let key : key_of s.nodes p ≡ t.scnl = rw (before, key_of) refl in
      (p, sort_node f t, listed, after, rw (← key) (tfind-eq compare_scnl keys laws' k s.root p e))

  -- What holds of all that was read holds of all that is handed on.
  pub collect-All :
      (Q : TBuf f.Double → Type 0)
      → ((k : Scnl) → All Q (all_of_trace k rs))
      → All
          (λ p.
            (t : TraceNode f.Double) × (get_elem? (collect f s).nodes p ≡ some t)
            × All Q (packets_of t))
          (inorder s.root)
  unfolding sort_node
  collect-All Q each =
      All-both _ _ _ (inorder s.root) (collect-IsSortedFrom f s v)
        (Every-All _ s.root
          (tfind_own compare_scnl (key_of s.nodes) compare_scnl-IsComparison s.root v.search))
        (λ p sorted own.
          let (t, before, after) = sorted in
          let node : IsNode t = All-get_elem? IsNode s.nodes p t v.each before in
          let all : All Q (packets_of t) = rw (packets-own p t before own) (each t.scnl) in
          (
            sort_node f t,
            after,
            rw (sort_node-packets f t node) (qsort-All (compare_time f) Q (packets_of t) all),
          ))

module _ (f : Floating) (IsNumber : f.Double → Type 0) (laws : IsOrdered f IsNumber)
    (s : State f.Double) (v : IsState s) (rs : List (Option (Scnl × TBuf f.Double)))
    (views : (k : Scnl) → view s k ≡ all_of_trace k rs)
    (numbers : (k : Scnl) → All (λ (b : TBuf f.Double). IsNumber b.time) (all_of_trace k rs)) where
  own-IsTrace :
      (p : ℕ)
      → IsSortedFrom f s.nodes (collect f s).nodes p
      → tfind compare_scnl (key_of s.nodes) (key_of s.nodes p) s.root ≡ some p
      → IsTrace f rs (collect f s).nodes p
  unfolding sort_node
  own-IsTrace p (t, before, after) own =
      let same = packets-own f s v rs views p t before own in
      let node : IsNode t = All-get_elem? IsNode s.nodes p t v.each before in
      let (sorted, perm, count) =
        sort_node-IsChronological f IsNumber laws t node (rw same (numbers t.scnl)) in
      record {
        trace = sort_node f t;
        there = after;
        packets = rw (← same) perm;
        chronological = sorted;
      }

  -- From a well-formed state in which each trace has what was read of it, scan_tracebuf gathers an
  -- inventory of what was read, whose pointers are those of the tree in order.
  pub collect-IsInventory :
      (inventory : IsInventory f rs (collect f s)) × (inventory.pointers ≡ inorder s.root)
  unfolding collect
  collect-IsInventory = (
    record {
      pointers = inorder s.root;
      trace_list = collect-inorder f s v;
      total = v.total ∙ sym v.count;
      traces =
          All-both _ _ _ (inorder s.root) (collect-IsSortedFrom f s v)
            (Every-All _ s.root
              (tfind_own compare_scnl (key_of s.nodes) compare_scnl-IsComparison s.root v.search))
            own-IsTrace;
      listed =
          member_of _ rs tt (λ k b m. found-IsListed f s v rs views k b _ refl (rw (views k) m));
    },
    refl,
  )

-- ===== src/Walk/Sorted.antt =====
-- What scan_tracebuf hands on: the traces in order, each with its tracebufs in order of time.
use tank_convertor.Base.{
  ℕ, ◌+◌, ◌<◌, ◌≡◌, refl, sym, ap, ◌∙◌, none, some, List, [], ◌∷◌, ◌++◌, map, length, take, drop,
  All, All-append, length-take, Ordering, arith,
}
use mathlib.Core.List.{Perm}
use tank_convertor.Floating.{Floating, IsOrdered}
use tank_convertor.Libc.Search.{Tree, nil, node}
use tank_convertor.Libc.Search.Order.{inorder, Every, IsSearchTree}
use tank_convertor.Libc.Qsort.{qsort}
use tank_convertor.Libc.Qsort.Order.{qsort-perm, length-qsort, qsort-IsSorted}
use tank_convertor.Libc.Strings.Order.{IsComparison}
use tank_convertor.Trace.{TraceNode, compare_scnl, compare_time}
use tank_convertor.Trace.Order.{compare_scnl-IsComparison}
use tank_convertor.Trace.Time.{compare_time-IsPreorder, IsChronological, IsSorted-IsChronological}
use tank_convertor.Scan.{State, key_of}
use tank_convertor.Scan.Invariant.{IsNode, IsState}
use tank_convertor.Scan.Record.{packets_of}
use tank_convertor.Walk.{sort_node, collect}
use tank_convertor.Walk.Inorder.{walk-inorder}

pub Every-All : (P : ℕ → Type 0) (t : Tree) → Every P t → All P (inorder t)
Every-All P nil e = tt
Every-All P (node l p r) e =
    All-append P (inorder l) (p ∷ inorder r) (Every-All P l e.0) (e.1, Every-All P r e.2)

module _ {K : Type 0} (cmp : K → K → Ordering) (key_of : ℕ → K) where
  -- The keys of the pointers are strictly ascending.
  abbrev pub IsAscending : List ℕ → Type 0
  IsAscending [] = Unit
  IsAscending (p ∷ ps) = All (λ q. cmp (key_of p) (key_of q) ≡ Ordering.lt) ps × IsAscending ps

  module _ (laws : IsComparison cmp) where
    above :
        (x p : ℕ) (ps : List ℕ)
        → cmp (key_of x) (key_of p) ≡ Ordering.lt
        → All (λ q. cmp (key_of p) (key_of q) ≡ Ordering.lt) ps
        → All (λ q. cmp (key_of x) (key_of q) ≡ Ordering.lt) ps
    above x p [] h a = tt
    above x p (q ∷ qs) h a =
        (laws.trans_lt (key_of x) (key_of p) (key_of q) h a.0, above x p qs h a.1)

    glue :
        (xs : List ℕ) (p : ℕ) (ps : List ℕ)
        → IsAscending xs
        → All (λ x. cmp (key_of x) (key_of p) ≡ Ordering.lt) xs
        → IsAscending (p ∷ ps)
        → IsAscending (xs ++ p ∷ ps)
    glue [] p ps a b c = c
    glue (x ∷ xs) p ps a b c = (
      All-append (λ q. cmp (key_of x) (key_of q) ≡ Ordering.lt) xs (p ∷ ps) a.0
          (b.0, above x p ps b.0 c.0),
      glue xs p ps a.1 b.1 c,
    )

    pub inorder-IsAscending : (t : Tree) → IsSearchTree cmp key_of t → IsAscending (inorder t)
    inorder-IsAscending nil s = tt
    inorder-IsAscending (node l p r) s =
        glue (inorder l) p (inorder r) (inorder-IsAscending l s.0) (Every-All _ l s.1)
          (Every-All _ r s.2, inorder-IsAscending r s.3)

-- What scan_tracebuf leaves in `TraceList` for a well-formed state: each node once, in strictly
-- ascending order of station, channel, network and location, and one null pointer at the end.
pub collect-trace_list :
    (f : Floating) (s : State f.Double)
    → IsState s
    → (ps : List ℕ) × ((collect f s).trace_list ≡ map some ps ++ (none ∷ []))
      × (length ps ≡ (collect f s).totaltrace)
      × All (λ p. p < length s.nodes) ps
      × IsAscending compare_scnl (key_of s.nodes) ps
unfolding collect
collect-trace_list f s v =
    let n : s.totaltrace + 1 ≡ length (inorder s.root) + 1 = omega (arith, v.total, v.count) in
    (
      inorder s.root,
      rw n (walk-inorder s.root 1),
      v.count ∙ sym v.total,
      Every-All _ s.root v.inside,
      inorder-IsAscending compare_scnl (key_of s.nodes) compare_scnl-IsComparison s.root v.search,
    )

take-all_append : {A : Type 0} (n : ℕ) (xs ys : List A) → length xs ≡ n → take n (xs ++ ys) ≡ xs
take-all_append n [] ys h = rw (← h) refl
take-all_append n (x ∷ xs) ys h =
    rw (← h) (ap (λ zs. x ∷ zs) (take-all_append (length xs) xs ys refl))

in_use : {D : Type 0} (t : TraceNode D) → IsNode t → length (packets_of t) ≡ t.ntbuf
in_use t v = length-take t.ntbuf t.tlist ∙ omega (arith, v.room, v.full)

pub sort_node-packets :
    (f : Floating) (t : TraceNode f.Double)
    → IsNode t
    → packets_of (sort_node f t) ≡ qsort (compare_time f) (packets_of t)
unfolding sort_node
sort_node-packets f t v =
    take-all_append t.ntbuf (qsort (compare_time f) (packets_of t)) (drop t.ntbuf t.tlist)
      (length-qsort (compare_time f) (packets_of t) ∙ in_use t v)

-- sort_tlist puts the tracebufs of a trace in order of time, if all their times are numbers: none is
-- later than one behind it, each is there as often as before, and the number in use stays.
pub sort_node-IsChronological :
    (f : Floating) (IsNumber : f.Double → Type 0)
    → IsOrdered f IsNumber
    → (t : TraceNode f.Double) → IsNode t
    → All (λ b. IsNumber b.time) (packets_of t)
    → IsChronological f (packets_of (sort_node f t))
      × Perm (packets_of (sort_node f t)) (packets_of t)
      × (length (packets_of (sort_node f t)) ≡ t.ntbuf)
sort_node-IsChronological f IsNumber laws t v numbers =
    let used = in_use t v in
    let kept = sort_node-packets f t v in
    (
      IsSorted-IsChronological f (packets_of (sort_node f t)) (
          rw kept (
            qsort-IsSorted (compare_time f) (λ b. IsNumber b.time)
              (compare_time-IsPreorder f IsNumber laws) (packets_of t) numbers)),
      rw kept (qsort-perm (compare_time f) (packets_of t)),
      rw kept (length-qsort (compare_time f) (packets_of t) ∙ used),
    )

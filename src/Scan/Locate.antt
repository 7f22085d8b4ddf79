-- ===== src/Scan/Locate.antt =====
-- "Find which trace": the node of the trace is there after it, and no trace has changed.
use tank_convertor.Base.{
  ℕ, ◌+◌, ◌<◌, ◌≡◌, refl, ap, ◌∙◌, Bool, true, false, inl, inr, if◌then◌else◌, Option, none, some,
  Option-cases, List, [], ◌∷◌, ◌++◌, length, get_elem?, All-append, get_elem?-append,
  get_elem?-append_end, length-append, Ordering, ◌^◌, arith,
}
use tank_convertor.Floating.{Floating}
use tank_convertor.Libc.Search.{tfind, tsearch}
use tank_convertor.Libc.Search.Order.{
  Every, tsearch-Every, tsearch-IsSearchTree, IsSearchTree-congr, tfind_congr, tfind-tsearch,
  tfind_same, tfind-Every, Every-mono, length-inorder-tsearch, Ordering-cases,
}
use tank_convertor.Trace.{TBuf, Scnl, TraceNode, compare_scnl}
use tank_convertor.Trace.Order.{compare_scnl-IsComparison}
use tank_convertor.Scan.{State, key_of, Located, found, no_memory, no_list, new_node, locate}
use tank_convertor.Scan.Invariant.{IsNode, IsState, IsSmall, key_of-append}
use tank_convertor.Scan.Record.{packets_of, new_node-IsNode}

abbrev pub packets_at : {D : Type 0} → List (TraceNode D) → ℕ → List (TBuf D)
packets_at nodes p = elim (get_elem? nodes p) [ none ↦ [] | some t ↦ packets_of t ]

-- The tracebufs of a trace, by its station, channel, network and location: none, if the trace is
-- not there.
unfoldable pub view : {D : Type 0} → State D → Scnl → List (TBuf D)
view s k = elim (tfind compare_scnl (key_of s.nodes) k s.root) [
  | none ↦ []
  | some p ↦ packets_at s.nodes p
]

pub record IsLocated {D : Type 0} (s s1 : State D) (k : Scnl) (p : ℕ) : Type 0 where
  pub state : IsState s1
  pub small : IsSmall s1
  pub at : tfind compare_scnl (key_of s1.nodes) k s1.root ≡ some p
  pub same : (j : Scnl) → view s1 j ≡ view s j
  pub tankbyte : s1.tankbyte ≡ s.tankbyte

abbrev pub Finds : {D : Type 0} → (ℕ → State D → Type 0) → Located D → Type 0
Finds P (found p s) = P p s
Finds P no_memory = Unit
Finds P no_list = Unit

abbrev pub if_equal {ℓ} : {A : Type ℓ} → Ordering → A → A → A
if_equal o x y = elim o [ Ordering.eq ↦ x | _ ↦ y ]

-- The state after a new trace, whose node is the last one.
abbrev pub with_trace : (f : Floating) → Scnl → State f.Double → State f.Double
with_trace f k s =
    let nodes = s.nodes ++ (new_node f k ∷ []) in
    record s {
      nodes = nodes;
      root = tsearch compare_scnl (key_of nodes) (length s.nodes) s.root;
      totaltrace = s.totaltrace + 1;
      allocs = s.allocs + 3;
    }

module _ (f : Floating) (k : Scnl) (s : State f.Double) (v : IsState s) where
  new_key : key_of (s.nodes ++ (new_node f k ∷ [])) (length s.nodes) ≡ k
  unfolding key_of new_node
  new_key = rw (get_elem?-append_end s.nodes (new_node f k), key_of)

  agree : Every (λ q. key_of (s.nodes ++ (new_node f k ∷ [])) q ≡ key_of s.nodes q) s.root
  agree = Every-mono s.root (λ q h. key_of-append s.nodes (new_node f k ∷ []) q h) v.inside

  packets_at-append :
      (q : ℕ)
      → q < length s.nodes
      → packets_at (s.nodes ++ (new_node f k ∷ [])) q ≡ packets_at s.nodes q
  packets_at-append q h = rw (get_elem?-append s.nodes (new_node f k ∷ []) q h, packets_at)

  packets_at-new : packets_at (s.nodes ++ (new_node f k ∷ [])) (length s.nodes) ≡ []
  unfolding new_node
  packets_at-new = rw (get_elem?-append_end s.nodes (new_node f k), packets_at)

  module _ (absent : tfind compare_scnl (key_of s.nodes) k s.root ≡ none) where
    still_absent :
        tfind compare_scnl
          (key_of (s.nodes ++ (new_node f k ∷ [])))
          (key_of (s.nodes ++ (new_node f k ∷ [])) (length s.nodes))
          s.root
        ≡ none
    still_absent = rw new_key (tfind_congr compare_scnl _ _ k s.root agree ∙ absent)

    with_trace-IsState : IsState (with_trace f k s)
    with_trace-IsState =
        let nodes = s.nodes ++ (new_node f k ∷ []) in
        let len = length-append s.nodes (new_node f k ∷ []) in
        record {
          search =
              tsearch-IsSearchTree compare_scnl (key_of nodes) compare_scnl-IsComparison
                (length s.nodes) s.root (IsSearchTree-congr compare_scnl _ _ s.root agree v.search);
          inside =
              tsearch-Every compare_scnl (key_of nodes) (λ q. q < length nodes) (length s.nodes)
                s.root (omega (arith, len))
                (Every-mono s.root (λ q h. omega (arith, len)) v.inside);
          count = omega (
            arith,
            len,
            length-inorder-tsearch compare_scnl (key_of nodes) compare_scnl-IsComparison
                (length s.nodes) s.root still_absent,
            v.count,
          );
          total = omega (arith, len, v.total);
          each = All-append IsNode s.nodes _ v.each (new_node-IsNode f k, tt);
        }

    found_in :
        (j : Scnl)
        → tfind compare_scnl (key_of (with_trace f k s).nodes) j (with_trace f k s).root
          ≡ if_equal
              (compare_scnl j k)
              (some (length s.nodes))
              (tfind compare_scnl (key_of s.nodes) j s.root)
    found_in j =
        let keys = key_of (s.nodes ++ (new_node f k ∷ [])) in
        tfind-tsearch compare_scnl keys compare_scnl-IsComparison j (length s.nodes) s.root
          still_absent
        ∙ rw new_key (
            ap (λ (o : Option ℕ). if_equal (compare_scnl j k) (some (length s.nodes)) o)
              (tfind_congr compare_scnl (key_of s.nodes) keys j s.root agree))

    old_packets :
        (j : Scnl) (found_at : Option ℕ)
        → tfind compare_scnl (key_of s.nodes) j s.root ≡ found_at
        → ◌≡◌ {A = List (TBuf f.Double)}
            (elim found_at [ none ↦ [] | some q ↦ packets_at (with_trace f k s).nodes q ])
            (elim found_at [ none ↦ [] | some q ↦ packets_at s.nodes q ])
    old_packets j none e = refl
    old_packets j (some q) e = packets_at-append q (
        tfind-Every compare_scnl (key_of s.nodes) compare_scnl-IsComparison
          (λ q. q < length s.nodes) j s.root q v.inside e)

    view-with_trace : (j : Scnl) → view (with_trace f k s) j ≡ view s j
    unfolding view
    view-with_trace j = elim (Ordering-cases (compare_scnl j k)) [
      | inl lt ↦ rw (view, found_in j, lt, view) (old_packets j _ refl)
      | inr (inl eq) ↦
          rw
            (
              view,
              found_in j,
              eq,
              view,
              tfind_same compare_scnl compare_scnl-IsComparison (key_of s.nodes) j k s.root eq,
              absent,
            )
            packets_at-new
      | inr (inr gt) ↦ rw (view, found_in j, gt, view) (old_packets j _ refl)
    ]

new_node-small : (f : Floating) (k : Scnl) → (new_node f k).maxtbuf < 2 ^ 31
unfolding new_node
new_node-small f k = omega arith

-- The result of the three allocations.
pub three_allocs :
    {D : Type 0} (P : ℕ → State D → Type 0) (p : ℕ) (s : State D) (a b c : Bool)
    → P p s
    → Finds P (if a then if b then if c then found p s else no_list else no_memory else no_memory)
three_allocs P p s true true true h = h
three_allocs P p s true true false h = tt
three_allocs P p s true false c h = tt
three_allocs P p s false b c h = tt

-- After a search that finds or makes a trace the state is well formed, the trace is there under the
-- key, and no list of tracebufs has changed.
pub locate-IsLocated :
    (f : Floating) (alloc : ℕ → Bool) (k : Scnl) (s : State f.Double)
    → IsState s
    → IsSmall s
    → Finds (λ p s1. IsLocated s s1 k p) (locate f alloc k s)
unfolding locate
locate-IsLocated f alloc k s v small =
    elim (Option-cases (tfind compare_scnl (key_of s.nodes) k s.root)) [
      | inr (p, e) ↦
          rw (e, locate)
            (record { state = v; small = small; at = e; same = λ j. refl; tankbyte = refl })
      | inl e ↦
          let len = get_elem?-append_end s.nodes (new_node f k) in
          let made : IsLocated s (with_trace f k s) k (length s.nodes) = record {
            state = with_trace-IsState f k s v e;
            small = All-append _ s.nodes _ small (new_node-small f k, tt);
            at = found_in f k s v e k ∙ rw (compare_scnl-IsComparison.refl_eq k);
            same = view-with_trace f k s v e;
            tankbyte = refl;
          } in
          rw (e, locate)
            (three_allocs (λ q s1. IsLocated s s1 k q) (length s.nodes) (with_trace f k s)
              (alloc s.allocs) (alloc (s.allocs + 2)) (alloc (s.allocs + 1)) made)
    ]

-- ===== src/Scan/View.antt =====
-- What a trace holds after a tracebuf has been recorded in one of them.
use tank_convertor.Base.{
  ℕ, ◌≡◌, ◌≢◌, refl, sym, ap, ◌∙◌, inl, inr, Option, none, some, List, [], ◌++◌, get_elem?, set,
  get_elem?-set_self, get_elem?-set_ne, Ordering, arith,
}
use mathlib.Core.List.{append-nil}
use tank_convertor.Floating.{Floating}
use tank_convertor.Libc.Search.{tfind}
use tank_convertor.Libc.Strings.Order.{IsComparison}
use tank_convertor.Libc.Search.Order.{tfind-eq, tfind_same, Ordering-cases}
use tank_convertor.Trace.{TBuf, Scnl, TraceNode, compare_scnl}
use tank_convertor.Trace.Order.{compare_scnl-IsComparison}
use tank_convertor.Scan.{State, key_of}
use tank_convertor.Scan.Invariant.{IsState, key_of-set, set-IsState}
use tank_convertor.Scan.Record.{IsRecorded, packets_of}
use tank_convertor.Scan.Locate.{view, packets_at, if_equal}

equal_keys :
    {K : Type 0} {cmp : K → K → Ordering}
    → IsComparison cmp
    → (a b c : K) → cmp a c ≡ Ordering.eq
    → cmp b c ≡ Ordering.eq
    → cmp a b ≡ Ordering.eq
equal_keys laws a b c h k = ground (arith, laws.eq_left a c b h, laws.flipped b c, k)

module _ (f : Floating) where
  packets_at-set :
      (nodes : List (TraceNode f.Double)) (p : ℕ) (t t1 : TraceNode f.Double)
      → get_elem? nodes p ≡ some t
      → packets_at (set nodes p t1) p ≡ packets_of t1
  packets_at-set nodes p t t1 e = rw (get_elem?-set_self nodes p t1 t e, packets_at)

  packets_at-set_ne :
      (nodes : List (TraceNode f.Double)) (p q : ℕ) (t1 : TraceNode f.Double)
      → p ≢ q
      → packets_at (set nodes p t1) q ≡ packets_at nodes q
  packets_at-set_ne nodes p q t1 ne = rw (get_elem?-set_ne nodes p q t1 ne, packets_at)

  module _ (s s2 : State f.Double) (k : Scnl) (p : ℕ) (t : TraceNode f.Double)
      (more : List (TBuf f.Double)) (v : IsState s) (e : get_elem? s.nodes p ≡ some t)
      (there : tfind compare_scnl (key_of s.nodes) k s.root ≡ some p)
      (r : IsRecorded f s s2 p t more) where
    pub recorded-IsState : IsState s2
    recorded-IsState = set-IsState s s2 p t r.written v e r.key r.fits r.nodes r.root r.total

    -- Only the trace of the key finds the node.
    other_node :
        (j : Scnl) (q : ℕ)
        → tfind compare_scnl (key_of s.nodes) j s.root ≡ some q
        → compare_scnl j k ≢ Ordering.eq
        → p ≢ q
    other_node j q h ne same =
        let laws = compare_scnl-IsComparison in
        let keys = key_of s.nodes in
        let mine : compare_scnl k (keys q) ≡ Ordering.eq =
          tfind-eq compare_scnl keys laws k s.root q (rw (← same) there) in
        let theirs : compare_scnl j (keys q) ≡ Ordering.eq =
          tfind-eq compare_scnl keys laws j s.root q h in
        ne (equal_keys laws j k (keys q) theirs mine)

    keys_kept : key_of s2.nodes ≡ key_of s.nodes
    keys_kept = ap key_of r.nodes ∙ key_of-set s.nodes p t r.written e r.key

    found_in :
        (j : Scnl)
        → tfind compare_scnl (key_of s2.nodes) j s2.root
          ≡ tfind compare_scnl (key_of s.nodes) j s.root
    found_in j = rw (keys_kept, r.root)

    other_packets :
        (j : Scnl) (found_at : Option ℕ)
        → tfind compare_scnl (key_of s.nodes) j s.root ≡ found_at
        → compare_scnl j k ≢ Ordering.eq
        → ◌≡◌ {A = List (TBuf f.Double)}
            (elim found_at [ none ↦ [] | some q ↦ packets_at s2.nodes q ])
            (elim found_at [ none ↦ [] | some q ↦ packets_at s.nodes q ])
    other_packets j none h ne = refl
    other_packets j (some q) h ne =
        ap (λ (n : List (TraceNode f.Double)). packets_at n q) r.nodes
        ∙ packets_at-set_ne s.nodes p q r.written (other_node j q h ne)

    own_packets : packets_at s2.nodes p ≡ packets_at s.nodes p ++ more
    own_packets =
        ap (λ (n : List (TraceNode f.Double)). packets_at n p) r.nodes
        ∙ packets_at-set s.nodes p t r.written e
        ∙ r.packets
        ∙ ap (λ (l : List (TBuf f.Double)). l ++ more) (sym (rw (e, packets_at)))

    view-recorded_other : (j : Scnl) → compare_scnl j k ≢ Ordering.eq → view s2 j ≡ view s j
    unfolding view
    view-recorded_other j ne = rw (view, found_in j, view) (other_packets j _ refl ne)

    view-recorded_own : (j : Scnl) → compare_scnl j k ≡ Ordering.eq → view s2 j ≡ view s j ++ more
    unfolding view
    view-recorded_own j eq =
        let here : tfind compare_scnl (key_of s.nodes) j s.root ≡ some p =
          tfind_same compare_scnl compare_scnl-IsComparison (key_of s.nodes) j k s.root eq
          ∙ there in
        rw (view, found_in j, here, view) own_packets

    pub view-recorded : (j : Scnl) → view s2 j ≡ view s j ++ if_equal (compare_scnl j k) more []
    view-recorded j = elim (Ordering-cases (compare_scnl j k)) [
      | inl lt ↦
          rw lt (view-recorded_other j (λ e. ground (arith, lt)) ∙ sym (append-nil (view s j)))
      | inr (inl eq) ↦ rw eq (view-recorded_own j eq)
      | inr (inr gt) ↦
          rw gt (view-recorded_other j (λ e. ground (arith, gt)) ∙ sym (append-nil (view s j)))
    ]

-- ===== src/Tests/Walk.antt =====
-- The list and the order of the tracebufs that scan_tracebuf leaves, on small inputs.
use tank_convertor.Base.{
  ℕ, ◌<◌, ◌≡◌, refl, some, none, List, [], ◌∷◌, ◌++◌, map, length, All, ℤ, pos, arith,
}
use mathlib.Core.List.{Perm}
use tank_convertor.Floating.{whole, IsOrdered}
use tank_convertor.Trace.{TBuf, TraceNode, compare_scnl}
use tank_convertor.Libc.Search.{nil, node}
use tank_convertor.Libc.Strings.{strcmp}
use tank_convertor.Trace.Time.{IsChronological}
use tank_convertor.Scan.{State, key_of}
use tank_convertor.Scan.Invariant.{IsNode, IsState}
use tank_convertor.Scan.Record.{packets_of}
use tank_convertor.Walk.{initial, collect, sort_node}
use tank_convertor.Walk.Sorted.{IsAscending, collect-trace_list, sort_node-IsChronological}
use tank_convertor.Walk.Sorting.{IsSortedFrom, collect_sorted}
use tank_convertor.Tests.Scan.{start, vertical}

abbrev packet : ℕ → TBuf ℤ
packet second = record { offset = 0; size = 72; time = pos second }

-- A trace of the station whose name is the letter `sta`, with one tracebuf.
abbrev trace : ℕ → TraceNode ℤ
trace sta = record {
  scnl = record vertical { sta = sta ∷ 0 ∷ [] };
  ntbuf = 1;
  maxtbuf = 2;
  tlist = packet 7 ∷ packet 0 ∷ [];
}

-- Three traces, found in the order B, A, C.
abbrev three : State ℤ
three = record start {
  totaltrace = 3;
  nodes = trace b'B' ∷ trace b'A' ∷ trace b'C' ∷ [];
  root = node (node nil 1 nil) 0 (node nil 2 nil);
}

three-IsState : IsState three
unfolding compare_scnl strcmp key_of initial
three-IsState = record {
  search = ((tt, tt, tt, tt), (tt, refl, tt), (tt, refl, tt), (tt, tt, tt, tt));
  inside = ((tt, omega arith, tt), omega arith, (tt, omega arith, tt));
  count = refl;
  total = refl;
  each = (one, (one, (one, tt)));
}
  where
    one : {sta : ℕ} → IsNode (trace sta)
    one = record { room = omega arith; full = refl }

collect-trace_list_example :
    (ps : List ℕ) × ((collect whole three).trace_list ≡ map some ps ++ (none ∷ []))
    × (length ps ≡ (collect whole three).totaltrace)
    × All (λ p. p < length three.nodes) ps
    × IsAscending compare_scnl (key_of three.nodes) ps
collect-trace_list_example = collect-trace_list whole three three-IsState

collect_sorted_example :
    (ps : List ℕ) × ((collect whole three).trace_list ≡ map some ps ++ (none ∷ []))
    × All (IsSortedFrom whole three.nodes (collect whole three).nodes) ps
collect_sorted_example = collect_sorted whole three three-IsState

pub whole-IsOrdered : IsOrdered whole (λ _. Unit)
whole-IsOrdered = record {
  lt_asymm = λ x y p q h. ground arith;
  le_trans = λ x y z p q r h k. ground arith;
}

-- Two tracebufs in use, the later one first, and room for two more.
abbrev disordered : TraceNode ℤ
disordered = record {
  scnl = vertical;
  ntbuf = 2;
  maxtbuf = 4;
  tlist = packet 11 ∷ packet 7 ∷ packet 0 ∷ packet 0 ∷ [];
}

disordered-IsNode : IsNode disordered
disordered-IsNode = record { room = omega arith; full = refl }

sort_node-IsChronological_example :
    IsChronological whole (packets_of (sort_node whole disordered))
    × Perm (packets_of (sort_node whole disordered)) (packets_of disordered)
    × (length (packets_of (sort_node whole disordered)) ≡ disordered.ntbuf)
sort_node-IsChronological_example =
    sort_node-IsChronological whole (λ _. Unit) whole-IsOrdered disordered disordered-IsNode
      (tt, (tt, tt))

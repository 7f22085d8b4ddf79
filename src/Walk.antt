-- ===== src/Walk.antt =====
-- src/tbconvert.c: tree2list and sort_tlist, which scan_tracebuf hands to twalk, and scan_tracebuf.
pub mod Inorder
pub mod Sorted
pub mod Sorting
pub mod Whole
pub mod Total
pub mod Inventory
pub mod Complete
use tank_convertor.Base.{
  ℕ, zero, suc, ◌+◌, Bool, ◌==◌, if◌then◌else◌, Option, none, some, List, [], ◌∷◌, ◌++◌, get_elem?,
  set, take, drop, replicate,
}
use tank_convertor.Memory.{Mem, Endian}
use tank_convertor.Floating.{Floating}
use tank_convertor.Libc.Search.{Tree, nil, Visit, preorder, postorder, endorder, leaf, Event, twalk}
use tank_convertor.Libc.Qsort.{qsort}
use tank_convertor.Trace.{TraceNode, compare_time}
use tank_convertor.Swap.MakeLocal.{ByteOrder}
use tank_convertor.Scan.{State, Run, finished, error, segfault, out_of_fuel, scan_loop}

-- The static counter of tree2list and the array `TraceList`, whose null pointers are `none`.
pub record Listing : Type 0 where
  pub nlist : ℕ
  pub trace_list : List (Option ℕ)

-- `TraceList[nlist++] = tnode;`
unfoldable pub list_trace : ℕ → Listing → Listing
list_trace p l = record { nlist = l.nlist + 1; trace_list = set l.trace_list l.nlist (some p) }

unfoldable pub visit_list : Visit → (pointer depth : ℕ) → Listing → Listing
visit_list postorder p depth l = list_trace p l
visit_list leaf p depth l = list_trace p l
visit_list preorder p depth l = if depth == 0 then record l { nlist = 0 } else l
visit_list endorder p depth l = l

unfoldable pub tree2list : Event → Listing → Listing
tree2list e = visit_list e.which e.pointer e.depth

-- The calls of a twalk, one after the other.
unfoldable pub walk_events {ℓ} : {S : Type ℓ} → (Event → S → S) → List Event → S → S
walk_events action [] s = s
walk_events action (e ∷ es) s = walk_events action es (action e s)

module _ (f : Floating) where
  -- qsort of the elements in use.
  unfoldable pub sort_node : TraceNode f.Double → TraceNode f.Double
  sort_node t = record t {
    tlist = qsort (compare_time f) (take t.ntbuf t.tlist) ++ drop t.ntbuf t.tlist;
  }

  unfoldable pub sort_at : ℕ → List (TraceNode f.Double) → List (TraceNode f.Double)
  sort_at p nodes = elim (get_elem? nodes p) [ none ↦ nodes | some t ↦ set nodes p (sort_node t) ]

  unfoldable pub visit_sort : Visit → ℕ → List (TraceNode f.Double) → List (TraceNode f.Double)
  visit_sort postorder p nodes = sort_at p nodes
  visit_sort leaf p nodes = sort_at p nodes
  visit_sort preorder p nodes = nodes
  visit_sort endorder p nodes = nodes

  unfoldable pub sort_tlist : Event → List (TraceNode f.Double) → List (TraceNode f.Double)
  sort_tlist e = visit_sort e.which e.pointer

  -- What scan_tracebuf leaves behind: its result, `TraceList` and the nodes, and the memory.
  pub record Scanned : Type 0 where
    pub totaltrace : ℕ
    pub trace_list : List (Option ℕ)
    pub nodes : List (TraceNode f.Double)
    pub mem : Mem

  -- From the end of the loop on.
  unfoldable pub collect : State f.Double → Scanned
  collect s =
      let events = twalk s.root 0 in
      record {
        totaltrace = s.totaltrace;
        trace_list =
            (walk_events tree2list events
              (record { nlist = 0; trace_list = replicate (s.totaltrace + 1) none })).trace_list;
        nodes = walk_events sort_tlist events s.nodes;
        mem = s.mem;
      }

  -- The variables as the loop finds them.
  unfoldable pub initial : ByteOrder → Mem → ℕ → State f.Double
  initial host_byte_order m tankstart = record {
    host_byte_order = host_byte_order;
    mem = m;
    tankbyte = tankstart;
    skipbyte = 0;
    totaltrace = 0;
    nodes = [];
    root = nil;
    allocs = 0;
  }

  -- `none` is the result -1; the loop may also end in a fault, or not at all.
  pub data Scan : Type 0 where
    scanned : Scanned → Scan
    refused : Scan
    fault : Scan
    no_end : Scan

  unfoldable pub scan_tracebuf :
      (alloc : ℕ → Bool) → Endian → ByteOrder → Mem → (tankstart tankend fuel : ℕ) → Scan
  scan_tracebuf alloc host static m tankstart tankend fuel =
      elim (scan_loop f alloc tankstart host tankend fuel (initial static m tankstart)) [
        | finished s ↦ scanned (collect s)
        | error ↦ refused
        | segfault ↦ fault
        | out_of_fuel ↦ no_end
      ]

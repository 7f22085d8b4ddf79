-- ===== src/Main/Parts.antt =====
-- src/tbconvert.c: the functions that the file keeps to itself, with what main and scan_tracebuf may rely on.
use Prim.Native.String.{String}
use tank_convertor.Base.{
  ℕ, ◌+◌, ◌^◌, ◌≤◌, ◌≡◌, Bool, true, Option, none, some, List, ◌++◌, [], map, length, replicate,
  All,
}
use tank_convertor.Memory.{Mem, Endian}
use tank_convertor.Floating.{Floating}
use tank_convertor.Libc.Search.{Tree, Event, twalk}
use tank_convertor.Libc.Search.Order.{inorder}
use tank_convertor.Swap.MakeLocal.{ByteOrder}
use tank_convertor.Trace.{TraceNode}
use tank_convertor.Scan.{State}
use tank_convertor.Scan.Invariant.{IsState}
use tank_convertor.Walk.{Listing, Scan, walk_events}
use tank_convertor.Walk
use tank_convertor.Walk.Inorder.{walk-inorder}
use tank_convertor.Walk.Sorting.{IsSortedFrom, walk-IsSortedFrom}
use tank_convertor.Walk.Whole.{IsAnswer, scan_tracebuf-IsAnswer}
use tank_convertor.Command.{ConvFormat, chosen, refused, Command, argument_of, other}
use tank_convertor.Command
use tank_convertor.Command.Settings.{
  Setting, command_line, last_format, last_path, IsAsked, proc_argv-command_line,
}
use tank_convertor.Command.Usage

pub record TbconvertFunctions (f : Floating) (alloc : ℕ → Bool) : Type 0 where
  pub scan_tracebuf : Endian → ByteOrder → Mem → (tankstart tankend fuel : ℕ) → Scan f
  pub sort_tlist : Event → List (TraceNode f.Double) → List (TraceNode f.Double)
  pub tree2list : Event → Listing → Listing
  pub proc_argv : List (List ℕ) → Command
  pub usage : List String
  -- Where no allocation fails, the scan does not fail.
  pub answers :
      (host : Endian) (static : ByteOrder) (m : Mem) (tankstart tankend : ℕ)
      → ((i : ℕ) → alloc i ≡ true)
      → (fuel : ℕ) → fuel + 4096 ≤ 2 ^ 30
      → IsAnswer (scan_tracebuf host static m tankstart tankend fuel)
  -- A walk sorts the list of each node of the tree.
  pub sorts :
      (s : State f.Double)
      → IsState s
      → All
          (IsSortedFrom f s.nodes (walk_events sort_tlist (twalk s.root 0) s.nodes))
          (inorder s.root)
  -- A walk lists the nodes of the tree in order.
  pub lists :
      (t : Tree) (room : ℕ)
      → (walk_events tree2list (twalk t 0) (record {
        nlist = 0;
        trace_list = replicate (length (inorder t) + room) none;
      })).trace_list
        ≡ map some (inorder t) ++ replicate room none
  -- The arguments are read as settings and a file.
  pub settings :
      (ss : List Setting) (file : List ℕ)
      → argument_of file ≡ other
      → (format : Option ConvFormat) × IsAsked (last_format none ss) format
        × (proc_argv (command_line ss file) ≡ elim format [
          | none ↦ refused
          | some c ↦
              chosen (record { conv_format = c; out_path = last_path [] ss; input_file = file })
        ])

unfoldable pub tbconvert_functions : (f : Floating) (alloc : ℕ → Bool) → TbconvertFunctions f alloc
tbconvert_functions f alloc = record {
  scan_tracebuf = Walk.scan_tracebuf f alloc;
  sort_tlist = Walk.sort_tlist f;
  tree2list = Walk.tree2list;
  proc_argv = Command.proc_argv;
  usage = Usage.usage;
  answers = scan_tracebuf-IsAnswer f alloc;
  sorts = walk-IsSortedFrom f;
  lists = walk-inorder;
  settings = proc_argv-command_line;
}

-- ===== src/Scan.antt =====
-- src/tbconvert.c: the loop of scan_tracebuf.
pub mod Invariant
pub mod Record
pub mod Locate
pub mod View
pub mod Step
pub mod Progress
pub mod Growth
pub mod Rounds
pub mod Success
pub mod Termination
pub mod Passes
pub mod Tank
use tank_convertor.Base.{
  ℕ, zero, suc, ◌+◌, ◌-◌, ◌*◌, ◌%◌, ◌^◌, Bool, true, false, ◌==◌, ltb, leb, if◌then◌else◌, Option,
  none, some, List, [], ◌∷◌, ◌++◌, ℤ, pos, negsuc, ◌*ℤ◌, size_of_int, length, get_elem?, set, take,
  drop, replicate,
}
use tank_convertor.Memory.{Mem, Endian, load}
use tank_convertor.Floating.{Floating}
use tank_convertor.Header.{
  trace2_sta_len, trace2_net_len, trace2_chan_len, trace2_loc_len, max_tracebuf_siz,
  trace2_header_size, sta_at, net_at, chan_at, loc_at, datatype_at, Numbers, numbers_at,
}
use tank_convertor.Swap.MakeLocal.{ByteOrder, Local, swap_wavemsg2_makelocal}
use tank_convertor.Libc.Strings.{atoi}
use tank_convertor.Libc.Search.{Tree, nil, Visit, Event, tfind, tsearch, twalk}
use tank_convertor.Libc.Qsort.{qsort}
use tank_convertor.Trace.{max_num_tbuf, TBuf, Scnl, TraceNode, compare_scnl, compare_time}

-- The local variables and the globals. A pointer to a TRACE_NODE is its index in `nodes`, in the
-- order of their allocation; `allocs` counts the calls of calloc, tsearch and realloc so far.
pub record State (D : Type 0) : Type 0 where
  pub host_byte_order : ByteOrder
  pub mem : Mem
  pub tankbyte : ℕ
  pub skipbyte : ℕ
  pub totaltrace : ℕ
  pub nodes : List (TraceNode D)
  pub root : Tree
  pub allocs : ℕ

-- How a round of the loop ends: at its condition, by `break`, by `return -1`, or with a write through
-- the null pointer of a calloc that nobody checked, or behind the end of the list of a trace.
pub data Outcome (D : Type 0) : Type 0 where
  again : State D → Outcome D
  stop : State D → Outcome D
  failed : Outcome D
  crashed : Outcome D

-- How the loop ends.
pub data Run (D : Type 0) : Type 0 where
  finished : State D → Run D
  error : Run D
  segfault : Run D
  out_of_fuel : Run D

abbrev pub is_zero : ℤ → Bool
is_zero (pos n) = n == 0
is_zero (negsuc n) = false

abbrev empty_scnl : Scnl
empty_scnl = record { sta = []; chan = []; net = []; loc = [] }

-- The key of the node that a pointer of the tree points to.
unfoldable pub key_of : {D : Type 0} → List (TraceNode D) → ℕ → Scnl
key_of nodes p = elim (get_elem? nodes p) [ none ↦ empty_scnl | some t ↦ t.scnl ]

-- "Check there are any space in the location code"
unfoldable pub dash_spaces : List ℕ → List ℕ
dash_spaces [] = []
dash_spaces (c ∷ s) = if c == 0 then c ∷ s else (if c == b' ' then b'-' else c) ∷ dash_spaces s

-- What `tkey` holds of the header at `p`.
unfoldable pub scnl_at : Mem → ℕ → Scnl
scnl_at m p = record {
  sta = load m (sta_at p) trace2_sta_len;
  chan = load m (chan_at p) trace2_chan_len;
  net = load m (net_at p) trace2_net_len;
  loc = dash_spaces (load m (loc_at p) trace2_loc_len);
}

pub data Located (D : Type 0) : Type 0 where
  found : ℕ → State D → Located D
  no_memory : Located D
  no_list : Located D

module _ (f : Floating) where
  -- A TBUF of zero bytes.
  abbrev pub zero_tbuf : TBuf f.Double
  zero_tbuf = record { offset = 0; size = 0; time = f.double_of_bits 0 }

  -- The node for a whole new trace.
  unfoldable pub new_node : Scnl → TraceNode f.Double
  new_node k = record {
    scnl = k;
    ntbuf = 0;
    maxtbuf = max_num_tbuf;
    tlist = replicate max_num_tbuf zero_tbuf;
  }

  -- realloc of a list to `n` elements. What is in the new ones nobody reads before it is written.
  unfoldable pub realloc_tlist : ℕ → List (TBuf f.Double) → List (TBuf f.Double)
  realloc_tlist n l = take n l ++ replicate (n - length l) zero_tbuf

  module _ (alloc : ℕ → Bool) where
    -- "Find which trace". `alloc i` says whether the allocation number `i` succeeds: for a new trace
    -- the node, its list and the node of the tree are allocated, in this order.
    unfoldable pub locate : Scnl → State f.Double → Located f.Double
    locate k s = elim (tfind compare_scnl (key_of s.nodes) k s.root) [
      | some p ↦ found p s
      | none ↦
          let p = length s.nodes in
          let nodes = s.nodes ++ (new_node k ∷ []) in
          let s1 = record s {
            nodes = nodes;
            root = tsearch compare_scnl (key_of nodes) p s.root;
            totaltrace = s.totaltrace + 1;
            allocs = s.allocs + 3;
          } in
          if alloc s.allocs
          then if alloc (s.allocs + 2)
            then if alloc (s.allocs + 1) then found p s1 else no_list
            else no_memory
          else no_memory
    ]

    -- "Allocate more space if necessary"
    unfoldable pub grow : ℕ → TraceNode f.Double → State f.Double → Outcome f.Double
    grow p t s =
        let n = t.maxtbuf * 2 % 2 ^ 32 in
        let t1 = record t { maxtbuf = n; tlist = realloc_tlist n t.tlist } in
        if alloc s.allocs
        then again (record s { nodes = set s.nodes p t1; allocs = s.allocs + 1 })
        else failed

    -- "Now checking to see if we store this packet at all"
    unfoldable pub keep_packet : ℤ → ℕ → TraceNode f.Double → State f.Double → Outcome f.Double
    keep_packet rc p t s =
        let t1 = record t { ntbuf = if is_zero rc then (t.ntbuf + 1) % 2 ^ 32 else t.ntbuf } in
        let s1 = record s { nodes = set s.nodes p t1 } in
        if leb t1.maxtbuf t1.ntbuf then grow p t1 s1 else again s1

    module _ (tankstart : ℕ) where
      -- From "Derive the data length" on, for the node at `p`. A write behind `tlist` is a fault.
      unfoldable pub record_packet :
          ℤ → (bytes_per_sample : ℕ) → Numbers f → ℕ → State f.Double → Outcome f.Double
      record_packet rc bytes_per_sample h p s = elim (get_elem? s.nodes p) [
        | none ↦ crashed
        | some t ↦
            let size =
              (size_of_int (pos bytes_per_sample *ℤ h.nsamp) + trace2_header_size) % 2 ^ 64 in
            let entry : TBuf f.Double = record {
              offset = (s.tankbyte + 2 ^ 64 - tankstart) % 2 ^ 64;
              size = size;
              time = h.endtime;
            } in
            let t1 = record t { tlist = set t.tlist t.ntbuf entry } in
            let s1 = record s {
              nodes = set s.nodes p t1;
              tankbyte = (s.tankbyte + size) % 2 ^ 64;
            } in
            if ltb t.ntbuf (length t.tlist)
            then if ltb max_tracebuf_siz size then again s1 else keep_packet rc p t1 s1
            else crashed
      ]

      module _ (host : Endian) (tankend : ℕ) where
        -- The rest of a round, for a tracebuf that is not skipped.
        unfoldable pub fetch : ℤ → State f.Double → Outcome f.Double
        fetch rc s = elim (locate (scnl_at s.mem s.tankbyte) s) [
          | no_memory ↦ failed
          | no_list ↦ crashed
          | found p s1 ↦
              record_packet rc (atoi s.mem (datatype_at s.tankbyte + 1))
                (numbers_at f host s.mem s.tankbyte) p s1
        ]

        -- `rc == -1`: move on by a byte.
        unfoldable pub skip_byte : State f.Double → Outcome f.Double
        skip_byte s =
            if ltb (s.tankbyte + 1) tankend
            then again (record s { tankbyte = s.tankbyte + 1; skipbyte = s.skipbyte + 1 })
            else stop (record s { tankbyte = s.tankbyte + 1 })

        unfoldable pub dispatch : ℤ → State f.Double → Outcome f.Double
        dispatch (negsuc zero) s = skip_byte s
        dispatch (negsuc (suc n)) s = fetch (negsuc (suc n)) s
        dispatch (pos n) s = fetch (pos n) (record s { skipbyte = 0 })

        -- One round of the loop.
        unfoldable pub scan_step : State f.Double → Outcome f.Double
        scan_step s =
            let r = swap_wavemsg2_makelocal f host s.host_byte_order s.tankbyte s.mem in
            dispatch r.rc (record s { host_byte_order = r.host_byte_order; mem = r.mem })

        -- The loop, for `fuel` rounds at most.
        unfoldable pub scan_loop : ℕ → State f.Double → Run f.Double
        scan_loop zero s = out_of_fuel
        scan_loop (suc fuel) s = elim (scan_step s) [
          | again s1 ↦
              let rest = scan_loop fuel s1 in if ltb s1.tankbyte tankend then rest else finished s1
          | stop s1 ↦ finished s1
          | failed ↦ error
          | crashed ↦ segfault
        ]

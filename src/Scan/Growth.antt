-- ===== src/Scan/Growth.antt =====
-- How long the lists of the traces are after `n` rounds of the loop of scan_tracebuf.
use tank_convertor.Base.{
  ℕ, zero, suc, ◌+◌, ◌*◌, ◌%◌, ◌^◌, ◌≤◌, ◌<◌, ◌≡◌, refl, Bool, true, false, Bool-cases, inl, inr,
  leb, ltb, if◌then◌else◌, some, Option-cases, List, [], ◌∷◌, length, get_elem?, All, All-append,
  All-set, All-get_elem?, ℤ, pos, negsuc, arith,
}
use tank_convertor.Floating.{Floating}
use tank_convertor.Memory.{Endian}
use tank_convertor.Header.{Numbers, numbers_at, datatype_at}
use tank_convertor.Libc.Strings.{atoi}
use tank_convertor.Libc.Search.{tfind}
use tank_convertor.Swap.MakeLocal.{swap_wavemsg2_makelocal}
use tank_convertor.Trace.{Scnl, TraceNode, compare_scnl}
use tank_convertor.Scan.{
  State, again, is_zero, key_of, Located, found, no_memory, no_list, new_node, locate, grow,
  keep_packet, scnl_at, record_packet, fetch, skip_byte, dispatch, scan_step,
}
use tank_convertor.Scan.Invariant.{IsSmall, Ends}
use tank_convertor.Scan.Record.{size_of}
use tank_convertor.Scan.Locate.{Finds, three_allocs, with_trace}

-- A list doubles only when it is full.
abbrev Held : {D : Type 0} → ℕ → TraceNode D → Type 0
Held n t = (t.ntbuf ≤ n) × (t.maxtbuf ≤ 4096 + 2 * n)

-- No trace has more than `n` tracebufs, or a list that is longer than that takes.
abbrev pub IsHeld : {D : Type 0} → ℕ → State D → Type 0
IsHeld n s = All (Held n) s.nodes

later : {D : Type 0} (n : ℕ) (ts : List (TraceNode D)) → All (Held n) ts → All (Held (suc n)) ts
later n [] a = tt
later n (t ∷ ts) a = ((omega (arith, a.0.0), omega (arith, a.0.1)), later n ts a.1)

pub IsHeld-IsSmall : {D : Type 0} (n : ℕ) (s : State D) → IsHeld n s → n + 4096 < 2 ^ 30 → IsSmall s
IsHeld-IsSmall {D = D} n s h lt = go s.nodes h
  where
    go : (ts : List (TraceNode D)) → All (Held n) ts → All (λ t. t.maxtbuf < 2 ^ 31) ts
    go [] a = tt
    go (t ∷ ts) a = (omega (arith, a.0.1, lt), go ts a.1)

next_count : (b : Bool) (n k : ℕ) → k ≤ n → (if b then (k + 1) % 2 ^ 32 else k) ≤ suc n
next_count true n k h = omega arith
next_count false n k h = omega arith

module _ (f : Floating) (alloc : ℕ → Bool) where
  grow-IsHeld :
      (n p : ℕ) (t : TraceNode f.Double) (s : State f.Double)
      → t.ntbuf ≤ n
      → t.maxtbuf ≤ t.ntbuf
      → IsHeld n s
      → Ends (IsHeld n) (grow f alloc p t s)
  unfolding grow
  grow-IsHeld n p t s used full h = elim (Bool-cases (alloc s.allocs)) [
    | inl ok ↦ rw ok (All-set (Held n) s.nodes p _ h (used, omega arith))
    | inr out ↦ rw out tt
  ]

  settled-IsHeld :
      (n p : ℕ) (t : TraceNode f.Double) (s : State f.Double)
      → t.ntbuf ≤ n
      → IsHeld n s
      → Ends (IsHeld n) (if leb t.maxtbuf t.ntbuf then grow f alloc p t s else again s)
  settled-IsHeld n p t s used h = elim (Bool-cases (leb t.maxtbuf t.ntbuf)) [
    | inl full ↦ rw full (grow-IsHeld n p t s used (ground arith) h)
    | inr room ↦ rw room h
  ]

  keep_packet-IsHeld :
      (n : ℕ) (rc : ℤ) (p : ℕ) (t : TraceNode f.Double) (s : State f.Double)
      → Held n t
      → IsHeld n s
      → Ends (IsHeld (suc n)) (keep_packet f alloc rc p t s)
  unfolding keep_packet
  keep_packet-IsHeld n rc p t s held h =
      let used = next_count (is_zero rc) n t.ntbuf held.0 in
      settled-IsHeld (suc n) p _ _ used
        (All-set (Held (suc n)) s.nodes p _ (later n s.nodes h) (used, omega (arith, held.1)))

  some-IsHeld :
      (tankstart n : ℕ) (rc : ℤ) (width : ℕ) (h : Numbers f) (p : ℕ) (s : State f.Double)
      (t : TraceNode f.Double)
      → get_elem? s.nodes p ≡ some t
      → IsHeld n s
      → Ends (IsHeld (suc n)) (record_packet f alloc tankstart rc width h p s)
  unfolding record_packet
  some-IsHeld tankstart n rc width h p s t e held =
      let own = All-get_elem? (Held n) s.nodes p t held e in
      let written = All-set (Held n) s.nodes p _ held own in
      elim (Bool-cases (ltb t.ntbuf (length t.tlist))) [
        | inr overrun ↦ rw (e, overrun, record_packet) tt
        | inl room ↦
            rw (e, record_packet, room)
              (elim (Bool-cases (ltb 4096 (size_of width h.nsamp))) [
                | inl large ↦ rw large (later n _ written)
                | inr fits ↦ rw fits (keep_packet-IsHeld n rc p _ _ own written)
              ])
      ]

  record_packet-IsHeld :
      (tankstart n : ℕ) (rc : ℤ) (width : ℕ) (h : Numbers f) (p : ℕ) (s : State f.Double)
      → IsHeld n s
      → Ends (IsHeld (suc n)) (record_packet f alloc tankstart rc width h p s)
  unfolding record_packet
  record_packet-IsHeld tankstart n rc width h p s held = elim (Option-cases (get_elem? s.nodes p)) [
    | inl e ↦ rw (e, record_packet) tt
    | inr (t, e) ↦ some-IsHeld tankstart n rc width h p s t e held
  ]

  locate-IsHeld :
      (n : ℕ) (k : Scnl) (s : State f.Double)
      → IsHeld n s
      → Finds (λ p s1. IsHeld n s1) (locate f alloc k s)
  unfolding locate new_node
  locate-IsHeld n k s h = elim (Option-cases (tfind compare_scnl (key_of s.nodes) k s.root)) [
    | inr (p, e) ↦ rw (e, locate) h
    | inl e ↦
        rw (e, locate)
          (three_allocs (λ q s1. IsHeld n s1) (length s.nodes) (with_trace f k s) (alloc s.allocs)
            (alloc (s.allocs + 2)) (alloc (s.allocs + 1))
            (All-append (Held n) s.nodes _ h ((omega arith, omega arith), tt)))
  ]

  module _ (tankstart : ℕ) (host : Endian) (tankend : ℕ) where
    located-IsHeld :
        (n : ℕ) (rc : ℤ) (s : State f.Double) (lo : Located f.Double)
        → locate f alloc (scnl_at s.mem s.tankbyte) s ≡ lo
        → Finds (λ p s1. IsHeld n s1) lo
        → Ends (IsHeld (suc n)) (fetch f alloc tankstart host tankend rc s)
    unfolding fetch
    located-IsHeld n rc s (found p s1) e l =
        rw (e, fetch)
          (record_packet-IsHeld tankstart n rc (atoi s.mem (datatype_at s.tankbyte + 1))
            (numbers_at f host s.mem s.tankbyte) p s1 l)
    located-IsHeld n rc s no_memory e l = rw (e, fetch) tt
    located-IsHeld n rc s no_list e l = rw (e, fetch) tt

    fetch-IsHeld :
        (n : ℕ) (rc : ℤ) (s : State f.Double)
        → IsHeld n s
        → Ends (IsHeld (suc n)) (fetch f alloc tankstart host tankend rc s)
    fetch-IsHeld n rc s h =
        located-IsHeld n rc s _ refl (locate-IsHeld n (scnl_at s.mem s.tankbyte) s h)

    dispatch-IsHeld :
        (n : ℕ) (rc : ℤ) (s : State f.Double)
        → IsHeld n s
        → Ends (IsHeld (suc n)) (dispatch f alloc tankstart host tankend rc s)
    unfolding dispatch skip_byte
    dispatch-IsHeld n (negsuc zero) s h = elim (Bool-cases (ltb (s.tankbyte + 1) tankend)) [
      | inl more ↦ rw more (later n s.nodes h)
      | inr over ↦ rw over (later n s.nodes h)
    ]
    dispatch-IsHeld n (negsuc (suc k)) s h = fetch-IsHeld n (negsuc (suc k)) s h
    dispatch-IsHeld n (pos k) s h = fetch-IsHeld n (pos k) (record s { skipbyte = 0 }) h

    -- A round adds at most one tracebuf to a trace.
    pub scan_step-IsHeld :
        (n : ℕ) (s : State f.Double)
        → IsHeld n s
        → Ends (IsHeld (suc n)) (scan_step f alloc tankstart host tankend s)
    unfolding scan_step
    scan_step-IsHeld n s h =
        let r = swap_wavemsg2_makelocal f host s.host_byte_order s.tankbyte s.mem in
        dispatch-IsHeld n r.rc (record s { host_byte_order = r.host_byte_order; mem = r.mem }) h

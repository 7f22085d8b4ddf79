-- ===== src/Scan/Progress.antt =====
-- While no allocation fails, a round of the loop of scan_tracebuf ends neither with -1 nor in a fault.
use tank_convertor.Base.{
  All-get_elem?, lt→ltb, arith, ℕ, zero, suc, ◌+◌, ◌<◌, ◌≡◌, refl, Bool, true, false, Bool-cases,
  inl, inr, ltb, if◌then◌else◌, some, Option-cases, length, get_elem?, get_elem?-some, ℤ, pos,
  negsuc,
}
use tank_convertor.Floating.{Floating}
use tank_convertor.Memory.{Endian}
use tank_convertor.Header.{Numbers}
use tank_convertor.Libc.Search.{tfind}
use tank_convertor.Libc.Search.Order.{tfind-Every}
use tank_convertor.Swap.MakeLocal.{swap_wavemsg2_makelocal}
use tank_convertor.Trace.{Scnl, TraceNode, compare_scnl}
use tank_convertor.Trace.Order.{compare_scnl-IsComparison}
use tank_convertor.Scan.{
  State, Outcome, again, stop, failed, crashed, key_of, found, locate, grow, keep_packet, scnl_at,
  record_packet, fetch, skip_byte, dispatch, scan_step,
}
use tank_convertor.Scan.Invariant.{IsNode, IsState, IsSmall}
use tank_convertor.Scan.Record.{size_of}
use tank_convertor.Scan.Locate.{IsLocated, with_trace, locate-IsLocated}
use tank_convertor.Scan.Step.{same_traces}

-- The round ends in a state.
abbrev pub GoesOn : {D : Type 0} → Outcome D → Type 0
GoesOn (again s) = Unit
GoesOn (stop s) = Unit
GoesOn failed = ⊥
GoesOn crashed = ⊥

module _ (f : Floating) (alloc : ℕ → Bool) (ok : (i : ℕ) → alloc i ≡ true) where
  grow-GoesOn : (p : ℕ) (t : TraceNode f.Double) (s : State f.Double) → GoesOn (grow f alloc p t s)
  unfolding grow
  grow-GoesOn p t s = rw (ok s.allocs) tt

  settled-GoesOn :
      (b : Bool) (p : ℕ) (t : TraceNode f.Double) (s s1 : State f.Double)
      → GoesOn (if b then grow f alloc p t s else again s1)
  settled-GoesOn true p t s s1 = grow-GoesOn p t s
  settled-GoesOn false p t s s1 = tt

  keep_packet-GoesOn :
      (rc : ℤ) (p : ℕ) (t : TraceNode f.Double) (s : State f.Double)
      → GoesOn (keep_packet f alloc rc p t s)
  unfolding keep_packet
  keep_packet-GoesOn rc p t s = settled-GoesOn _ p _ _ _

  record_packet-GoesOn :
      (tankstart : ℕ) (rc : ℤ) (width : ℕ) (h : Numbers f) (p : ℕ) (s : State f.Double)
      (t : TraceNode f.Double)
      → get_elem? s.nodes p ≡ some t
      → IsNode t
      → GoesOn (record_packet f alloc tankstart rc width h p s)
  unfolding record_packet
  record_packet-GoesOn tankstart rc width h p s t e v =
      let room = lt→ltb t.ntbuf (length t.tlist) (omega (arith, v.room, v.full)) in
      rw (e, record_packet, room)
        (elim (Bool-cases (ltb 4096 (size_of width h.nsamp))) [
          | inl large ↦ rw large tt
          | inr fits ↦ rw fits (keep_packet-GoesOn rc p _ _)
        ])

  locate-found :
      (k : Scnl) (s : State f.Double)
      → (p : ℕ) × (s1 : State f.Double) × (locate f alloc k s ≡ found p s1)
  unfolding locate
  locate-found k s = elim (Option-cases (tfind compare_scnl (key_of s.nodes) k s.root)) [
    | inr (p, e) ↦ (p, s, rw (e, locate) refl)
    | inl e ↦ (
      length s.nodes,
      with_trace f k s,
      rw (e, locate, ok s.allocs, ok (s.allocs + 2), ok (s.allocs + 1)) refl,
    )
  ]

  module _ (tankstart : ℕ) (host : Endian) (tankend : ℕ) where
    located-GoesOn :
        (rc : ℤ) (s : State f.Double) (p : ℕ) (s1 : State f.Double)
        → locate f alloc (scnl_at s.mem s.tankbyte) s ≡ found p s1
        → IsLocated s s1 (scnl_at s.mem s.tankbyte) p
        → GoesOn (fetch f alloc tankstart host tankend rc s)
    unfolding fetch
    located-GoesOn rc s p s1 e l =
        let within : p < length s1.nodes =
          tfind-Every compare_scnl (key_of s1.nodes) compare_scnl-IsComparison
            (λ q. q < length s1.nodes) (scnl_at s.mem s.tankbyte) s1.root p l.state.inside l.at in
        let (t, at) = get_elem?-some s1.nodes p within in
        rw (e, fetch)
          (record_packet-GoesOn tankstart rc _ _ p s1 t at
            (All-get_elem? IsNode s1.nodes p t l.state.each at))

    fetch-GoesOn :
        (rc : ℤ) (s : State f.Double)
        → IsState s
        → IsSmall s
        → GoesOn (fetch f alloc tankstart host tankend rc s)
    fetch-GoesOn rc s v small =
        let k = scnl_at s.mem s.tankbyte in
        let (p, s1, e) = locate-found k s in
        located-GoesOn rc s p s1 e (rw e at (locate-IsLocated f alloc k s v small))

    dispatch-GoesOn :
        (rc : ℤ) (s : State f.Double)
        → IsState s
        → IsSmall s
        → GoesOn (dispatch f alloc tankstart host tankend rc s)
    unfolding dispatch skip_byte
    dispatch-GoesOn (negsuc zero) s v small = elim (Bool-cases (ltb (s.tankbyte + 1) tankend)) [
      | inl more ↦ rw more tt
      | inr over ↦ rw over tt
    ]
    dispatch-GoesOn (negsuc (suc n)) s v small = fetch-GoesOn (negsuc (suc n)) s v small
    dispatch-GoesOn (pos n) s v small =
        let s' : State f.Double = record s { skipbyte = 0 } in
        fetch-GoesOn (pos n) s' (same_traces s s' v refl refl refl) small

    -- If no allocation fails, a round from a well-formed state whose lists have fewer than 2 ^ 31
    -- elements ends in a state: scan_tracebuf does not return -1 in it, and writes neither through a
    -- null pointer nor behind the end of a list.
    pub scan_step-GoesOn :
        (s : State f.Double)
        → IsState s
        → IsSmall s
        → GoesOn (scan_step f alloc tankstart host tankend s)
    unfolding scan_step
    scan_step-GoesOn s v small =
        let r = swap_wavemsg2_makelocal f host s.host_byte_order s.tankbyte s.mem in
        let s' : State f.Double = record s { host_byte_order = r.host_byte_order; mem = r.mem } in
        dispatch-GoesOn r.rc s' (same_traces s s' v refl refl refl) small

-- ===== src/Scan/Passes.antt =====
-- A round that comes to a message of a known type, where no allocation fails: what it leaves behind
-- besides the traces.
use tank_convertor.Base.{
  All-get_elem?, lt→ltb, arith, ℕ, ◌+◌, ◌%◌, ◌^◌, ◌<◌, ◌≡◌, refl, ap, ◌∙◌, Bool, true, false,
  Bool-cases, inl, inr, ltb, if◌then◌else◌, some, Option-cases, length, get_elem?, get_elem?-some,
  ℤ,
}
use tank_convertor.Floating.{Floating}
use tank_convertor.Memory.{Endian}
use tank_convertor.Header.{Numbers, numbers_at, datatype_at}
use tank_convertor.Libc.Strings.{atoi}
use tank_convertor.Libc.Search.{tfind}
use tank_convertor.Libc.Search.Order.{tfind-Every}
use tank_convertor.Trace.{Scnl, TraceNode, compare_scnl}
use tank_convertor.Trace.Order.{compare_scnl-IsComparison}
use tank_convertor.Scan.{
  State, Outcome, again, key_of, found, locate, grow, keep_packet, scnl_at, record_packet, fetch,
}
use tank_convertor.Scan.Invariant.{IsNode, IsState, IsSmall}
use tank_convertor.Scan.Record.{size_of}
use tank_convertor.Scan.Locate.{IsLocated, with_trace, locate-IsLocated}

-- `s1` has the memory and the byte order of `s`, and its pointer is at `q`.
pub record IsMoved {D : Type 0} (s : State D) (q : ℕ) (s1 : State D) : Type 0 where
  pub mem : s1.mem ≡ s.mem
  pub order : s1.host_byte_order ≡ s.host_byte_order
  pub pointer : s1.tankbyte ≡ q

-- The round goes on, to a state that has moved.
abbrev pub Passes : {D : Type 0} → State D → ℕ → Outcome D → Type 0
Passes {D} s q o = (s1 : State D) × (o ≡ again s1) × IsMoved s q s1

-- A state with another one's memory, byte order and pointer.
abbrev pub Keeps : {D : Type 0} → State D → State D → Type 0
Keeps s s1 = IsMoved s s.tankbyte s1

module _ (f : Floating) (alloc : ℕ → Bool) (ok : (i : ℕ) → alloc i ≡ true) where
  grow-Passes :
      (p : ℕ) (t : TraceNode f.Double) (s : State f.Double)
      → Passes s s.tankbyte (grow f alloc p t s)
  unfolding grow
  grow-Passes p t s =
      rw (ok s.allocs) (_, refl, record { mem = refl; order = refl; pointer = refl })

  settled-Passes :
      (b : Bool) (p : ℕ) (t : TraceNode f.Double) (s : State f.Double)
      → Passes s s.tankbyte (if b then grow f alloc p t s else again s)
  settled-Passes true p t s = grow-Passes p t s
  settled-Passes false p t s = (s, refl, record { mem = refl; order = refl; pointer = refl })

  keep_packet-Passes :
      (rc : ℤ) (p : ℕ) (t : TraceNode f.Double) (s : State f.Double)
      → Passes s s.tankbyte (keep_packet f alloc rc p t s)
  unfolding keep_packet
  keep_packet-Passes rc p t s =
      let (s1, e, moved) = settled-Passes _ p _ _ in
      (s1, e, record { mem = moved.mem; order = moved.order; pointer = moved.pointer })

  record_packet-Passes :
      (tankstart : ℕ) (rc : ℤ) (width : ℕ) (h : Numbers f) (p : ℕ) (s : State f.Double)
      (t : TraceNode f.Double)
      → get_elem? s.nodes p ≡ some t
      → IsNode t
      → Passes s
          ((s.tankbyte + size_of width h.nsamp) % 2 ^ 64)
          (record_packet f alloc tankstart rc width h p s)
  unfolding record_packet
  record_packet-Passes tankstart rc width h p s t e v =
      let room = lt→ltb t.ntbuf (length t.tlist) (omega (arith, v.room, v.full)) in
      rw (e, record_packet, room)
        (elim (Bool-cases (ltb 4096 (size_of width h.nsamp))) [
          | inl large ↦ rw large (_, refl, record { mem = refl; order = refl; pointer = refl })
          | inr fits ↦
              let (s1, o, moved) = keep_packet-Passes rc p _ _ in
              rw fits
                (s1, o, record { mem = moved.mem; order = moved.order; pointer = moved.pointer })
        ])

  locate-Keeps :
      (k : Scnl) (s : State f.Double)
      → (p : ℕ) × (s1 : State f.Double) × (locate f alloc k s ≡ found p s1) × Keeps s s1
  unfolding locate
  locate-Keeps k s = elim (Option-cases (tfind compare_scnl (key_of s.nodes) k s.root)) [
    | inr (p, e) ↦ (p, s, rw (e, locate) refl, record { mem = refl; order = refl; pointer = refl })
    | inl e ↦ (
      length s.nodes,
      with_trace f k s,
      rw (e, locate, ok s.allocs, ok (s.allocs + 2), ok (s.allocs + 1)) refl,
      record { mem = refl; order = refl; pointer = refl },
    )
  ]

  module _ (tankstart : ℕ) (host : Endian) (tankend : ℕ) where
    located-Passes :
        (rc : ℤ) (s : State f.Double) (p : ℕ) (s1 : State f.Double)
        → locate f alloc (scnl_at s.mem s.tankbyte) s ≡ found p s1
        → Keeps s s1
        → IsLocated s s1 (scnl_at s.mem s.tankbyte) p
        → (let size =
              size_of
                (atoi s.mem (datatype_at s.tankbyte + 1))
                (numbers_at f host s.mem s.tankbyte).nsamp in
            Passes s ((s.tankbyte + size) % 2 ^ 64) (fetch f alloc tankstart host tankend rc s))
    unfolding fetch
    located-Passes rc s p s1 e kept l =
        let within : p < length s1.nodes =
          tfind-Every compare_scnl (key_of s1.nodes) compare_scnl-IsComparison
            (λ q. q < length s1.nodes) (scnl_at s.mem s.tankbyte) s1.root p l.state.inside l.at in
        let (t, at) = get_elem?-some s1.nodes p within in
        let size =
          size_of (atoi s.mem (datatype_at s.tankbyte + 1))
            (numbers_at f host s.mem s.tankbyte).nsamp in
        let v : IsNode t = All-get_elem? IsNode s1.nodes p t l.state.each at in
        let (s2, o, moved) = record_packet-Passes tankstart rc _ _ p s1 t at v in
        rw (e, fetch)
          (
            s2,
            o,
            record {
              mem = moved.mem ∙ kept.mem;
              order = moved.order ∙ kept.order;
              pointer = moved.pointer ∙ ap (λ (q : ℕ). (q + size) % 2 ^ 64) kept.pointer;
            },
          )

    -- If no allocation fails, the rest of a round from a well-formed state moves the pointer over the
    -- tracebuf, and leaves the memory alone.
    pub fetch-Passes :
        (rc : ℤ) (s : State f.Double)
        → IsState s
        → IsSmall s
        → (let size =
              size_of
                (atoi s.mem (datatype_at s.tankbyte + 1))
                (numbers_at f host s.mem s.tankbyte).nsamp in
            Passes s ((s.tankbyte + size) % 2 ^ 64) (fetch f alloc tankstart host tankend rc s))
    fetch-Passes rc s v small =
        let k = scnl_at s.mem s.tankbyte in
        let (p, s1, e, kept) = locate-Keeps k s in
        located-Passes rc s p s1 e kept (rw e at (locate-IsLocated f alloc k s v small))

-- ===== src/Scan/Termination.antt =====
-- The loop of scan_tracebuf ends, if no header that it comes to has a negative number of samples.
use tank_convertor.Base.{
  length, ℕ, zero, suc, ◌+◌, ◌*◌, ◌%◌, ◌^◌, ◌<◌, ◌≡◌, refl, Bool, true, false, Bool-cases, inl, inr,
  ltb, if◌then◌else◌, Option-cases, get_elem?, ℤ, pos, negsuc, ◌*ℤ◌, arith,
}
use tank_convertor.Floating.{Floating}
use tank_convertor.Memory.{Endian}
use tank_convertor.Header.{Numbers, numbers_at, datatype_at}
use tank_convertor.Libc.Strings.{atoi}
use tank_convertor.Libc.Search.{tfind}
use tank_convertor.Swap.MakeLocal.{swap_wavemsg2_makelocal}
use tank_convertor.Trace.{Scnl, TraceNode, compare_scnl}
use tank_convertor.Scan.{
  State, Outcome, again, stop, failed, crashed, Run, finished, error, segfault, out_of_fuel, key_of,
  Located, found, no_memory, no_list, locate, grow, keep_packet, scnl_at, record_packet, fetch,
  skip_byte, dispatch, scan_step, scan_loop,
}
use tank_convertor.Scan.Invariant.{Ends}
use tank_convertor.Scan.Record.{size_of}

pub product : (w n : ℕ) → pos w *ℤ pos n ≡ pos (w * n)
unfolding ◌*ℤ◌
product w n = ground arith

module _ (f : Floating) (alloc : ℕ → Bool) (tankstart : ℕ) where
  -- The round ends with the pointer at `q`, if it ends in a state.
  abbrev At : ℕ → Outcome f.Double → Type 0
  At q o = Ends (λ s. s.tankbyte ≡ q) o

  settled-At :
      (c : Bool) (p : ℕ) (t : TraceNode f.Double) (s s1 : State f.Double)
      → s1.tankbyte ≡ s.tankbyte
      → At s.tankbyte (if c then grow f alloc p t s else again s1)
  unfolding grow
  settled-At false p t s s1 e = e
  settled-At true p t s s1 e = elim (Bool-cases (alloc s.allocs)) [
    | inl got ↦ rw got refl
    | inr none_left ↦ rw none_left tt
  ]

  keep_packet-At :
      (rc : ℤ) (p : ℕ) (t : TraceNode f.Double) (s : State f.Double)
      → At s.tankbyte (keep_packet f alloc rc p t s)
  unfolding keep_packet
  keep_packet-At rc p t s = settled-At _ p _ _ _ refl

  record_packet-At :
      (rc : ℤ) (width n : ℕ) (h : Numbers f) (p : ℕ) (s : State f.Double)
      → h.nsamp ≡ pos n
      → s.tankbyte + (width * n + 64) < 2 ^ 64
      → At (s.tankbyte + (width * n + 64)) (record_packet f alloc tankstart rc width h p s)
  unfolding record_packet
  record_packet-At rc width n h p s e small =
      let size : size_of width h.nsamp ≡ width * n + 64 = rw (e, product width n) (omega arith) in
      let moved : (s.tankbyte + size_of width h.nsamp) % 2 ^ 64 ≡ s.tankbyte + (width * n + 64) =
        rw size (omega arith) in
      elim (Option-cases (get_elem? s.nodes p)) [
        | inl gone ↦ rw (record_packet, gone) tt
        | inr (t, there) ↦ elim (Bool-cases (ltb t.ntbuf (length t.tlist))) [
          | inr overrun ↦ rw (record_packet, there, overrun) tt
          | inl room ↦ elim (Bool-cases (ltb 4096 (size_of width h.nsamp))) [
            | inl large ↦ rw (record_packet, there, room, large) moved
            | inr fits ↦ rw (record_packet, there, room, fits, ← moved) (keep_packet-At rc p _ _)
          ]
        ]
      ]

  -- The pointer is not moved by the search for the node.
  abbrev Same : ℕ → Located f.Double → Type 0
  Same q (found p s) = s.tankbyte ≡ q
  Same q no_memory = Unit
  Same q no_list = Unit

  locate-Same : (k : Scnl) (s : State f.Double) → Same s.tankbyte (locate f alloc k s)
  unfolding locate
  locate-Same k s = elim (Option-cases (tfind compare_scnl (key_of s.nodes) k s.root)) [
    | inr (p, e) ↦ rw (e, locate) refl
    | inl e ↦ elim (Bool-cases (alloc s.allocs)) [
      | inr no_node ↦ rw (e, locate, no_node) tt
      | inl node ↦ elim (Bool-cases (alloc (s.allocs + 2))) [
        | inr no_leaf ↦ rw (e, locate, node, no_leaf) tt
        | inl leaf ↦ elim (Bool-cases (alloc (s.allocs + 1))) [
          | inr empty ↦ rw (e, locate, node, leaf, empty) tt
          | inl list ↦ rw (e, locate, node, leaf, list) refl
        ]
      ]
    ]
  ]

  located-At :
      (rc : ℤ) (width n : ℕ) (h : Numbers f) (q : ℕ) (lo : Located f.Double)
      → Same q lo
      → h.nsamp ≡ pos n
      → q + (width * n + 64) < 2 ^ 64
      → At (q + (width * n + 64)) (elim lo [
        | no_memory ↦ failed
        | no_list ↦ crashed
        | found p s1 ↦ record_packet f alloc tankstart rc width h p s1
      ])
  located-At rc width n h q (found p s1) same e small =
      rw (← same) (record_packet-At rc width n h p s1 e (omega (arith, same)))
  located-At rc width n h q no_memory same e small = tt
  located-At rc width n h q no_list same e small = tt

  module _ (host : Endian) (tankend : ℕ) where
    -- The header that a round from `s` reads, once it is converted, has a number of samples that is not
    -- negative, and its samples do not reach behind the last address.
    pub record IsForward (s : State f.Double) : Type 0 where
      pub count : ℕ
      pub nsamp :
          (let r = swap_wavemsg2_makelocal f host s.host_byte_order s.tankbyte s.mem in
            (numbers_at f host r.mem s.tankbyte).nsamp)
          ≡ pos count
      pub inside :
          (let r = swap_wavemsg2_makelocal f host s.host_byte_order s.tankbyte s.mem in
            s.tankbyte + (atoi r.mem (datatype_at s.tankbyte + 1) * count + 64))
          < 2 ^ 64

    abbrev Beyond : ℕ → Outcome f.Double → Type 0
    Beyond q o = Ends (λ s. q < s.tankbyte) o

    farther : (q q1 : ℕ) (o : Outcome f.Double) → q < q1 → At q1 o → Beyond q o
    farther q q1 (again s) h e = omega (arith, e)
    farther q q1 (stop s) h e = omega (arith, e)
    farther q q1 failed h e = tt
    farther q q1 crashed h e = tt

    skip_byte-Beyond :
        (s : State f.Double) → Beyond s.tankbyte (skip_byte f alloc tankstart host tankend s)
    unfolding skip_byte
    skip_byte-Beyond s = elim (Bool-cases (ltb (s.tankbyte + 1) tankend)) [
      | inl before ↦ rw before (omega arith)
      | inr at_end ↦ rw at_end (omega arith)
    ]

    fetch-Beyond :
        (rc : ℤ) (s : State f.Double) (n : ℕ)
        → (numbers_at f host s.mem s.tankbyte).nsamp ≡ pos n
        → s.tankbyte + (atoi s.mem (datatype_at s.tankbyte + 1) * n + 64) < 2 ^ 64
        → Beyond s.tankbyte (fetch f alloc tankstart host tankend rc s)
    unfolding fetch
    fetch-Beyond rc s n e small = farther s.tankbyte _ _ (omega arith) (
        located-At rc (atoi s.mem (datatype_at s.tankbyte + 1)) n
          (numbers_at f host s.mem s.tankbyte) s.tankbyte _
          (locate-Same (scnl_at s.mem s.tankbyte) s) e small)

    dispatch-Beyond :
        (rc : ℤ) (s : State f.Double) (n : ℕ)
        → (numbers_at f host s.mem s.tankbyte).nsamp ≡ pos n
        → s.tankbyte + (atoi s.mem (datatype_at s.tankbyte + 1) * n + 64) < 2 ^ 64
        → Beyond s.tankbyte (dispatch f alloc tankstart host tankend rc s)
    unfolding dispatch
    dispatch-Beyond (negsuc zero) s n e small = skip_byte-Beyond s
    dispatch-Beyond (negsuc (suc k)) s n e small = fetch-Beyond (negsuc (suc k)) s n e small
    dispatch-Beyond (pos k) s n e small = fetch-Beyond (pos k) _ n e small

    scan_step-Beyond :
        (s : State f.Double)
        → IsForward s
        → Beyond s.tankbyte (scan_step f alloc tankstart host tankend s)
    unfolding scan_step
    scan_step-Beyond s v = dispatch-Beyond _ _ v.count v.nsamp v.inside

    -- The states that rounds of the loop begin from.
    pub data Reaches : State f.Double → State f.Double → Type 0 where
      here : {s : State f.Double} → Reaches s s
      further :
          {s s1 s2 : State f.Double}
          → scan_step f alloc tankstart host tankend s ≡ again s1
          → s1.tankbyte < tankend
          → Reaches s1 s2
          → Reaches s s2

    abbrev pub Terminates : Run f.Double → Type 0
    Terminates (finished s) = Unit
    Terminates error = Unit
    Terminates segfault = Unit
    Terminates out_of_fuel = ⊥

    -- A round, where the rounds behind it end.
    round-Terminates :
        (fuel : ℕ) (s : State f.Double)
        → ((s1 : State f.Double) → Reaches s s1 → IsForward s1)
        → tankend < s.tankbyte + suc fuel
        → ((s1 : State f.Double)
            → ((s2 : State f.Double) → Reaches s1 s2 → IsForward s2)
            → tankend < s1.tankbyte + fuel
            → 0 < fuel
            → Terminates (scan_loop f alloc tankstart host tankend fuel s1))
        → (o : Outcome f.Double) → scan_step f alloc tankstart host tankend s ≡ o
        → Beyond s.tankbyte o
        → Terminates (elim o [
          | again s1 ↦
              if ltb s1.tankbyte tankend
              then scan_loop f alloc tankstart host tankend fuel s1
              else finished s1
          | stop s1 ↦ finished s1
          | failed ↦ error
          | crashed ↦ segfault
        ])
    round-Terminates fuel s all enough rest (again s1) e far =
        elim (Bool-cases (ltb s1.tankbyte tankend)) [
          | inr at_end ↦ rw at_end tt
          | inl before ↦
              let lt : s1.tankbyte < tankend = ground (arith, before) in
              rw before (
                rest s1 (λ s2 more. all s2 (further e lt more)) (omega (arith, enough, far))
                  (omega (arith, enough, far)))
        ]
    round-Terminates fuel s all enough rest (stop s1) e far = tt
    round-Terminates fuel s all enough rest failed e far = tt
    round-Terminates fuel s all enough rest crashed e far = tt

    -- If each header that the loop comes to is one that moves the pointer forward, the loop ends after
    -- no more rounds than there are bytes from the pointer to the end of the tank, and one.
    pub scan_loop-Terminates :
        (fuel : ℕ) (s : State f.Double)
        → ((s1 : State f.Double) → Reaches s s1 → IsForward s1)
        → tankend < s.tankbyte + fuel
        → 0 < fuel
        → Terminates (scan_loop f alloc tankstart host tankend fuel s)
    unfolding scan_loop
    scan_loop-Terminates zero s all enough some_fuel = absurd (omega arith)
    scan_loop-Terminates (suc fuel) s all enough some_fuel =
        round-Terminates fuel s all enough (scan_loop-Terminates fuel) _ refl
          (scan_step-Beyond s (all s here))

-- ===== src/Walk/Whole.antt =====
-- scan_tracebuf as a whole: from the bytes of the tank to the lists of the traces.
use tank_convertor.Base.{true, ℕ, ◌+◌, ◌^◌, ◌≤◌, ◌≡◌, refl, Bool, Option, List, arith}
use tank_convertor.Floating.{Floating}
use tank_convertor.Memory.{Mem, Endian}
use tank_convertor.Libc.Search.{tfind}
use tank_convertor.Swap.MakeLocal.{ByteOrder}
use tank_convertor.Trace.{TBuf, Scnl}
use tank_convertor.Scan.{State, Run, finished, error, segfault, out_of_fuel, scan_loop}
use tank_convertor.Scan.Invariant.{IsState}
use tank_convertor.Scan.Locate.{view}
use tank_convertor.Scan.Rounds.{Rounds, all_of_trace, scan_loop-Rounds, Rounds-HasMore}
use tank_convertor.Scan.Success.{Survives, scan_loop-Survives}
use tank_convertor.Walk.{
  Scanned, collect, initial, Scan, scanned, refused, fault, no_end, scan_tracebuf,
}

-- scan_tracebuf returns what it has gathered, or is still running when the fuel is used up.
abbrev pub IsAnswer : {f : Floating} → Scan f → Type 0
IsAnswer (scanned r) = Unit
IsAnswer no_end = Unit
IsAnswer refused = ⊥
IsAnswer fault = ⊥

module _ (f : Floating) (alloc : ℕ → Bool) (host : Endian) (static : ByteOrder) (m : Mem)
    (tankstart tankend : ℕ) where
  pub initial-IsState : IsState (initial f static m tankstart)
  unfolding initial
  initial-IsState = record { search = tt; inside = tt; count = refl; total = refl; each = tt }

  -- Rounds that lead from the start of the tank to `s` have filled the traces of `s` with what they
  -- have read, and nothing else.
  abbrev pub IsReading : State f.Double → List (Option (Scnl × TBuf f.Double)) → Type 0
  IsReading s rs =
      Rounds f alloc tankstart host tankend (initial f static m tankstart) rs s
      × IsState s
      × ((k : Scnl) → view s k ≡ all_of_trace k rs)

  finished-IsReading :
      (fuel : ℕ) (s : State f.Double)
      → fuel + 4096 ≤ 2 ^ 30
      → scan_loop f alloc tankstart host tankend fuel (initial f static m tankstart) ≡ finished s
      → (rs : List (Option (Scnl × TBuf f.Double))) × IsReading s rs
  unfolding initial view tfind
  finished-IsReading fuel s few e =
      let start = initial f static m tankstart in
      let (rs, rounds, short) =
        (scan_loop-Rounds f alloc tankstart host tankend fuel start s).0 e in
      let more =
        Rounds-HasMore f alloc tankstart host tankend 0 start s rs rounds initial-IsState tt
          (omega arith) in
      (rs, (rounds, more.state, more.traces))

  result-IsReading :
      (fuel : ℕ) (r : Scanned f) (run : Run f.Double)
      → fuel + 4096 ≤ 2 ^ 30
      → scan_loop f alloc tankstart host tankend fuel (initial f static m tankstart) ≡ run
      → scan_tracebuf f alloc host static m tankstart tankend fuel ≡ scanned r
      → (s : State f.Double) × (rs : List (Option (Scnl × TBuf f.Double))) × IsReading s rs
        × (r ≡ collect f s)
  unfolding scan_tracebuf
  result-IsReading fuel r (finished s) few e h =
      let same : ◌≡◌ {A = Scan f} (scanned (collect f s)) (scanned r) =
        rw (e, scan_tracebuf) at h in
      let (rs, reading) = finished-IsReading fuel s few e in (s, rs, reading, ground arith)
  result-IsReading fuel r error few e h =
      let off : ◌≡◌ {A = Scan f} refused (scanned r) = rw (e, scan_tracebuf) at h in ground arith
  result-IsReading fuel r segfault few e h =
      let off : ◌≡◌ {A = Scan f} fault (scanned r) = rw (e, scan_tracebuf) at h in ground arith
  result-IsReading fuel r out_of_fuel few e h =
      let off : ◌≡◌ {A = Scan f} no_end (scanned r) = rw (e, scan_tracebuf) at h in ground arith

  -- If scan_tracebuf returns after fewer than 2 ^ 30 - 4096 rounds, its result is gathered from a
  -- well-formed state that rounds from the start of the tank lead to, and in which each trace has
  -- exactly the tracebufs that these rounds have read of it, in the order of reading.
  pub scan_tracebuf-IsReading :
      (fuel : ℕ) (r : Scanned f)
      → fuel + 4096 ≤ 2 ^ 30
      → scan_tracebuf f alloc host static m tankstart tankend fuel ≡ scanned r
      → (s : State f.Double) × (rs : List (Option (Scnl × TBuf f.Double))) × IsReading s rs
        × (r ≡ collect f s)
  scan_tracebuf-IsReading fuel r few h = result-IsReading fuel r _ few refl h

  result-IsAnswer :
      (fuel : ℕ) (run : Run f.Double)
      → scan_loop f alloc tankstart host tankend fuel (initial f static m tankstart) ≡ run
      → Survives run
      → IsAnswer (scan_tracebuf f alloc host static m tankstart tankend fuel)
  unfolding scan_tracebuf
  result-IsAnswer fuel (finished s) e h = rw (e, scan_tracebuf) tt
  result-IsAnswer fuel out_of_fuel e h = rw (e, scan_tracebuf) tt
  result-IsAnswer fuel error e h = absurd h
  result-IsAnswer fuel segfault e h = absurd h

  -- If no allocation fails, scan_tracebuf in its first 2 ^ 30 - 4096 rounds does not return -1, and
  -- writes neither through a null pointer nor behind the end of the list of a trace, whatever the bytes
  -- of the tank.
  pub scan_tracebuf-IsAnswer :
      ((i : ℕ) → alloc i ≡ true)
      → (fuel : ℕ) → fuel + 4096 ≤ 2 ^ 30
      → IsAnswer (scan_tracebuf f alloc host static m tankstart tankend fuel)
  unfolding initial
  scan_tracebuf-IsAnswer ok fuel few = result-IsAnswer fuel _ refl (
      scan_loop-Survives f alloc ok tankstart host tankend 0 fuel (initial f static m tankstart)
        initial-IsState tt (omega arith))

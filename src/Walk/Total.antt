-- ===== src/Walk/Total.antt =====
-- scan_tracebuf returns, and with the right result, where every header moves the pointer forward.
use tank_convertor.Base.{true, ℕ, ◌+◌, ◌^◌, ◌≤◌, ◌<◌, ◌≡◌, refl, Bool, Option, List, arith}
use tank_convertor.Floating.{Floating}
use tank_convertor.Memory.{Mem, Endian}
use tank_convertor.Swap.MakeLocal.{ByteOrder}
use tank_convertor.Trace.{TBuf, Scnl}
use tank_convertor.Scan.{State, Run, finished, error, segfault, out_of_fuel, scan_loop}
use tank_convertor.Scan.Termination.{IsForward, Reaches, Terminates, scan_loop-Terminates}
use tank_convertor.Scan.Success.{Survives, scan_loop-Survives}
use tank_convertor.Walk.{Scanned, collect, initial, scanned, scan_tracebuf}
use tank_convertor.Walk.Whole.{initial-IsState, IsReading, scan_tracebuf-IsReading}

module _ (f : Floating) (alloc : ℕ → Bool) (host : Endian) (static : ByteOrder) (m : Mem)
    (tankstart tankend : ℕ) where
  returns :
      (fuel : ℕ) (run : Run f.Double)
      → scan_loop f alloc tankstart host tankend fuel (initial f static m tankstart) ≡ run
      → Survives run
      → Terminates f alloc tankstart host tankend run
      → (r : Scanned f) × (scan_tracebuf f alloc host static m tankstart tankend fuel ≡ scanned r)
  unfolding scan_tracebuf
  returns fuel (finished s) e a b = (collect f s, rw (e, scan_tracebuf) refl)
  returns fuel error e a b = absurd a
  returns fuel segfault e a b = absurd a
  returns fuel out_of_fuel e a b = absurd b

  -- If no allocation fails and every header that the loop comes to has a number of samples that is not
  -- negative, and samples that do not reach behind the last address, scan_tracebuf returns after no
  -- more rounds than there are bytes in a tank of less than 2 ^ 30 - 4096 bytes, and one; and each
  -- trace of its result has exactly the tracebufs that the rounds have read of it, in the order of
  -- reading, before they are sorted.
  pub scan_tracebuf-scanned :
      ((i : ℕ) → alloc i ≡ true)
      → ((s : State f.Double)
          → Reaches f alloc tankstart host tankend (initial f static m tankstart) s
          → IsForward f alloc tankstart host tankend s)
      → (fuel : ℕ) → tankend < tankstart + fuel
      → 0 < fuel
      → fuel + 4096 ≤ 2 ^ 30
      → (s : State f.Double) × (rs : List (Option (Scnl × TBuf f.Double))) × IsReading f alloc host
          static m tankstart tankend s rs
        × (scan_tracebuf f alloc host static m tankstart tankend fuel ≡ scanned (collect f s))
  unfolding initial
  scan_tracebuf-scanned ok forward fuel enough some_fuel few =
      let start = initial f static m tankstart in
      let (r, e) =
        returns fuel _ refl
          (scan_loop-Survives f alloc ok tankstart host tankend 0 fuel start
            (initial-IsState f alloc host static m tankstart tankend) tt (omega arith))
          (scan_loop-Terminates f alloc tankstart host tankend fuel start forward enough
            some_fuel) in
      let (s, rs, reading, same) =
        scan_tracebuf-IsReading f alloc host static m tankstart tankend fuel r few e in
      (s, rs, reading, rw (← same) e)

-- ===== src/Mseed/Tank.antt =====
-- The tracebufs that are read of a tank are the messages that the memory holds behind the scan.
use tank_convertor.Base.{
  ℕ, ◌+◌, ◌-◌, ◌%◌, ◌^◌, ◌≡◌, ◌≤◌, inl, inr, Option, some, List, All, All-append, arith,
}
use tank_convertor.Memory.{Mem, Endian}
use tank_convertor.Floating.{Floating}
use tank_convertor.Libc.Search.Order.{Ordering-cases}
use tank_convertor.Trace.{TBuf, Scnl, compare_scnl}
use tank_convertor.Scan.{scnl_at}
use tank_convertor.Scan.Rounds.{all_of_trace}
use tank_convertor.Scan.Step.{of_trace}
use tank_convertor.Scan.Tank.{
  IsMessage, packet_at, Tank, done, packet, inconsistent, unknown, overfull,
}
use tank_convertor.Scan.Tank.Local.{IsLocal, AllLocal}
use tank_convertor.Mseed.{Libmseed}
use tank_convertor.Mseed.Original.{IsConverted}

module _ (f : Floating) (lib : Libmseed f.Double) (host : Endian) (m m' : Mem)
    (tankstart tankend : ℕ) (high : tankend + 4096 ≤ 2 ^ 64) where
  one_IsConverted :
      (k : Scnl) (p n : ℕ)
      → tankstart ≤ p
      → p + 4096 ≤ 2 ^ 64
      → IsMessage f m p n
      → IsLocal f host m p n m'
      → All
          (IsConverted f lib host m m' tankstart)
          (of_trace k (some (packet_at f m tankstart p n)))
  one_IsConverted k p n from below msg l =
      let place : (tankstart + (p - tankstart)) % 2 ^ 64 ≡ p = omega arith in
      let good : IsConverted f lib host m m' tankstart (packet_at f m tankstart p n).1 = record {
        count = n;
        message = rw place msg;
        local = rw place l;
      } in
      elim (Ordering-cases (compare_scnl k (scnl_at m p))) [
        | inl lt ↦ rw lt tt
        | inr (inl eq) ↦ rw eq (good, tt)
        | inr (inr gt) ↦ rw gt tt
      ]

  -- Every record of a trace leads to a message of the tank.
  pub AllLocal-IsConverted :
      (k : Scnl) (p : ℕ) (rs : List (Option (Scnl × TBuf f.Double)))
      (t : Tank f host m tankstart tankend p rs)
      → tankstart ≤ p
      → AllLocal f host m tankstart tankend m' p rs t
      → All (IsConverted f lib host m m' tankstart) (all_of_trace k rs)
  AllLocal-IsConverted k p rs (done end) from a = tt
  AllLocal-IsConverted k p _ (packet {rs = rs} n lt msg c rest) from a =
      All-append (IsConverted f lib host m m' tankstart)
        (of_trace k (some (packet_at f m tankstart p n))) (all_of_trace k rs)
        (one_IsConverted k p n from (omega (arith, lt, high)) msg a.0)
        (AllLocal-IsConverted k _ rs rest (omega (arith, from)) a.1)
  AllLocal-IsConverted k p _ (inconsistent {rs = rs} n lt msg c rest) from a =
      AllLocal-IsConverted k _ rs rest (omega (arith, from)) a
  AllLocal-IsConverted k p _ (unknown {rs = rs} lt u rest) from a =
      AllLocal-IsConverted k _ rs rest (omega (arith, from)) a
  AllLocal-IsConverted k p _ (overfull {rs = rs} lt known own many rest) from a =
      AllLocal-IsConverted k _ rs rest (omega (arith, from)) a

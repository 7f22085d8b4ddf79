-- ===== src/Walk/Complete.antt =====
-- From the bytes of a tank, read without the program, to what scan_tracebuf returns.
use tank_convertor.Base.{
  true, ℕ, ◌+◌, ◌^◌, ◌≤◌, ◌<◌, ◌≡◌, refl, Bool, Option, List, length, All, arith,
}
use tank_convertor.Floating.{Floating, IsOrdered}
use tank_convertor.Memory.{Mem, Endian}
use tank_convertor.Libc.Search.{tfind}
use tank_convertor.Swap.MakeLocal.{ByteOrder}
use tank_convertor.Swap.Sides.{IsStatic}
use tank_convertor.Trace.{TBuf, Scnl}
use tank_convertor.Scan.{State, finished, scan_loop}
use tank_convertor.Scan.Locate.{view}
use tank_convertor.Scan.Rounds.{Rounds, all_of_trace, scan_loop-Rounds, Rounds-HasMore}
use tank_convertor.Scan.Tank.{Tank}
use tank_convertor.Scan.Tank.Local.{AllLocal}
use tank_convertor.Scan.Tank.Reading.{IsReady, Holds-Reads}
use tank_convertor.Walk.{Scanned, collect, initial, scanned, scan_tracebuf}
use tank_convertor.Walk.Whole.{initial-IsState, IsReading}
use tank_convertor.Walk.Inventory.{IsInventory, collect-IsInventory}

module _ (f : Floating) (alloc : ℕ → Bool) (ok : (i : ℕ) → alloc i ≡ true) (host : Endian)
    (static : ByteOrder) (set_by : IsStatic host static) (m : Mem) (tankstart tankend : ℕ)
    (rs : List (Option (Scnl × TBuf f.Double)))
    (holds : Tank f host m tankstart tankend tankstart rs) (some_bytes : tankstart < tankend)
    (high : tankend + 4096 ≤ 2 ^ 64) (few : length rs + 4096 ≤ 2 ^ 30) where
  initial-IsReady :
      IsReady f host m tankstart tankend alloc ok 0 tankstart (initial f static m tankstart)
  unfolding initial
  initial-IsReady = record {
    pointer = refl;
    state = initial-IsState f alloc host static m tankstart tankend;
    held = tt;
    ahead = record { mem = λ x far. refl; static = set_by };
  }

  -- Rounds from the start of the tank read exactly what it holds.
  pub tank-IsReading :
      (s : State f.Double) × IsReading f alloc host static m tankstart tankend s rs
      × AllLocal f host m tankstart tankend s.mem tankstart rs holds
  unfolding initial view tfind
  tank-IsReading =
      let start = initial f static m tankstart in
      let (s, rounds, front, each) =
        Holds-Reads f host m tankstart tankend alloc ok 0 tankstart start rs holds some_bytes
          initial-IsReady (omega (arith, few)) (omega arith) high in
      let more =
        Rounds-HasMore f alloc tankstart host tankend 0 start s rs rounds
          (initial-IsState f alloc host static m tankstart tankend) tt (omega (arith, few)) in
      (s, (rounds, more.state, more.traces), each)

  pub returns :
      (s : State f.Double)
      → Rounds f alloc tankstart host tankend (initial f static m tankstart) rs s
      → (fuel : ℕ) → length rs ≤ fuel
      → scan_tracebuf f alloc host static m tankstart tankend fuel ≡ scanned (collect f s)
  unfolding scan_tracebuf
  returns s rounds fuel enough =
      let start = initial f static m tankstart in
      let loop : scan_loop f alloc tankstart host tankend fuel start ≡ finished s =
        (scan_loop-Rounds f alloc tankstart host tankend fuel start s).1 (rs, rounds, enough) in
      rw (loop, scan_tracebuf) refl

  -- If no allocation fails, the static byte order is the machine's or not yet set, and the tank has at
  -- least a byte and holds `rs`, which are fewer than 2 ^ 30 - 4096, at addresses that leave 4096 bytes
  -- to 2 ^ 64, then scan_tracebuf returns after as many rounds, and its result is an inventory of
  -- `rs`: the array lists the traces, each with exactly the tracebufs that the tank holds of it, as
  -- often, in order of time, and the trace of each tracebuf is listed; where the times of the tracebufs
  -- are numbers.
  pub scan_tracebuf-Tank :
      (IsNumber : f.Double → Type 0)
      → IsOrdered f IsNumber
      → ((k : Scnl) → All (λ (b : TBuf f.Double). IsNumber b.time) (all_of_trace k rs))
      → (fuel : ℕ) → length rs ≤ fuel
      → (r : Scanned f) × (scan_tracebuf f alloc host static m tankstart tankend fuel ≡ scanned r)
        × IsInventory f rs r
  scan_tracebuf-Tank IsNumber laws numbers fuel enough =
      let (s, (rounds, state, views), each) = tank-IsReading in
      (
        collect f s,
        returns s rounds fuel enough,
        (collect-IsInventory f IsNumber laws s state rs views numbers).0,
      )

  -- If no allocation fails, the static byte order is the machine's or not yet set, and the tank has at
  -- least a byte and holds `rs`, which are fewer than 2 ^ 30 - 4096, at addresses that leave 4096 bytes
  -- to 2 ^ 64, then scan_tracebuf returns after as many rounds, and the memory that it leaves behind
  -- holds each tracebuf of the tank in the byte order of the machine: header, data type and samples
  -- read as they read before in the byte order of the tracebuf.
  pub scan_tracebuf-AllLocal :
      (fuel : ℕ)
      → length rs ≤ fuel
      → (r : Scanned f) × (scan_tracebuf f alloc host static m tankstart tankend fuel ≡ scanned r)
        × AllLocal f host m tankstart tankend r.mem tankstart rs holds
  unfolding collect
  scan_tracebuf-AllLocal fuel enough =
      let (s, (rounds, state, views), each) = tank-IsReading in
      (collect f s, returns s rounds fuel enough, each)

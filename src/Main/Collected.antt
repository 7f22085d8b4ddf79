-- ===== src/Main/Collected.antt =====
-- The loop of the miniSEED output over traces whose tracebufs are messages of the tank.
use tank_convertor.Base.{
  ℕ, zero, suc, ◌+◌, ◌≡◌, refl, sym, ◌∙◌, true, Option, none, some, List, [], ◌∷◌, ◌++◌, map,
  length, length-append, get_elem?, get_elem?-middle, All, ℤ, arith,
}
use mathlib.Core.List.{append_assoc}
use tank_convertor.Floating.{Floating}
use tank_convertor.Memory.{Mem}
use tank_convertor.Trace.{TraceNode}
use tank_convertor.Scan.Record.{packets_of}
use tank_convertor.Walk.{Scanned}
use tank_convertor.Progress.{Duty, progbar_inc}
use tank_convertor.Mseed.{Libmseed, sid_of}
use tank_convertor.Mseed.Whole.{msproc_tlist_add-collected}
use tank_convertor.Mseed.Original.{IsConverted, tank_collected, collected_same, none_unknown}
use tank_convertor.Main.{Machine, trace_at, mseed_loop}

-- `n` steps of the progress bar.
abbrev pub steps : ℕ → Duty → Duty
steps zero d = d
steps (suc n) d = steps n (progbar_inc d).1

module _ (f : Floating) (lib : Libmseed f.Double) (os : Machine f) (m : Mem) (r : Scanned f) where
  -- The node at `p` has records of messages of the tank `m`.
  abbrev pub IsReadable : ℕ → Type 0
  IsReadable p =
      (t : TraceNode f.Double) × (get_elem? r.nodes p ≡ some t)
      × All (IsConverted f lib os.host m r.mem os.tankstart) (packets_of t)

  -- The list with the records of the traces, each tracebuf read in its own byte order.
  abbrev pub tank_list : List ℕ → lib.Ms3TraceList → lib.Ms3TraceList
  tank_list [] l = l
  tank_list (p ∷ ps) l = elim (get_elem? r.nodes p) [
    | none ↦ tank_list ps l
    | some t ↦
        tank_list ps
          (tank_collected f lib os.host m r.mem os.tankstart (sid_of f lib t.scnl) (packets_of t) l)
  ]

  trace_at-there :
      (before rest : List (Option ℕ)) (p i : ℕ) (t : TraceNode f.Double)
      → r.trace_list ≡ before ++ (some p ∷ rest)
      → i ≡ length before
      → get_elem? r.nodes p ≡ some t
      → trace_at f lib os r i ≡ some t
  unfolding trace_at
  trace_at-there before rest p i t e at there =
      rw (trace_at, e, at, get_elem?-middle before (some p) rest) there

  -- The pointers `ps` behind those of the rounds that are over.
  pub mseed_loop-tank_list :
      ((i j : ℕ) → os.alloc i j ≡ true)
      → (ps : List ℕ) (before : List (Option ℕ)) (i : ℕ) (msl : lib.Ms3TraceList) (buffer : List ℤ)
        (d : Duty)
      → r.trace_list ≡ before ++ (map some ps ++ (none ∷ []))
      → i ≡ length before
      → All IsReadable ps
      → mseed_loop f lib os r (length ps) i msl buffer d
        ≡ some (tank_list ps msl, steps (length ps) d)
  unfolding mseed_loop
  mseed_loop-tank_list ok [] before i msl buffer d e at all = refl
  mseed_loop-tank_list ok (p ∷ ps) before i msl buffer d e at all =
      let (t, there, each) = all.0 in
      let sid = sid_of f lib t.scnl in
      let found = trace_at-there before (map some ps ++ (none ∷ [])) p i t e at there in
      let same = collected_same f lib os.host m r.mem os.tankstart sid (packets_of t) msl each in
      let (buffer1, done) =
        msproc_tlist_add-collected f lib os.host r.mem os.tankstart (os.alloc i) (ok i) (os.now i) t
          msl buffer d (none_unknown f lib os.host m r.mem os.tankstart (packets_of t) each) in
      let next = tank_collected f lib os.host m r.mem os.tankstart sid (packets_of t) msl in
      let rest =
        mseed_loop-tank_list ok ps (before ++ (some p ∷ [])) (i + 1) next buffer1 (progbar_inc d).1
          (e ∙ sym (append_assoc before (some p ∷ []) (map some ps ++ (none ∷ []))))
          (omega (arith, at, length-append before (some p ∷ []))) all.1 in
      rw (mseed_loop, found, done, same, tank_list, there) rest

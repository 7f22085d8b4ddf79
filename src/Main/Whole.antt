-- ===== src/Main/Whole.antt =====
-- main with a miniSEED output, from the bytes of a tank to the list that is written.
use mathlib.Core.List.{not-mem-nil}
use tank_convertor.Base.{
  ℕ, ◌+◌, ◌^◌, ◌≤◌, ◌<◌, ◌≡◌, ◌≢◌, refl, ◌∙◌, true, false, ◌==◌, Option, none, some, List, [], ◌∷◌,
  ◌++◌, map, length, All, pos, inl, arith,
}
use tank_convertor.Floating.{Floating, IsOrdered}
use tank_convertor.Memory.{Mem}
use tank_convertor.Swap.MakeLocal.{undefine}
use tank_convertor.Trace.{TBuf, Scnl, TraceNode}
use tank_convertor.Scan.Rounds.{all_of_trace}
use tank_convertor.Scan.Tank.{Tank}
use tank_convertor.Walk.{Scanned, collect, scanned, scan_tracebuf}
use tank_convertor.Walk.Inventory.{IsListed, IsInventory, collect-IsInventory, collect-All}
use tank_convertor.Walk.Complete.{tank-IsReading, returns}
use tank_convertor.Command.{
  ConvFormat, conv_format_sac, conv_format_mseed, conv_format_mseed3, Chosen, chosen, proc_argv,
}
use tank_convertor.OutPath.{msproc_outpath_gen}
use tank_convertor.Progress.{Duty, progbar_init}
use tank_convertor.Mseed.{Libmseed}
use tank_convertor.Mseed.Original.{IsConverted}
use tank_convertor.Mseed.Tank.{AllLocal-IsConverted}
use tank_convertor.Main.Collected.{IsReadable, steps, tank_list, mseed_loop-tank_list}
use tank_convertor.Main.{
  Machine, Done, mseed_file, flag_of, packing_of, write_mseed, write_format, convert_traces,
  convert_file, main,
}

-- Something that was read is a tracebuf.
abbrev pub HasPacket : {A : Type 0} → List (Option A) → Type 0
HasPacket [] = ⊥
HasPacket (none ∷ rs) = HasPacket rs
HasPacket (some x ∷ rs) = Unit

listed-some :
    (f : Floating) (nodes : List (TraceNode f.Double)) (rs : List (Option (Scnl × TBuf f.Double)))
    → HasPacket rs
    → All (IsListed f nodes []) rs
    → ⊥
listed-some f nodes [] h a = absurd h
listed-some f nodes (none ∷ rs) h a = listed-some f nodes rs h a.1
listed-some f nodes (some x ∷ rs) h a = let (p, t, m, there, own) = a.0 in not-mem-nil m

-- Then some trace is listed.
HasPacket-length :
    (f : Floating) (nodes : List (TraceNode f.Double)) (ps : List ℕ)
    (rs : List (Option (Scnl × TBuf f.Double)))
    → HasPacket rs
    → All (IsListed f nodes ps) rs
    → (length ps == 0) ≡ false
HasPacket-length f nodes [] rs h a = absurd (listed-some f nodes rs h a)
HasPacket-length f nodes (p ∷ ps) rs h a = ground arith

-- The counters of the progress bar over `n` traces.
abbrev pub begun : ℕ → Duty
begun n = (progbar_init (pos (n + 2)) (record { total_duty = 0; comp_duty = 0 })).1

-- The flags MSF_FLUSHDATA and, for version 2, MSF_PACKVER2.
abbrev pub flags_in : ConvFormat → ℕ
flags_in conv_format_mseed = 0x00C0
flags_in conv_format_mseed3 = 0x0040
flags_in conv_format_sac = 0

packing-asked :
    (format : ConvFormat)
    → packing_of format
      ≡ record { overwrite = true; maxreclen = 4096; encoding = 11; flags = flags_in format }
unfolding packing_of flag_of
packing-asked conv_format_mseed = refl
packing-asked conv_format_mseed3 = refl
packing-asked conv_format_sac = refl

module _ (f : Floating) (lib : Libmseed f.Double) where
  -- The call of mstl3_writemseed for a format, written out: an overwritten file of records of at most
  -- 4096 bytes, Steim-2 compressed, flushed, and of version 2 or 3.
  abbrev pub mseed_output : List ℕ → ConvFormat → lib.Ms3TraceList → Duty → Done f lib
  mseed_output path format l d =
      mseed_file path
        (record { overwrite = true; maxreclen = 4096; encoding = 11; flags = flags_in format }) l
        (lib.mstl3_writemseed l path true 4096 11 (flags_in format) 0) d

module _ (f : Floating) (lib : Libmseed f.Double) (os : Machine f) where
  write_format-mseed :
      (format : ConvFormat) (r : Scanned f) (c : Chosen) (d : Duty)
      → format ≢ conv_format_sac
      → write_format f lib os format r c d ≡ write_mseed f lib os r c d
  unfolding write_format
  write_format-mseed conv_format_sac r c d h = absurd (h refl)
  write_format-mseed conv_format_mseed r c d h = refl
  write_format-mseed conv_format_mseed3 r c d h = refl

  -- What becomes of a scan whose traces are all readable.
  convert_traces-tank_list :
      (m : Mem) (r : Scanned f) (c : Chosen) (path : List ℕ) (ps : List ℕ)
      → ((i j : ℕ) → os.alloc i j ≡ true)
      → c.conv_format ≢ conv_format_sac
      → msproc_outpath_gen c.input_file c.out_path ≡ some path
      → (length ps == 0) ≡ false
      → r.totaltrace ≡ length ps
      → r.trace_list ≡ map some ps ++ (none ∷ [])
      → All (IsReadable f lib os m r) ps
      → convert_traces f lib os c r
        ≡ mseed_output f lib path c.conv_format
            (tank_list f lib os m r ps lib.mstl3_init)
            (steps 2 (steps (length ps) (begun (length ps))))
  unfolding convert_traces write_mseed
  convert_traces-tank_list m r c path ps ok wanted short any total listed each =
      let loop =
        mseed_loop-tank_list f lib os m r ok ps [] 0 lib.mstl3_init [] (begun (length ps)) listed
          refl each in
      let some_traces : (r.totaltrace == 0) ≡ false = rw total any in
      let output : write_mseed f lib os r c (begun r.totaltrace)
          ≡ mseed_output f lib path c.conv_format (tank_list f lib os m r ps lib.mstl3_init)
              (steps 2 (steps r.totaltrace (begun r.totaltrace))) =
        rw (write_mseed, short, (rw (← total) at loop), packing-asked c.conv_format) refl in
      rw (← total, convert_traces, some_traces)
        (write_format-mseed c.conv_format r c (begun r.totaltrace) wanted ∙ output)

  -- If the arguments choose miniSEED or miniSEED 3, the path of the output fits its buffer, the file
  -- can be opened and mapped, no allocation fails, and the file is a tank with at least one tracebuf, which holds
  -- `rs`, fewer than 2 ^ 30 - 4096, at addresses that leave 4096 bytes to 2 ^ 64, where the times of
  -- the tracebufs are numbers, then scan_tracebuf returns an inventory of `rs`, and main hands to
  -- mstl3_writemseed, with the arguments that the format calls for, the list to which libmseed has added, trace by trace, a record for each
  -- tracebuf: with the numbers and the type of samples that the file has of it in the tracebuf's own
  -- byte order, samples of two bytes read in that order and widened, and the address of all others.
  -- The progress bar has gone a step for each trace and two more.
  pub main-tank_list :
      (m : Mem) (size : ℕ) (rs : List (Option (Scnl × TBuf f.Double))) (args : List (List ℕ))
      (c : Chosen) (path : List ℕ) (IsNumber : f.Double → Type 0)
      → ((i : ℕ) → os.scan_alloc i ≡ true)
      → ((i j : ℕ) → os.alloc i j ≡ true)
      → proc_argv args ≡ chosen c
      → c.conv_format ≢ conv_format_sac
      → msproc_outpath_gen c.input_file c.out_path ≡ some path
      → os.open_file c.input_file ≡ some (record { st_size = size; mapped = some m })
      → Tank f os.host m os.tankstart (os.tankstart + size) os.tankstart rs
      → HasPacket rs
      → 0 < size
      → os.tankstart + size + 4096 ≤ 2 ^ 64
      → length rs + 4096 ≤ 2 ^ 30
      → IsOrdered f IsNumber
      → ((k : Scnl) → All (λ (b : TBuf f.Double). IsNumber b.time) (all_of_trace k rs))
      → (fuel : ℕ) → length rs ≤ fuel
      → (r : Scanned f) × (scan_tracebuf f os.scan_alloc os.host undefine m os.tankstart
            (os.tankstart + size)
            fuel
          ≡ scanned r)
        × (v : IsInventory f rs r) × (main f lib os fuel args
            ≡ mseed_output f lib path c.conv_format
                (tank_list f lib os m r v.pointers lib.mstl3_init)
                (steps 2 (steps (length v.pointers) (begun (length v.pointers)))))
  unfolding main convert_file collect
  main-tank_list m size rs args c path IsNumber scan_ok ok argv wanted short opened holds any bytes
        high few laws numbers fuel enough =
      let tankend = os.tankstart + size in
      let (s, (rounds, state, views), each) =
        tank-IsReading f os.scan_alloc scan_ok os.host undefine (inl refl) m os.tankstart tankend rs
          holds (omega arith) high few in
      let scan =
        returns f os.scan_alloc scan_ok os.host undefine (inl refl) m os.tankstart tankend rs holds
          (omega arith) high few s rounds fuel enough in
      let (v, same) = collect-IsInventory f IsNumber laws s state rs views numbers in
      let readable =
        collect-All f s state rs views (IsConverted f lib os.host m s.mem os.tankstart) (λ k.
          AllLocal-IsConverted f lib os.host m s.mem os.tankstart tankend high k os.tankstart rs
            holds (omega arith) each) in
      let listed = HasPacket-length f (collect f s).nodes v.pointers rs any v.listed in
      let done =
        convert_traces-tank_list m (collect f s) c path v.pointers ok wanted short listed v.total
          v.trace_list (rw same readable) in
      (collect f s, scan, v, rw (argv, opened, scan, main, convert_file) done)

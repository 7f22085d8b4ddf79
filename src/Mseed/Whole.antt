-- ===== src/Mseed/Whole.antt =====
-- msproc_tlist_add as a whole.
use tank_convertor.Base.{ℕ, ◌≡◌, refl, Bool, true, false, some, List, take, ℤ, pos}
use tank_convertor.Memory.{Mem, Endian}
use tank_convertor.Floating.{Floating}
use tank_convertor.Trace.{TraceNode}
use tank_convertor.Progress.{Duty, progbar_inc}
use tank_convertor.Mseed.{
  null, at_address, Libmseed, Adding, add_packets, sid_of, new_record, added, fault, free_record,
  msproc_tlist_add,
}
use tank_convertor.Mseed.Records.{Holds, collected, ends_unknown, add_packets-collected}

module _ (f : Floating) (lib : Libmseed f.Double) (host : Endian) (m : Mem) (tankstart : ℕ)
    (alloc : ℕ → Bool) (ok : (i : ℕ) → alloc i ≡ true) where
  module _ (now : f.Double) (t : TraceNode f.Double) (msl : lib.Ms3TraceList) (int32_buf : List ℤ)
      (d : Duty) where
    -- The state in front of the loop.
    start : Adding f lib
    start = record {
      msl = msl;
      msr = new_record f lib t.scnl;
      int32_buf = int32_buf;
      lendtime = now;
      gapcount = 0;
      nfill_max = pos 0;
      allocs = 1;
    }

    run :
        (s1 : Adding f lib) × (add_packets f lib alloc host m tankstart (take t.ntbuf t.tlist) start
          ≡ some s1)
        × (s1.msl
            ≡ collected f lib host m tankstart (sid_of f lib t.scnl) (take t.ntbuf t.tlist) msl)
        × Holds f lib host m tankstart
            (ends_unknown f lib host m tankstart false (take t.ntbuf t.tlist))
            s1.msr.datasamples
    unfolding start new_record
    run =
        add_packets-collected f lib host m tankstart alloc ok (sid_of f lib t.scnl)
          (take t.ntbuf t.tlist) false start (record { based = refl }) lib.init_samples

    -- If no allocation fails and the last tracebuf is of a known type, the call adds the records of
    -- all tracebufs of known types to the list, in their order, returns 0 and moves the progress bar
    -- on.
    pub msproc_tlist_add-collected :
        ends_unknown f lib host m tankstart false (take t.ntbuf t.tlist) ≡ false
        → (buffer : List ℤ) × (msproc_tlist_add f lib alloc host m now tankstart t msl int32_buf d
            ≡ added
                (collected f lib host m tankstart (sid_of f lib t.scnl) (take t.ntbuf t.tlist) msl)
                buffer
                (progbar_inc d).1)
    unfolding msproc_tlist_add free_record start
    msproc_tlist_add-collected e =
        let (s1, done, all, holds) = run in
        let freed : s1.msr.datasamples ≡ null = rw e at holds in
        (s1.int32_buf, rw (ok 0, done, free_record, freed, all) refl)

    -- If no allocation fails and the last tracebuf is of an unknown type, the call frees the address
    -- of its samples, which is no allocated memory.
    pub msproc_tlist_add-unknown :
        ends_unknown f lib host m tankstart false (take t.ntbuf t.tlist) ≡ true
        → msproc_tlist_add f lib alloc host m now tankstart t msl int32_buf d ≡ fault
    unfolding msproc_tlist_add free_record start
    msproc_tlist_add-unknown e =
        let (s1, done, all, holds) = run in
        let (p, left) : (p : ℕ) × (s1.msr.datasamples ≡ at_address p) = rw e at holds in
        rw (ok 0, done, free_record, left) refl

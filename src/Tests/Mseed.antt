-- ===== src/Tests/Mseed.antt =====
-- The trace of Tests.Sac, handed to a library that keeps the records it is given.
use tank_convertor.Base.{
  ℕ, ◌≡◌, refl, sym, ap, true, List, [], ◌∷◌, ◌++◌, take, take-take, ℤ, pos, negsuc, pos_part,
  arith,
}
use tank_convertor.Memory.{big}
use tank_convertor.Floating.{whole}
use tank_convertor.Libc.Strings.{atoi, atoi_digits, is_digit}
use tank_convertor.Trace.{TraceNode}
use tank_convertor.Progress.{Duty, progbar_inc}
use tank_convertor.Mseed.{
  Samples, null, at_address, in_buffer, Ms3Record, Libmseed, sampletype_at, sid_of, added, fault,
  msproc_tlist_add,
}
use tank_convertor.Mseed.Records.{collected}
use tank_convertor.Mseed.Whole.{msproc_tlist_add-collected, msproc_tlist_add-unknown}
use tank_convertor.Tests.Sac.{tank, first, scnl, node}

-- What of the samples is read.
abbrev read_samples : ℕ → Samples → Samples
read_samples n null = null
read_samples n (at_address p) = at_address p
read_samples n (in_buffer xs) = in_buffer (take n xs)

abbrev pub keeper : Libmseed ℤ
keeper = record {
  Ms3TraceList = List (Ms3Record ℤ);
  mstl3_init = [];
  msr3_init = record {
    raw = 0;
    reclen = negsuc 0;
    swapflag = 0;
    sid = [];
    formatversion = 0;
    flags = 0;
    starttime = pos 0;
    samprate = pos 0;
    encoding = negsuc 0;
    pubversion = 0;
    samplecnt = negsuc 0;
    crc = 0;
    extralength = 0;
    datalength = 0;
    extra = 0;
    datasamples = null;
    datasize = 0;
    numsamples = pos 0;
    sampletype = 0;
  };
  init_samples = refl;
  ms_nslc2sid = λ sidlen net sta loc chan. net ++ (sta ++ chan);
  mstl3_writemseed = λ l mspath overwrite maxreclen encoding flags verbose. pos 1;
  mstl3_addmsr_recordptr = λ l r splitversion autoheal flags.
      (record r { datasamples = read_samples (pos_part r.numsamples) r.datasamples } ∷ l, true);
  addmsr_reads = λ l r xs splitversion autoheal flags.
      ap (λ (ys : List ℤ). (record r { datasamples = in_buffer ys } ∷ l, true))
        (sym (take-take (pos_part r.numsamples) (pos_part r.numsamples) xs (omega arith)));
}

abbrev pub start : Duty
start = record { total_duty = 3; comp_duty = 0 }

msproc_tlist_add-collected_example :
    (buffer : List ℤ) × (msproc_tlist_add whole keeper
        (λ _. true)
        big
        tank
        (pos 0)
        0
        node
        []
        []
        start
      ≡ added
          (collected whole keeper big tank 0 (sid_of whole keeper scnl) node.tlist [])
          buffer
          (progbar_inc start).1)
unfolding sampletype_at atoi atoi_digits is_digit
msproc_tlist_add-collected_example =
    msproc_tlist_add-collected whole keeper big tank 0 (λ _. true) (λ i. refl) (pos 0) node [] []
      start refl

-- Behind the end of the tracebufs there is no known type.
abbrev broken : TraceNode ℤ
broken = record {
  scnl = scnl;
  ntbuf = 2;
  maxtbuf = 4096;
  tlist = first ∷ record { offset = 1000; size = 72; time = pos 20 } ∷ [];
}

msproc_tlist_add-unknown_example :
    msproc_tlist_add whole keeper (λ _. true) big tank (pos 0) 0 broken [] [] start ≡ fault
unfolding sampletype_at atoi atoi_digits is_digit
msproc_tlist_add-unknown_example =
    msproc_tlist_add-unknown whole keeper big tank 0 (λ _. true) (λ i. refl) (pos 0) broken [] []
      start refl

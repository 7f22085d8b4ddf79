-- ===== src/Mseed.antt =====
-- src/msproc.c: msproc_tlist_add, with libmseed as a parameter.
pub mod Records
pub mod Whole
pub mod Original
pub mod Tank
use tank_convertor.Base.{
  ℕ, zero, suc, ◌+◌, ◌%◌, ◌^◌, ◌||◌, ◌&&◌, ◌≡◌, Bool, true, false, ◌==◌, ltb_ℤ, if◌then◌else◌,
  Option, none, some, List, [], ◌∷◌, ◌++◌, length, drop, take, ℤ, pos, pos_part, Ordering,
}
use tank_convertor.Memory.{Mem, Endian, read_i16}
use tank_convertor.Floating.{Floating}
use tank_convertor.Header.{Numbers, numbers_at, datatype_at, trace2_header_size}
use tank_convertor.Libc.Strings.{strcmp, c_str, atoi}
use tank_convertor.Trace.{TBuf, Scnl, TraceNode, sta_string, chan_string, net_string, loc_string}
use tank_convertor.Progress.{Duty, progbar_inc}
use tank_convertor.Sac.Extract.{is_gap, nfill_of}

abbrev pub loc_null_string : List ℕ
loc_null_string = b'-' ∷ b'-' ∷ []

-- `datasamples`: the null pointer, an address, or the buffer of 32-bit integers.
pub data Samples : Type 0 where
  null : Samples
  at_address : ℕ → Samples
  in_buffer : List ℤ → Samples

-- include/libmseed.h: LM_SIDLEN and NSTMODULUS.
abbrev pub lm_sidlen : ℕ
lm_sidlen = 64

abbrev pub nstmodulus : ℕ
nstmodulus = 1_000_000_000

-- MS3Record, as include/libmseed.h declares it; `raw` is its field `record`. A pointer is an address,
-- 0 the null pointer.
pub record Ms3Record (D : Type 0) : Type 0 where
  pub raw : ℕ
  pub reclen : ℤ
  pub swapflag : ℕ
  pub sid : List ℕ
  pub formatversion : ℕ
  pub flags : ℕ
  pub starttime : ℤ
  pub samprate : D
  pub encoding : ℤ
  pub pubversion : ℕ
  pub samplecnt : ℤ
  pub crc : ℕ
  pub extralength : ℕ
  pub datalength : ℕ
  pub extra : ℕ
  pub datasamples : Samples
  pub datasize : ℕ
  pub numsamples : ℤ
  pub sampletype : ℕ

-- libmseed: the trace list, as mstl3_init makes it, and the record, as msr3_init makes it; the source
-- identifier, in so many characters, made of network, station, location and channel; and the addition
-- of a record without a place for a pointer to it and with the default tolerances, which reports whether
-- it has succeeded; and the writing of a list.
pub record Libmseed (D : Type 0) : Type 1 where
  pub Ms3TraceList : Type 0
  pub mstl3_init : Ms3TraceList
  pub msr3_init : Ms3Record D
  pub ms_nslc2sid : (sidlen : ℕ) → (net sta : List ℕ) → Option (List ℕ) → (chan : List ℕ) → List ℕ
  pub mstl3_addmsr_recordptr :
      Ms3TraceList → Ms3Record D → (splitversion autoheal : Bool) (flags : ℕ) → Ms3TraceList × Bool
  -- What mstl3_writemseed returns: the number of records, or -1.
  pub mstl3_writemseed :
      Ms3TraceList → (mspath : List ℕ) (overwrite : Bool) (maxreclen encoding flags verbose : ℕ) → ℤ
  -- A new record has no samples.
  pub init_samples : msr3_init.datasamples ≡ null
  -- Of a buffer the first `numsamples` samples are read.
  pub addmsr_reads :
      (l : Ms3TraceList) (r : Ms3Record D) (xs : List ℤ) (splitversion autoheal : Bool) (flags : ℕ)
      → mstl3_addmsr_recordptr l
          (record r { datasamples = in_buffer xs })
          splitversion
          autoheal
          flags
        ≡ mstl3_addmsr_recordptr l
            (record r { datasamples = in_buffer (take (pos_part r.numsamples) xs) })
            splitversion
            autoheal
            flags

-- The macro, which passes no place for a pointer to the record, and the default tolerances.
abbrev pub mstl3_addmsr :
    {D : Type 0} (lib : Libmseed D)
    → lib.Ms3TraceList
    → Ms3Record D
    → (splitversion autoheal : Bool) (flags : ℕ) → lib.Ms3TraceList × Bool
mstl3_addmsr lib l r splitversion autoheal flags =
    lib.mstl3_addmsr_recordptr l r splitversion autoheal flags

-- `for ( j = 0; j < nsamp; j++, int16_ptr++ ) int32_buf[j] = *int16_ptr;`
unfoldable pub widen : Endian → Mem → (nsamp int16_ptr : ℕ) → List ℤ
widen host m zero p = []
widen host m (suc n) p = read_i16 host m p ∷ widen host m n (p + 2)

-- The macro of that name in include/libmseed.h, on a `double`.
unfoldable pub ms_epoch2nstime : (f : Floating) → f.Double → f.Double
ms_epoch2nstime f x = f.mul x (f.double_of_int (pos nstmodulus))

module _ (f : Floating) (lib : Libmseed f.Double) where
  -- The variables of the loop; `int32_buf` has `int32_num` elements.
  pub record Adding : Type 0 where
    pub msl : lib.Ms3TraceList
    pub msr : Ms3Record f.Double
    pub int32_buf : List ℤ
    pub lendtime : f.Double
    pub gapcount : ℕ
    pub nfill_max : ℤ
    pub allocs : ℕ

  -- The values that the loop sets in the record.
  unfoldable pub enrich_record : ℕ → Numbers f → Ms3Record f.Double → Ms3Record f.Double
  enrich_record p h r =
      let double_of : ℕ → f.Double = λ n. f.double_of_int (pos n) in
      let nanos = ms_epoch2nstime f h.starttime in
      record r {
        starttime = f.int_of_double (f.add nanos (f.div (double_of 1) (double_of 2)));
        samprate = h.samprate;
        numsamples = h.nsamp;
        samplecnt = h.nsamp;
        datasamples = at_address (p + trace2_header_size);
      }

  -- "Keep track of how many gaps and the largest one"
  unfoldable pub note_gap : Numbers f → Adding → Adding
  note_gap h s =
      let nfill = nfill_of f s.lendtime h.samprate h.starttime in
      let gap = is_gap f s.lendtime h.samprate h.starttime in
      record s {
        gapcount = if gap then s.gapcount + 1 else s.gapcount;
        nfill_max = if gap && ltb_ℤ s.nfill_max nfill then nfill else s.nfill_max;
      }

  -- "Depends on the data type chose the pointer": the type of the samples, and whether they are
  -- widened; `none` is a `continue`.
  unfoldable pub sampletype_at : Mem → ℕ → Option (ℕ × Bool)
  sampletype_at m p =
      let byte_order = m (datatype_at p) in
      let byte_per_sample = atoi m (datatype_at p + 1) in
      if byte_order == b'i' || byte_order == b's'
      then if byte_per_sample == 2
        then some (b'i', true)
        else if byte_per_sample == 4
        then some (b'i', false)
        else none
      else if byte_order == b'f' || byte_order == b't'
      then if byte_per_sample == 4
        then some (b'f', false)
        else if byte_per_sample == 8
        then some (b'd', false)
        else none
      else none

  -- "Add the record to the trace list; and detach the sample buffer", and the end of the round.
  unfoldable pub add_record : Numbers f → ℕ → Adding → Adding
  add_record h sampletype s =
      let msr = record (s.msr) { sampletype = sampletype } in
      record s {
        msl = (mstl3_addmsr lib s.msl msr false true 1).0;
        msr = record msr { datasamples = null };
        lendtime = h.endtime;
      }

  module _ (alloc : ℕ → Bool) (host : Endian) (m : Mem) where
    -- "Convert 16-bit integers to 32-bit integers"; `none` is a write through a null pointer.
    unfoldable pub convert_samples : Numbers f → ℕ → Adding → Option Adding
    convert_samples h p s =
        let n = pos_part h.nsamp in
        let buffer = widen host m n (p + trace2_header_size) ++ drop n s.int32_buf in
        let s1 = record s {
          int32_buf = buffer;
          msr = record (s.msr) { datasamples = in_buffer buffer };
        } in
        if ltb_ℤ (pos (length s.int32_buf)) h.nsamp
        then if alloc s.allocs then some (record s1 { allocs = s.allocs + 1 }) else none
        else some s1

    module _ (tankstart : ℕ) where
      abbrev pub packet_at : TBuf f.Double → ℕ
      packet_at b = (tankstart + b.offset) % 2 ^ 64

      unfoldable pub add_packet : TBuf f.Double → Adding → Option Adding
      add_packet b s =
          let p = packet_at b in
          let h = numbers_at f host m p in
          let s1 = note_gap h (record s { msr = enrich_record p h s.msr }) in
          elim (sampletype_at m p) [
            | none ↦ some s1
            | some (sampletype, widened) ↦
                if widened
                then elim (convert_samples h p s1) [
                  | none ↦ none
                  | some s2 ↦ some (add_record h sampletype s2)
                ]
                else some (add_record h sampletype s1)
          ]

      unfoldable pub add_packets : List (TBuf f.Double) → Adding → Option Adding
      add_packets [] s = some s
      add_packets (b ∷ bs) s = elim (add_packet b s) [ none ↦ none | some s1 ↦ add_packets bs s1 ]

  -- "Turn the SCNL into the header sid and NULL the "--" location"
  unfoldable pub sid_of : Scnl → List ℕ
  sid_of k =
      lib.ms_nslc2sid lm_sidlen (c_str (net_string k)) (c_str (sta_string k))
        (elim (strcmp (loc_string k) loc_null_string) [
          | Ordering.eq ↦ none
          | _ ↦ some (c_str (loc_string k))
        ])
        (c_str (chan_string k))

  -- The record of msr3_init with its first fields set.
  unfoldable pub new_record : Scnl → Ms3Record f.Double
  new_record k = record (lib.msr3_init) { sid = sid_of k; pubversion = 1 }

  -- The result 0 with the list, the static buffer and the counters; -1; and a fault: a write through
  -- a null pointer, or samples that are no allocated buffer, which msr3_free frees.
  pub data Added : Type 0 where
    added : lib.Ms3TraceList → List ℤ → Duty → Added
    no_record : Added
    fault : Added

  unfoldable pub free_record : Adding → Duty → Added
  free_record s d = elim (s.msr.datasamples) [
    | null ↦ added s.msl s.int32_buf (progbar_inc d).1
    | at_address p ↦ fault
    | in_buffer xs ↦ fault
  ]

  -- The allocation number 0 is that of msr3_init.
  unfoldable pub msproc_tlist_add :
      (alloc : ℕ → Bool)
      → Endian
      → Mem
      → (now : f.Double) → (tankstart : ℕ) → TraceNode f.Double
      → lib.Ms3TraceList
      → List ℤ
      → Duty
      → Added
  msproc_tlist_add alloc host m now tankstart t msl int32_buf d =
      let start : Adding = record {
        msl = msl;
        msr = new_record t.scnl;
        int32_buf = int32_buf;
        lendtime = now;
        gapcount = 0;
        nfill_max = pos 0;
        allocs = 1;
      } in
      if alloc 0
      then elim (add_packets alloc host m tankstart (take t.ntbuf t.tlist) start) [
        | none ↦ fault
        | some s ↦ free_record s d
      ]
      else no_record

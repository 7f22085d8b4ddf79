-- ===== src/Sac/Extract.antt =====
-- src/sacproc.c: how sacproc_trace_output joins the tracebufs of a trace.
pub mod Added
pub mod Gaps
pub mod Merges
pub mod Run
pub mod Bounds
pub mod Cut
use tank_convertor.Base.{
  ℕ, zero, suc, ◌+◌, ◌-◌, ◌*◌, ◌%◌, ◌^◌, Bool, true, false, ltb, leb, ltb_ℤ, if◌then◌else◌, Option,
  none, some, List, [], ◌∷◌, ◌++◌, length, ℤ, pos, negsuc, pos_part, ◌+ℤ◌, size_of_int,
}
use tank_convertor.Memory.{Mem, Endian}
use tank_convertor.Floating.{Floating}
use tank_convertor.Header.{Numbers, numbers_at, trace2_header_size}
use tank_convertor.Trace.{TBuf}
use tank_convertor.Sac.{SacHead, sacheadersize, sacword_size}
use tank_convertor.Sac.Head.{undefined, enrich_sac_starttime}
use tank_convertor.Sac.Samples.{OutBuf, buffersiz, room, enlarge, enrich_sac_samps}

-- The variables of the loop over the tracebufs. `allocs` counts the calls of realloc.
pub record Extract (f : Floating) : Type 0 where
  pub out : OutBuf f.Single
  pub nsamp_trace : ℤ
  pub endtime : f.Double
  pub samprate : f.Double
  pub gapcount : ℕ
  pub nfill_max : ℤ
  pub allocs : ℕ

-- How a round ends: at its end or by `continue`, by `return -1`, or through the null pointer of gmtime.
pub data Round (S : Type 0) : Type 0 where
  next : S → Round S
  failed : Round S
  crashed : Round S

-- `for ( j = 0; j < nfill && seis < outbufend; j++, seis++ ) *seis = fill;`
unfoldable pub fill_words {ℓ} : {A : Type ℓ} → A → (nfill left : ℕ) → List A
fill_words v zero left = []
fill_words v (suc n) zero = []
fill_words v (suc n) (suc left) = v ∷ fill_words v n left

module _ (f : Floating) where
  abbrev double_of : ℕ → f.Double
  double_of n = f.double_of_int (pos n)

  -- `endtime + (2.0 / samprate) < starttime`
  unfoldable pub is_gap : (endtime samprate starttime : f.Double) → Bool
  is_gap endtime samprate starttime = f.lt (f.add endtime (f.div (double_of 2) samprate)) starttime

  -- `endtime + (1.0 / samprate) > trh2->endtime`
  unfoldable pub is_duplicate : (endtime samprate new_endtime : f.Double) → Bool
  is_duplicate endtime samprate new_endtime =
      f.lt new_endtime (f.add endtime (f.div (double_of 1) samprate))

  -- `(int)((float)samprate * (float)(starttime - endtime))`
  unfoldable pub nfill_of : (endtime samprate starttime : f.Double) → ℤ
  nfill_of endtime samprate starttime =
      f.int_of_single
        (f.mul_single (f.single_of_double samprate) (f.single_of_double (f.sub starttime endtime)))

  -- `newsize`, a `size_t`
  unfoldable pub newsize_of : (nsamp_trace nfill : ℤ) → ℕ
  newsize_of nsamp_trace nfill =
      (size_of_int (nsamp_trace +ℤ nfill) * sacword_size + sacheadersize) % 2 ^ 64

  -- "Do the filling", and the count of the gaps and of the largest one.
  unfoldable pub fill_gap : ℤ → Extract f → Extract f
  fill_gap nfill s = record s {
    out = record (s.out) {
      words = s.out.words ++ fill_words (undefined f) (pos_part nfill) (room s.out);
    };
    nsamp_trace = s.nsamp_trace +ℤ nfill;
    gapcount = s.gapcount + 1;
    nfill_max = if ltb_ℤ s.nfill_max nfill then nfill else s.nfill_max;
  }

  -- What becomes of a gap: it is filled, or is bogus, or there is no memory for it.
  pub data Gap : Type 0 where
    filled : Extract f → Gap
    bogus : Gap
    no_memory : Gap

  module _ (alloc : ℕ → Bool) where
    abbrev pub enlarged : Extract f → Extract f
    enlarged s = record s { out = enlarge s.out; allocs = s.allocs + 1 }

    -- "There's a gap, so fill it"
    unfoldable pub bridge : ℤ → Extract f → Gap
    bridge nfill s =
        let newsize = newsize_of s.nsamp_trace nfill in
        if ltb (buffersiz s.out) newsize
        then if ltb (buffersiz s.out * 2 % 2 ^ 64) newsize
          then bogus
          else if alloc s.allocs
          then filled (fill_gap nfill (enlarged s))
          else no_memory
        else filled (fill_gap nfill s)

    module _ (host : Endian) (m : Mem) where
      -- "Advance endtime to the new packet"
      unfoldable pub advance : Numbers f → OutBuf f.Single → Extract f → Extract f
      advance h o s = record s {
        out = o;
        endtime = h.endtime;
        nsamp_trace = s.nsamp_trace +ℤ h.nsamp;
      }

      -- "Enrich the left data samples to the output buffer", if it is full.
      unfoldable pub enrich_left :
          (p srcend : ℕ) → Numbers f → OutBuf f.Single × ℕ → Extract f → Round (Extract f)
      enrich_left p srcend h (o, left) s =
          if leb o.capacity (length o.words)
          then if alloc s.allocs
            then elim (enrich_sac_samps f host m p left srcend (enlarge o)) [
              | none ↦ next (enlarged (record s { out = o }))
              | some r ↦ next (advance h (r.0) (enlarged s))
            ]
            else failed
          else next (advance h o s)

      -- "Enrich data samples to the output buffer"
      unfoldable pub add_samps : (p srcend : ℕ) → Numbers f → Extract f → Round (Extract f)
      add_samps p srcend h s =
          elim (enrich_sac_samps f host m p (p + trace2_header_size) srcend s.out) [
            | none ↦ next s
            | some r ↦ enrich_left p srcend h r s
          ]

      module _ (tankstart : ℕ) where
        abbrev pub packet_at : TBuf f.Double → ℕ
        packet_at b = (tankstart + b.offset) % 2 ^ 64

        abbrev pub with_rate : Numbers f → Extract f → Extract f
        with_rate h s = record s { samprate = h.samprate }

        -- The round for the first tracebuf.
        unfoldable pub first_packet : TBuf f.Double → Extract f → Round (Extract f)
        first_packet b s =
            let p = packet_at b in
            let h = numbers_at f host m p in
            elim (enrich_sac_starttime f h.starttime s.out.head) [
              | none ↦ crashed
              | some head ↦
                  add_samps p (p + b.size) h
                    (with_rate h (record s { out = record (s.out) { head = head } }))
            ]

        -- The round for each other one.
        unfoldable pub next_packet : TBuf f.Double → Extract f → Round (Extract f)
        next_packet b s =
            let p = packet_at b in
            let h = numbers_at f host m p in
            let s1 = with_rate h s in
            if is_gap s.endtime h.samprate h.starttime
            then elim (bridge (nfill_of s.endtime h.samprate h.starttime) s1) [
              | filled s2 ↦ add_samps p (p + b.size) h s2
              | bogus ↦ next s1
              | no_memory ↦ failed
            ]
            else if is_duplicate s.endtime h.samprate h.endtime
            then next s1
            else add_samps p (p + b.size) h s1

        unfoldable pub next_packets : List (TBuf f.Double) → Extract f → Round (Extract f)
        next_packets [] s = next s
        next_packets (b ∷ bs) s = elim (next_packet b s) [
          | next s1 ↦ next_packets bs s1
          | failed ↦ failed
          | crashed ↦ crashed
        ]

        -- "Go through the tracebuf list of this trace"
        unfoldable pub extract : List (TBuf f.Double) → Extract f → Round (Extract f)
        extract [] s = next s
        extract (b ∷ bs) s = elim (first_packet b s) [
          | next s1 ↦ next_packets bs s1
          | failed ↦ failed
          | crashed ↦ crashed
        ]

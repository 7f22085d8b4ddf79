-- ===== src/Sac/Interface.antt =====
-- src/sacproc.c: the functions that the file keeps to itself, with what sacproc_trace_output may rely on.
use tank_convertor.Base.{
  ℕ, ◌+◌, ◌*◌, ◌^◌, ◌≤◌, ◌<◌, ◌≡◌, true, Option, some, List, ◌∷◌, ◌++◌, length, replicate, drop,
  get_or, pos,
}
use tank_convertor.Memory.{Mem, Endian}
use tank_convertor.Floating.{Floating}
use tank_convertor.Sac.{SacHead, sacundef, sacstrundef, sac_i_d, sacversion}
use tank_convertor.Sac.Layout.{npts_field, int_at}
use tank_convertor.Sac.Fill.Split.{copies}
use tank_convertor.Sac.Calendar.{Tm}
use tank_convertor.Sac.Calendar.Seconds.{IsTime}
use tank_convertor.Sac.Head.{undefined}
use tank_convertor.Sac.Head
use tank_convertor.Sac.Head.Init.{init_header-undefined}
use tank_convertor.Sac.Head.Start.{millis_of, enrich_sac_starttime-IsTime}
use tank_convertor.Sac.Samples.{OutBuf}
use tank_convertor.Sac.Samples
use tank_convertor.Sac.Extract.Bounds.{IsWithin, enlarge-IsWithin, enrich-IsWithin}
use tank_convertor.Sac.Output.{System, Written, written}
use tank_convertor.Sac.Output
use tank_convertor.Sac.Output.File.{write_sac_file-written}

-- realloc_outbuf is what it does where realloc succeeds.
pub record SacFunctions (f : Floating) (os : System f.Single) (host : Endian) (m : Mem)
    : Type 0 where
  pub init_header : SacHead f.Single → SacHead f.Single
  pub enrich_header_default : SacHead f.Single → SacHead f.Single
  pub enrich_sac_starttime : f.Double → SacHead f.Single → Option (SacHead f.Single)
  pub enrich_sac_samps : (trh2 srcptr srcend : ℕ) → OutBuf f.Single → Option (OutBuf f.Single × ℕ)
  pub realloc_outbuf : OutBuf f.Single → OutBuf f.Single
  pub write_sac_file : (cleared : ℕ) → OutBuf f.Single → List ℕ → Written f.Single
  -- A new header is undefined.
  pub undefined_head :
      (h : SacHead f.Single)
      → length h.sac_float ≡ 70
      → length h.sac_int ≡ 40
      → length h.sac_string ≡ 192
      → init_header h ≡ record {
        sac_float =
            replicate 9 (undefined f) ++ (f.single_of_int sac_i_d ∷ replicate 60 (undefined f));
        sac_int =
            replicate 6 sacundef ++ (sacversion ∷ (replicate 28 sacundef ++ replicate 5 (pos 1)));
        sac_string = copies 24 sacstrundef;
      }
  -- The reference time stands for the start.
  pub reference_time :
      (starttime : f.Double) (t : ℕ) (h : SacHead f.Single)
      → f.int_of_double starttime ≡ pos t
      → t < 2 ^ 31
      → 6 ≤ length h.sac_int
      → (tm : Tm) × (time : IsTime 0 t tm) × (enrich_sac_starttime starttime h
          ≡ some (record h {
            sac_int =
                pos (1970 + time.years)
                ∷ pos (tm.tm_yday + 1)
                ∷ pos tm.tm_hour
                ∷ pos tm.tm_min
                ∷ pos tm.tm_sec
                ∷ millis_of f starttime
                ∷ drop 6 h.sac_int;
          }))
  -- The pointer into the buffer stays within it.
  pub samples_within :
      (trh2 srcptr srcend : ℕ) (o : OutBuf f.Single) (r : OutBuf f.Single × ℕ)
      → enrich_sac_samps trh2 srcptr srcend o ≡ some r
      → IsWithin o
      → IsWithin r.0
  pub larger_within : (o : OutBuf f.Single) → IsWithin o → IsWithin (realloc_outbuf o)
  -- A file has the words that its header counts.
  pub counted_words :
      (cleared : ℕ) (o : OutBuf f.Single) (path : List ℕ)
      → get_or o.head.sac_int (int_at npts_field) (pos 0) ≡ pos (length o.words)
      → IsWithin o
      → length o.words < 2 ^ 60
      → os.fopen path ≡ true
      → os.fwrite path (632 + length o.words * 4) ≡ true
      → write_sac_file cleared o path
        ≡ written (record {
          path = path;
          size = 632 + length o.words * 4;
          head = o.head;
          words = o.words;
        })

unfoldable pub sac_functions :
    (f : Floating) (os : System f.Single) (host : Endian) (m : Mem) → SacFunctions f os host m
sac_functions f os host m = record {
  init_header = Head.init_header f;
  enrich_header_default = Head.enrich_header_default f;
  enrich_sac_starttime = Head.enrich_sac_starttime f;
  enrich_sac_samps = Samples.enrich_sac_samps f host m;
  realloc_outbuf = Samples.enlarge;
  write_sac_file = Output.write_sac_file f os;
  undefined_head = init_header-undefined f;
  reference_time = enrich_sac_starttime-IsTime f;
  samples_within = enrich-IsWithin f os.alloc host m;
  larger_within = enlarge-IsWithin f;
  counted_words = write_sac_file-written f os;
}

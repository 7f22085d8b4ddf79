-- ===== src/Sac/Output/Whole.antt =====
-- sacproc_trace_output as a whole: the SAC file of a trace.
use tank_convertor.Base.{
  ℕ, zero, suc, ◌+◌, ◌*◌, ◌^◌, ◌≤◌, ◌<◌, ◌≡◌, refl, sym, ap, ◌∙◌, Bool-cases, true, Option, none,
  some, Option-cases, inl, inr, List, [], ◌∷◌, ◌++◌, length, length-set, set, get_or, take, ℤ, pos,
  arith,
}
use mathlib.Core.Option.{some-injective}
use tank_convertor.Memory.{Mem, Endian}
use tank_convertor.Floating.{Floating}
use tank_convertor.Trace.{TBuf, Scnl, TraceNode}
use tank_convertor.OutPath.{in_result}
use tank_convertor.Progress.{Duty, progbar_inc}
use tank_convertor.Sac.{SacHead, zero_head, set_float, set_int}
use tank_convertor.Sac.Layout.{delta_field, e_field, npts_field, int_at}
use tank_convertor.Sac.Head.{enrich_header_default, copy_scnl, orient, enrich_sac_starttime}
use tank_convertor.Sac.Head.Init.{init_header-undefined}
use tank_convertor.Sac.Calendar.{fits_int32, gmtime}
use tank_convertor.Sac.Extract.{Extract, Round, next, failed, crashed, extract}
use tank_convertor.Sac.Extract.Added.{Returns, samples_of}
use tank_convertor.Sac.Extract.Gaps.{IsReady}
use tank_convertor.Sac.Extract.Merges.{numbers, Packet, Merges, last_rate, Merged}
use tank_convertor.Sac.Extract.Run.{extract-Merged}
use tank_convertor.Sac.Output.{
  System, written, first_capacity, prepare_head, prepare, finish_head, sac_path, output,
  sacproc_trace_output,
}
use tank_convertor.Sac.Output.File.{write_sac_file-written}

-- The header of a file of `n` samples.
abbrev pub final_head : (f : Floating) → ℤ → f.Double → SacHead f.Single → SacHead f.Single
final_head f n rate h =
    let delta = f.single_of_double (f.div (f.double_of_int (pos 1)) rate) in
    set_float e_field (f.mul_single (f.single_of_int n) delta)
      (set_float delta_field delta (set_int npts_field n h))

get_or-set : (l : List ℤ) (i : ℕ) (v d : ℤ) → i < length l → get_or (set l i v) i d ≡ v
get_or-set [] i v d h = absurd (omega arith)
get_or-set (x ∷ l) zero v d h = refl
get_or-set (x ∷ l) (suc i) v d h = get_or-set l i v d (omega arith)

module _ (f : Floating) (os : System f.Single) where
  length-prepare_head : (k : Scnl) → length (prepare_head f os k).sac_int ≡ 40
  unfolding prepare_head orient copy_scnl enrich_header_default
  length-prepare_head k = rw (init_header-undefined f (zero_head f) refl refl refl) refl

  length-enrich :
      (t : f.Double) (h h1 : SacHead f.Single)
      → enrich_sac_starttime f t h ≡ some h1
      → length h1.sac_int ≡ length h.sac_int
  unfolding enrich_sac_starttime
  length-enrich t h h1 e = elim (Option-cases (gmtime (f.int_of_double t))) [
    | inl none_at ↦ ground (arith, none_at)
    | inr (tm, at) ↦ elim (Bool-cases (fits_int32 (f.int_of_double t))) [
      | inr too_late ↦
          let off : ◌≡◌ {A = Option (SacHead f.Single)} none (some h1) =
            rw (at, too_late, enrich_sac_starttime) at e in
          ground arith
      | inl fits ↦
          let found : ◌≡◌ {A = Option (SacHead f.Single)} (some _) (some h1) =
            rw (at, fits, enrich_sac_starttime) at e in
          ap (λ (x : SacHead f.Single). length x.sac_int) (sym (some-injective _ _ found))
          ∙ length-set _ 5 _
          ∙ length-set _ 4 _
          ∙ length-set _ 3 _
          ∙ length-set _ 2 _
          ∙ length-set _ 1 _
          ∙ length-set h.sac_int 0 _
    ]
  ]

  prepare-IsReady :
      (now : f.Double) (t : TraceNode f.Double)
      → 4096 ≤ t.maxtbuf
      → t.maxtbuf * 100 < 2 ^ 32
      → IsReady (prepare f os now t)
  unfolding prepare first_capacity
  prepare-IsReady now t big small = record {
    within = omega arith;
    large = omega arith;
    tight = omega arith;
    aligned = refl;
  }

  finish_head-final :
      (s : Extract f) (n : ℤ) (rate : f.Double) (head : SacHead f.Single)
      → s.nsamp_trace ≡ n
      → s.samprate ≡ rate
      → s.out.head ≡ head
      → finish_head f os s ≡ final_head f n rate head
  unfolding finish_head
  finish_head-final s n rate head a b c = λ i. final_head f (a i) (b i) (c i)

  -- From the state that the loop leaves on.
  output-written :
      (cleared : ℕ) (outpath path : List ℕ) (k : Scnl) (s : Extract f) (ws : List f.Single)
      (rate : f.Double) (head : SacHead f.Single)
      → s.out.words ≡ ws
      → s.out.head ≡ head
      → s.samprate ≡ rate
      → IsReady s
      → 9 < length head.sac_int
      → length ws < 2 ^ 59
      → in_result (sac_path f os outpath k) ≡ some path
      → os.fopen path ≡ true
      → os.fwrite path (632 + length ws * 4) ≡ true
      → output f os cleared outpath k s
        ≡ written (record {
          path = path;
          size = 632 + length ws * 4;
          head = final_head f (pos (length ws)) rate head;
          words = ws;
        })
  unfolding output
  output-written cleared outpath path k s ws rate head words head_is rate_is v big few named opened
        wrote =
      let len = ap length words in
      let count : s.nsamp_trace ≡ pos (length ws) = v.aligned ∙ ap pos len in
      let last = final_head f (pos (length ws)) rate head in
      let npts : get_or last.sac_int (int_at npts_field) (pos 0) ≡ pos (length s.out.words) =
        get_or-set head.sac_int 9 (pos (length ws)) (pos 0) big ∙ ap pos (sym len) in
      rw (output, named, finish_head-final s (pos (length ws)) rate head count rate_is head_is)
        (write_sac_file-written f os cleared (record (s.out) { head = last }) path npts v.within
            (omega (arith, len)) opened (rw len wrote)
          ∙ ap
              (λ (l : List f.Single).
                written (record { path = path; size = 632 + length l * 4; head = last; words = l }))
              words)

  module _ (ok : (i : ℕ) → os.alloc i ≡ true) (host : Endian) (m : Mem) (tankstart : ℕ) where
    -- If no allocation fails, a trace whose tracebufs merge to `ws` behind the first one, which starts
    -- at a time that the calendar knows, becomes a file of the samples of the first one and `ws`, which
    -- its header counts; the progress bar moves on.
    pub sacproc_trace_output-written :
        (now : f.Double) (outpath path : List ℕ) (t : TraceNode f.Double) (d : Duty)
        (b : TBuf f.Double) (bs : List (TBuf f.Double)) (ws : List f.Single)
        (v : Packet f host m tankstart b) (head : SacHead f.Single)
        → take t.ntbuf t.tlist ≡ b ∷ bs
        → 4096 ≤ t.maxtbuf
        → t.maxtbuf * 100 < 2 ^ 32
        → enrich_sac_starttime f (numbers f host m tankstart b).starttime (prepare_head f os t.scnl)
          ≡ some head
        → Merges f host m tankstart (numbers f host m tankstart b).endtime bs ws
        → length (samples_of v ++ ws) < 2 ^ 31
        → in_result (sac_path f os outpath t.scnl) ≡ some path
        → os.fopen path ≡ true
        → os.fwrite path (632 + length (samples_of v ++ ws) * 4) ≡ true
        → sacproc_trace_output f os host m now outpath tankstart t d ≡ (
          written (record {
            path = path;
            size = 632 + length (samples_of v ++ ws) * 4;
            head =
                final_head f
                  (pos (length (samples_of v ++ ws)))
                  (last_rate f host m tankstart (f.double_of_int (pos 1)) (b ∷ bs))
                  head;
            words = samples_of v ++ ws;
          }),
          (progbar_inc d).1,
        )
    unfolding sacproc_trace_output prepare
    sacproc_trace_output-written now outpath path t d b bs ws v head list big small started merges
          few named opened wrote =
        let start = prepare f os now t in
        let len = length-enrich _ _ head started ∙ length-prepare_head t.scnl in
        ended _ refl (
          extract-Merged f host m tankstart (os.alloc) ok b bs ws start head v started merges
            (prepare-IsReady now t big small) (omega (arith, few)))
      where
        ended :
            (r : Round (Extract f))
            → extract f (os.alloc) host m tankstart (b ∷ bs) (prepare f os now t) ≡ r
            → Returns
                (λ s1.
                  Merged f host m tankstart
                    (record (prepare f os now t) {
                      out = record ((prepare f os now t).out) { head = head };
                    })
                    s1
                    (samples_of v ++ ws)
                    (last_rate f host m tankstart (f.double_of_int (pos 1)) (b ∷ bs)))
                r
            → sacproc_trace_output f os host m now outpath tankstart t d ≡ (
              written (record {
                path = path;
                size = 632 + length (samples_of v ++ ws) * 4;
                head =
                    final_head f
                      (pos (length (samples_of v ++ ws)))
                      (last_rate f host m tankstart (f.double_of_int (pos 1)) (b ∷ bs))
                      head;
                words = samples_of v ++ ws;
              }),
              (progbar_inc d).1,
            )
        ended (next s) e g =
            rw
              (
                ok 0,
                list,
                e,
                output-written (first_capacity f os t.maxtbuf) outpath path t.scnl s
                    (samples_of v ++ ws) _ head g.words g.head g.samprate_is g.ready
                    (omega (arith, length-enrich _ _ head started, length-prepare_head t.scnl))
                    (omega (arith, few)) named opened wrote,
              )
              refl
        ended failed e g = absurd g
        ended crashed e g = absurd g

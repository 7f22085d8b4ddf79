-- ===== src/Main/Totals.antt =====
-- The progress bar over a whole conversion.
use tank_convertor.Base.{
  ℕ, ◌+◌, ◌^◌, ◌≤◌, ◌<◌, ◌≡◌, refl, ◌∙◌, ◌==◌, Bool-cases, inl, inr, Option, none, some,
  Option-cases, List, [], length, ℤ, pos, arith,
}
use tank_convertor.Floating.{Floating}
use tank_convertor.Walk.{Scanned}
use tank_convertor.Command.{
  ConvFormat, Chosen, conv_format_sac, conv_format_mseed, conv_format_mseed3,
}
use tank_convertor.OutPath.{msproc_outpath_gen, sacproc_outpath_gen}
use tank_convertor.Progress.{Duty, progbar_init, progbar_inc}
use tank_convertor.Sac.Output.{SacFile}
use tank_convertor.Mseed.{Libmseed}
use tank_convertor.Main.Steps.{Moved, progbar_inc-Moved, then-Moved}
use tank_convertor.Main.Loops.{behind-Moved, Files, sac_loop-Files, Lists, mseed_loop-Lists}
use tank_convertor.Main.{
  Machine, Packing, packing_of, Done, sac_files, mseed_file, failure, exit, fault, no_end,
  write_sac, write_mseed, write_format, convert_traces,
}

module _ (f : Floating) (lib : Libmseed f.Double) (os : Machine f) (r : Scanned f) where
  -- The counters at the end of main, for `n` traces.
  abbrev pub Counted : (n : ℕ) → Done f lib → Type 0
  Counted n (sac_files made files d) =
      (d.total_duty ≡ n + 2) × (d.comp_duty ≡ length files + 2) × (length files ≤ n)
  Counted n (mseed_file path packing msl records d) =
      (d.total_duty ≡ n + 2) × (k : ℕ) × (d.comp_duty ≡ k + 2) × (k ≤ n)
  Counted n failure = Unit
  Counted n exit = Unit
  Counted n fault = Unit
  Counted n no_end = Unit

  abbrev begun : Duty
  begun = (progbar_init (pos (r.totaltrace + 2)) (record { total_duty = 0; comp_duty = 0 })).1

  begun-total : r.totaltrace + 2 < 2 ^ 31 → begun.total_duty ≡ r.totaltrace + 2
  unfolding progbar_init
  begun-total h = omega arith

  begun-comp : begun.comp_duty ≡ 0
  unfolding progbar_init
  begun-comp = refl

  -- The two last steps.
  twice-Moved :
      (k : ℕ) (d : Duty)
      → Moved begun d k
      → k + 2 < 2 ^ 32
      → Moved begun (progbar_inc (progbar_inc d).1).1 (k + 2)
  twice-Moved k d a h =
      let one = progbar_inc-Moved d (omega (arith, a.comp, begun-comp)) in
      let two = progbar_inc-Moved (progbar_inc d).1 (omega (arith, a.comp, one.comp, begun-comp)) in
      behind-Moved f lib os r k 2 (k + 2) a (then-Moved one two) refl

  sac_ended :
      (made : Option (List ℕ))
      → r.totaltrace + 2 < 2 ^ 31
      → (o : Option (List (SacFile f.Single) × Duty)) → Files f lib os r r.totaltrace begun o
      → Counted r.totaltrace (elim o [
        | none ↦ fault
        | some (files, d1) ↦ sac_files made files (progbar_inc (progbar_inc d1).1).1
      ])
  sac_ended made h none a = tt
  sac_ended made h (some (files, d1)) (a, le) =
      let all = twice-Moved (length files) d1 a (omega arith) in
      (all.total ∙ begun-total h, omega (arith, all.comp, begun-comp), le)

  mseed_ended :
      (path : List ℕ) (packing : Packing) (records : lib.Ms3TraceList → ℤ)
      → r.totaltrace + 2 < 2 ^ 31
      → (o : Option (lib.Ms3TraceList × Duty)) → Lists f lib os r r.totaltrace begun o
      → Counted r.totaltrace (elim o [
        | none ↦ fault
        | some (msl, d1) ↦
            mseed_file path packing msl (records msl) (progbar_inc (progbar_inc d1).1).1
      ])
  mseed_ended path packing records h none a = tt
  mseed_ended path packing records h (some (msl, d1)) (k, a, le) =
      let all = twice-Moved k d1 a (omega arith) in
      (all.total ∙ begun-total h, k, omega (arith, all.comp, begun-comp), le)

  write_sac-Counted :
      (c : Chosen) → r.totaltrace + 2 < 2 ^ 31 → Counted r.totaltrace (write_sac f lib os r c begun)
  unfolding write_sac
  write_sac-Counted c h = elim (Option-cases (sacproc_outpath_gen c.input_file c.out_path)) [
    | inl long ↦ rw (write_sac, long) tt
    | inr (path, short) ↦
        rw (write_sac, short)
          (sac_ended _ h _
            (sac_loop-Files f lib os r path r.totaltrace 0 begun (omega (arith, begun-comp))))
  ]

  write_mseed-Counted :
      (c : Chosen)
      → r.totaltrace + 2 < 2 ^ 31
      → Counted r.totaltrace (write_mseed f lib os r c begun)
  unfolding write_mseed
  write_mseed-Counted c h = elim (Option-cases (msproc_outpath_gen c.input_file c.out_path)) [
    | inl long ↦ rw (write_mseed, long) tt
    | inr (path, short) ↦
        rw (write_mseed, short)
          (mseed_ended path (packing_of c.conv_format) _ h _ (
            mseed_loop-Lists f lib os r r.totaltrace 0 lib.mstl3_init [] begun
              (omega (arith, begun-comp))))
  ]

  write_format-Counted :
      (format : ConvFormat) (c : Chosen)
      → r.totaltrace + 2 < 2 ^ 31
      → Counted r.totaltrace (write_format f lib os format r c begun)
  unfolding write_format
  write_format-Counted conv_format_sac = write_sac-Counted
  write_format-Counted conv_format_mseed = write_mseed-Counted
  write_format-Counted conv_format_mseed3 = write_mseed-Counted

  -- If the conversion of fewer than 2 ^ 31 - 2 traces produces SAC files, the progress bar has gone
  -- one step for each file and two more, out of one for each trace and two more; if it produces a
  -- miniSEED file, it has gone no further than one step for each trace and two more.
  pub convert_traces-Counted :
      (c : Chosen) → r.totaltrace + 2 < 2 ^ 31 → Counted r.totaltrace (convert_traces f lib os c r)
  unfolding convert_traces
  convert_traces-Counted c h = elim (Bool-cases (r.totaltrace == 0)) [
    | inl no_traces ↦ rw no_traces tt
    | inr some_traces ↦ rw some_traces (write_format-Counted c.conv_format c h)
  ]

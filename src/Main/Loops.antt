-- ===== src/Main/Loops.antt =====
-- The progress bar over the loops of main on the traces.
use tank_convertor.Base.{
  ℕ, zero, suc, ◌+◌, ◌^◌, ◌≤◌, ◌<◌, ◌≡◌, inl, inr, Option, none, some, Option-cases, List, ◌∷◌,
  length, ℤ, arith,
}
use tank_convertor.Floating.{Floating}
use tank_convertor.Walk.{Scanned}
use tank_convertor.Progress.{Duty}
use tank_convertor.Sac.Output.{
  System, SacFile, Written, written, write_error, prepare, first_capacity, output,
  sacproc_trace_output,
}
use tank_convertor.Sac.Output as Output
use tank_convertor.Mseed.{
  Libmseed, Adding, Added, added, no_record, Samples, null, at_address, in_buffer, new_record,
  add_packets, free_record, msproc_tlist_add,
}
use tank_convertor.Mseed as Mseed
use tank_convertor.Main.Steps.{
  Moved, stays, then-Moved, Steps, trace_output-Steps, AddedSteps, tlist_add-Steps,
}
use tank_convertor.Main.{Machine, trace_at, sac_loop, mseed_loop}

module _ (f : Floating) (lib : Libmseed f.Double) (os : Machine f) (r : Scanned f) where
  -- Of the loop of the SAC output: the steps are those of the files.
  abbrev pub Files : (left : ℕ) → Duty → Option (List (SacFile f.Single) × Duty) → Type 0
  Files left d none = Unit
  Files left d (some (files, d1)) = Moved d d1 (length files) × (length files ≤ left)

  pub behind-Moved :
      {d d1 d2 : Duty} (k j n : ℕ) → Moved d d1 k → Moved d1 d2 j → k + j ≡ n → Moved d d2 n
  behind-Moved k j n a b e = rw (← e) (then-Moved a b)

  joined :
      (left : ℕ) (d : Duty) (file : SacFile f.Single) (d1 : Duty)
      → Moved d d1 1
      → (o : Option (List (SacFile f.Single) × Duty)) → Files left d1 o
      → Files (suc left) d (elim o [ none ↦ none | some rest ↦ some (file ∷ rest.0, rest.1) ])
  joined left d file d1 a none b = tt
  joined left d file d1 a (some (files, d2)) b =
      (behind-Moved 1 (length files) (suc (length files)) a b.0 (omega arith), omega (arith, b.1))

  skipped :
      (left : ℕ) (d d1 : Duty)
      → Moved d d1 0
      → (o : Option (List (SacFile f.Single) × Duty)) → Files left d1 o
      → Files (suc left) d o
  skipped left d d1 a none b = tt
  skipped left d d1 a (some (files, d2)) b =
      (behind-Moved 0 (length files) (length files) a b.0 (omega arith), omega (arith, b.1))

  round-Files :
      (path : List ℕ) (left i : ℕ) (d : Duty)
      → d.comp_duty + suc left < 2 ^ 32
      → (out : Written f.Single × Duty) → Steps f d out
      → ((d1 : Duty)
          → d1.comp_duty + left < 2 ^ 32
          → Files left d1 (sac_loop f lib os r path left (i + 1) d1))
      → Files (suc left) d (elim (out.0) [
        | Output.fault ↦ none
        | write_error ↦ sac_loop f lib os r path left (i + 1) (out.1)
        | written file ↦ elim (sac_loop f lib os r path left (i + 1) (out.1)) [
          | none ↦ none
          | some rest ↦ some (file ∷ rest.0, rest.1)
        ]
      ])
  round-Files path left i d h (written file, d1) a rest =
      joined left d file d1 a _ (rest d1 (omega (arith, a.comp)))
  round-Files path left i d h (write_error, d1) a rest =
      skipped left d d1 a _ (rest d1 (omega (arith, a.comp)))
  round-Files path left i d h (Output.fault, d1) a rest = tt

  pub sac_loop-Files :
      (path : List ℕ) (left i : ℕ) (d : Duty)
      → d.comp_duty + left < 2 ^ 32
      → Files left d (sac_loop f lib os r path left i d)
  unfolding sac_loop
  sac_loop-Files path zero i d h = (stays d, omega arith)
  sac_loop-Files path (suc left) i d h = elim (Option-cases (trace_at f lib os r i)) [
    | inl no_trace ↦ rw (sac_loop, no_trace) tt
    | inr (t, found) ↦
        rw (sac_loop, found)
          (round-Files path left i d h _
            (trace_output-Steps f (os.system i) os.host r.mem (os.now i) path os.tankstart t d
              (omega arith))
            (λ d1. sac_loop-Files path left (i + 1) d1))
  ]

  -- Of the loop of the miniSEED output: no more steps than traces.
  abbrev pub Lists : (left : ℕ) → Duty → Option (lib.Ms3TraceList × Duty) → Type 0
  Lists left d none = Unit
  Lists left d (some (msl, d1)) = (k : ℕ) × Moved d d1 k × (k ≤ left)

  after-Lists :
      (left n : ℕ) (d d1 : Duty)
      → Moved d d1 n
      → n ≤ 1
      → (o : Option (lib.Ms3TraceList × Duty)) → Lists left d1 o
      → Lists (suc left) d o
  after-Lists left n d d1 a h none b = tt
  after-Lists left n d d1 a h (some (msl, d2)) (k, b, le) = (n + k, then-Moved a b, omega arith)

  round-Lists :
      (left i : ℕ) (msl : lib.Ms3TraceList) (buffer : List ℤ) (d : Duty)
      → d.comp_duty + suc left < 2 ^ 32
      → (out : Added f lib) → AddedSteps f lib d out
      → ((msl1 : lib.Ms3TraceList) (buffer1 : List ℤ) (d1 : Duty)
          → d1.comp_duty + left < 2 ^ 32
          → Lists left d1 (mseed_loop f lib os r left (i + 1) msl1 buffer1 d1))
      → Lists (suc left) d (elim out [
        | Mseed.fault ↦ none
        | no_record ↦ mseed_loop f lib os r left (i + 1) msl buffer d
        | added msl1 buffer1 d1 ↦ mseed_loop f lib os r left (i + 1) msl1 buffer1 d1
      ])
  round-Lists left i msl buffer d h (added msl1 buffer1 d1) a rest =
      after-Lists left 1 d d1 a (omega arith) _ (rest msl1 buffer1 d1 (omega (arith, a.comp)))
  round-Lists left i msl buffer d h no_record a rest =
      after-Lists left 0 d d (stays d) (omega arith) _ (rest msl buffer d (omega arith))
  round-Lists left i msl buffer d h Mseed.fault a rest = tt

  pub mseed_loop-Lists :
      (left i : ℕ) (msl : lib.Ms3TraceList) (buffer : List ℤ) (d : Duty)
      → d.comp_duty + left < 2 ^ 32
      → Lists left d (mseed_loop f lib os r left i msl buffer d)
  unfolding mseed_loop
  mseed_loop-Lists zero i msl buffer d h = (0, stays d, omega arith)
  mseed_loop-Lists (suc left) i msl buffer d h = elim (Option-cases (trace_at f lib os r i)) [
    | inl no_trace ↦ rw (mseed_loop, no_trace) tt
    | inr (t, found) ↦
        rw (mseed_loop, found)
          (round-Lists left i msl buffer d h _
            (tlist_add-Steps f lib (os.alloc i) os.host r.mem (os.now i) os.tankstart t msl buffer d
              (omega arith))
            (mseed_loop-Lists left (i + 1)))
  ]

-- ===== src/Main/Steps.antt =====
-- The progress bar over the output of one trace.
use tank_convertor.Base.{
  ℕ, ◌+◌, ◌^◌, ◌<◌, ◌≡◌, refl, ◌∙◌, Bool, Bool-cases, inl, inr, Option, none, some, List, ℤ, take,
  arith,
}
use tank_convertor.Memory.{Mem, Endian}
use tank_convertor.Floating.{Floating}
use tank_convertor.Trace.{TraceNode}
use tank_convertor.Progress.{Duty, progbar_inc}
use tank_convertor.Sac.Extract.{Extract, Round, next, failed, crashed, extract}
use tank_convertor.Sac.Output.{
  System, SacFile, Written, written, write_error, prepare, first_capacity, output,
  sacproc_trace_output,
}
use tank_convertor.Sac.Output as Output
use tank_convertor.Mseed.{
  Libmseed, Adding, Added, added, no_record, Samples, null, at_address, in_buffer, new_record,
  add_packets, free_record, msproc_tlist_add,
}
use tank_convertor.Mseed as Mseed

-- `k` more steps are done.
pub record Moved (d d1 : Duty) (k : ℕ) : Type 0 where
  pub total : d1.total_duty ≡ d.total_duty
  pub comp : d1.comp_duty ≡ d.comp_duty + k

pub stays : (d : Duty) → Moved d d 0
stays d = record { total = refl; comp = omega arith }

pub progbar_inc-Moved : (d : Duty) → d.comp_duty + 1 < 2 ^ 32 → Moved d (progbar_inc d).1 1
unfolding progbar_inc
progbar_inc-Moved d h = record { total = refl; comp = omega arith }

pub then-Moved : {d d1 d2 : Duty} {k j : ℕ} → Moved d d1 k → Moved d1 d2 j → Moved d d2 (k + j)
then-Moved a b = record { total = b.total ∙ a.total; comp = omega (arith, a.comp, b.comp) }

module _ (f : Floating) where
  -- One step for a file, none without.
  abbrev pub Steps : Duty → Written f.Single × Duty → Type 0
  Steps d (written file, d1) = Moved d d1 1
  Steps d (write_error, d1) = Moved d d1 0
  Steps d (Output.fault, d1) = Unit

  pub trace_output-Steps :
      (os : System f.Single) (host : Endian) (m : Mem) (now : f.Double) (outpath : List ℕ)
      (tankstart : ℕ) (t : TraceNode f.Double) (d : Duty)
      → d.comp_duty + 1 < 2 ^ 32
      → Steps d (sacproc_trace_output f os host m now outpath tankstart t d)
  unfolding sacproc_trace_output
  trace_output-Steps os host m now outpath tankstart t d h = elim (Bool-cases (os.alloc 0)) [
    | inr refused ↦ rw refused tt
    | inl got ↦
        rw got (
          ended (extract f (os.alloc) host m tankstart (take t.ntbuf t.tlist) (prepare f os now t)))
  ]
    where
      wrote :
          (w : Written f.Single)
          → Steps d (elim w [
            | written file ↦ (written file, (progbar_inc d).1)
            | write_error ↦ (write_error, d)
            | Output.fault ↦ (Output.fault, d)
          ])
      wrote (written file) = progbar_inc-Moved d h
      wrote write_error = stays d
      wrote Output.fault = tt

      ended :
          (r : Round (Extract f))
          → Steps d (elim r [
            | failed ↦ (write_error, d)
            | crashed ↦ (Output.fault, d)
            | next s ↦ elim (output f os (first_capacity f os t.maxtbuf) outpath t.scnl s) [
              | written file ↦ (written file, (progbar_inc d).1)
              | write_error ↦ (write_error, d)
              | Output.fault ↦ (Output.fault, d)
            ]
          ])
      ended (next s) = wrote (output f os (first_capacity f os t.maxtbuf) outpath t.scnl s)
      ended failed = stays d
      ended crashed = tt

module _ (f : Floating) (lib : Libmseed f.Double) where
  abbrev pub AddedSteps : Duty → Added f lib → Type 0
  AddedSteps d (added msl buffer d1) = Moved d d1 1
  AddedSteps d no_record = Unit
  AddedSteps d Mseed.fault = Unit

  pub tlist_add-Steps :
      (alloc : ℕ → Bool) (host : Endian) (m : Mem) (now : f.Double) (tankstart : ℕ)
      (t : TraceNode f.Double) (msl : lib.Ms3TraceList) (buffer : List ℤ) (d : Duty)
      → d.comp_duty + 1 < 2 ^ 32
      → AddedSteps d (msproc_tlist_add f lib alloc host m now tankstart t msl buffer d)
  unfolding msproc_tlist_add free_record
  tlist_add-Steps alloc host m now tankstart t msl buffer d h = elim (Bool-cases (alloc 0)) [
    | inr refused ↦ rw refused tt
    | inl got ↦ rw got (ended _)
  ]
    where
      freed :
          (s : Adding f lib) (x : Samples)
          → s.msr.datasamples ≡ x
          → AddedSteps d (free_record f lib s d)
      freed s null e = rw (free_record, e) (progbar_inc-Moved d h)
      freed s (at_address p) e = rw (free_record, e) tt
      freed s (in_buffer xs) e = rw (free_record, e) tt

      ended :
          (o : Option (Adding f lib))
          → AddedSteps d (elim o [ none ↦ Mseed.fault | some s ↦ free_record f lib s d ])
      ended none = tt
      ended (some s) = freed s s.msr.datasamples refl

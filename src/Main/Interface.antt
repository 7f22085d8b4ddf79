-- ===== src/Main/Interface.antt =====
-- include/tbconvert.h: the functions that the files of the program offer each other, with what each
-- call of them may rely on.
use tank_convertor.Base.{ℕ, ◌+◌, ◌^◌, ◌<◌, Bool, Option, List, ℤ, Ordering}
use tank_convertor.Memory.{Mem, Endian}
use tank_convertor.Floating.{Floating}
use tank_convertor.Libc.Strings.Order.{IsComparison}
use tank_convertor.Trace.{TBuf, Scnl, TraceNode}
use tank_convertor.Trace
use tank_convertor.Trace.Order.{compare_scnl-IsComparison}
use tank_convertor.Progress.{Duty}
use tank_convertor.Progress
use tank_convertor.OutPath
use tank_convertor.Sac.Output.{System, Written}
use tank_convertor.Sac.Output
use tank_convertor.Mseed.{Libmseed, Added}
use tank_convertor.Mseed
use tank_convertor.Main.Steps.{
  Moved, progbar_inc-Moved, Steps, trace_output-Steps, AddedSteps, tlist_add-Steps,
}

pub record ProgramFunctions (f : Floating) (lib : Libmseed f.Double) : Type 0 where
  -- "Progression bar function"
  pub progbar_now : Duty → Option f.Double
  pub progbar_init : ℤ → Duty → ℤ × Duty
  pub progbar_inc : Duty → ℤ × Duty
  -- "Compare functions"
  pub compare_scnl : Scnl → Scnl → Ordering
  pub compare_time : TBuf f.Double → TBuf f.Double → Ordering
  -- "SAC-related functions"
  pub sacproc_outpath_gen : List ℕ → List ℕ → Option (List ℕ)
  pub sacproc_trace_output :
      System f.Single
      → Endian
      → Mem
      → f.Double
      → List ℕ
      → ℕ
      → TraceNode f.Double
      → Duty
      → Written f.Single × Duty
  -- "miniSEED-related functions"
  pub msproc_outpath_gen : List ℕ → List ℕ → Option (List ℕ)
  pub msproc_tlist_add :
      (ℕ → Bool)
      → Endian
      → Mem
      → f.Double
      → ℕ
      → TraceNode f.Double
      → lib.Ms3TraceList
      → List ℤ
      → Duty
      → Added f lib
  -- The progress bar is one step further after a call, and after each output that succeeds.
  pub inc_moves : (d : Duty) → d.comp_duty + 1 < 2 ^ 32 → Moved d (progbar_inc d).1 1
  pub sac_moves :
      (os : System f.Single) (host : Endian) (m : Mem) (now : f.Double) (outpath : List ℕ)
      (tankstart : ℕ) (t : TraceNode f.Double) (d : Duty)
      → d.comp_duty + 1 < 2 ^ 32
      → Steps f d (sacproc_trace_output os host m now outpath tankstart t d)
  pub mseed_moves :
      (alloc : ℕ → Bool) (host : Endian) (m : Mem) (now : f.Double) (tankstart : ℕ)
      (t : TraceNode f.Double) (msl : lib.Ms3TraceList) (buffer : List ℤ) (d : Duty)
      → d.comp_duty + 1 < 2 ^ 32
      → AddedSteps f lib d (msproc_tlist_add alloc host m now tankstart t msl buffer d)
  -- tsearch can compare the traces.
  pub ordered : IsComparison compare_scnl

unfoldable pub program_functions : (f : Floating) (lib : Libmseed f.Double) → ProgramFunctions f lib
program_functions f lib = record {
  progbar_now = Progress.progbar_now f;
  progbar_init = Progress.progbar_init;
  progbar_inc = Progress.progbar_inc;
  compare_scnl = Trace.compare_scnl;
  compare_time = Trace.compare_time f;
  sacproc_outpath_gen = OutPath.sacproc_outpath_gen;
  sacproc_trace_output = Output.sacproc_trace_output f;
  msproc_outpath_gen = OutPath.msproc_outpath_gen;
  msproc_tlist_add = Mseed.msproc_tlist_add f lib;
  inc_moves = progbar_inc-Moved;
  sac_moves = trace_output-Steps f;
  mseed_moves = tlist_add-Steps f lib;
  ordered = compare_scnl-IsComparison;
}

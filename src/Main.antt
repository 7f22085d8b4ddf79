-- ===== src/Main.antt =====
-- src/tbconvert.c: main, with the operating system and libmseed as parameters.
pub mod Steps
pub mod Datatypes
pub mod Loops
pub mod Totals
pub mod Collected
pub mod Whole
pub mod Interface
pub mod Parts
use Prim.Native.Nat.{bit_or}
use tank_convertor.Base.{
  ℕ, zero, suc, ◌+◌, ◌==◌, Bool, true, false, if◌then◌else◌, Option, none, some, List, [], ◌∷◌,
  get_elem?, ℤ, pos,
}
use tank_convertor.Memory.{Mem, Endian}
use tank_convertor.Floating.{Floating}
use tank_convertor.Swap.MakeLocal.{undefine}
use tank_convertor.Trace.{TraceNode}
use tank_convertor.Walk.{Scanned, Scan, scanned, refused, scan_tracebuf}
use tank_convertor.Walk as Walk
use tank_convertor.Command.{
  ConvFormat, conv_format_sac, conv_format_mseed, conv_format_mseed3, Chosen, Command, chosen,
  exited, faulted, proc_argv,
}
use tank_convertor.OutPath.{msproc_outpath_gen, sacproc_outpath_gen, missing_directory}
use tank_convertor.Progress.{Duty, progbar_init, progbar_inc}
use tank_convertor.Sac.Output.{System, SacFile, Written, written, write_error, sacproc_trace_output}
use tank_convertor.Sac.Output as Output
use tank_convertor.Mseed.{Libmseed, Added, added, no_record, msproc_tlist_add}
use tank_convertor.Mseed as Mseed

-- A file that has been opened: its size, and what mmap puts into memory, if it does not fail, as for
-- one of no bytes.
pub record File : Type 0 where
  pub st_size : ℕ
  pub mapped : Option Mem

-- The machine: its byte order, what the system does for each trace and for the scan, the files that
-- can be opened, the paths that are there, the address of the mapping, and the time at each trace.
pub record Machine (f : Floating) : Type 0 where
  pub host : Endian
  pub system : ℕ → System f.Single
  pub alloc : ℕ → ℕ → Bool
  pub scan_alloc : ℕ → Bool
  pub open_file : List ℕ → Option File
  pub stat : List ℕ → Bool
  pub tankstart : ℕ
  pub now : ℕ → f.Double

-- include/libmseed.h: DE_STEIM2, MSF_FLUSHDATA and MSF_PACKVER2.
abbrev pub de_steim2 : ℕ
de_steim2 = 11

abbrev pub msf_flushdata : ℕ
msf_flushdata = 0x0040

abbrev pub msf_packver2 : ℕ
msf_packver2 = 0x0080

-- The arguments of mstl3_writemseed behind the path.
pub record Packing : Type 0 where
  pub overwrite : Bool
  pub maxreclen : ℕ
  pub encoding : ℕ
  pub flags : ℕ

-- What main leaves behind: the directory that it has asked for, if any, and the SAC files; the arguments of mstl3_writemseed and its result, which main ignores; the result -1,
-- an exit, a fault, or a scan that did not end.
pub data Done (f : Floating) (lib : Libmseed f.Double) : Type 0 where
  sac_files : (made : Option (List ℕ)) → List (SacFile f.Single) → Duty → Done f lib
  mseed_file : (path : List ℕ) → Packing → lib.Ms3TraceList → (records : ℤ) → Duty → Done f lib
  failure : Done f lib
  exit : Done f lib
  fault : Done f lib
  no_end : Done f lib

-- `flag` at the end of the `switch`: CONV_FORMAT_MSEED falls through to CONV_FORMAT_MSEED3.
unfoldable pub flag_of : ConvFormat → ℕ
flag_of conv_format_mseed = bit_or (bit_or 0 msf_packver2) msf_flushdata
flag_of conv_format_mseed3 = bit_or 0 msf_flushdata
flag_of conv_format_sac = 0

unfoldable pub packing_of : ConvFormat → Packing
packing_of format = record {
  overwrite = true;
  maxreclen = 4096;
  encoding = de_steim2;
  flags = flag_of format;
}

module _ (f : Floating) (lib : Libmseed f.Double) (os : Machine f) where
  -- `TraceList[i]`; `none` is the null pointer.
  unfoldable pub trace_at : Scanned f → ℕ → Option (TraceNode f.Double)
  trace_at r i = elim (get_elem? r.trace_list i) [
    | none ↦ none
    | some pointer ↦ elim pointer [ none ↦ none | some p ↦ get_elem? r.nodes p ]
  ]

  -- `left` rounds of the loop of the SAC output from `i` on; `none` is a fault.
  unfoldable pub sac_loop :
      Scanned f → List ℕ → (left i : ℕ) → Duty → Option (List (SacFile f.Single) × Duty)
  sac_loop r path zero i d = some ([], d)
  sac_loop r path (suc left) i d = elim (trace_at r i) [
    | none ↦ none
    | some t ↦
        let out =
          sacproc_trace_output f (os.system i) os.host r.mem (os.now i) path os.tankstart t d in
        elim (out.0) [
          | Output.fault ↦ none
          | write_error ↦ sac_loop r path left (i + 1) (out.1)
          | written file ↦ elim (sac_loop r path left (i + 1) (out.1)) [
            | none ↦ none
            | some rest ↦ some (file ∷ rest.0, rest.1)
          ]
        ]
  ]

  -- The same for the miniSEED output, whose result -1 is ignored.
  unfoldable pub mseed_loop :
      Scanned f → (left i : ℕ) → lib.Ms3TraceList → List ℤ → Duty → Option (lib.Ms3TraceList × Duty)
  mseed_loop r zero i msl int32_buf d = some (msl, d)
  mseed_loop r (suc left) i msl int32_buf d = elim (trace_at r i) [
    | none ↦ none
    | some t ↦
        elim (msproc_tlist_add f lib (os.alloc i) os.host r.mem (os.now i) os.tankstart t msl
          int32_buf d) [
            | Mseed.fault ↦ none
            | no_record ↦ mseed_loop r left (i + 1) msl int32_buf d
            | added msl1 int32_buf1 d1 ↦ mseed_loop r left (i + 1) msl1 int32_buf1 d1
          ]
  ]

  -- The branches of the `switch`, and the last step of the progress bar.
  unfoldable pub write_sac : Scanned f → Chosen → Duty → Done f lib
  write_sac r c d = elim (sacproc_outpath_gen c.input_file c.out_path) [
    | none ↦ fault
    | some path ↦ elim (sac_loop r path r.totaltrace 0 d) [
      | none ↦ fault
      | some (files, d1) ↦
          sac_files (missing_directory os.stat path) files (progbar_inc (progbar_inc d1).1).1
    ]
  ]

  unfoldable pub write_mseed : Scanned f → Chosen → Duty → Done f lib
  write_mseed r c d = elim (msproc_outpath_gen c.input_file c.out_path) [
    | none ↦ fault
    | some path ↦ elim (mseed_loop r r.totaltrace 0 lib.mstl3_init [] d) [
      | none ↦ fault
      | some (msl, d1) ↦
          let p = packing_of c.conv_format in
          let records =
            lib.mstl3_writemseed msl path p.overwrite p.maxreclen p.encoding p.flags 0 in
          mseed_file path p msl records (progbar_inc (progbar_inc d1).1).1
    ]
  ]

  unfoldable pub write_format : ConvFormat → Scanned f → Chosen → Duty → Done f lib
  write_format conv_format_sac = write_sac
  write_format conv_format_mseed = write_mseed
  write_format conv_format_mseed3 = write_mseed

  -- From the result of the scan on; the counters are zero before progbar_init.
  unfoldable pub convert_traces : Chosen → Scanned f → Done f lib
  convert_traces c r =
      let d : Duty = record { total_duty = 0; comp_duty = 0 } in
      if r.totaltrace == 0
      then failure
      else write_format c.conv_format r c (progbar_init (pos (r.totaltrace + 2)) d).1

  -- From open on. Where mmap fails, the scan reads at MAP_FAILED.
  unfoldable pub convert_file : (fuel : ℕ) → Chosen → Done f lib
  convert_file fuel c = elim (os.open_file c.input_file) [
    | none ↦ failure
    | some file ↦ elim (file.mapped) [
      | none ↦ fault
      | some mem ↦
          elim (scan_tracebuf f os.scan_alloc os.host undefine mem os.tankstart
            (os.tankstart + file.st_size) fuel) [
              | scanned r ↦ convert_traces c r
              | refused ↦ failure
              | Walk.fault ↦ fault
              | Walk.no_end ↦ no_end
            ]
    ]
  ]

  -- The arguments are those behind the name of the program.
  unfoldable pub main : (fuel : ℕ) → List (List ℕ) → Done f lib
  main fuel args = elim (proc_argv args) [
    | chosen c ↦ convert_file fuel c
    | Command.refused ↦ failure
    | exited ↦ exit
    | faulted ↦ fault
  ]

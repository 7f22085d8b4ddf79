-- ===== src/Sac/Output.antt =====
-- src/sacproc.c: sacproc_trace_output as a whole, and write_sac_file.
pub mod File
pub mod Whole
use tank_convertor.Base.{
  ℕ, ◌+◌, ◌-◌, ◌*◌, ◌/◌, ◌%◌, ◌^◌, Bool, true, false, ltb, if◌then◌else◌, Option, none, some, List,
  [], ◌∷◌, ◌++◌, get_elem?, get_or, take, ℤ, pos, size_of_int, zero, suc,
}
use tank_convertor.Memory.{Mem, Endian}
use tank_convertor.Floating.{Floating}
use tank_convertor.Libc.Strings.{c_str}
use tank_convertor.Trace.{TBuf, Scnl, TraceNode, sta_string, chan_string, net_string, loc_string}
use tank_convertor.OutPath.{in_result}
use tank_convertor.Progress.{Duty, progbar_inc}
use tank_convertor.Sac.{SacHead, sacheadersize, sacword_size, zero_head, set_float, set_int}
use tank_convertor.Sac.Layout.{delta_field, e_field, npts_field, int_at}
use tank_convertor.Sac.Head.{init_header, enrich_header_default, copy_scnl, orient}
use tank_convertor.Sac.Samples.{OutBuf, buffersiz}
use tank_convertor.Sac.Extract.{Extract, Round, next, failed, crashed, extract}

-- The operating system: which allocation succeeds, what malloc and realloc leave in the new words of
-- the buffer, which file can be opened for writing, and whether all its bytes can be written.
pub record System (F : Type 0) : Type 0 where
  pub alloc : ℕ → Bool
  pub fresh : ℕ → F
  pub fopen : List ℕ → Bool
  pub fwrite : List ℕ → ℕ → Bool

-- A file of `size` bytes: those of the header, followed by the words.
pub record SacFile (F : Type 0) : Type 0 where
  pub path : List ℕ
  pub size : ℕ
  pub head : SacHead F
  pub words : List F

-- The result 0, with the file; -1; and a fault, which is a write to a stream that could not be
-- opened, or a read or write out of the bounds of a buffer.
pub data Written (F : Type 0) : Type 0 where
  written : SacFile F → Written F
  write_error : Written F
  fault : Written F

-- The word `i` of the buffer, of which the first `cleared` were set to zero.
unfoldable pub buffer_word {ℓ} :
    {A : Type ℓ} → (words : List A) → (cleared : ℕ) → A → (ℕ → A) → ℕ → A
buffer_word words cleared zero_word fresh i = elim (get_elem? words i) [
  | some v ↦ v
  | none ↦ if ltb i cleared then zero_word else fresh i
]

-- `n` words of the buffer from the word `i` on.
unfoldable pub buffer_words {ℓ} : {A : Type ℓ} → (ℕ → A) → (n i : ℕ) → List A
buffer_words word zero i = []
buffer_words word (suc n) i = word i ∷ buffer_words word n (i + 1)

module _ (f : Floating) (os : System f.Single) where
  unfoldable pub totalbyte : SacHead f.Single → ℕ
  totalbyte h =
      (sacheadersize + size_of_int (get_or h.sac_int (int_at npts_field) (pos 0)) * sacword_size)
      % 2 ^ 64

  unfoldable pub write_sac_file : (cleared : ℕ) → OutBuf f.Single → List ℕ → Written f.Single
  write_sac_file cleared o path =
      let total = totalbyte o.head in
      let word = buffer_word o.words cleared (f.single_of_bits 0) (os.fresh) in
      if os.fopen path
      then if ltb (buffersiz o) total
        then fault
        else if os.fwrite path total
        then written (record {
          path = path;
          size = total;
          head = o.head;
          words = buffer_words word ((total - sacheadersize) / sacword_size) 0;
        })
        else write_error
      else fault

  -- `sizeof(struct SAChead) + tnode->maxtbuf * 100 * sizeof(SACWORD)`, in samples: the first product
  -- is that of an `unsigned int`.
  unfoldable pub first_capacity : ℕ → ℕ
  first_capacity maxtbuf = maxtbuf * 100 % 2 ^ 32

  -- The header before the tracebufs are read.
  unfoldable pub prepare_head : Scnl → SacHead f.Single
  prepare_head k =
      orient f k (copy_scnl f k (enrich_header_default f (init_header f (zero_head f))))

  unfoldable pub prepare : (now : f.Double) → TraceNode f.Double → Extract f
  prepare now t = record {
    out = record { head = prepare_head t.scnl; words = []; capacity = first_capacity t.maxtbuf };
    nsamp_trace = pos 0;
    endtime = now;
    samprate = f.double_of_int (pos 1);
    gapcount = 0;
    nfill_max = pos 0;
    allocs = 1;
  }

  -- "Now fill in the rest of header"
  unfoldable pub finish_head : Extract f → SacHead f.Single
  finish_head s =
      let delta = f.single_of_double (f.div (f.double_of_int (pos 1)) s.samprate) in
      set_float e_field (f.mul_single (f.single_of_int s.nsamp_trace) delta)
        (set_float delta_field delta (set_int npts_field s.nsamp_trace s.out.head))

  -- `"%s/%s_%s_%s_%s.sac"`
  unfoldable pub sac_path : List ℕ → Scnl → List ℕ
  sac_path outpath k =
      outpath
      ++ (b'/' ∷ c_str (sta_string k)
          ++ (b'_' ∷ c_str (chan_string k)
              ++ (b'_' ∷ c_str (net_string k)
                  ++ (b'_' ∷ c_str (loc_string k) ++ (b'.' ∷ b's' ∷ b'a' ∷ b'c' ∷ [])))))

  -- From the end of the loop on.
  unfoldable pub output : (cleared : ℕ) → List ℕ → Scnl → Extract f → Written f.Single
  output cleared outpath k s = elim (in_result (sac_path outpath k)) [
    | none ↦ fault
    | some path ↦ write_sac_file cleared (record (s.out) { head = finish_head s }) path
  ]

  -- The file, and the counters: one step further if the result is 0.
  unfoldable pub sacproc_trace_output :
      Endian
      → Mem
      → (now : f.Double) → List ℕ
      → (tankstart : ℕ) → TraceNode f.Double
      → Duty
      → Written f.Single × Duty
  sacproc_trace_output host m now outpath tankstart t d =
      if os.alloc 0
      then elim (extract f (os.alloc) host m tankstart (take t.ntbuf t.tlist) (prepare now t)) [
        | failed ↦ (write_error, d)
        | crashed ↦ (fault, d)
        | next s ↦ elim (output (first_capacity t.maxtbuf) outpath t.scnl s) [
          | written file ↦ (written file, (progbar_inc d).1)
          | write_error ↦ (write_error, d)
          | fault ↦ (fault, d)
        ]
      ]
      else (fault, d)

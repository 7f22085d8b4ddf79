-- ===== src/Tests/Sac.antt =====
-- A trace of three tracebufs, written to a SAC file: the second one repeats the first, and the third
-- one starts three samples behind it.
use tank_convertor.Base.{
  ℕ, ◌+◌, ◌*◌, ◌≡◌, refl, arith, true, some, List, [], ◌∷◌, ◌++◌, length, replicate, ℤ, pos, negsuc,
  ◌+ℤ◌, ◌*ℤ◌, ◌-ℤ◌, drop,
}
use tank_convertor.Memory.{Mem, big, store}
use tank_convertor.Floating.{whole}
use tank_convertor.Header.{numbers_at}
use tank_convertor.Trace.{TBuf, Scnl, TraceNode}
use tank_convertor.Libc.Strings.{c_str, atoi, atoi_digits, is_digit}
use tank_convertor.OutPath.{in_result}
use tank_convertor.Progress.{progbar_inc}
use tank_convertor.Sac.{SacHead}
use tank_convertor.Sac.Head.{
  init_header, enrich_header_default, copy_scnl, orient, enrich_sac_starttime,
}
use tank_convertor.Sac.Calendar.{gmtime, broken_down, tm_at, year_day, year_length, is_leap}
use tank_convertor.Sac.Fill.{fill}
use tank_convertor.Sac.Samples.{reader_at}
use tank_convertor.Sac.Extract.{is_gap, is_duplicate, nfill_of}
use tank_convertor.Sac.Extract.Added.{samples_of}
use tank_convertor.Sac.Extract.Merges.{numbers, Packet, Merges, done, repeats, resumes, last_rate}
use tank_convertor.Sac.Output.{System, written, prepare_head, sac_path, sacproc_trace_output}
use tank_convertor.Sac.Output.Whole.{final_head, sacproc_trace_output-written}

abbrev word : ℕ → List ℕ
word b = 0 ∷ 0 ∷ 0 ∷ b ∷ []

-- A header of two samples.
abbrev header : (starttime endtime : ℕ) → List ℕ
header starttime endtime =
    word 0
    ++ (word 2
        ++ ((word 0 ++ word starttime)
            ++ ((word 0 ++ word endtime)
                ++ ((word 0 ++ word 1)
                    ++ ((b'A' ∷ b'B' ∷ b'C' ∷ 0 ∷ 0 ∷ 0 ∷ 0 ∷ [])
                        ++ ((b'T' ∷ b'W' ∷ replicate 7 0)
                            ++ ((b'H' ∷ b'H' ∷ b'Z' ∷ 0 ∷ [])
                                ++ (b'-' ∷ b'-' ∷ 0 ∷ b'2' ∷ b'0' ∷ b's' ∷ b'4' ∷ 0 ∷ 0 ∷ 0 ∷ 0 ∷ 0
                                    ∷ []))))))))

abbrev pub tank : Mem
tank =
    store (λ _. 0) 0 (header 10 11 ++ (word 1 ++ (word 2 ++ (header 15 16 ++ (word 3 ++ word 4)))))

abbrev pub first : TBuf ℤ
first = record { offset = 0; size = 72; time = pos 11 }

abbrev pub second : TBuf ℤ
second = record { offset = 72; size = 72; time = pos 16 }

abbrev pub scnl : Scnl
scnl = record {
  sta = b'A' ∷ b'B' ∷ b'C' ∷ 0 ∷ 0 ∷ 0 ∷ 0 ∷ [];
  chan = b'H' ∷ b'H' ∷ b'Z' ∷ 0 ∷ [];
  net = b'T' ∷ b'W' ∷ replicate 7 0;
  loc = b'-' ∷ b'-' ∷ 0 ∷ [];
}

abbrev pub node : TraceNode ℤ
node = record { scnl = scnl; ntbuf = 3; maxtbuf = 4096; tlist = first ∷ first ∷ second ∷ [] }

abbrev pub willing : System ℤ
willing = record { alloc = λ _. true; fresh = λ _. pos 0; fopen = λ _. true; fwrite = λ _ _. true }

unfoldable first_packet : Packet whole big tank 0 first
unfolding numbers_at reader_at atoi atoi_digits is_digit
first_packet = record {
  reader = _;
  count = 2;
  known = refl;
  wide = omega arith;
  nsamp = refl;
  length = refl;
  few = omega arith;
}

unfoldable second_packet : Packet whole big tank 0 second
unfolding numbers_at reader_at atoi atoi_digits is_digit
second_packet = record {
  reader = _;
  count = 2;
  known = refl;
  wide = omega arith;
  nsamp = refl;
  length = refl;
  few = omega arith;
}

abbrev merged : List ℤ
merged = replicate 4 (negsuc 12344) ++ (pos 3 ∷ pos 4 ∷ [])

merging : Merges whole big tank 0 (pos 11) (first ∷ second ∷ []) merged
unfolding numbers_at is_gap is_duplicate nfill_of second_packet ◌+ℤ◌ ◌*ℤ◌ ◌-ℤ◌
merging =
    repeats {e = pos 11} {b = first} refl refl
      (resumes {e = pos 11} {b = second} {k = 4} refl refl (omega arith) second_packet done)

abbrev head : SacHead ℤ
head = record (prepare_head whole willing scnl) {
  sac_int =
      pos 1970
      ∷ pos 1
      ∷ pos 0
      ∷ pos 0
      ∷ pos 10
      ∷ pos 0
      ∷ drop 6 (prepare_head whole willing scnl).sac_int;
}

started :
    enrich_sac_starttime whole
      (numbers whole big tank 0 first).starttime
      (prepare_head whole willing scnl)
    ≡ some head
unfolding prepare_head orient copy_scnl enrich_header_default init_header numbers_at
    enrich_sac_starttime gmtime broken_down tm_at year_day year_length is_leap fill ◌+ℤ◌ ◌*ℤ◌ ◌-ℤ◌
started = refl

abbrev path : List ℕ
path = sac_path whole willing (b'.' ∷ []) scnl

named : in_result path ≡ some path
unfolding in_result sac_path c_str
named = refl

-- Counted from one, the words of the file are 1, 2, four undefined ones, 3 and 4.
sacproc_trace_output-written_example :
    sacproc_trace_output whole willing big tank
      (pos 0)
      (b'.' ∷ [])
      0
      node
      (record { total_duty = 3; comp_duty = 0 })
    ≡ (
      written (record {
        path = path;
        size = 632 + length (samples_of first_packet ++ merged) * 4;
        head =
            final_head whole
              (pos (length (samples_of first_packet ++ merged)))
              (last_rate whole big tank 0 (pos 1) (first ∷ first ∷ second ∷ []))
              head;
        words = samples_of first_packet ++ merged;
      }),
      (progbar_inc (record { total_duty = 3; comp_duty = 0 })).1,
    )
unfolding numbers_at first_packet
sacproc_trace_output-written_example =
    sacproc_trace_output-written whole willing (λ i. refl) big tank 0 (pos 0) (b'.' ∷ []) path node
      (record { total_duty = 3; comp_duty = 0 }) first (first ∷ second ∷ []) merged first_packet
      head refl (omega arith) (omega arith) started merging (omega arith) named refl refl

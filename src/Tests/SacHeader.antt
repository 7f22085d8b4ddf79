-- ===== src/Tests/SacHeader.antt =====
-- The header of a SAC file, for a trace that starts at second 10.
use tank_convertor.Base.{◌+◌, ◌≡◌, refl, arith, some, [], ◌∷◌, ◌++◌, replicate, ℤ, pos, drop}
use tank_convertor.Floating.{whole}
use tank_convertor.Libc.Strings.{c_str}
use tank_convertor.Trace.{Scnl, sta_string, chan_string, net_string, loc_string}
use tank_convertor.Sac.{SacHead, sacundef, sacversion, sac_i_d, sacstrundef, zero_head}
use tank_convertor.Sac.Layout.{kstnm_field, kcmpnm_field, knetwk_field, khole_field, string_at}
use tank_convertor.Sac.Fill.Split.{copies}
use tank_convertor.Sac.Calendar.{Tm}
use tank_convertor.Sac.Calendar.Seconds.{IsTime}
use tank_convertor.Sac.Head.{undefined, init_header, copy_scnl, enrich_sac_starttime}
use tank_convertor.Sac.Head.Init.{init_header-undefined}
use tank_convertor.Sac.Head.Start.{millis_of, enrich_sac_starttime-IsTime}
use tank_convertor.Sac.Head.Text.{text_at, padded, IsShort, copy_scnl-padded}

abbrev blank : SacHead ℤ
blank = zero_head whole

init_header-undefined_example : init_header whole blank ≡ record {
  sac_float =
      replicate 9 (undefined whole)
      ++ (whole.single_of_int sac_i_d ∷ replicate 60 (undefined whole));
  sac_int = replicate 6 sacundef ++ (sacversion ∷ (replicate 28 sacundef ++ replicate 5 (pos 1)));
  sac_string = copies 24 sacstrundef;
}
init_header-undefined_example = init_header-undefined whole blank refl refl refl

enrich_sac_starttime-IsTime_example :
    (tm : Tm) × (time : IsTime 0 10 tm) × (enrich_sac_starttime whole (pos 10) blank
      ≡ some (record blank {
        sac_int =
            pos (1970 + time.years)
            ∷ pos (tm.tm_yday + 1)
            ∷ pos tm.tm_hour
            ∷ pos tm.tm_min
            ∷ pos tm.tm_sec
            ∷ millis_of whole (pos 10)
            ∷ drop 6 blank.sac_int;
      }))
enrich_sac_starttime-IsTime_example =
    enrich_sac_starttime-IsTime whole (pos 10) 10 blank refl (omega arith) (omega arith)

-- The network code fills its field but for the terminator.
abbrev scnl : Scnl
scnl = record {
  sta = b'A' ∷ b'B' ∷ b'C' ∷ 0 ∷ 0 ∷ 0 ∷ 0 ∷ [];
  chan = b'H' ∷ b'H' ∷ b'Z' ∷ 0 ∷ [];
  net = b'N' ∷ b'E' ∷ b'T' ∷ b'W' ∷ b'O' ∷ b'R' ∷ b'K' ∷ 0 ∷ 0 ∷ [];
  loc = b'-' ∷ b'-' ∷ 0 ∷ [];
}

scnl-IsShort : IsShort scnl
unfolding c_str
scnl-IsShort = record {
  sta = omega arith;
  chan = omega arith;
  net = omega arith;
  loc = omega arith;
}

copy_scnl-padded_example :
    (text_at 8 (string_at kstnm_field) (copy_scnl whole scnl blank).sac_string
      ≡ padded (sta_string scnl))
    × (text_at 8 (string_at kcmpnm_field) (copy_scnl whole scnl blank).sac_string
        ≡ padded (chan_string scnl))
    × (text_at 8 (string_at knetwk_field) (copy_scnl whole scnl blank).sac_string
        ≡ padded (net_string scnl))
    × (text_at 8 (string_at khole_field) (copy_scnl whole scnl blank).sac_string
        ≡ padded (loc_string scnl))
    × (text_at 8 8 (copy_scnl whole scnl blank).sac_string ≡ text_at 8 8 blank.sac_string)
copy_scnl-padded_example = copy_scnl-padded whole scnl blank scnl-IsShort refl 8 (omega arith)

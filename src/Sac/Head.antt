-- ===== src/Sac/Head.antt =====
-- src/sacproc.c: init_header, enrich_header_default, enrich_sac_starttime, and what
-- sacproc_trace_output writes into the header by itself.
pub mod Text
pub mod Start
pub mod Init
use tank_convertor.Base.{
  ℕ, ◌+◌, ◌-◌, ◌*◌, Option, none, some, List, [], ◌∷◌, ◌||◌, ◌==◌, if◌then◌else◌, get_or, ℤ, pos,
  ◌+ℤ◌,
}
use tank_convertor.Floating.{Floating}
use tank_convertor.Trace.{Scnl, sta_string, chan_string, net_string, loc_string}
use tank_convertor.Sac.{
  SacHead, sacundef, sacstrundef, sac_i_d, sacversion, sac_iunkn, sac_ibegintime, sac_itime, k_len,
  num_float, maxint, maxstring, set_float, set_int, set_string,
}
use tank_convertor.Sac.Layout.{
  b_field, cmpaz_field, cmpinc_field, idep_field, iftype_field, internal1_field, internal4_field,
  iztype_field, kcmpnm_field, khole_field, knetwk_field, ko_field, kstnm_field, leven_field,
  nzhour_field, nzjday_field, nzmin_field, nzmsec_field, nzsec_field, nzyear_field, string_at,
}
use tank_convertor.Sac.Fill.{fill, fill_strings, strncpy_at, copy_blank}
use tank_convertor.Sac.Calendar.{Tm, fits_int32, gmtime}

module _ (f : Floating) where
  abbrev pub undefined : f.Single
  undefined = f.single_of_int sacundef

  -- The three loops and the two fields behind them.
  unfoldable pub init_header : SacHead f.Single → SacHead f.Single
  init_header h = set_int internal4_field sacversion (
      set_float internal1_field (f.single_of_int sac_i_d) (record {
        sac_float = fill num_float 0 undefined h.sac_float;
        sac_int = fill 5 (maxint - 5) (pos 1) (fill (maxint - 5) 0 sacundef h.sac_int);
        sac_string = fill_strings maxstring 0 k_len sacstrundef h.sac_string;
      }))

  unfoldable pub enrich_header_default : SacHead f.Single → SacHead f.Single
  enrich_header_default h =
      let origin = b'o' ∷ b'r' ∷ b'i' ∷ b'g' ∷ b'i' ∷ b'n' ∷ b' ' ∷ [] in
      set_string (strncpy_at (string_at ko_field) k_len origin) (
        set_float b_field (f.single_of_int (pos 0)) (
          set_int leven_field (pos 1) (
            set_int iftype_field sac_itime
              (set_int iztype_field sac_ibegintime (set_int idep_field sac_iunkn h)))))

  -- Station, channel, network and location, in this order.
  unfoldable pub copy_scnl : Scnl → SacHead f.Single → SacHead f.Single
  copy_scnl k h = set_string (copy_blank (string_at khole_field) k_len (loc_string k)) (
      set_string (copy_blank (string_at knetwk_field) k_len (net_string k)) (
        set_string (copy_blank (string_at kcmpnm_field) k_len (chan_string k))
          (set_string (copy_blank (string_at kstnm_field) k_len (sta_string k)) h)))

  -- The azimuth and the inclination for the third character of the channel code.
  unfoldable pub orientation : ℕ → f.Single × f.Single
  orientation c =
      let degrees : ℕ → f.Single = λ n. f.single_of_int (pos n) in
      if c == b'Z' || c == b'z'
      then (degrees 0, degrees 0)
      else if c == b'N' || c == b'n'
      then (degrees 0, degrees 90)
      else if c == b'E' || c == b'e'
      then (degrees 90, degrees 90)
      else (undefined, undefined)

  unfoldable pub orient : Scnl → SacHead f.Single → SacHead f.Single
  orient k h =
      let o = orientation (get_or k.chan 2 0) in
      set_float cmpinc_field o.1 (set_float cmpaz_field o.0 h)

  -- `none` is a read through the null pointer of gmtime, or the conversion of a number of seconds that
  -- an `int32_t` cannot hold, which C leaves undefined.
  unfoldable pub enrich_sac_starttime : f.Double → SacHead f.Single → Option (SacHead f.Single)
  enrich_sac_starttime starttime h =
      let whole_seconds = f.double_of_int (f.int_of_double starttime) in
      let millis =
        f.int_of_double (f.mul (f.sub starttime whole_seconds) (f.double_of_int (pos 1000))) in
      elim (gmtime (f.int_of_double starttime)) [
        | none ↦ none
        | some tm ↦
            if fits_int32 (f.int_of_double starttime)
            then some (
                set_int nzmsec_field millis (
                  set_int nzsec_field (pos tm.tm_sec) (
                    set_int nzmin_field (pos tm.tm_min) (
                      set_int nzhour_field (pos tm.tm_hour) (
                        set_int nzjday_field (pos (tm.tm_yday + 1))
                          (set_int nzyear_field (tm.tm_year +ℤ pos 1900) h))))))
            else none
      ]

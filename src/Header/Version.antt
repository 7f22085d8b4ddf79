-- ===== src/Header/Version.antt =====
-- include/trace_buf.h: the macros on the version of a header.
use tank_convertor.Base.{ℕ, ◌+◌, Bool, ◌&&◌, ◌||◌, ◌==◌, if◌then◌else◌, List, [], ◌∷◌, pos}
use tank_convertor.Memory.{Mem, Endian, load, read_u32}
use tank_convertor.Floating.{Floating}
use tank_convertor.Header.{trace2_version0, trace2_version1, trace2_version11, version_at, x_at}

module _ (m : Mem) (p : ℕ) where
  unfoldable pub trace2_header_version_is_valid : Bool
  trace2_header_version_is_valid =
      m (version_at p) == trace2_version0
      && (m (version_at p + 1) == trace2_version1 || m (version_at p + 1) == trace2_version11)

  unfoldable pub trace2_header_version_is_20 : Bool
  trace2_header_version_is_20 =
      m (version_at p) == trace2_version0 && m (version_at p + 1) == trace2_version1

  unfoldable pub trace2_header_version_is_21 : Bool
  trace2_header_version_is_21 =
      m (version_at p) == trace2_version0 && m (version_at p + 1) == trace2_version11

  -- The bytes of the literal `"\0"`.
  abbrev pub trace2_no_quality : List ℕ
  trace2_no_quality = 0 ∷ 0 ∷ []

  unfoldable pub get_trace2_quality : List ℕ
  get_trace2_quality = if trace2_header_version_is_20 then load m (x_at p) 2 else trace2_no_quality

  abbrev pub trace2_no_pad : List ℕ
  trace2_no_pad = 0 ∷ 0 ∷ []

  unfoldable pub get_trace2_pad : List ℕ
  get_trace2_pad = if trace2_header_version_is_20 then load m (x_at p + 2) 2 else trace2_no_pad

  module _ (f : Floating) (e : Endian) where
    abbrev pub trace2_no_conversion_factor : f.Double
    trace2_no_conversion_factor = f.double_of_int (pos 0)

    unfoldable pub get_trace2_conversion_factor : f.Double
    get_trace2_conversion_factor =
        if trace2_header_version_is_21
        then f.double_of_single (f.single_of_bits (read_u32 e m (x_at p)))
        else trace2_no_conversion_factor

-- ===== src/Header/Changes.antt =====
-- include/trace_buf.h: what the comment on TRACE2_HEADER says of its fields, against the two layouts.
use tank_convertor.Base.{ℕ, ◌+◌, ◌<◌, ◌≡◌, refl, arith}
use tank_convertor.Header.{
  trace2_sta_len, trace2_net_len, trace2_chan_len, trace2_loc_len, trace2_header_size, pinno_at,
  nsamp_at, starttime_at, endtime_at, samprate_at, sta_at, net_at, chan_at, loc_at, version_at,
  datatype_at, x_at,
}
use tank_convertor.Header.Original.{
  TraceHeader, trace_sta_len, trace_chan_len, trace_net_len, offset_of, trace_header_size,
}

pub data Change : Type 0 where
  unchanged shortened : Change

-- "sta and net fields remain unchanged", "chan field is shortened", "all other fields remain
-- unchanged"
abbrev pub change_of : TraceHeader → Change
change_of TraceHeader.chan = shortened
change_of _ = unchanged

-- The bytes of each field of TRACE_HEADER.
abbrev length_of : TraceHeader → ℕ
length_of TraceHeader.pinno = 4
length_of TraceHeader.nsamp = 4
length_of TraceHeader.starttime = 8
length_of TraceHeader.endtime = 8
length_of TraceHeader.samprate = 8
length_of TraceHeader.sta = trace_sta_len
length_of TraceHeader.net = trace_net_len
length_of TraceHeader.chan = trace_chan_len
length_of TraceHeader.datatype = 3
length_of TraceHeader.quality = 2
length_of TraceHeader.pad = 2

-- The field of the same name in TRACE2_HEADER: its place in a header at `p`, and its bytes.
abbrev trace2_at : TraceHeader → ℕ → ℕ
trace2_at TraceHeader.pinno p = pinno_at p
trace2_at TraceHeader.nsamp p = nsamp_at p
trace2_at TraceHeader.starttime p = starttime_at p
trace2_at TraceHeader.endtime p = endtime_at p
trace2_at TraceHeader.samprate p = samprate_at p
trace2_at TraceHeader.sta p = sta_at p
trace2_at TraceHeader.net p = net_at p
trace2_at TraceHeader.chan p = chan_at p
trace2_at TraceHeader.datatype p = datatype_at p
trace2_at TraceHeader.quality p = x_at p
trace2_at TraceHeader.pad p = x_at p + 2

abbrev trace2_length : TraceHeader → ℕ
trace2_length TraceHeader.sta = trace2_sta_len
trace2_length TraceHeader.net = trace2_net_len
trace2_length TraceHeader.chan = trace2_chan_len
trace2_length x = length_of x

-- A field as the comment says: at the same place, and as long, or shorter.
abbrev IsChanged : TraceHeader → Change → Type 0
IsChanged x unchanged =
    ((p : ℕ) → trace2_at x p ≡ p + offset_of x) × (trace2_length x ≡ length_of x)
IsChanged x shortened =
    ((p : ℕ) → trace2_at x p ≡ p + offset_of x) × (trace2_length x < length_of x)

-- Each field has changed as the comment says.
pub change_of-IsChanged : (x : TraceHeader) → IsChanged x (change_of x)
change_of-IsChanged TraceHeader.chan = (λ p. refl, omega arith)
change_of-IsChanged TraceHeader.pinno = (λ p. omega arith, refl)
change_of-IsChanged TraceHeader.nsamp = (λ p. refl, refl)
change_of-IsChanged TraceHeader.starttime = (λ p. refl, refl)
change_of-IsChanged TraceHeader.endtime = (λ p. refl, refl)
change_of-IsChanged TraceHeader.samprate = (λ p. refl, refl)
change_of-IsChanged TraceHeader.sta = (λ p. refl, refl)
change_of-IsChanged TraceHeader.net = (λ p. refl, refl)
change_of-IsChanged TraceHeader.datatype = (λ p. refl, refl)
change_of-IsChanged TraceHeader.quality = (λ p. refl, refl)
change_of-IsChanged TraceHeader.pad = (λ p. omega arith, refl)

-- The location and the version fill the bytes that the channel has given up, and both headers are as
-- long.
pub added_fields :
    (p : ℕ)
    → (loc_at p ≡ chan_at p + trace2_chan_len)
      × (version_at p ≡ loc_at p + trace2_loc_len)
      × (datatype_at p ≡ version_at p + 2)
      × (datatype_at p ≡ chan_at p + trace_chan_len)
      × (trace2_header_size ≡ trace_header_size)
added_fields p = (omega arith, omega arith, omega arith, omega arith, refl)

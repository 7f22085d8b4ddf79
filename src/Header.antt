-- ===== src/Header.antt =====
-- include/trace_buf.h: where the fields of a tracebuf header stand in memory. The three versions of
-- the header are 64 bytes long and differ only in the last fields.
pub mod Original
pub mod Version
pub mod Datatypes
pub mod Changes
use tank_convertor.Base.{ℕ, ◌+◌, ℤ}
use tank_convertor.Memory.{Mem, Endian, read_i32, read_u64}
use tank_convertor.Floating.{Floating}

abbrev pub trace2_sta_len : ℕ
trace2_sta_len = 7

abbrev pub trace2_net_len : ℕ
trace2_net_len = 9

abbrev pub trace2_chan_len : ℕ
trace2_chan_len = 4

abbrev pub trace2_loc_len : ℕ
trace2_loc_len = 3

abbrev pub trace2_version0 : ℕ
trace2_version0 = b'2'

abbrev pub trace2_version1 : ℕ
trace2_version1 = b'0'

abbrev pub trace2_version11 : ℕ
trace2_version11 = b'1'

abbrev pub max_tracebuf_siz : ℕ
max_tracebuf_siz = 4096

-- sizeof(TRACE2_HEADER) and sizeof(TRACE2X_HEADER)
abbrev pub trace2_header_size : ℕ
trace2_header_size = 64

abbrev pub pinno_at : ℕ → ℕ
pinno_at p = p

abbrev pub nsamp_at : ℕ → ℕ
nsamp_at p = p + 4

abbrev pub starttime_at : ℕ → ℕ
starttime_at p = p + 8

abbrev pub endtime_at : ℕ → ℕ
endtime_at p = p + 16

abbrev pub samprate_at : ℕ → ℕ
samprate_at p = p + 24

abbrev pub sta_at : ℕ → ℕ
sta_at p = p + 32

abbrev pub net_at : ℕ → ℕ
net_at p = p + 39

abbrev pub chan_at : ℕ → ℕ
chan_at p = p + 48

abbrev pub loc_at : ℕ → ℕ
loc_at p = p + 52

abbrev pub version_at : ℕ → ℕ
version_at p = p + 55

abbrev pub datatype_at : ℕ → ℕ
datatype_at p = p + 57

-- x.v20.quality and x.v21.conversion_factor
abbrev pub x_at : ℕ → ℕ
x_at p = p + 60

-- The numbers of a header whose fields are stored in the byte order `e`.
pub record Numbers (f : Floating) : Type 0 where
  pub pinno : ℤ
  pub nsamp : ℤ
  pub starttime : f.Double
  pub endtime : f.Double
  pub samprate : f.Double

unfoldable pub numbers_at : (f : Floating) → Endian → Mem → ℕ → Numbers f
numbers_at f e m p = record {
  pinno = read_i32 e m (pinno_at p);
  nsamp = read_i32 e m (nsamp_at p);
  starttime = f.double_of_bits (read_u64 e m (starttime_at p));
  endtime = f.double_of_bits (read_u64 e m (endtime_at p));
  samprate = f.double_of_bits (read_u64 e m (samprate_at p));
}

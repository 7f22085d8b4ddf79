-- ===== src/Header/Original.antt =====
-- include/trace_buf.h: TRACE_HEADER, the first version of the header, and the union TracePacket.
use tank_convertor.Base.{ℕ, ◌+◌, List, [], ◌∷◌, ℤ}
use tank_convertor.Memory.{Mem, Endian, load, read_i32}
use tank_convertor.Header.{max_tracebuf_siz}

abbrev network_null_string : List ℕ
network_null_string = b'-' ∷ []

abbrev pub trace_sta_len : ℕ
trace_sta_len = 7

abbrev pub trace_chan_len : ℕ
trace_chan_len = 9

abbrev pub trace_net_len : ℕ
trace_net_len = 9

abbrev trace_loc_len : ℕ
trace_loc_len = 3

-- The fields of TRACE_HEADER, in the order of the declaration.
pub data TraceHeader : Type 0 where
  pinno nsamp starttime endtime samprate sta net chan datatype quality pad : TraceHeader

-- Where each begins, and sizeof.
abbrev pub offset_of : TraceHeader → ℕ
offset_of TraceHeader.pinno = 0
offset_of TraceHeader.nsamp = 4
offset_of TraceHeader.starttime = 8
offset_of TraceHeader.endtime = 16
offset_of TraceHeader.samprate = 24
offset_of TraceHeader.sta = 32
offset_of TraceHeader.net = 32 + trace_sta_len
offset_of TraceHeader.chan = 32 + trace_sta_len + trace_net_len
offset_of TraceHeader.datatype = 32 + trace_sta_len + trace_net_len + trace_chan_len
offset_of TraceHeader.quality = 35 + trace_sta_len + trace_net_len + trace_chan_len
offset_of TraceHeader.pad = 37 + trace_sta_len + trace_net_len + trace_chan_len

abbrev pub trace_header_size : ℕ
trace_header_size = 39 + trace_sta_len + trace_net_len + trace_chan_len

-- A TracePacket at an address: its bytes, and the first of them as an `int`; the other three members
-- are the headers.
pub record TracePacket : Type 0 where
  pub msg : List ℕ
  pub i : ℤ

unfoldable pub trace_packet : Endian → Mem → ℕ → TracePacket
trace_packet e m p = record { msg = load m p max_tracebuf_siz; i = read_i32 e m p }

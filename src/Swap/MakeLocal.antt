-- ===== src/Swap/MakeLocal.antt =====
-- libsrc/swap.c: makelocal_wavemsg_ver and the functions that call it.

use tank_convertor.Base.{
  ℕ, zero, suc, ◌+◌, ◌-◌, ◌/◌, ◌%◌, Bool, not, ◌&&◌, ◌||◌, ◌==◌, if◌then◌else◌, Option, none, some,
  List, [], ◌∷◌, get_or, ℤ, pos, negsuc, pos_part, ltb_ℤ, ◌-ℤ◌,
}
use tank_convertor.Memory.{Mem, Endian, little, big, store}
use tank_convertor.Floating.{Floating}
use tank_convertor.Header.{
  trace2_version0, trace2_version11, max_tracebuf_siz, trace2_header_size, pinno_at, nsamp_at,
  starttime_at, endtime_at, samprate_at, version_at, datatype_at, x_at, Numbers, numbers_at,
}
use tank_convertor.Swap.{swap_uint16, swap_uint32, swap_uint64}

-- The values of `HostByteOrder`.
pub data ByteOrder : Type 0 where
  undefine little_endian big_endian : ByteOrder

-- The two bytes of a `uint16_t` as the machine stores it.
abbrev pub u16_bytes : Endian → ℕ → List ℕ
u16_bytes little v = (v % 256) ∷ (v / 256) ∷ []
u16_bytes big v = (v / 256) ∷ (v % 256) ∷ []

unfoldable pub probe_host_byteorder : Endian → ByteOrder
probe_host_byteorder host =
    let probe : ℕ = 256 in
    if get_or (u16_bytes host probe) 0 0 == 0 then little_endian else big_endian

pub record Orders : Type 0 where
  pub loc_ibyte_order : ℕ
  pub loc_fbyte_order : ℕ
  pub ops_ibyte_order : ℕ
  pub ops_fbyte_order : ℕ

-- What the `switch` on `HostByteOrder` sets; `none` is its `return -1`.
unfoldable pub local_orders : ByteOrder → Option Orders
local_orders undefine = none
local_orders little_endian = some (record {
  loc_ibyte_order = b'i';
  loc_fbyte_order = b'f';
  ops_ibyte_order = b's';
  ops_fbyte_order = b't';
})
local_orders big_endian = some (record {
  loc_ibyte_order = b's';
  loc_fbyte_order = b't';
  ops_ibyte_order = b'i';
  ops_fbyte_order = b'f';
})

-- "See what sort of data it carries"; `none` is the `return -1` of an unknown message type.
unfoldable pub byte_order_of : ℕ → ℕ → Option ℕ
byte_order_of t0 t1 =
    if t0 == b's' && (t1 == b'2' || t1 == b'4')
    then some b's'
    else if t0 == b'i' && (t1 == b'2' || t1 == b'4')
    then some b'i'
    else if t0 == b't' && (t1 == b'4' || t1 == b'8')
    then some b't'
    else if t0 == b'f' && (t1 == b'4' || t1 == b'8')
    then some b'f'
    else none

-- The conversion factor is swapped in version 2.1 only.
unfoldable pub swap_factor : ℕ → ℕ → Mem → Mem
swap_factor version p m =
    if version == trace2_version0
    then if m (version_at p + 1) == trace2_version11 then swap_uint32 (x_at p) m else m
    else m

unfoldable pub swap_numbers : ℕ → Mem → Mem
swap_numbers p m = swap_uint64 (samprate_at p) (
    swap_uint64 (endtime_at p)
      (swap_uint64 (starttime_at p) (swap_uint32 (nsamp_at p) (swap_uint32 (pinno_at p) m))))

unfoldable pub swap_header : ℕ → ℕ → Mem → Mem
swap_header version p m = swap_factor version p (swap_numbers p m)

-- `wvmsg->nsamp > tracedata_max_size / data_size`
unfoldable pub has_too_many : ℕ → ℤ → Bool
has_too_many data_size nsamp =
    ltb_ℤ (pos ((max_tracebuf_siz - trace2_header_size) / data_size)) nsamp

-- `endtime < (_endtime - fudge) || endtime > (_endtime + fudge)`
unfoldable pub is_inconsistent : (f : Floating) → Numbers f → Bool
is_inconsistent f h =
    let end = f.add h.starttime (f.div (f.double_of_int (h.nsamp -ℤ pos 1)) h.samprate) in
    let fudge = f.div (f.double_of_int (pos 5)) h.samprate in
    f.lt h.endtime (f.sub end fudge) || f.lt (f.add end fudge) h.endtime

-- The loop over the integer samples, with the rounds left in place of `i`.
unfoldable pub swap_ints : (left data_size int_ptr short_ptr : ℕ) → Mem → Mem
swap_ints zero data_size int_ptr short_ptr m = m
swap_ints (suc left) data_size int_ptr short_ptr m =
    swap_ints left data_size (int_ptr + 4) (short_ptr + 2) (
      if data_size == 2
      then swap_uint16 short_ptr m
      else if data_size == 4
      then swap_uint32 int_ptr m
      else m)

-- The loop over the floating-point samples.
unfoldable pub swap_floats : (left data_size float_ptr double_ptr : ℕ) → Mem → Mem
swap_floats zero data_size float_ptr double_ptr m = m
swap_floats (suc left) data_size float_ptr double_ptr m =
    swap_floats left data_size (float_ptr + 4) (double_ptr + 8) (
      if data_size == 4
      then swap_uint32 float_ptr m
      else if data_size == 8
      then swap_uint64 double_ptr m
      else m)

-- The branch for integers of "SWAP the data", with the rewrite of the data type field.
unfoldable pub swap_int_data : Orders → (data_size nsamp p : ℕ) → Mem → Mem
swap_int_data o data_size nsamp p m =
    let samples = p + trace2_header_size in
    let m1 = swap_ints nsamp data_size samples samples m in
    let m2 = store m1 (datatype_at p) (o.loc_ibyte_order ∷ []) in
    if data_size == 2
    then store m2 (datatype_at p + 1) (b'2' ∷ [])
    else if data_size == 4
    then store m2 (datatype_at p + 1) (b'4' ∷ [])
    else m2

-- Its branch for floating-point samples.
unfoldable pub swap_float_data : Orders → (data_size nsamp p : ℕ) → Mem → Mem
swap_float_data o data_size nsamp p m =
    let samples = p + trace2_header_size in
    let m1 = swap_floats nsamp data_size samples samples m in
    let m2 = store m1 (datatype_at p) (o.loc_fbyte_order ∷ []) in
    if data_size == 4
    then store m2 (datatype_at p + 1) (b'4' ∷ [])
    else if data_size == 8
    then store m2 (datatype_at p + 1) (b'8' ∷ [])
    else m2

unfoldable pub swap_data : Orders → (byte_order data_size : ℕ) → ℤ → ℕ → Mem → Mem
swap_data o byte_order data_size nsamp p m =
    if byte_order == o.ops_ibyte_order
    then swap_int_data o data_size (pos_part nsamp) p m
    else if byte_order == o.ops_fbyte_order
    then swap_float_data o data_size (pos_part nsamp) p m
    else m

-- What a call returns and leaves behind.
pub record Local : Type 0 where
  pub rc : ℤ
  pub host_byte_order : ByteOrder
  pub mem : Mem

-- The static variable is set by the first call.
unfoldable pub host_order : Endian → ByteOrder → ByteOrder
host_order host undefine = probe_host_byteorder host
host_order host order = order

module _ (f : Floating) (host : Endian) where
  -- The rest of the function, once the byte order of the message is known.
  unfoldable pub convert : Orders → (byte_order version p : ℕ) → Mem → ℤ × Mem
  convert o byte_order version p m =
      let data_size = m (datatype_at p + 1) - b'0' in
      let m1 =
        if not (byte_order == o.loc_ibyte_order) && not (byte_order == o.loc_fbyte_order)
        then swap_header version p m
        else m in
      let h = numbers_at f host m1 p in
      if has_too_many data_size h.nsamp
      then (negsuc 0, m1)
      else if is_inconsistent f h
      then (negsuc 1, m1)
      else (pos 0, swap_data o byte_order data_size h.nsamp p m1)

  unfoldable pub makelocal_wavemsg_ver : ByteOrder → (p version : ℕ) → Mem → Local
  makelocal_wavemsg_ver static p version m =
      let order = host_order host static in
      elim (local_orders order) [
        | none ↦ record { rc = negsuc 0; host_byte_order = order; mem = m }
        | some o ↦ elim (byte_order_of (m (datatype_at p)) (m (datatype_at p + 1))) [
          | none ↦ record { rc = negsuc 0; host_byte_order = order; mem = m }
          | some b ↦
              let (rc, m') = convert o b version p m in
              record { rc = rc; host_byte_order = order; mem = m' }
        ]
      ]

  unfoldable pub swap_wavemsg_makelocal : ByteOrder → ℕ → Mem → Local
  swap_wavemsg_makelocal static p m = makelocal_wavemsg_ver static p b'1' m

  unfoldable pub swap_wavemsg2_makelocal : ByteOrder → ℕ → Mem → Local
  swap_wavemsg2_makelocal static p m = makelocal_wavemsg_ver static p (m (version_at p)) m

  unfoldable pub swap_wavemsg2x_makelocal : ByteOrder → ℕ → Mem → Local
  swap_wavemsg2x_makelocal static p m = makelocal_wavemsg_ver static p (m (version_at p)) m

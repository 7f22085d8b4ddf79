-- ===== src/Swap/Contract.antt =====
-- What a call of makelocal_wavemsg_ver returns and leaves in memory, by the side of the message.
use tank_convertor.Base.{
  ℕ, ◌+◌, ◌-◌, ◌≡◌, true, false, ◌&&◌, ◌==◌, if◌then◌else◌, none, ℤ, pos, negsuc, arith, not,
}
use tank_convertor.Memory.{Mem, Endian}
use tank_convertor.Floating.{Floating}
use tank_convertor.Header.{datatype_at, Numbers, numbers_at}
use tank_convertor.Swap.MakeLocal.{
  ByteOrder, byte_order_of, swap_header, has_too_many, is_inconsistent, swap_data, convert,
  makelocal_wavemsg_ver,
}
use tank_convertor.Swap.Numbers.{numbers_at-swap_header}
use tank_convertor.Swap.Sides.{
  message_endian, IsDatatype, byte_order_of-IsDatatype, IsStatic, native_order, orders_of,
  host_order-native_order, local_orders-native_order, IsNative, IsForeign,
}

-- The size of a sample and the numbers of the header, in the byte order of the message.
abbrev pub size_at : Mem → ℕ → ℕ
size_at m p = m (datatype_at p + 1) - b'0'

abbrev pub endian_at : Mem → ℕ → Endian
endian_at m p = message_endian (m (datatype_at p))

abbrev pub message_at : (f : Floating) → Mem → ℕ → Numbers f
message_at f m p = numbers_at f (endian_at m p) m p

-- The code for a message of a known type: by its numbers alone.
unfoldable pub verdict : (f : Floating) → ℕ → Numbers f → ℤ
verdict f size h =
    if has_too_many size h.nsamp then negsuc 0 else if is_inconsistent f h then negsuc 1 else pos 0

abbrev pub if_success : ℤ → Mem → Mem → Mem
if_success (pos n) m m' = m
if_success (negsuc n) m m' = m'

module _ {host : Endian} {t0 : ℕ} where
  stays_native :
      IsNative host t0
      → (not (t0 == (orders_of host).loc_ibyte_order)
          && not (t0 == (orders_of host).loc_fbyte_order))
        ≡ false
  stays_native h = ground (arith, h.is_local)

  is_swapped :
      IsForeign host t0
      → (not (t0 == (orders_of host).loc_ibyte_order)
          && not (t0 == (orders_of host).loc_fbyte_order))
        ≡ true
  is_swapped h = rw (h.not_loc_int, h.not_loc_float)

module _ (f : Floating) (host : Endian) (static : ByteOrder) (ok : IsStatic host static)
    (p version : ℕ) (m : Mem) where
  pub makelocal-eq-convert :
      IsDatatype (m (datatype_at p)) (m (datatype_at p + 1))
      → makelocal_wavemsg_ver f host static p version m ≡ (
          let (rc, m') = convert f host (orders_of host) (m (datatype_at p)) version p m in
          record { rc = rc; host_byte_order = native_order host; mem = m' })
  unfolding makelocal_wavemsg_ver
  makelocal-eq-convert known = rw (
    makelocal_wavemsg_ver,
    host_order-native_order host static ok,
    local_orders-native_order host,
    byte_order_of-IsDatatype (m (datatype_at p)) (m (datatype_at p + 1)) known,
    host_order-native_order host static ok,
  )

  pub makelocal_unknown :
      byte_order_of (m (datatype_at p)) (m (datatype_at p + 1)) ≡ none
      → makelocal_wavemsg_ver f host static p version m
        ≡ record { rc = negsuc 0; host_byte_order = native_order host; mem = m }
  unfolding makelocal_wavemsg_ver
  makelocal_unknown unknown = rw (
    makelocal_wavemsg_ver,
    host_order-native_order host static ok,
    local_orders-native_order host,
    unknown,
    host_order-native_order host static ok,
  )

  pub convert_native :
      IsNative host (m (datatype_at p))
      → convert f host (orders_of host) (m (datatype_at p)) version p m
        ≡ (verdict f (size_at m p) (message_at f m p), m)
  unfolding convert verdict swap_data
  convert_native h = rw (stays_native h, h.not_ops_int, h.not_ops_float, h.endian) (ground arith)

  pub convert_foreign :
      IsForeign host (m (datatype_at p))
      → convert f host (orders_of host) (m (datatype_at p)) version p m ≡ (
          let h = message_at f m p in
          let rc = verdict f (size_at m p) h in
          let m1 = swap_header version p m in
          (
            rc,
            if_success rc
                (swap_data (orders_of host) (m (datatype_at p)) (size_at m p) h.nsamp p m1)
                m1,
          ))
  unfolding convert verdict
  convert_foreign h =
      rw (is_swapped h, numbers_at-swap_header f host version p m, h.endian) (ground arith)

-- ===== src/Tests/Swap.antt =====
-- libsrc/swap.c on the sample tank.
use tank_convertor.Base.{◌+◌, ◌<◌, pos_part, ◌≡◌, refl, inl, inr, ◌+ℤ◌, ◌-ℤ◌, pos, arith}
use tank_convertor.Memory.{little, big, load, value_of, read_u64}
use tank_convertor.Floating.{whole}
use tank_convertor.Header.{datatype_at, numbers_at}
use tank_convertor.Swap.{swap_uint16, swap_uint32, swap_uint64}
use tank_convertor.Swap.Laws.{read-swap_uint64, swap_uint64_twice}
use tank_convertor.Swap.MakeLocal.{
  undefine, little_endian, probe_host_byteorder, local_orders, host_order, byte_order_of,
  swap_factor, swap_numbers, swap_header, has_too_many, is_inconsistent, swap_ints, swap_int_data,
  swap_data, convert, makelocal_wavemsg_ver, Local,
}
use tank_convertor.Swap.Sides.{IsDatatype, ints}
use tank_convertor.Swap.Contract.{message_at}
use tank_convertor.Swap.Code.{Code}
use tank_convertor.Swap.Correct.{
  makelocal-Code, makelocal-numbers, makelocal-sample, makelocal-same, makelocal_again,
}
use tank_convertor.Tests.Tank.{tank}

abbrev after : Local
after = makelocal_wavemsg_ver whole little undefine 0 b'2' tank

accepted : after.rc ≡ pos 0
unfolding makelocal_wavemsg_ver host_order probe_host_byteorder local_orders byte_order_of convert
    swap_header swap_numbers swap_factor has_too_many is_inconsistent numbers_at swap_data
    swap_int_data swap_ints swap_uint16 swap_uint32 swap_uint64 ◌+ℤ◌ ◌-ℤ◌
accepted = refl

two_samples : 1 < pos_part (message_at whole tank 0).nsamp
unfolding numbers_at
two_samples = omega arith

known : IsDatatype (tank (datatype_at 0)) (tank (datatype_at 0 + 1))
known = ints (inl refl) (inr refl)

makelocal-Code_example :
    Code whole (tank (datatype_at 0)) (tank (datatype_at 0 + 1)) (message_at whole tank 0) after.rc
makelocal-Code_example = makelocal-Code whole little undefine (inl refl) 0 b'2' tank

makelocal-numbers_example : numbers_at whole little after.mem 0 ≡ message_at whole tank 0
makelocal-numbers_example = makelocal-numbers whole little undefine (inl refl) 0 b'2' tank known

makelocal-sample_example : value_of little (load after.mem 68 4) ≡ value_of big (load tank 68 4)
makelocal-sample_example =
    makelocal-sample whole little undefine (inl refl) 0 b'2' tank 1 accepted two_samples

makelocal-same_example : after.mem 72 ≡ tank 72
unfolding numbers_at
makelocal-same_example =
    makelocal-same whole little undefine (inl refl) 0 b'2' tank 72 (inr (omega arith))

makelocal_again_example :
    makelocal_wavemsg_ver whole little little_endian 0 b'2' after.mem
    ≡ record { rc = pos 0; host_byte_order = little_endian; mem = after.mem }
makelocal_again_example =
    makelocal_again whole little undefine (inl refl) 0 b'2' tank little_endian (inr refl) b'2'
      accepted

read-swap_uint64_example : read_u64 little (swap_uint64 8 tank) 8 ≡ read_u64 big tank 8
read-swap_uint64_example = read-swap_uint64 little 8 tank

swap_uint64_twice_example : swap_uint64 8 (swap_uint64 8 tank) ≡ tank
swap_uint64_twice_example = swap_uint64_twice 8 tank

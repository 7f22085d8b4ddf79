-- ===== src/Tests/Whole.antt =====
-- scan_tracebuf on the sample tank, which holds one tracebuf of 72 bytes.
use tank_convertor.Base.{
  ◌≤◌, ◌≡◌, refl, Option, List, [], ◌∷◌, length, ◌+ℤ◌, ◌-ℤ◌, ◌*ℤ◌, arith, ◌↔◌,
}
use tank_convertor.Memory.{little}
use tank_convertor.Floating.{whole}
use tank_convertor.Header.{numbers_at}
use tank_convertor.Libc.Strings.{atoi, atoi_digits, is_digit}
use tank_convertor.Libc.Search.{tfind, tsearch}
use tank_convertor.Swap.{swap_uint16, swap_uint32, swap_uint64}
use tank_convertor.Swap.MakeLocal.{
  undefine, probe_host_byteorder, local_orders, host_order, byte_order_of, swap_factor,
  swap_numbers, swap_header, has_too_many, is_inconsistent, swap_ints, swap_int_data, swap_data,
  convert, makelocal_wavemsg_ver, swap_wavemsg2_makelocal,
}
use tank_convertor.Trace.{TBuf, Scnl, compare_scnl}
use tank_convertor.Scan.{
  State, Outcome, again, stop, failed, crashed, finished, key_of, new_node, locate, keep_packet,
  scnl_at, dash_spaces, record_packet, fetch, dispatch, scan_step, scan_loop,
}
use tank_convertor.Scan.Step.{HasMore, read_packet}
use tank_convertor.Scan.Rounds.{Rounds, ends, all_of_trace, scan_loop-Rounds, Rounds-HasMore}
use tank_convertor.Walk.{collect, initial, scanned, scan_tracebuf}
use tank_convertor.Walk.Whole.{IsAnswer, scan_tracebuf-IsAnswer, IsReading, scan_tracebuf-IsReading}
use tank_convertor.Walk.Total.{scan_tracebuf-scanned}
use tank_convertor.Scan.Termination.{IsForward, Reaches, here, further}
use tank_convertor.Tests.Tank.{tank}
use tank_convertor.Tests.Scan.{always, start, start-IsState}

abbrev state_of : Outcome whole.Double → State whole.Double
state_of (again s) = s
state_of (stop s) = s
state_of failed = start
state_of crashed = start

abbrev after : State whole.Double
after = state_of (scan_step whole always 0 little 72 start)

goes_on : scan_step whole always 0 little 72 start ≡ again after
unfolding makelocal_wavemsg_ver host_order probe_host_byteorder local_orders byte_order_of convert
    swap_header swap_numbers swap_factor has_too_many is_inconsistent numbers_at swap_data
    swap_int_data swap_ints swap_uint16 swap_uint32 swap_uint64 ◌+ℤ◌ ◌-ℤ◌ ◌*ℤ◌
    swap_wavemsg2_makelocal initial scan_step dispatch fetch locate record_packet keep_packet
    new_node key_of scnl_at dash_spaces tfind tsearch atoi atoi_digits is_digit compare_scnl
goes_on = refl

at_end : 72 ≤ after.tankbyte
unfolding makelocal_wavemsg_ver host_order probe_host_byteorder local_orders byte_order_of convert
    swap_header swap_numbers swap_factor has_too_many is_inconsistent numbers_at swap_data
    swap_int_data swap_ints swap_uint16 swap_uint32 swap_uint64 ◌+ℤ◌ ◌-ℤ◌ ◌*ℤ◌
    swap_wavemsg2_makelocal initial scan_step dispatch fetch locate record_packet keep_packet
    new_node key_of scnl_at dash_spaces tfind tsearch atoi atoi_digits is_digit compare_scnl
at_end = omega arith

abbrev reading : List (Option (Scnl × TBuf whole.Double))
reading = read_packet whole little 0 start ∷ []

reading-Rounds : Rounds whole always 0 little 72 start reading after
reading-Rounds = ends goes_on at_end

scan_loop-Rounds_example : (scan_loop whole always 0 little 72 1 start ≡ finished after) ↔ (
    (rs : List (Option (Scnl × TBuf whole.Double))) × Rounds whole always 0 little 72 start rs after
    × (length rs ≤ 1))
scan_loop-Rounds_example = scan_loop-Rounds whole always 0 little 72 1 start after

Rounds-HasMore_example : HasMore start after (λ k. all_of_trace k reading)
unfolding initial
Rounds-HasMore_example =
    Rounds-HasMore whole always 0 little 72 0 start after reading reading-Rounds start-IsState tt
      (omega arith)

ran : scan_tracebuf whole always little undefine tank 0 72 1 ≡ scanned (collect whole after)
unfolding scan_tracebuf
ran =
    let (loop, back) = scan_loop-Rounds whole always 0 little 72 1 start after in
    rw (back (reading, reading-Rounds, omega arith), scan_tracebuf) refl

scan_tracebuf-IsReading_example :
    (s : State whole.Double) × (rs : List (Option (Scnl × TBuf whole.Double))) × IsReading whole
      always little undefine tank 0 72 s rs
    × (collect whole after ≡ collect whole s)
scan_tracebuf-IsReading_example =
    scan_tracebuf-IsReading whole always little undefine tank 0 72 1 (collect whole after)
      (omega arith) ran

scan_tracebuf-IsAnswer_example : IsAnswer (scan_tracebuf whole always little undefine tank 0 72 1)
scan_tracebuf-IsAnswer_example =
    scan_tracebuf-IsAnswer whole always little undefine tank 0 72 (λ i. refl) 1 (omega arith)

-- The loop comes to no other header.
start-IsForward : IsForward whole always 0 little 72 start
unfolding makelocal_wavemsg_ver host_order probe_host_byteorder local_orders byte_order_of convert
    swap_header swap_numbers swap_factor has_too_many is_inconsistent numbers_at swap_data
    swap_int_data swap_ints swap_uint16 swap_uint32 swap_uint64 ◌+ℤ◌ ◌-ℤ◌ ◌*ℤ◌
    swap_wavemsg2_makelocal initial scan_step dispatch fetch locate record_packet keep_packet
    new_node key_of scnl_at dash_spaces tfind tsearch atoi atoi_digits is_digit compare_scnl
start-IsForward = record { count = 2; nsamp = refl; inside = omega arith }

-- A round that goes on has not reached the end.
abbrev IsEnd : Outcome whole.Double → Type 0
IsEnd (again s) = 72 ≤ s.tankbyte
IsEnd (stop s) = Unit
IsEnd failed = Unit
IsEnd crashed = Unit

all-IsForward :
    (s : State whole.Double)
    → Reaches whole always 0 little 72 (initial whole undefine tank 0) s
    → IsForward whole always 0 little 72 s
all-IsForward s here = start-IsForward
all-IsForward s (further {s1 = s1} e before more) =
    let first : IsEnd (scan_step whole always 0 little 72 start) = rw goes_on at_end in
    let ended : IsEnd (again s1) = rw e at first in absurd (omega (arith, ended, before))

scan_tracebuf-scanned_example :
    (s : State whole.Double) × (rs : List (Option (Scnl × TBuf whole.Double))) × IsReading whole
      always little undefine tank 0 72 s rs
    × (scan_tracebuf whole always little undefine tank 0 72 73 ≡ scanned (collect whole s))
scan_tracebuf-scanned_example =
    scan_tracebuf-scanned whole always little undefine tank 0 72 (λ i. refl) all-IsForward 73
      (omega arith) (omega arith) (omega arith)

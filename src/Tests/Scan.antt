-- ===== src/Tests/Scan.antt =====
-- scan_tracebuf on the sample tank.
use tank_convertor.Base.{ℕ, Bool, true, ◌≡◌, ◌↔◌, refl, [], ◌∷◌, Ordering}
use tank_convertor.Memory.{little}
use tank_convertor.Floating.{whole}
use tank_convertor.Libc.Strings.{c_str}
use tank_convertor.Swap.MakeLocal.{undefine}
use tank_convertor.Trace.{Scnl, sta_string, chan_string, net_string, loc_string, compare_scnl}
use tank_convertor.Trace.Order.{compare_scnl-eq}
use tank_convertor.Scan.{State, scan_step}
use tank_convertor.Scan.Invariant.{IsState, Ends}
use tank_convertor.Scan.Step.{HasMore, of_trace, read_packet, scan_step-HasMore}
use tank_convertor.Walk.{initial}
use tank_convertor.Tests.Tank.{tank}

abbrev pub always : ℕ → Bool
always i = true

abbrev pub start : State whole.Double
start = initial whole undefine tank 0

pub start-IsState : IsState start
unfolding initial
start-IsState = record { search = tt; inside = tt; count = refl; total = refl; each = tt }

scan_step-HasMore_example :
    Ends
      (λ s1. HasMore start s1 (λ k. of_trace k (read_packet whole little 0 start)))
      (scan_step whole always 0 little 72 start)
unfolding initial
scan_step-HasMore_example = scan_step-HasMore whole always 0 little 72 start start-IsState tt

abbrev pub vertical : Scnl
vertical = record {
  sta = b'A' ∷ 0 ∷ [];
  chan = b'H' ∷ b'H' ∷ b'Z' ∷ 0 ∷ [];
  net = b'T' ∷ b'W' ∷ 0 ∷ [];
  loc = b'-' ∷ b'-' ∷ 0 ∷ [];
}

-- The same text with other bytes behind a terminator.
abbrev padded : Scnl
padded = record vertical { sta = b'A' ∷ 0 ∷ b'x' ∷ [] }

compare_scnl-eq_example : (compare_scnl vertical padded ≡ Ordering.eq) ↔ (
    (c_str (sta_string vertical) ≡ c_str (sta_string padded))
    × (c_str (chan_string vertical) ≡ c_str (chan_string padded))
    × (c_str (net_string vertical) ≡ c_str (net_string padded))
    × (c_str (loc_string vertical) ≡ c_str (loc_string padded)))
compare_scnl-eq_example = compare_scnl-eq vertical padded

-- ===== src/Tests/Noise.antt =====
-- scan_tracebuf on a tank with the sample tracebuf between bytes that are none.
use tank_convertor.Base.{
  ◌≡◌, inl, inr, refl, Option, none, some, List, [], ◌∷◌, ◌++◌, All, ◌-ℤ◌, ◌+ℤ◌, arith,
}
use tank_convertor.Memory.{Mem, little, store}
use tank_convertor.Floating.{whole}
use tank_convertor.Header.{numbers_at}
use tank_convertor.Swap.MakeLocal.{undefine, byte_order_of}
use tank_convertor.Swap.Sides.{ints}
use tank_convertor.Swap.Code.{byte_order_of-unknown}
use tank_convertor.Trace.{TBuf, Scnl}
use tank_convertor.Scan.Rounds.{all_of_trace}
use tank_convertor.Scan.Tank.{IsMessage, packet_at, Tank, done, packet, unknown}
use tank_convertor.Walk.{Scanned, scanned, scan_tracebuf}
use tank_convertor.Walk.Inventory.{IsInventory}
use tank_convertor.Scan.Tank.Local.{AllLocal}
use tank_convertor.Walk.Complete.{scan_tracebuf-Tank, scan_tracebuf-AllLocal}
use tank_convertor.Tests.Tank.{header}
use tank_convertor.Tests.Scan.{always}
use tank_convertor.Tests.Walk.{whole-IsOrdered}

-- A byte, the tracebuf of 72 bytes, and two bytes more.
abbrev pub noisy : Mem
noisy = store (λ _. 0) 1 (header ++ (0 ∷ 0 ∷ 1 ∷ 2 ∷ 255 ∷ 255 ∷ 255 ∷ 254 ∷ []))

message : IsMessage whole noisy 1 2
unfolding numbers_at
message = record {
  known = ints (inl refl) (inr refl);
  ended = inl (omega arith);
  count = refl;
  room = omega arith;
}

abbrev pub held : List (Option (Scnl × TBuf whole.Double))
held = none ∷ some (packet_at whole noisy 0 1 2) ∷ none ∷ none ∷ []

pub noisy-Tank : Tank whole little noisy 0 75 0 held
unfolding numbers_at ◌-ℤ◌ ◌+ℤ◌ byte_order_of
noisy-Tank = unknown (omega arith) (byte_order_of-unknown _ _ refl) (
    packet 2 (omega arith) message (refl, refl)
      (unknown (omega arith) (byte_order_of-unknown _ _ refl)
        (unknown (omega arith) (byte_order_of-unknown _ _ refl) (done (omega arith)))))

-- Every time is a whole number.
pub all_numbers : {D : Type 0} (bs : List (TBuf D)) → All (λ (b : TBuf D). Unit {0}) bs
all_numbers [] = tt
all_numbers (b ∷ bs) = (tt, all_numbers bs)

scan_tracebuf-Tank_example :
    (r : Scanned whole) × (scan_tracebuf whole always little undefine noisy 0 75 4 ≡ scanned r)
    × IsInventory whole held r
scan_tracebuf-Tank_example =
    scan_tracebuf-Tank whole always (λ i. refl) little undefine (inl refl) noisy 0 75 held
      noisy-Tank (omega arith) (omega arith) (omega arith) (λ _. Unit) whole-IsOrdered
      (λ k. all_numbers (all_of_trace k held)) 4 (omega arith)

scan_tracebuf-AllLocal_example :
    (r : Scanned whole) × (scan_tracebuf whole always little undefine noisy 0 75 4 ≡ scanned r)
    × AllLocal whole little noisy 0 75 r.mem 0 held noisy-Tank
scan_tracebuf-AllLocal_example =
    scan_tracebuf-AllLocal whole always (λ i. refl) little undefine (inl refl) noisy 0 75 held
      noisy-Tank (omega arith) (omega arith) (omega arith) 4 (omega arith)

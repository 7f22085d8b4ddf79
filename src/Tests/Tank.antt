-- ===== src/Tests/Tank.antt =====
-- A tank of one tracebuf, written by a big-endian machine, at address 0: two samples of four bytes
-- from TW.ABC.HHZ, the first at second 10 and the second at second 11.
use tank_convertor.Base.{ℕ, List, [], ◌∷◌, ◌++◌, replicate}
use tank_convertor.Memory.{Mem, store}

abbrev word : ℕ → List ℕ
word b = 0 ∷ 0 ∷ 0 ∷ b ∷ []

abbrev pub header : List ℕ
header =
    word 0
    ++ (word 2
        ++ ((word 0 ++ word 10)
            ++ ((word 0 ++ word 11)
                ++ ((word 0 ++ word 1)
                    ++ ((b'A' ∷ b'B' ∷ b'C' ∷ 0 ∷ 0 ∷ 0 ∷ 0 ∷ [])
                        ++ ((b'T' ∷ b'W' ∷ replicate 7 0)
                            ++ ((b'H' ∷ b'H' ∷ b'Z' ∷ 0 ∷ [])
                                ++ (b'-' ∷ b'-' ∷ 0 ∷ b'2' ∷ b'0' ∷ b's' ∷ b'4' ∷ 0 ∷ 0 ∷ 0 ∷ 0 ∷ 0
                                    ∷ []))))))))

abbrev pub tank : Mem
tank = store (λ _. 0) 0 (header ++ (0 ∷ 0 ∷ 1 ∷ 2 ∷ 255 ∷ 255 ∷ 255 ∷ 254 ∷ []))

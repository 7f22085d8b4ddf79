-- ===== src/Swap.antt =====
-- libsrc/swap.c: the three byte swaps.
pub mod Laws
pub mod MakeLocal
pub mod Numbers
pub mod Sides
pub mod Code
pub mod Effect
pub mod Text
pub mod Correct
pub mod Data
pub mod Contract
pub mod Samples
pub mod Interface
use tank_convertor.Base.{ℕ, ◌≡◌, List, get_or, set}
use tank_convertor.Memory.{Mem, load, store}

-- `temp = dat.c[i]; dat.c[i] = dat.c[j]; dat.c[j] = temp;`
abbrev exchange : ℕ → ℕ → List ℕ → List ℕ
exchange i j c = let temp = get_or c i 0 in set (set c i (get_or c j 0)) j temp

unfoldable pub swap_uint16 : ℕ → Mem → Mem
swap_uint16 p m = store m p (exchange 0 1 (load m p 2))

unfoldable pub swap_uint32 : ℕ → Mem → Mem
swap_uint32 p m = store m p (exchange 1 2 (exchange 0 3 (load m p 4)))

unfoldable pub swap_uint64 : ℕ → Mem → Mem
swap_uint64 p m = store m p (exchange 3 4 (exchange 2 5 (exchange 1 6 (exchange 0 7 (load m p 8)))))

-- The macros of swap.h.
abbrev swap_int16 : ℕ → Mem → Mem
swap_int16 = swap_uint16

abbrev swap_short : ℕ → Mem → Mem
swap_short = swap_uint16

abbrev swap_int32 : ℕ → Mem → Mem
swap_int32 = swap_uint32

abbrev swap_int : ℕ → Mem → Mem
swap_int = swap_uint32

abbrev swap_float : ℕ → Mem → Mem
swap_float = swap_uint32

abbrev swap_int64 : ℕ → Mem → Mem
swap_int64 = swap_uint64

abbrev swap_double : ℕ → Mem → Mem
swap_double = swap_uint64

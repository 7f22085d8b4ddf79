-- ===== src/Swap/Laws.antt =====
-- What the byte swaps do to the number that the bytes stand for, and to the rest of memory.
use tank_convertor.Base.{ℕ, ◌≡◌, ◌∙◌, ap, fun_ext, List, reverse}
use tank_convertor.Memory.{
  Mem, Endian, little, big, opposite, load, store, value_of, read_u16, read_u32, read_u64,
}
use tank_convertor.Memory.Laws.{SameOutside, load-store, restore, store-SameOutside}
use tank_convertor.Swap.{swap_uint16, swap_uint32, swap_uint64, exchange}

pub swap_uint16_twice : (p : ℕ) (m : Mem) → swap_uint16 p (swap_uint16 p m) ≡ m
unfolding swap_uint16
swap_uint16_twice p m = fun_ext λ x.
    let back : List ℕ = reverse (load m p 2) in
    ap (λ (l : List ℕ). store (swap_uint16 p m) p (exchange 0 1 l) x) (load-store m p back)
    ∙ restore m p back x

pub swap_uint32_twice : (p : ℕ) (m : Mem) → swap_uint32 p (swap_uint32 p m) ≡ m
unfolding swap_uint32
swap_uint32_twice p m = fun_ext λ x.
    let back : List ℕ = reverse (load m p 4) in
    ap (λ (l : List ℕ). store (swap_uint32 p m) p (exchange 1 2 (exchange 0 3 l)) x)
      (load-store m p back)
    ∙ restore m p back x

-- Swapping eight bytes twice leaves memory as it was.
pub swap_uint64_twice : (p : ℕ) (m : Mem) → swap_uint64 p (swap_uint64 p m) ≡ m
unfolding swap_uint64
swap_uint64_twice p m = fun_ext λ x.
    let back : List ℕ = reverse (load m p 8) in
    ap
      (λ (l : List ℕ).
        store (swap_uint64 p m) p (exchange 3 4 (exchange 2 5 (exchange 1 6 (exchange 0 7 l)))) x)
      (load-store m p back)
    ∙ restore m p back x

pub load-swap_uint16 : (p : ℕ) (m : Mem) → load (swap_uint16 p m) p 2 ≡ reverse (load m p 2)
unfolding swap_uint16
load-swap_uint16 p m = load-store m p (reverse (load m p 2))

pub load-swap_uint32 : (p : ℕ) (m : Mem) → load (swap_uint32 p m) p 4 ≡ reverse (load m p 4)
unfolding swap_uint32
load-swap_uint32 p m = load-store m p (reverse (load m p 4))

pub load-swap_uint64 : (p : ℕ) (m : Mem) → load (swap_uint64 p m) p 8 ≡ reverse (load m p 8)
unfolding swap_uint64
load-swap_uint64 p m = load-store m p (reverse (load m p 8))

pub read-swap_uint16 :
    (e : Endian) (p : ℕ) (m : Mem) → read_u16 e (swap_uint16 p m) p ≡ read_u16 (opposite e) m p
read-swap_uint16 little p m = ap (value_of little) (load-swap_uint16 p m)
read-swap_uint16 big p m = ap (value_of big) (load-swap_uint16 p m)

pub read-swap_uint32 :
    (e : Endian) (p : ℕ) (m : Mem) → read_u32 e (swap_uint32 p m) p ≡ read_u32 (opposite e) m p
read-swap_uint32 little p m = ap (value_of little) (load-swap_uint32 p m)
read-swap_uint32 big p m = ap (value_of big) (load-swap_uint32 p m)

-- In either byte order, eight swapped bytes stand for the number that they stood for before in the
-- opposite order.
pub read-swap_uint64 :
    (e : Endian) (p : ℕ) (m : Mem) → read_u64 e (swap_uint64 p m) p ≡ read_u64 (opposite e) m p
read-swap_uint64 little p m = ap (value_of little) (load-swap_uint64 p m)
read-swap_uint64 big p m = ap (value_of big) (load-swap_uint64 p m)

pub swap_uint16-SameOutside : (p : ℕ) (m : Mem) → SameOutside p 2 m (swap_uint16 p m)
unfolding swap_uint16
swap_uint16-SameOutside p m = store-SameOutside m p (reverse (load m p 2))

pub swap_uint32-SameOutside : (p : ℕ) (m : Mem) → SameOutside p 4 m (swap_uint32 p m)
unfolding swap_uint32
swap_uint32-SameOutside p m = store-SameOutside m p (reverse (load m p 4))

pub swap_uint64-SameOutside : (p : ℕ) (m : Mem) → SameOutside p 8 m (swap_uint64 p m)
unfolding swap_uint64
swap_uint64-SameOutside p m = store-SameOutside m p (reverse (load m p 8))

-- ===== src/Memory.antt =====
-- The memory that the program maps the tank file into: a byte for each address. The pointers of the
-- source are absolute addresses, and `memcpy` from and to a local object is `load` and `store`.
pub mod Laws
use tank_convertor.Base.{
  ℕ, zero, suc, ◌+◌, ◌*◌, ◌<◌, ◌≡◌, List, [], ◌∷◌, ◌==◌, if◌then◌else◌, reverse, ℤ, signed16,
  signed32,
}

abbrev pub Mem : Type 0
Mem = ℕ → ℕ

-- The `n` bytes from address `p` on.
abbrev pub load : Mem → ℕ → ℕ → List ℕ
load m p zero = []
load m p (suc n) = m p ∷ load m (p + 1) n

-- Writes the bytes from address `p` on, and leaves every other address alone.
abbrev pub store : Mem → ℕ → List ℕ → Mem
store m p [] x = m x
store m p (b ∷ bs) x = if x == p then b else store m (p + 1) bs x

pub data Endian : Type 0 where
  little big : Endian

-- The number that a sequence of bytes stands for, least significant byte first.
abbrev pub le_value : List ℕ → ℕ
le_value [] = 0
le_value (b ∷ bs) = b + 256 * le_value bs

-- The number that the object representation `bs` stands for on a machine of that byte order.
abbrev pub value_of : Endian → List ℕ → ℕ
value_of little bs = le_value bs
value_of big bs = le_value (reverse bs)

abbrev pub read_u16 : Endian → Mem → ℕ → ℕ
read_u16 e m p = value_of e (load m p 2)

abbrev pub read_u32 : Endian → Mem → ℕ → ℕ
read_u32 e m p = value_of e (load m p 4)

abbrev pub read_u64 : Endian → Mem → ℕ → ℕ
read_u64 e m p = value_of e (load m p 8)

abbrev pub read_i16 : Endian → Mem → ℕ → ℤ
read_i16 e m p = signed16 (read_u16 e m p)

abbrev pub read_i32 : Endian → Mem → ℕ → ℤ
read_i32 e m p = signed32 (read_u32 e m p)

abbrev pub opposite : Endian → Endian
opposite little = big
opposite big = little

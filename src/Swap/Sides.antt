-- ===== src/Swap/Sides.antt =====
-- A message of a known type is in the machine's own byte order or in the other one. What the tests
-- of makelocal_wavemsg_ver find in each case.
use tank_convertor.Base.{
  ℕ, ◌-◌, ◌≡◌, ◌⊎◌, inl, inr, refl, true, false, ◌||◌, ◌==◌, if◌then◌else◌, none, some, arith,
}
use tank_convertor.Memory.{Endian, little, big, opposite}
use tank_convertor.Swap.MakeLocal.{
  ByteOrder, undefine, little_endian, big_endian, Orders, local_orders, host_order, byte_order_of,
  probe_host_byteorder,
}
use tank_convertor.Swap.Samples.{IntSize, short, word, FloatSize, single, double}

-- The byte order that the first letter of the data type names: SUN (`s`, `t`) or Intel (`i`, `f`).
abbrev pub message_endian : ℕ → Endian
message_endian t0 = if t0 == b's' || t0 == b't' then big else little

-- The data types that are known: s2 s4 i2 i4 and t4 t8 f4 f8.
pub data IsDatatype (t0 t1 : ℕ) : Type 0 where
  ints : (t0 ≡ b's') ⊎ (t0 ≡ b'i') → (t1 ≡ b'2') ⊎ (t1 ≡ b'4') → IsDatatype t0 t1
  floats : (t0 ≡ b't') ⊎ (t0 ≡ b'f') → (t1 ≡ b'4') ⊎ (t1 ≡ b'8') → IsDatatype t0 t1

-- Two letters for samples of the same kind: both integers, or both floating-point numbers.
abbrev pub SameKind : ℕ → ℕ → Type 0
SameKind c t =
    (((c ≡ b's') ⊎ (c ≡ b'i')) × ((t ≡ b's') ⊎ (t ≡ b'i')))
    ⊎ (((c ≡ b't') ⊎ (c ≡ b'f')) × ((t ≡ b't') ⊎ (t ≡ b'f')))

pub SameKind-refl : (t0 t1 : ℕ) → IsDatatype t0 t1 → SameKind t0 t0
SameKind-refl t0 t1 (ints h k) = inl (h, h)
SameKind-refl t0 t1 (floats h k) = inr (h, h)

pub byte_order_of-IsDatatype : (t0 t1 : ℕ) → IsDatatype t0 t1 → byte_order_of t0 t1 ≡ some t0
unfolding byte_order_of
byte_order_of-IsDatatype t0 t1 (ints h k) = ground arith
byte_order_of-IsDatatype t0 t1 (floats h k) = ground arith

-- Every other data type is refused.
pub IsDatatype-cases : (t0 t1 : ℕ) → (byte_order_of t0 t1 ≡ none) ⊎ IsDatatype t0 t1
unfolding byte_order_of
IsDatatype-cases t0 t1 = grind (arith, ints, floats)

abbrev pub native_order : Endian → ByteOrder
native_order little = little_endian
native_order big = big_endian

-- The static variable has not been set yet, or it was set by an earlier call.
abbrev pub IsStatic : Endian → ByteOrder → Type 0
IsStatic host static = (static ≡ undefine) ⊎ (static ≡ native_order host)

abbrev pub orders_of : Endian → Orders
orders_of little = record {
  loc_ibyte_order = b'i';
  loc_fbyte_order = b'f';
  ops_ibyte_order = b's';
  ops_fbyte_order = b't';
}
orders_of big = record {
  loc_ibyte_order = b's';
  loc_fbyte_order = b't';
  ops_ibyte_order = b'i';
  ops_fbyte_order = b'f';
}

-- The probe finds the byte order of the machine.
pub probe_host_byteorder-native_order :
    (host : Endian) → probe_host_byteorder host ≡ native_order host
unfolding probe_host_byteorder
probe_host_byteorder-native_order little = refl
probe_host_byteorder-native_order big = refl

pub host_order-native_order :
    (host : Endian) (static : ByteOrder)
    → IsStatic host static
    → host_order host static ≡ native_order host
unfolding host_order
host_order-native_order host static (inl h) = rw h (probe_host_byteorder-native_order host)
host_order-native_order little static (inr h) = rw h
host_order-native_order big static (inr h) = rw h

pub local_orders-native_order :
    (host : Endian) → local_orders (native_order host) ≡ some (orders_of host)
unfolding local_orders
local_orders-native_order little = refl
local_orders-native_order big = refl

-- What the tests on the byte order find.
pub record IsNative (host : Endian) (t0 : ℕ) : Type 0 where
  pub endian : message_endian t0 ≡ host
  pub is_local :
      ((t0 == (orders_of host).loc_ibyte_order) || (t0 == (orders_of host).loc_fbyte_order)) ≡ true
  pub not_ops_int : (t0 == (orders_of host).ops_ibyte_order) ≡ false
  pub not_ops_float : (t0 == (orders_of host).ops_fbyte_order) ≡ false

pub record IsForeign (host : Endian) (t0 : ℕ) : Type 0 where
  pub endian : message_endian t0 ≡ opposite host
  pub not_loc_int : (t0 == (orders_of host).loc_ibyte_order) ≡ false
  pub not_loc_float : (t0 == (orders_of host).loc_fbyte_order) ≡ false

pub data Side (host : Endian) (t0 t1 : ℕ) : Type 0 where
  native : IsNative host t0 → Side host t0 t1
  foreign_int :
      IsForeign host t0
      → (t0 == (orders_of host).ops_ibyte_order) ≡ true
      → IntSize (t1 - b'0')
      → Side host t0 t1
  foreign_float :
      IsForeign host t0
      → (t0 == (orders_of host).ops_ibyte_order) ≡ false
      → (t0 == (orders_of host).ops_fbyte_order) ≡ true
      → FloatSize (t1 - b'0')
      → Side host t0 t1

int_size : (t1 : ℕ) → (t1 ≡ b'2') ⊎ (t1 ≡ b'4') → IntSize (t1 - b'0')
int_size t1 (inl h) = rw h short
int_size t1 (inr h) = rw h word

float_size : (t1 : ℕ) → (t1 ≡ b'4') ⊎ (t1 ≡ b'8') → FloatSize (t1 - b'0')
float_size t1 (inl h) = rw h single
float_size t1 (inr h) = rw h double

pub side : (host : Endian) (t0 t1 : ℕ) → IsDatatype t0 t1 → Side host t0 t1
side little t0 t1 (ints (inl h) k) = foreign_int (ground arith) (ground arith) (int_size t1 k)
side little t0 t1 (ints (inr h) k) = native (ground arith)
side little t0 t1 (floats (inl h) k) =
    foreign_float (ground arith) (ground arith) (ground arith) (float_size t1 k)
side little t0 t1 (floats (inr h) k) = native (ground arith)
side big t0 t1 (ints (inl h) k) = native (ground arith)
side big t0 t1 (ints (inr h) k) = foreign_int (ground arith) (ground arith) (int_size t1 k)
side big t0 t1 (floats (inl h) k) = native (ground arith)
side big t0 t1 (floats (inr h) k) =
    foreign_float (ground arith) (ground arith) (ground arith) (float_size t1 k)

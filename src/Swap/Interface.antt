-- ===== src/Swap/Interface.antt =====
-- include/swap.h and src/libsrc/swap.c: the functions that swap.c offers and those that it keeps, with what each call of them may rely on.
use tank_convertor.Base.{ℕ, ◌+◌, ◌≡◌, inr}
use tank_convertor.Memory.{Mem, Endian, opposite, read_u16, read_u32, read_u64}
use tank_convertor.Floating.{Floating}
use tank_convertor.Header.{datatype_at, version_at, numbers_at}
use tank_convertor.Swap
use tank_convertor.Swap.Laws.{read-swap_uint16, read-swap_uint32, read-swap_uint64}
use tank_convertor.Swap.MakeLocal.{ByteOrder, Local}
use tank_convertor.Swap.MakeLocal
use tank_convertor.Swap.Sides.{IsDatatype, IsStatic, probe_host_byteorder-native_order}
use tank_convertor.Swap.Contract.{message_at}
use tank_convertor.Swap.Correct.{makelocal-numbers}

pub record SwapFunctions (f : Floating) (host : Endian) : Type 0 where
  pub swap_uint16 : ℕ → Mem → Mem
  pub swap_uint32 : ℕ → Mem → Mem
  pub swap_uint64 : ℕ → Mem → Mem
  -- "fixes wave message into local byte order"
  pub swap_wavemsg_makelocal : ByteOrder → ℕ → Mem → Local
  pub swap_wavemsg2_makelocal : ByteOrder → ℕ → Mem → Local
  pub swap_wavemsg2x_makelocal : ByteOrder → ℕ → Mem → Local
  -- A swapped number reads as it did in the other byte order.
  pub swapped16 :
      (e : Endian) (p : ℕ) (m : Mem) → read_u16 e (swap_uint16 p m) p ≡ read_u16 (opposite e) m p
  pub swapped32 :
      (e : Endian) (p : ℕ) (m : Mem) → read_u32 e (swap_uint32 p m) p ≡ read_u32 (opposite e) m p
  pub swapped64 :
      (e : Endian) (p : ℕ) (m : Mem) → read_u64 e (swap_uint64 p m) p ≡ read_u64 (opposite e) m p
  -- The numbers of a message of a known type read in the local byte order as they did in its own.
  pub local_numbers :
      (static : ByteOrder)
      → IsStatic host static
      → (p : ℕ) (m : Mem) → IsDatatype (m (datatype_at p)) (m (datatype_at p + 1))
      → numbers_at f host (swap_wavemsg_makelocal static p m).mem p ≡ message_at f m p
  pub local_numbers2 :
      (static : ByteOrder)
      → IsStatic host static
      → (p : ℕ) (m : Mem) → IsDatatype (m (datatype_at p)) (m (datatype_at p + 1))
      → numbers_at f host (swap_wavemsg2_makelocal static p m).mem p ≡ message_at f m p
  pub local_numbers2x :
      (static : ByteOrder)
      → IsStatic host static
      → (p : ℕ) (m : Mem) → IsDatatype (m (datatype_at p)) (m (datatype_at p + 1))
      → numbers_at f host (swap_wavemsg2x_makelocal static p m).mem p ≡ message_at f m p

unfoldable pub swap_functions : (f : Floating) (host : Endian) → SwapFunctions f host
unfolding MakeLocal.swap_wavemsg_makelocal MakeLocal.swap_wavemsg2_makelocal
    MakeLocal.swap_wavemsg2x_makelocal
swap_functions f host = record {
  swap_uint16 = Swap.swap_uint16;
  swap_uint32 = Swap.swap_uint32;
  swap_uint64 = Swap.swap_uint64;
  swap_wavemsg_makelocal = MakeLocal.swap_wavemsg_makelocal f host;
  swap_wavemsg2_makelocal = MakeLocal.swap_wavemsg2_makelocal f host;
  swap_wavemsg2x_makelocal = MakeLocal.swap_wavemsg2x_makelocal f host;
  swapped16 = read-swap_uint16;
  swapped32 = read-swap_uint32;
  swapped64 = read-swap_uint64;
  local_numbers = λ static ok p m known. makelocal-numbers f host static ok p b'1' m known;
  local_numbers2 =
      λ static ok p m known. makelocal-numbers f host static ok p (m (version_at p)) m known;
  local_numbers2x =
      λ static ok p m known. makelocal-numbers f host static ok p (m (version_at p)) m known;
}

-- The functions that swap.c keeps to itself.
pub record LocalFunctions (f : Floating) (host : Endian) : Type 0 where
  pub makelocal_wavemsg_ver : ByteOrder → (p version : ℕ) → Mem → Local
  pub probe_host_byteorder : ByteOrder
  -- The probe finds a byte order that a call may find in the static variable.
  pub probed : IsStatic host probe_host_byteorder
  -- The numbers read in the local byte order whatever the version, and whatever the static variable is.
  pub local :
      (p version : ℕ) (m : Mem) (static : ByteOrder)
      → IsStatic host static
      → IsDatatype (m (datatype_at p)) (m (datatype_at p + 1))
      → numbers_at f host (makelocal_wavemsg_ver static p version m).mem p ≡ message_at f m p

unfoldable pub local_functions : (f : Floating) (host : Endian) → LocalFunctions f host
local_functions f host = record {
  makelocal_wavemsg_ver = MakeLocal.makelocal_wavemsg_ver f host;
  probe_host_byteorder = MakeLocal.probe_host_byteorder host;
  probed = inr (probe_host_byteorder-native_order host);
  local = λ p version m static ok known. makelocal-numbers f host static ok p version m known;
}

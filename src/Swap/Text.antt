-- ===== src/Swap/Text.antt =====
-- The text of a header, its strings and the size of a sample, across a call of makelocal_wavemsg_ver.
use native.Mathlib.Decide.{ℕ_discrete}
use tank_convertor.Base.{ℕ, ◌+◌, ◌-◌, ◌≤◌, ◌<◌, ◌≡◌, ◌⊎◌, inl, inr, ◌∙◌, ℤ, arith}
use tank_convertor.Memory.{Mem, Endian}
use tank_convertor.Floating.{Floating}
use tank_convertor.Header.{datatype_at}
use tank_convertor.Swap.MakeLocal.{ByteOrder, makelocal_wavemsg_ver}
use tank_convertor.Swap.Numbers.{swap_header-SameOutside}
use tank_convertor.Swap.Sides.{IsDatatype, ints, floats, IsDatatype-cases, IsStatic, native_order}
use tank_convertor.Swap.Contract.{makelocal-eq-convert, makelocal_unknown}
use tank_convertor.Swap.Effect.{Effect, stays, rejected, converted, makelocal-Effect}

-- The size of a sample is written back as the digit that it was read from.
pub digit_back : (t0 t1 : ℕ) → IsDatatype t0 t1 → t1 - b'0' + b'0' ≡ t1
digit_back t0 t1 (ints h k) = omega arith
digit_back t0 t1 (floats h k) = omega arith

Effect-text :
    (host : Endian) (p version : ℕ) (m : Mem) (n rc : ℤ) (m' : Mem) (x : ℕ)
    → Effect host p version m n rc m'
    → p + 32 ≤ x
    → x < p + 60
    → (x < p + 57) ⊎ (p + 59 ≤ x)
    → m' x ≡ m x
Effect-text host p version m n rc m' x (stays e h) lo hi out = rw h
Effect-text host p version m n rc m' x (rejected e r h) lo hi out =
    rw h (swap_header-SameOutside version p x m (omega arith) (omega arith))
Effect-text host p version m n rc m' x (converted e r c k kind own conv) lo hi out =
    conv.same x out (omega arith)
    ∙ swap_header-SameOutside version p x m (omega arith) (omega arith)

Effect-digit :
    (host : Endian) (p version : ℕ) (m : Mem) (n rc : ℤ) (m' : Mem)
    → IsDatatype (m (datatype_at p)) (m (datatype_at p + 1))
    → Effect host p version m n rc m'
    → m' (datatype_at p + 1) ≡ m (datatype_at p + 1)
Effect-digit host p version m n rc m' known (stays e h) = rw h
Effect-digit host p version m n rc m' known (rejected e r h) =
    rw h (swap_header-SameOutside version p (p + 57 + 1) m (omega arith) (omega arith))
Effect-digit host p version m n rc m' known (converted e r c k kind own conv) =
    conv.digit ∙ digit_back _ _ known

module _ (f : Floating) (host : Endian) (static : ByteOrder) (ok : IsStatic host static)
    (p version : ℕ) (m : Mem) (known : IsDatatype (m (datatype_at p)) (m (datatype_at p + 1))) where
  -- Of a message of a known type, the strings of the header keep their bytes, all but the letter of
  -- the data type, whatever the code.
  pub makelocal-text :
      (x : ℕ)
      → p + 32 ≤ x
      → x < p + 60
      → (x < p + 57) ⊎ (p + 58 ≤ x)
      → (makelocal_wavemsg_ver f host static p version m).mem x ≡ m x
  makelocal-text x lo hi out =
      let effect = (makelocal-Effect f host static ok p version m known).1 in
      elim (ℕ_discrete x (p + 57 + 1)) [
        | yes e ↦ rw e (Effect-digit host p version m _ _ _ known effect)
        | no ne ↦ Effect-text host p version m _ _ _ x effect lo hi (omega arith)
      ]

module _ (f : Floating) (host : Endian) (static : ByteOrder) (ok : IsStatic host static)
    (p version : ℕ) (m : Mem) where
  -- After any call the static variable names the machine's byte order.
  pub makelocal-order :
      (makelocal_wavemsg_ver f host static p version m).host_byte_order ≡ native_order host
  makelocal-order = elim (IsDatatype-cases (m (datatype_at p)) (m (datatype_at p + 1))) [
    | inl none_of ↦ rw (makelocal_unknown f host static ok p version m none_of)
    | inr known ↦ rw (makelocal-eq-convert f host static ok p version m known)
  ]

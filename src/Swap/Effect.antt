-- ===== src/Swap/Effect.antt =====
-- The three ways in which makelocal_wavemsg_ver can leave the memory of a message of a known type.
use tank_convertor.Base.{
  ℕ, ◌+◌, ◌≡◌, inl, inr, refl, sym, ◌∙◌, true, ◌==◌, ◌≢◌, Bool-cases, ℤ, pos, pos_part, arith,
}
use tank_convertor.Memory.{Mem, Endian, little, big, opposite}
use tank_convertor.Floating.{Floating}
use tank_convertor.Header.{datatype_at, Numbers}
use tank_convertor.Swap.MakeLocal.{
  ByteOrder, swap_header, has_too_many, is_inconsistent, makelocal_wavemsg_ver,
}
use tank_convertor.Swap.Sides.{
  message_endian, IsDatatype, SameKind, ints, floats, IsStatic, native_order, orders_of, native,
  foreign_int, foreign_float, side,
}
use tank_convertor.Swap.Data.{IsConverted, swap_data_ints, swap_data_floats}
use tank_convertor.Swap.Contract.{
  size_at, message_at, verdict, if_success, makelocal-eq-convert, convert_native, convert_foreign,
}

-- The letters of the machine's own byte order make a known data type again.
retype_int :
    (host : Endian) (t0 t1 : ℕ)
    → IsDatatype t0 t1
    → (t0 == (orders_of host).ops_ibyte_order) ≡ true
    → IsDatatype (orders_of host).loc_ibyte_order t1 × SameKind (orders_of host).loc_ibyte_order t0
retype_int little t0 t1 (ints h k) is_int = (ints (inr refl) k, inl (inr refl, h))
retype_int little t0 t1 (floats h k) is_int = ground arith
retype_int big t0 t1 (ints h k) is_int = (ints (inl refl) k, inl (inl refl, h))
retype_int big t0 t1 (floats h k) is_int = ground arith

retype_float :
    (host : Endian) (t0 t1 : ℕ)
    → IsDatatype t0 t1
    → (t0 == (orders_of host).ops_fbyte_order) ≡ true
    → IsDatatype (orders_of host).loc_fbyte_order t1 × SameKind (orders_of host).loc_fbyte_order t0
retype_float little t0 t1 (ints h k) is_float = ground arith
retype_float little t0 t1 (floats h k) is_float = (floats (inr refl) k, inr (inr refl, h))
retype_float big t0 t1 (ints h k) is_float = ground arith
retype_float big t0 t1 (floats h k) is_float = (floats (inl refl) k, inr (inl refl, h))

loc_int_endian : (host : Endian) → message_endian (orders_of host).loc_ibyte_order ≡ host
loc_int_endian little = refl
loc_int_endian big = refl

loc_float_endian : (host : Endian) → message_endian (orders_of host).loc_fbyte_order ≡ host
loc_float_endian little = refl
loc_float_endian big = refl

pub data Effect (host : Endian) (p version : ℕ) (m : Mem) (n : ℤ) (rc : ℤ) (m' : Mem) : Type 0 where
  -- in the machine's byte order: nothing is written
  stays : message_endian (m (datatype_at p)) ≡ host → m' ≡ m → Effect host p version m n rc m'
  -- in the other one, and refused: the header has been swapped
  rejected :
      message_endian (m (datatype_at p)) ≡ opposite host
      → rc ≢ pos 0
      → m' ≡ swap_header version p m
      → Effect host p version m n rc m'
  -- in the other one, and accepted: the header and the samples have been swapped
  converted :
      message_endian (m (datatype_at p)) ≡ opposite host
      → rc ≡ pos 0
      → (c : ℕ) → IsDatatype c (m (datatype_at p + 1))
      → SameKind c (m (datatype_at p))
      → message_endian c ≡ host
      → IsConverted c (size_at m p) (pos_part n) p (swap_header version p m) m'
      → Effect host p version m n rc m'

-- A foreign message, once the conversion of its samples is known.
foreign-Effect :
    (f : Floating) (host : Endian) (p version : ℕ) (m : Mem) (size : ℕ) (h : Numbers f) (m2 : Mem)
    → message_endian (m (datatype_at p)) ≡ opposite host
    → (c : ℕ) → IsDatatype c (m (datatype_at p + 1)) × SameKind c (m (datatype_at p))
    → message_endian c ≡ host
    → IsConverted c (size_at m p) (pos_part h.nsamp) p (swap_header version p m) m2
    → Effect host p version m h.nsamp
        (verdict f size h)
        (if_success (verdict f size h) m2 (swap_header version p m))
unfolding verdict
foreign-Effect f host p version m size h m2 e c known own conv =
    elim (Bool-cases (has_too_many size h.nsamp)) [
      | inl many ↦ rw many (rejected e (λ q. cc) refl)
      | inr few ↦ elim (Bool-cases (is_inconsistent f h)) [
        | inl bad ↦ rw (few, bad) (rejected e (λ q. cc) refl)
        | inr good ↦ rw (few, good) (converted e refl c known.0 known.1 own conv)
      ]
    ]

own-ne-opposite : (e : Endian) → e ≢ opposite e
own-ne-opposite little h = cc
own-ne-opposite big h = cc

module _ (f : Floating) (host : Endian) (static : ByteOrder) (ok : IsStatic host static)
    (p version : ℕ) (m : Mem) where
  pub makelocal-Effect :
      IsDatatype (m (datatype_at p)) (m (datatype_at p + 1))
      → (let r = makelocal_wavemsg_ver f host static p version m in
          (r.rc ≡ verdict f (size_at m p) (message_at f m p))
          × Effect host p version m (message_at f m p).nsamp r.rc r.mem)
  makelocal-Effect known =
      rw (makelocal-eq-convert f host static ok p version m known) (elim (side host _ _ known) [
        | native h ↦ rw (convert_native f host static ok p version m h) (refl, stays h.endian refl)
        | foreign_int h is_int size ↦ rw (convert_foreign f host static ok p version m h) (
          refl,
          foreign-Effect f host p version m (size_at m p) (message_at f m p) _ h.endian
              (orders_of host).loc_ibyte_order (retype_int host _ _ known is_int)
              (loc_int_endian host) (swap_data_ints _ _ _ _ _ _ is_int size),
        )
        | foreign_float h not_int is_float size ↦
            rw (convert_foreign f host static ok p version m h) (
              refl,
              foreign-Effect f host p version m (size_at m p) (message_at f m p) _ h.endian
                  (orders_of host).loc_fbyte_order (retype_float host _ _ known is_float)
                  (loc_float_endian host) (swap_data_floats _ _ _ _ _ _ not_int is_float size),
            )
      ])

  -- A message in the machine's own byte order is read and not written.
  pub makelocal_native :
      IsDatatype (m (datatype_at p)) (m (datatype_at p + 1))
      → message_endian (m (datatype_at p)) ≡ host
      → makelocal_wavemsg_ver f host static p version m ≡ record {
        rc = verdict f (size_at m p) (message_at f m p);
        host_byte_order = native_order host;
        mem = m;
      }
  makelocal_native known e = elim (side host _ _ known) [
    | native h ↦ rw (
      makelocal-eq-convert f host static ok p version m known,
      convert_native f host static ok p version m h,
    )
    | foreign_int h _ _ ↦ absurd (own-ne-opposite host (sym e ∙ h.endian))
    | foreign_float h _ _ _ ↦ absurd (own-ne-opposite host (sym e ∙ h.endian))
  ]

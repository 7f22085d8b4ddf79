-- ===== src/Swap/Code.antt =====
-- The code that makelocal_wavemsg_ver returns, against a description of the messages.
use tank_convertor.Base.{
  ℕ, ◌-◌, ◌≡◌, inl, inr, refl, none, ℤ, pos, negsuc, ltb_ℤ, Bool-cases, arith, false, ◌-ℤ◌, ◌≤ℤ◌,
  ◌/◌,
}
use tank_convertor.Floating.{Floating}
use tank_convertor.Header.{Numbers}
use tank_convertor.Swap.MakeLocal.{byte_order_of, has_too_many, is_inconsistent}
use tank_convertor.Swap.Sides.{IsDatatype, byte_order_of-IsDatatype}
use tank_convertor.Swap.Contract.{verdict}

-- The last sample lies where `_endtime` says, within five sample intervals.
abbrev pub IsConsistent : (f : Floating) → Numbers f → Type 0
IsConsistent f h =
    let end = f.add h.starttime (f.div (f.double_of_int (h.nsamp -ℤ pos 1)) h.samprate) in
    let fudge = f.div (f.double_of_int (pos 5)) h.samprate in
    (f.lt h.endtime (f.sub end fudge) ≡ false) × (f.lt (f.add end fudge) h.endtime ≡ false)

-- The three codes, by the data type and by the numbers of the message.
pub data Code (f : Floating) (t0 t1 : ℕ) (h : Numbers f) (rc : ℤ) : Type 0 where
  unknown : ¬ IsDatatype t0 t1 → rc ≡ negsuc 0 → Code f t0 t1 h rc
  too_many :
      IsDatatype t0 t1 → ¬ (h.nsamp ≤ℤ pos (4032 / (t1 - b'0'))) → rc ≡ negsuc 0 → Code f t0 t1 h rc
  inconsistent :
      IsDatatype t0 t1
      → h.nsamp ≤ℤ pos (4032 / (t1 - b'0'))
      → ¬ IsConsistent f h
      → rc ≡ negsuc 1
      → Code f t0 t1 h rc
  accepted :
      IsDatatype t0 t1
      → h.nsamp ≤ℤ pos (4032 / (t1 - b'0'))
      → IsConsistent f h
      → rc ≡ pos 0
      → Code f t0 t1 h rc

pub verdict-Code :
    (f : Floating) (t0 t1 : ℕ) (h : Numbers f)
    → IsDatatype t0 t1
    → Code f t0 t1 h (verdict f (t1 - b'0') h)
unfolding verdict has_too_many is_inconsistent
verdict-Code f t0 t1 h known =
    let end = f.add h.starttime (f.div (f.double_of_int (h.nsamp -ℤ pos 1)) h.samprate) in
    let fudge = f.div (f.double_of_int (pos 5)) h.samprate in
    elim (Bool-cases (ltb_ℤ (pos (4032 / (t1 - b'0'))) h.nsamp)) [
      | inl many ↦ rw many (too_many known (ground arith) refl)
      | inr few ↦ elim (Bool-cases (f.lt h.endtime (f.sub end fudge))) [
        | inl early ↦ rw (few, early) (inconsistent known (ground arith) (λ c. cc (c.0)) refl)
        | inr from ↦ elim (Bool-cases (f.lt (f.add end fudge) h.endtime)) [
          | inl late ↦ rw (few, from, late) (inconsistent known (ground arith) (λ c. cc (c.1)) refl)
          | inr to ↦ rw (few, from, to) (accepted known (ground arith) (from, to) refl)
        ]
      ]
    ]

pub byte_order_of-unknown : (t0 t1 : ℕ) → byte_order_of t0 t1 ≡ none → ¬ IsDatatype t0 t1
byte_order_of-unknown t0 t1 e known = cc (byte_order_of-IsDatatype t0 t1 known)

-- ===== src/Mseed/Original.antt =====
-- The records of msproc_tlist_add, against the tracebufs of the tank in their own byte order.
use tank_convertor.Base.{
  ℕ, zero, suc, ◌+◌, ◌-◌, ◌*◌, ◌%◌, ◌^◌, ◌≡◌, ◌<◌, inl, inr, refl, sym, ap, ◌∙◌, Bool, true, false,
  ◌==◌, ◌||◌, if◌then◌else◌, Option, none, some, List, [], ◌∷◌, All, pos_part, signed16, arith,
}
use mathlib.Core.Path.{ap₂}
use tank_convertor.Memory.{Mem, Endian, load, value_of}
use tank_convertor.Floating.{Floating}
use tank_convertor.Header.{datatype_at, trace2_header_size}
use tank_convertor.Libc.Strings.{atoi}
use tank_convertor.Swap.Sides.{IsDatatype, ints, floats, SameKind}
use tank_convertor.Swap.Contract.{size_at, endian_at, message_at}
use tank_convertor.Trace.{TBuf}
use tank_convertor.Scan.Tank.{IsMessage}
use tank_convertor.Scan.Tank.Message.{digit}
use tank_convertor.Scan.Tank.Local.{IsLocal}
use tank_convertor.Mseed.{
  in_buffer, at_address, Ms3Record, Libmseed, mstl3_addmsr, widen, sampletype_at,
}
use tank_convertor.Mseed.Records.{collected, ends_unknown, record_of, nanoseconds}

-- Samples of two bytes that stand for the same numbers.
widen-same :
    (e e' : Endian) (m m' : Mem) (k q : ℕ)
    → ((i : ℕ) → i < k → value_of e' (load m' (q + i * 2) 2) ≡ value_of e (load m (q + i * 2) 2))
    → widen e' m' k q ≡ widen e m k q
unfolding widen
widen-same e e' m m' zero q h = refl
widen-same e e' m m' (suc k) q h =
    let here : q + 0 * 2 ≡ q = omega arith in
    let first : value_of e' (load m' q 2) ≡ value_of e (load m q 2) =
      rw here at (h 0 (omega arith)) in
    ap₂ ◌∷◌ (ap (λ (w : ℕ). signed16 w) first) (
      widen-same e e' m m' k (q + 2) (λ i lt.
        let next : q + suc i * 2 ≡ q + 2 + i * 2 = omega arith in
        rw next at (h (suc i) (omega arith))))

-- What the type of the samples is decided by.
abbrev decided : (letter width : ℕ) → Option (ℕ × Bool)
decided c w =
    if c == b'i' || c == b's'
    then if w == 2 then some (b'i', true) else if w == 4 then some (b'i', false) else none
    else if c == b'f' || c == b't'
    then if w == 4 then some (b'f', false) else if w == 8 then some (b'd', false) else none
    else none

decided_kind : (c t w : ℕ) → SameKind c t → decided c w ≡ decided t w
decided_kind c t w (inl (inl a, inl b)) = rw (a, b) refl
decided_kind c t w (inl (inl a, inr b)) = rw (a, b) refl
decided_kind c t w (inl (inr a, inl b)) = rw (a, b) refl
decided_kind c t w (inl (inr a, inr b)) = rw (a, b) refl
decided_kind c t w (inr (inl a, inl b)) = rw (a, b) refl
decided_kind c t w (inr (inl a, inr b)) = rw (a, b) refl
decided_kind c t w (inr (inr a, inl b)) = rw (a, b) refl
decided_kind c t w (inr (inr a, inr b)) = rw (a, b) refl

decided_known : (t0 t1 : ℕ) → IsDatatype t0 t1 → (t : ℕ × Bool) × (decided t0 (t1 - b'0') ≡ some t)
decided_known t0 t1 (ints (inl h) (inl k)) = ((b'i', true), rw (h, k) refl)
decided_known t0 t1 (ints (inl h) (inr k)) = ((b'i', false), rw (h, k) refl)
decided_known t0 t1 (ints (inr h) (inl k)) = ((b'i', true), rw (h, k) refl)
decided_known t0 t1 (ints (inr h) (inr k)) = ((b'i', false), rw (h, k) refl)
decided_known t0 t1 (floats (inl h) (inl k)) = ((b'f', false), rw (h, k) refl)
decided_known t0 t1 (floats (inl h) (inr k)) = ((b'd', false), rw (h, k) refl)
decided_known t0 t1 (floats (inr h) (inl k)) = ((b'f', false), rw (h, k) refl)
decided_known t0 t1 (floats (inr h) (inr k)) = ((b'd', false), rw (h, k) refl)

widened_two : (c w ty : ℕ) → decided c w ≡ some (ty, true) → w ≡ 2
widened_two c w ty h = ground arith

module _ (f : Floating) (lib : Libmseed f.Double) (host : Endian) (m m' : Mem) (tankstart : ℕ) where
  abbrev place : TBuf f.Double → ℕ
  place b = (tankstart + b.offset) % 2 ^ 64

  -- The record of a tracebuf of the tank `m`, read in its own byte order.
  abbrev pub tank_record : (sid : List ℕ) → TBuf f.Double → ℕ × Bool → Ms3Record f.Double
  tank_record sid b (sampletype, widened) =
      let p = place b in
      let h = message_at f m p in
      record (lib.msr3_init) {
        sid = sid;
        pubversion = 1;
        starttime = nanoseconds f lib host m tankstart h.starttime;
        samprate = h.samprate;
        numsamples = h.nsamp;
        samplecnt = h.nsamp;
        datasamples =
            if widened
            then in_buffer (widen (endian_at m p) m (pos_part h.nsamp) (p + trace2_header_size))
            else at_address (p + trace2_header_size);
        sampletype = sampletype;
      }

  -- The trace list with these records.
  abbrev pub tank_collected :
      (sid : List ℕ) → List (TBuf f.Double) → lib.Ms3TraceList → lib.Ms3TraceList
  tank_collected sid [] l = l
  tank_collected sid (b ∷ bs) l = elim (sampletype_at f lib m (place b)) [
    | none ↦ tank_collected sid bs l
    | some t ↦ tank_collected sid bs (mstl3_addmsr lib l (tank_record sid b t) false true 1).0
  ]

  -- The record of a tracebuf leads to a message of the tank, which `m'` holds in the machine's byte
  -- order.
  pub record IsConverted (b : TBuf f.Double) : Type 0 where
    pub count : ℕ
    pub message : IsMessage f m (place b) count
    pub local : IsLocal f host m (place b) count m'

  module _ (b : TBuf f.Double) (c : IsConverted b) where
    type_before :
        sampletype_at f lib m (place b) ≡ decided (m (datatype_at (place b))) (size_at m (place b))
    unfolding sampletype_at
    type_before =
        let next : place b + 57 + 1 + 1 ≡ place b + 59 = omega arith in
        rw (sampletype_at, digit m (place b + 57 + 1) _ c.message.known (rw next c.message.ended))
          refl

    type_after : sampletype_at f lib m' (place b) ≡ sampletype_at f lib m (place b)
    unfolding sampletype_at
    type_after =
        let next : place b + 57 + 1 + 1 ≡ place b + 59 = omega arith in
        let width : atoi m' (place b + 57 + 1) ≡ size_at m (place b) =
          digit m' (place b + 57 + 1) _ c.local.known (rw (next, c.local.tail) c.message.ended)
          ∙ ap (λ (d : ℕ). d - b'0') c.local.digit in
        rw (sampletype_at, width) (decided_kind _ _ (size_at m (place b)) c.local.kind)
        ∙ sym type_before

    pub type_known : (t : ℕ × Bool) × (sampletype_at f lib m (place b) ≡ some t)
    type_known = let (t, e) = decided_known _ _ c.message.known in (t, type_before ∙ e)

    same_samples :
        size_at m (place b) ≡ 2
        → widen host m' c.count (place b + trace2_header_size)
          ≡ widen (endian_at m (place b)) m c.count (place b + trace2_header_size)
    same_samples two =
        widen-same (endian_at m (place b)) host m m' c.count (place b + 64)
          (λ i lt. rw two at (c.local.sample i lt))

    record_same :
        (sid : List ℕ) (t : ℕ × Bool)
        → sampletype_at f lib m (place b) ≡ some t
        → record_of f lib host m' tankstart sid b t ≡ tank_record sid b t
    record_same sid (ty, false) e = rw c.local.numbers refl
    record_same sid (ty, true) e =
        let two : size_at m (place b) ≡ 2 =
          widened_two (m (datatype_at (place b))) (size_at m (place b)) ty (sym type_before ∙ e) in
        rw (c.local.numbers, c.message.count, same_samples two) refl

  -- Of tracebufs that `m'` holds so, libmseed is given the records of the tank.
  pub collected_same :
      (sid : List ℕ) (bs : List (TBuf f.Double)) (l : lib.Ms3TraceList)
      → All IsConverted bs
      → collected f lib host m' tankstart sid bs l ≡ tank_collected sid bs l
  collected_same sid [] l a = refl
  collected_same sid (b ∷ bs) l a =
      let (t, e) = type_known b a.0 in
      rw (collected, tank_collected, type_after b a.0, e, record_same b a.0 sid t e)
        (collected_same sid bs _ a.1)

  -- None of them is of an unknown type.
  pub none_unknown :
      (bs : List (TBuf f.Double))
      → All IsConverted bs
      → ends_unknown f lib host m' tankstart false bs ≡ false
  none_unknown [] a = refl
  none_unknown (b ∷ bs) a =
      let (t, e) = type_known b a.0 in rw (ends_unknown, type_after b a.0, e) (none_unknown bs a.1)

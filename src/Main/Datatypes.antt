-- ===== src/Main/Datatypes.antt =====
-- The table of data types in include/trace_buf.h, against the three places that take a type apart.
use tank_convertor.Base.{ℕ, ◌+◌, ◌-◌, ◌≡◌, ◌≤◌, refl, Bool, true, false, Option, none, some, arith}
use tank_convertor.Memory.{Mem, Endian, read_i16, read_i32, read_u32, read_u64}
use tank_convertor.Floating.{Floating}
use tank_convertor.Header.{datatype_at}
use tank_convertor.Header.Datatypes.{
  CssDatatype, sun_single, sun_double, sun_integer, sun_short, vax_single, vax_double, vax_integer,
  vax_short, noress_gain_ranged, code_of, layout_of,
}
use tank_convertor.Libc.Strings.{is_digit, atoi_digits, atoi}
use tank_convertor.Swap.MakeLocal.{byte_order_of}
use tank_convertor.Swap.Contract.{size_at, endian_at}
use tank_convertor.Sac.Samples.{Reader, reader_at}
use tank_convertor.Mseed.{Libmseed, sampletype_at}

atoi-digit :
    (m : Mem) (q d : ℕ) → m q ≡ d → b'0' ≤ d → d ≤ b'9' → m (q + 1) ≡ 0 → atoi m q ≡ d - b'0'
unfolding atoi atoi_digits is_digit
atoi-digit m q d e low high end =
    let digit : is_digit (m q) ≡ true = ground (arith, e) in
    let stop : is_digit (m (q + 1)) ≡ false = rw end refl in
    rw (atoi, atoi_digits, digit, stop) (omega (arith, e))

module _ (f : Floating) (lib : Libmseed f.Double) (host : Endian) (m : Mem) (p : ℕ) where
  -- The types that the table says to be numbers are known to makelocal_wavemsg_ver, with the byte order
  -- and the width of the table, and to both outputs; the others are known to none.
  abbrev pub Understood : Option (Endian × ℕ) → Type 0
  Understood none =
      (byte_order_of (m (datatype_at p)) (m (datatype_at p + 1)) ≡ none)
      × (reader_at f host m p ≡ none)
      × (sampletype_at f lib m p ≡ none)
  Understood (some (e, n)) =
      (byte_order_of (m (datatype_at p)) (m (datatype_at p + 1)) ≡ some (m (datatype_at p)))
      × (endian_at m p ≡ e)
      × (size_at m p ≡ n)
      × ((r : Reader f.Single) × (reader_at f host m p ≡ some r) × (r.width ≡ n))
      × ((t : ℕ × Bool) × (sampletype_at f lib m p ≡ some t))

  -- How each kind of samples is read.
  abbrev integers : Reader f.Single
  integers = record { read = λ q. f.single_of_int (read_i32 host m q); width = 4 }

  abbrev shorts : Reader f.Single
  shorts = record { read = λ q. f.single_of_int (read_i16 host m q); width = 2 }

  abbrev singles : Reader f.Single
  singles = record { read = λ q. f.single_of_bits (read_u32 host m q); width = 4 }

  abbrev doubles : Reader f.Single
  doubles = record {
    read = λ q. f.single_of_double (f.double_of_bits (read_u64 host m q));
    width = 8;
  }

  end : m (datatype_at p + 2) ≡ 0 → m (datatype_at p + 1 + 1) ≡ 0
  end c = let e : datatype_at p + 1 + 1 ≡ datatype_at p + 2 = omega arith in rw e c

  pub datatypes-Understood :
      (d : CssDatatype)
      → m (datatype_at p) ≡ (code_of d).0
      → m (datatype_at p + 1) ≡ (code_of d).1
      → m (datatype_at p + 2) ≡ 0
      → Understood (layout_of d)
  unfolding byte_order_of reader_at sampletype_at
  datatypes-Understood sun_single a b c =
      let w = atoi-digit m (datatype_at p + 1) b'4' b (omega arith) (omega arith) (end c) in
      (
        rw (a, b) refl,
        rw a refl,
        rw b refl,
        (singles, rw (a, w) refl, refl),
        ((b'f', false), rw (a, w) refl),
      )
  datatypes-Understood sun_double a b c =
      let w = atoi-digit m (datatype_at p + 1) b'8' b (omega arith) (omega arith) (end c) in
      (
        rw (a, b) refl,
        rw a refl,
        rw b refl,
        (doubles, rw (a, w) refl, refl),
        ((b'd', false), rw (a, w) refl),
      )
  datatypes-Understood sun_integer a b c =
      let w = atoi-digit m (datatype_at p + 1) b'4' b (omega arith) (omega arith) (end c) in
      (
        rw (a, b) refl,
        rw a refl,
        rw b refl,
        (integers, rw (a, w) refl, refl),
        ((b'i', false), rw (a, w) refl),
      )
  datatypes-Understood sun_short a b c =
      let w = atoi-digit m (datatype_at p + 1) b'2' b (omega arith) (omega arith) (end c) in
      (
        rw (a, b) refl,
        rw a refl,
        rw b refl,
        (shorts, rw (a, w) refl, refl),
        ((b'i', true), rw (a, w) refl),
      )
  datatypes-Understood vax_single a b c =
      let w = atoi-digit m (datatype_at p + 1) b'4' b (omega arith) (omega arith) (end c) in
      (
        rw (a, b) refl,
        rw a refl,
        rw b refl,
        (singles, rw (a, w) refl, refl),
        ((b'f', false), rw (a, w) refl),
      )
  datatypes-Understood vax_double a b c =
      let w = atoi-digit m (datatype_at p + 1) b'8' b (omega arith) (omega arith) (end c) in
      (
        rw (a, b) refl,
        rw a refl,
        rw b refl,
        (doubles, rw (a, w) refl, refl),
        ((b'd', false), rw (a, w) refl),
      )
  datatypes-Understood vax_integer a b c =
      let w = atoi-digit m (datatype_at p + 1) b'4' b (omega arith) (omega arith) (end c) in
      (
        rw (a, b) refl,
        rw a refl,
        rw b refl,
        (integers, rw (a, w) refl, refl),
        ((b'i', false), rw (a, w) refl),
      )
  datatypes-Understood vax_short a b c =
      let w = atoi-digit m (datatype_at p + 1) b'2' b (omega arith) (omega arith) (end c) in
      (
        rw (a, b) refl,
        rw a refl,
        rw b refl,
        (shorts, rw (a, w) refl, refl),
        ((b'i', true), rw (a, w) refl),
      )
  datatypes-Understood noress_gain_ranged a b c = (rw a refl, rw a refl, rw a refl)

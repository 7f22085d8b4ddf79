-- ===== src/Swap/Numbers.antt =====
-- The header swap converts every number of the header, and touches nothing else.
use mathlib.Core.List.{reverse-reverse}
use tank_convertor.Base.{ℕ, ◌+◌, ◌≤◌, ◌<◌, ◌≡◌, ◌⊎◌, ◌∙◌, ap, reverse, arith, signed32, List}
use tank_convertor.Memory.{Mem, Endian, little, big, opposite, load, value_of, le_value}
use tank_convertor.Memory.Laws.{SameOn, SameOutside, load-SameOn, load-disjoint}
use tank_convertor.Floating.{Floating}
use tank_convertor.Header.{
  pinno_at, nsamp_at, starttime_at, endtime_at, samprate_at, x_at, numbers_at,
}
use tank_convertor.Swap.{swap_uint32, swap_uint64}
use tank_convertor.Swap.Laws.{
  swap_uint32-SameOutside, swap_uint64-SameOutside, load-swap_uint32, load-swap_uint64,
}
use tank_convertor.Swap.MakeLocal.{swap_factor, swap_numbers, swap_header}

-- A field that a swap does not reach.
past32 : (q k a : ℕ) (m : Mem) → (q + k ≤ a) ⊎ (a + 4 ≤ q) → load (swap_uint32 a m) q k ≡ load m q k
past32 q k a m = load-disjoint m (swap_uint32 a m) a 4 q k (swap_uint32-SameOutside a m)

past64 : (q k a : ℕ) (m : Mem) → (q + k ≤ a) ⊎ (a + 8 ≤ q) → load (swap_uint64 a m) q k ≡ load m q k
past64 q k a m = load-disjoint m (swap_uint64 a m) a 8 q k (swap_uint64-SameOutside a m)

-- Every number of the header at `p` stands in `m'` with its bytes in the opposite order.
pub record IsMirrored (p : ℕ) (m m' : Mem) : Type 0 where
  pub pinno : load m' (pinno_at p) 4 ≡ reverse (load m (pinno_at p) 4)
  pub nsamp : load m' (nsamp_at p) 4 ≡ reverse (load m (nsamp_at p) 4)
  pub starttime : load m' (starttime_at p) 8 ≡ reverse (load m (starttime_at p) 8)
  pub endtime : load m' (endtime_at p) 8 ≡ reverse (load m (endtime_at p) 8)
  pub samprate : load m' (samprate_at p) 8 ≡ reverse (load m (samprate_at p) 8)

module _ (p : ℕ) (m : Mem) where
  abbrev m1 : Mem
  m1 = swap_uint32 (pinno_at p) m

  abbrev m2 : Mem
  m2 = swap_uint32 (nsamp_at p) m1

  abbrev m3 : Mem
  m3 = swap_uint64 (starttime_at p) m2

  abbrev m4 : Mem
  m4 = swap_uint64 (endtime_at p) m3

  abbrev m5 : Mem
  m5 = swap_uint64 (samprate_at p) m4

  swap_numbers-IsMirrored : IsMirrored p m (swap_numbers p m)
  unfolding swap_numbers
  swap_numbers-IsMirrored = record {
    pinno =
        past64 (pinno_at p) 4 (samprate_at p) m4 (omega arith)
        ∙ past64 (pinno_at p) 4 (endtime_at p) m3 (omega arith)
        ∙ past64 (pinno_at p) 4 (starttime_at p) m2 (omega arith)
        ∙ past32 (pinno_at p) 4 (nsamp_at p) m1 (omega arith)
        ∙ load-swap_uint32 (pinno_at p) m;
    nsamp =
        past64 (nsamp_at p) 4 (samprate_at p) m4 (omega arith)
        ∙ past64 (nsamp_at p) 4 (endtime_at p) m3 (omega arith)
        ∙ past64 (nsamp_at p) 4 (starttime_at p) m2 (omega arith)
        ∙ load-swap_uint32 (nsamp_at p) m1
        ∙ ap reverse (past32 (nsamp_at p) 4 (pinno_at p) m (omega arith));
    starttime =
        past64 (starttime_at p) 8 (samprate_at p) m4 (omega arith)
        ∙ past64 (starttime_at p) 8 (endtime_at p) m3 (omega arith)
        ∙ load-swap_uint64 (starttime_at p) m2
        ∙ ap reverse (
            past32 (starttime_at p) 8 (nsamp_at p) m1 (omega arith)
            ∙ past32 (starttime_at p) 8 (pinno_at p) m (omega arith));
    endtime =
        past64 (endtime_at p) 8 (samprate_at p) m4 (omega arith)
        ∙ load-swap_uint64 (endtime_at p) m3
        ∙ ap reverse (
            past64 (endtime_at p) 8 (starttime_at p) m2 (omega arith)
            ∙ past32 (endtime_at p) 8 (nsamp_at p) m1 (omega arith)
            ∙ past32 (endtime_at p) 8 (pinno_at p) m (omega arith));
    samprate =
        load-swap_uint64 (samprate_at p) m4
        ∙ ap reverse (
            past64 (samprate_at p) 8 (endtime_at p) m3 (omega arith)
            ∙ past64 (samprate_at p) 8 (starttime_at p) m2 (omega arith)
            ∙ past32 (samprate_at p) 8 (nsamp_at p) m1 (omega arith)
            ∙ past32 (samprate_at p) 8 (pinno_at p) m (omega arith));
  }

  swap_numbers-SameOutside : SameOutside p 32 m (swap_numbers p m)
  unfolding swap_numbers
  swap_numbers-SameOutside x h =
      swap_uint64-SameOutside (samprate_at p) m4 x (omega arith)
      ∙ swap_uint64-SameOutside (endtime_at p) m3 x (omega arith)
      ∙ swap_uint64-SameOutside (starttime_at p) m2 x (omega arith)
      ∙ swap_uint32-SameOutside (nsamp_at p) m1 x (omega arith)
      ∙ swap_uint32-SameOutside (pinno_at p) m x (omega arith)

swap_factor-SameOutside :
    (version p : ℕ) (m : Mem) → SameOutside (x_at p) 4 m (swap_factor version p m)
unfolding swap_factor
swap_factor-SameOutside version p m x h = ground (arith, swap_uint32-SameOutside (x_at p) m x h)

-- Outside the numbers and the conversion factor the header swap changes nothing.
pub swap_header-SameOutside :
    (version p x : ℕ) (m : Mem)
    → ((x < p) ⊎ (p + 32 ≤ x))
    → ((x < p + 60) ⊎ (p + 64 ≤ x))
    → swap_header version p m x ≡ m x
unfolding swap_header
swap_header-SameOutside version p x m h k =
    swap_factor-SameOutside version p (swap_numbers p m) x (omega arith)
    ∙ swap_numbers-SameOutside p m x h

swap_header-IsMirrored : (version p : ℕ) (m : Mem) → IsMirrored p m (swap_header version p m)
unfolding swap_header
swap_header-IsMirrored version p m =
    let mid = swap_numbers p m in
    let numbers = swap_numbers-IsMirrored p m in
    let keep = λ (q k : ℕ) (apart : (q + k ≤ p + 60) ⊎ (p + 60 + 4 ≤ q)).
      load-disjoint mid (swap_factor version p mid) (x_at p) 4 q k
        (swap_factor-SameOutside version p mid) apart in
    record {
      pinno = keep (pinno_at p) 4 (omega arith) ∙ numbers.pinno;
      nsamp = keep (nsamp_at p) 4 (omega arith) ∙ numbers.nsamp;
      starttime = keep (starttime_at p) 8 (omega arith) ∙ numbers.starttime;
      endtime = keep (endtime_at p) 8 (omega arith) ∙ numbers.endtime;
      samprate = keep (samprate_at p) 8 (omega arith) ∙ numbers.samprate;
    }

pub value_of-reverse :
    (e : Endian) (l l' : List ℕ) → l' ≡ reverse l → value_of e l' ≡ value_of (opposite e) l
value_of-reverse little l l' h = ap (value_of little) h
value_of-reverse big l l' h =
    ap (λ (k : List ℕ). value_of big k) h ∙ ap le_value (reverse-reverse l)

IsMirrored-numbers_at :
    (f : Floating) (e : Endian) (p : ℕ) (m m' : Mem)
    → IsMirrored p m m'
    → numbers_at f e m' p ≡ numbers_at f (opposite e) m p
unfolding numbers_at
IsMirrored-numbers_at f e p m m' h = λ i. record {
  pinno = signed32 (value_of-reverse e (load m (pinno_at p) 4) _ h.pinno i);
  nsamp = signed32 (value_of-reverse e (load m (nsamp_at p) 4) _ h.nsamp i);
  starttime = f.double_of_bits (value_of-reverse e (load m (starttime_at p) 8) _ h.starttime i);
  endtime = f.double_of_bits (value_of-reverse e (load m (endtime_at p) 8) _ h.endtime i);
  samprate = f.double_of_bits (value_of-reverse e (load m (samprate_at p) 8) _ h.samprate i);
}

-- Read in either byte order, the numbers are those that the other byte order read before.
pub numbers_at-swap_header :
    (f : Floating) (e : Endian) (version p : ℕ) (m : Mem)
    → numbers_at f e (swap_header version p m) p ≡ numbers_at f (opposite e) m p
numbers_at-swap_header f e version p m =
    IsMirrored-numbers_at f e p m (swap_header version p m) (swap_header-IsMirrored version p m)

-- The numbers depend on the first 32 bytes of the header only.
pub numbers_at-SameOn :
    (f : Floating) (e : Endian) (m m' : Mem) (p : ℕ)
    → SameOn p 32 m m'
    → numbers_at f e m' p ≡ numbers_at f e m p
unfolding numbers_at
numbers_at-SameOn f e m m' p h =
    let keep = λ (q k : ℕ) (inside : (p ≤ q) × (q + k ≤ p + 32)).
      ap (value_of e) (load-SameOn m m' q k (λ x lo hi. h x (omega arith) (omega arith))) in
    λ i. record {
      pinno = signed32 (keep (pinno_at p) 4 (omega arith) i);
      nsamp = signed32 (keep (nsamp_at p) 4 (omega arith) i);
      starttime = f.double_of_bits (keep (starttime_at p) 8 (omega arith) i);
      endtime = f.double_of_bits (keep (endtime_at p) 8 (omega arith) i);
      samprate = f.double_of_bits (keep (samprate_at p) 8 (omega arith) i);
    }

-- ===== src/Swap/Samples.antt =====
-- The loops over the samples, as one loop over an array of `n` elements of `w` bytes.
use tank_convertor.Base.{ℕ, zero, suc, ◌+◌, ◌*◌, ◌<◌, ◌≡◌, ◌∙◌, refl, ap, inl, inr, reverse, arith}
use tank_convertor.Memory.{Mem, load}
use tank_convertor.Memory.Laws.{SameOutside, load-disjoint}
use tank_convertor.Swap.{swap_uint16, swap_uint32, swap_uint64}
use tank_convertor.Swap.Laws.{
  swap_uint16-SameOutside, swap_uint32-SameOutside, swap_uint64-SameOutside, load-swap_uint16,
  load-swap_uint32, load-swap_uint64,
}
use tank_convertor.Swap.MakeLocal.{swap_ints, swap_floats}

-- What the swap of one element of `w` bytes does.
pub record IsSwap (w : ℕ) (swap : ℕ → Mem → Mem) : Type 0 where
  pub outside : (p : ℕ) (m : Mem) → SameOutside p w m (swap p m)
  pub reversed : (p : ℕ) (m : Mem) → load (swap p m) p w ≡ reverse (load m p w)

pub swap_uint16-IsSwap : IsSwap 2 swap_uint16
swap_uint16-IsSwap = record { outside = swap_uint16-SameOutside; reversed = load-swap_uint16 }

pub swap_uint32-IsSwap : IsSwap 4 swap_uint32
swap_uint32-IsSwap = record { outside = swap_uint32-SameOutside; reversed = load-swap_uint32 }

pub swap_uint64-IsSwap : IsSwap 8 swap_uint64
swap_uint64-IsSwap = record { outside = swap_uint64-SameOutside; reversed = load-swap_uint64 }

module _ (w : ℕ) (swap : ℕ → Mem → Mem) where
  swap_array : ℕ → ℕ → Mem → Mem
  swap_array zero p m = m
  swap_array (suc n) p m = swap_array n (p + w) (swap p m)

  module _ (laws : IsSwap w swap) where
    swap_array-SameOutside : (n p : ℕ) (m : Mem) → SameOutside p (n * w) m (swap_array n p m)
    unfolding swap_array
    swap_array-SameOutside zero p m x h = refl
    swap_array-SameOutside (suc n) p m x h =
        swap_array-SameOutside n (p + w) (swap p m) x (omega arith)
        ∙ laws.outside p m x (omega arith)

    -- Every element holds its bytes in the opposite order.
    load-swap_array :
        (n p : ℕ) (m : Mem) (i : ℕ)
        → i < n
        → load (swap_array n p m) (p + i * w) w ≡ reverse (load m (p + i * w) w)
    unfolding swap_array
    load-swap_array zero p m i h = absurd (omega arith)
    load-swap_array (suc n) p m zero h =
        let start : p + 0 * w ≡ p = omega arith in
        rw start (
          load-disjoint (swap p m) (swap_array n (p + w) (swap p m)) (p + w) (n * w) p w
            (swap_array-SameOutside n (p + w) (swap p m)) (inl (omega arith))
          ∙ laws.reversed p m)
    load-swap_array (suc n) p m (suc i) h =
        let next : p + suc i * w ≡ p + w + i * w = omega arith in
        rw next (
          load-swap_array n (p + w) (swap p m) i (omega arith)
          ∙ ap reverse (
              load-disjoint m (swap p m) p w (p + w + i * w) w (laws.outside p m)
                (inr (omega arith))))

swap_ints_shorts : (n ip sp : ℕ) (m : Mem) → swap_ints n 2 ip sp m ≡ swap_array 2 swap_uint16 n sp m
unfolding swap_ints swap_array
swap_ints_shorts zero ip sp m = refl
swap_ints_shorts (suc n) ip sp m = swap_ints_shorts n (ip + 4) (sp + 2) (swap_uint16 sp m)

swap_ints_words : (n ip sp : ℕ) (m : Mem) → swap_ints n 4 ip sp m ≡ swap_array 4 swap_uint32 n ip m
unfolding swap_ints swap_array
swap_ints_words zero ip sp m = refl
swap_ints_words (suc n) ip sp m = swap_ints_words n (ip + 4) (sp + 2) (swap_uint32 ip m)

swap_floats_singles :
    (n fp dp : ℕ) (m : Mem) → swap_floats n 4 fp dp m ≡ swap_array 4 swap_uint32 n fp m
unfolding swap_floats swap_array
swap_floats_singles zero fp dp m = refl
swap_floats_singles (suc n) fp dp m = swap_floats_singles n (fp + 4) (dp + 8) (swap_uint32 fp m)

swap_floats_doubles :
    (n fp dp : ℕ) (m : Mem) → swap_floats n 8 fp dp m ≡ swap_array 8 swap_uint64 n dp m
unfolding swap_floats swap_array
swap_floats_doubles zero fp dp m = refl
swap_floats_doubles (suc n) fp dp m = swap_floats_doubles n (fp + 4) (dp + 8) (swap_uint64 dp m)

-- `m'` is `m` with each of the `n` elements of `w` bytes from `p` on in the opposite byte order.
pub record IsReversed (w n p : ℕ) (m m' : Mem) : Type 0 where
  pub same : SameOutside p (n * w) m m'
  pub element : (i : ℕ) → i < n → load m' (p + i * w) w ≡ reverse (load m (p + i * w) w)

swap_array-IsReversed :
    (w : ℕ) (swap : ℕ → Mem → Mem)
    → IsSwap w swap
    → (n p : ℕ) (m : Mem) → IsReversed w n p m (swap_array w swap n p m)
swap_array-IsReversed w swap laws n p m = record {
  same = swap_array-SameOutside w swap laws n p m;
  element = load-swap_array w swap laws n p m;
}

-- The sample sizes that the loop over the integers knows.
pub data IntSize : ℕ → Type 0 where
  short : IntSize 2
  word : IntSize 4

pub data FloatSize : ℕ → Type 0 where
  single : FloatSize 4
  double : FloatSize 8

pub swap_ints-IsReversed :
    {w : ℕ} → IntSize w → (n p : ℕ) (m : Mem) → IsReversed w n p m (swap_ints n w p p m)
swap_ints-IsReversed short n p m =
    rw (swap_ints_shorts n p p m) (swap_array-IsReversed 2 swap_uint16 swap_uint16-IsSwap n p m)
swap_ints-IsReversed word n p m =
    rw (swap_ints_words n p p m) (swap_array-IsReversed 4 swap_uint32 swap_uint32-IsSwap n p m)

pub swap_floats-IsReversed :
    {w : ℕ} → FloatSize w → (n p : ℕ) (m : Mem) → IsReversed w n p m (swap_floats n w p p m)
swap_floats-IsReversed single n p m =
    rw (swap_floats_singles n p p m) (swap_array-IsReversed 4 swap_uint32 swap_uint32-IsSwap n p m)
swap_floats-IsReversed double n p m =
    rw (swap_floats_doubles n p p m) (swap_array-IsReversed 8 swap_uint64 swap_uint64-IsSwap n p m)

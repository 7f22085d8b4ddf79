-- ===== src/Swap/Data.antt =====
-- The conversion of the samples, and of the data type that names their byte order.
use tank_convertor.Base.{
  ℕ, ◌+◌, ◌*◌, ◌≤◌, ◌<◌, ◌≡◌, ◌⊎◌, ◌∙◌, inr, refl, true, false, ◌==◌, [], ◌∷◌, ℤ, pos_part, reverse,
  arith,
}
use tank_convertor.Memory.{Mem, load, store}
use tank_convertor.Memory.Laws.{load-disjoint}
use tank_convertor.Swap.MakeLocal.{
  Orders, swap_ints, swap_floats, swap_int_data, swap_float_data, swap_data,
}
use tank_convertor.Swap.Samples.{
  IsReversed, IntSize, short, word, FloatSize, single, double, swap_ints-IsReversed,
  swap_floats-IsReversed,
}

-- `m'` is `m` with the `n` samples of `w` bytes behind the header reversed, and its data type
-- rewritten to the letter `c` and the size `w`.
pub record IsConverted (c w n p : ℕ) (m m' : Mem) : Type 0 where
  pub same :
      (x : ℕ) → (x < p + 57) ⊎ (p + 59 ≤ x) → (x < p + 64) ⊎ (p + 64 + n * w ≤ x) → m' x ≡ m x
  pub letter : m' (p + 57) ≡ c
  pub digit : m' (p + 57 + 1) ≡ w + b'0'
  pub sample : (i : ℕ) → i < n → load m' (p + 64 + i * w) w ≡ reverse (load m (p + 64 + i * w) w)

abbrev retyped : ℕ → ℕ → ℕ → Mem → Mem
retyped c w p m = store (store m (p + 57) (c ∷ [])) (p + 57 + 1) ((w + b'0') ∷ [])

retyped-same : (c w p : ℕ) (m : Mem) (x : ℕ) → (x < p + 57) ⊎ (p + 59 ≤ x) → retyped c w p m x ≡ m x
retyped-same c w p m x h = ground arith

retyped-IsConverted :
    (c w n p : ℕ) (m m1 : Mem)
    → IsReversed w n (p + 64) m m1
    → IsConverted c w n p m (retyped c w p m1)
retyped-IsConverted c w n p m m1 h = record {
  same = λ x out far. retyped-same c w p m1 x out ∙ h.same x far;
  letter = ground arith;
  digit = ground arith;
  sample = λ i lt.
      load-disjoint m1 (retyped c w p m1) (p + 57) 2 (p + 64 + i * w) w
        (λ x out. retyped-same c w p m1 x (omega arith)) (inr (omega arith))
      ∙ h.element i lt;
}

swap_int_data-eq-retyped :
    (o : Orders) {w : ℕ}
    → IntSize w
    → (n p : ℕ) (m : Mem)
    → swap_int_data o w n p m ≡ retyped o.loc_ibyte_order w p (swap_ints n w (p + 64) (p + 64) m)
unfolding swap_int_data
swap_int_data-eq-retyped o short n p m = refl
swap_int_data-eq-retyped o word n p m = refl

swap_float_data-eq-retyped :
    (o : Orders) {w : ℕ}
    → FloatSize w
    → (n p : ℕ) (m : Mem)
    → swap_float_data o w n p m
      ≡ retyped o.loc_fbyte_order w p (swap_floats n w (p + 64) (p + 64) m)
unfolding swap_float_data
swap_float_data-eq-retyped o single n p m = refl
swap_float_data-eq-retyped o double n p m = refl

module _ (o : Orders) (b w : ℕ) (n : ℤ) (p : ℕ) (m : Mem) where
  pub swap_data_ints :
      (b == o.ops_ibyte_order) ≡ true
      → IntSize w
      → IsConverted o.loc_ibyte_order w (pos_part n) p m (swap_data o b w n p m)
  unfolding swap_data
  swap_data_ints is_int size =
      rw (is_int, swap_int_data-eq-retyped o size (pos_part n) p m)
        (retyped-IsConverted o.loc_ibyte_order w (pos_part n) p m _
          (swap_ints-IsReversed size (pos_part n) (p + 64) m))

  pub swap_data_floats :
      (b == o.ops_ibyte_order) ≡ false
      → (b == o.ops_fbyte_order) ≡ true
      → FloatSize w
      → IsConverted o.loc_fbyte_order w (pos_part n) p m (swap_data o b w n p m)
  unfolding swap_data
  swap_data_floats not_int is_float size =
      rw (not_int, is_float, swap_float_data-eq-retyped o size (pos_part n) p m)
        (retyped-IsConverted o.loc_fbyte_order w (pos_part n) p m _
          (swap_floats-IsReversed size (pos_part n) (p + 64) m))

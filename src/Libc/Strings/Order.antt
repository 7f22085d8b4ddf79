-- ===== src/Libc/Strings/Order.antt =====
-- strcmp is a total order on the strings.
use tank_convertor.Base.{ℕ, ◌≡◌, refl, List, [], ◌∷◌, Ordering, arith}
use tank_convertor.Libc.Strings.{strcmp, c_str}

abbrev pub flip : Ordering → Ordering
flip Ordering.lt = Ordering.gt
flip Ordering.eq = Ordering.eq
flip Ordering.gt = Ordering.lt

-- A comparison function as <search.h> and qsort want it: a total preorder.
pub record IsComparison {ℓ} {A : Type ℓ} (cmp : A → A → Ordering) : Type ℓ where
  pub refl_eq : (a : A) → cmp a a ≡ Ordering.eq
  pub flipped : (a b : A) → cmp b a ≡ flip (cmp a b)
  pub trans_lt : (a b c : A) → cmp a b ≡ Ordering.lt → cmp b c ≡ Ordering.lt → cmp a c ≡ Ordering.lt
  pub eq_left : (a b c : A) → cmp a b ≡ Ordering.eq → cmp a c ≡ cmp b c

strcmp_refl : (a : List ℕ) → strcmp a a ≡ Ordering.eq
unfolding strcmp
strcmp_refl [] = refl
strcmp_refl (x ∷ a) = ground (arith, strcmp_refl a)

strcmp_flipped : (a b : List ℕ) → strcmp b a ≡ flip (strcmp a b)
unfolding strcmp
strcmp_flipped [] [] = refl
strcmp_flipped [] (y ∷ b) = ground arith
strcmp_flipped (x ∷ a) [] = ground arith
strcmp_flipped (x ∷ a) (y ∷ b) = ground (arith, strcmp_flipped a b)

strcmp_trans_lt :
    (a b c : List ℕ)
    → strcmp a b ≡ Ordering.lt
    → strcmp b c ≡ Ordering.lt
    → strcmp a c ≡ Ordering.lt
unfolding strcmp
strcmp_trans_lt [] [] c h k = k
strcmp_trans_lt [] (y ∷ b) [] h k = ground arith
strcmp_trans_lt [] (y ∷ b) (z ∷ c) h k = ground arith
strcmp_trans_lt (x ∷ a) [] [] h k = ground arith
strcmp_trans_lt (x ∷ a) [] (z ∷ c) h k = ground arith
strcmp_trans_lt (x ∷ a) (y ∷ b) [] h k = ground arith
strcmp_trans_lt (x ∷ a) (y ∷ b) (z ∷ c) h k = ground (arith, strcmp_trans_lt a b c)

strcmp_eq_left : (a b c : List ℕ) → strcmp a b ≡ Ordering.eq → strcmp a c ≡ strcmp b c
unfolding strcmp
strcmp_eq_left [] [] c h = refl
strcmp_eq_left [] (y ∷ b) [] h = ground arith
strcmp_eq_left [] (y ∷ b) (z ∷ c) h = ground arith
strcmp_eq_left (x ∷ a) [] [] h = ground arith
strcmp_eq_left (x ∷ a) [] (z ∷ c) h = ground arith
strcmp_eq_left (x ∷ a) (y ∷ b) [] h = ground arith
strcmp_eq_left (x ∷ a) (y ∷ b) (z ∷ c) h = ground (arith, strcmp_eq_left a b c)

pub strcmp-IsComparison : IsComparison strcmp
strcmp-IsComparison = record {
  refl_eq = strcmp_refl;
  flipped = strcmp_flipped;
  trans_lt = strcmp_trans_lt;
  eq_left = strcmp_eq_left;
}

-- Strings compare equal exactly when they are the same characters.
pub strcmp-eq : (a b : List ℕ) → strcmp a b ≡ Ordering.eq → c_str a ≡ c_str b
unfolding strcmp c_str
strcmp-eq [] [] h = refl
strcmp-eq [] (y ∷ b) h = ground arith
strcmp-eq (x ∷ a) [] h = ground arith
strcmp-eq (x ∷ a) (y ∷ b) h = ground (arith, strcmp-eq a b)

pub eq-strcmp : (a b : List ℕ) → c_str a ≡ c_str b → strcmp a b ≡ Ordering.eq
unfolding strcmp c_str
eq-strcmp [] [] h = refl
eq-strcmp [] (y ∷ b) h = ground arith
eq-strcmp (x ∷ a) [] h = ground arith
eq-strcmp (x ∷ a) (y ∷ b) h = ground (arith, eq-strcmp a b)

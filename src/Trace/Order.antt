-- ===== src/Trace/Order.antt =====
-- compare_SCNL is a comparison function as <search.h> wants it, and identifies a trace.
use tank_convertor.Base.{◌≡◌, ◌↔◌, Ordering, List, arith, ℕ}
use tank_convertor.Libc.Strings.{strcmp, c_str}
use tank_convertor.Libc.Strings.Order.{IsComparison, strcmp-IsComparison, strcmp-eq, eq-strcmp}
use tank_convertor.Trace.{
  Scnl, sta_string, chan_string, net_string, loc_string, or_else, compare_scnl,
}

-- One comparison after another.
or_else-IsComparison {ℓ} :
    {A : Type ℓ} (first second : A → A → Ordering)
    → IsComparison first
    → IsComparison second
    → IsComparison (λ (a b : A). or_else (first a b) (second a b))
or_else-IsComparison first second p q = record {
  refl_eq = λ a. ground (arith, p.refl_eq a, q.refl_eq a);
  flipped = λ a b. ground (arith, p.flipped a b, q.flipped a b);
  trans_lt = λ a b c h k. ground (
    arith,
    p.trans_lt a b c,
    p.eq_left a b c,
    p.eq_left c b a,
    p.flipped b c,
    p.flipped a c,
    p.flipped a b,
    q.trans_lt a b c,
  );
  eq_left = λ a b c h. ground (arith, p.eq_left a b c, q.eq_left a b c);
}

-- A comparison of a part of the elements.
comap-IsComparison {ℓ κ} :
    {A : Type ℓ} {B : Type κ} (g : A → B) (cmp : B → B → Ordering)
    → IsComparison cmp
    → IsComparison (λ (a b : A). cmp (g a) (g b))
comap-IsComparison g cmp p = record {
  refl_eq = λ a. p.refl_eq (g a);
  flipped = λ a b. p.flipped (g a) (g b);
  trans_lt = λ a b c. p.trans_lt (g a) (g b) (g c);
  eq_left = λ a b c. p.eq_left (g a) (g b) (g c);
}

by_string : (g : Scnl → List ℕ) → IsComparison (λ (a b : Scnl). strcmp (g a) (g b))
by_string g = comap-IsComparison g strcmp strcmp-IsComparison

-- compare_SCNL is a total preorder.
pub compare_scnl-IsComparison : IsComparison compare_scnl
unfolding compare_scnl
compare_scnl-IsComparison = or_else-IsComparison _ _ (by_string sta_string) (
    or_else-IsComparison _ _ (by_string chan_string)
      (or_else-IsComparison _ _ (by_string net_string) (by_string loc_string)))

-- Two traces compare equal exactly when station, channel, network and location are the same text.
pub compare_scnl-eq :
    (a b : Scnl)
    → (compare_scnl a b ≡ Ordering.eq) ↔ (
        (c_str (sta_string a) ≡ c_str (sta_string b))
        × (c_str (chan_string a) ≡ c_str (chan_string b))
        × (c_str (net_string a) ≡ c_str (net_string b))
        × (c_str (loc_string a) ≡ c_str (loc_string b)))
unfolding compare_scnl
compare_scnl-eq a b = ground (
  arith,
  strcmp-eq (sta_string a) (sta_string b),
  eq-strcmp (sta_string a) (sta_string b),
  strcmp-eq (chan_string a) (chan_string b),
  eq-strcmp (chan_string a) (chan_string b),
  strcmp-eq (net_string a) (net_string b),
  eq-strcmp (net_string a) (net_string b),
  strcmp-eq (loc_string a) (loc_string b),
  eq-strcmp (loc_string a) (loc_string b),
)

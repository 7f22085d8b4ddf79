-- ===== src/Sac/Samples/Copy.antt =====
-- The copying loops of enrich_sac_samps, against the list of the samples of a tracebuf.
use Prim.Native.Nat.{min}
use tank_convertor.Base.{
  ℕ, zero, suc, ◌+◌, ◌*◌, ◌<◌, ◌≡◌, refl, ap, Bool-cases, inl, inr, ltb, List, [], ◌∷◌, ◌++◌,
  length, arith,
}
use tank_convertor.Sac.Samples.{copy_samps}

module _ {F : Type 0} (read : ℕ → F) (w : ℕ) where
  -- The `n` samples from the address `p` on.
  abbrev pub samples : (n p : ℕ) → List F
  samples zero p = []
  samples (suc n) p = read p ∷ samples n (p + w)

  pub length-samples : (n p : ℕ) → length (samples n p) ≡ n
  length-samples zero p = refl
  length-samples (suc n) p = ap suc (length-samples n (p + w))

  pub samples-add : (k n p : ℕ) → samples (k + n) p ≡ samples k p ++ samples n (p + k * w)
  samples-add zero n p =
      let e : 0 + n ≡ n = omega arith in let q : p + 0 * w ≡ p = omega arith in rw (e, q) refl
  samples-add (suc k) n p =
      let e : suc k + n ≡ suc (k + n) = omega arith in
      let q : p + suc k * w ≡ p + w + k * w = omega arith in
      rw (e, q) (ap (λ l. read p ∷ l) (samples-add k n (p + w)))

  -- Of `n` samples as many are copied as there is room for, and the pointer stops behind them.
  pub copy_samps-min :
      (left n src srcend : ℕ)
      → 0 < w
      → srcend ≡ src + n * w
      → copy_samps read w left src srcend ≡ (samples (min left n) src, src + min left n * w)
  unfolding copy_samps
  copy_samps-min zero n src srcend h e =
      let z : min 0 n ≡ 0 = omega arith in let q : src + 0 * w ≡ src = omega arith in rw (z, q) refl
  copy_samps-min (suc left) zero src srcend h e =
      let z : min (suc left) 0 ≡ 0 = omega arith in
      let q : src + 0 * w ≡ src = omega arith in
      elim (Bool-cases (ltb src srcend)) [
        | inl before ↦ absurd (ground arith)
        | inr at_end ↦ rw (z, q, at_end) refl
      ]
  copy_samps-min (suc left) (suc n) src srcend h e =
      let z : min (suc left) (suc n) ≡ suc (min left n) = omega arith in
      let q : src + suc (min left n) * w ≡ src + w + min left n * w = omega arith in
      let e' : srcend ≡ src + w + n * w = omega (arith, e) in
      elim (Bool-cases (ltb src srcend)) [
        | inl before ↦ rw (z, q, before, copy_samps-min left n (src + w) srcend h e') refl
        | inr at_end ↦ absurd (ground (arith, e'))
      ]

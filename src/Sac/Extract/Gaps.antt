-- ===== src/Sac/Extract/Gaps.antt =====
-- A gap that is filled: with as many words as are missing, if these are not too many.
use Prim.Native.Nat.{min}
use tank_convertor.Base.{
  ℕ, zero, suc, ◌+◌, ◌*◌, ◌%◌, ◌^◌, ◌≤◌, ◌<◌, ◌≡◌, refl, sym, ap, ◌∙◌, Bool, true, false,
  Bool-cases, ◌⊎◌, inl, inr, ltb, List, ◌∷◌, ◌++◌, length, length-append, length-replicate,
  replicate, pos, ◌+ℤ◌, arith,
}
use tank_convertor.Floating.{Floating}
use tank_convertor.Sac.Head.{undefined}
use tank_convertor.Sac.Samples.{buffersiz, room, enlarge}
use tank_convertor.Sac.Extract.{
  Extract, Gap, filled, bogus, no_memory, fill_words, newsize_of, fill_gap, enlarged, bridge,
}
use tank_convertor.Sac.Extract.Added.{Grown}

pub fill_words-replicate {ℓ} :
    {A : Type ℓ} (v : A) (n left : ℕ) → fill_words v n left ≡ replicate (min n left) v
unfolding fill_words
fill_words-replicate v zero left = let e : min 0 left ≡ 0 = omega arith in rw e refl
fill_words-replicate v (suc n) zero = let e : min (suc n) 0 ≡ 0 = omega arith in rw e refl
fill_words-replicate v (suc n) (suc left) =
    let e : min (suc n) (suc left) ≡ suc (min n left) = omega arith in
    rw e (ap (λ l. v ∷ l) (fill_words-replicate v n left))

-- The state agrees with itself: the words are within the buffer and are all counted, and the buffer is
-- neither small nor larger than it has to be.
pub record IsReady {f : Floating} (s : Extract f) : Type 0 where
  pub within : length s.out.words ≤ s.out.capacity
  pub large : 204800 ≤ s.out.capacity
  pub tight : s.out.capacity ≤ 2 ^ 32 + length s.out.words + 204800
  pub aligned : s.nsamp_trace ≡ pos (length s.out.words)

pub sum_pos : (a b : ℕ) → pos a +ℤ pos b ≡ pos (a + b)
unfolding ◌+ℤ◌
sum_pos a b = ground arith

pub newsize_lem :
    (f : Floating) (a b : ℕ) → a + b < 2 ^ 60 → newsize_of f (pos a) (pos b) ≡ (a + b) * 4 + 632
unfolding newsize_of
newsize_lem f a b h = rw (sum_pos a b) (omega arith)

pub Grown-IsReady :
    {f : Floating} (s s1 : Extract f) (ws : List f.Single) → IsReady s → Grown s s1 ws → IsReady s1
Grown-IsReady s s1 ws v g =
    let len : length s1.out.words ≡ length s.out.words + length ws =
      ap length g.words ∙ length-append s.out.words ws in
    record {
      within = g.fits;
      large = omega (arith, v.large, g.larger);
      tight = ground (arith, v.tight, g.tight, len);
      aligned =
          g.counted ∙ rw v.aligned (sum_pos (length s.out.words) (length ws) ∙ ap pos (sym len));
    }

module _ (f : Floating) where
  -- Filling that has room.
  filled-Grown :
      (k : ℕ) (s : Extract f) (extra : ℕ)
      → length s.out.words + k ≤ s.out.capacity + extra
      → length s.out.words ≤ s.out.capacity
      → (extra ≡ 0) ⊎ (extra ≡ 204800) × (s.out.capacity < length s.out.words + k)
      → (s0 : Extract f) → s0.out.words ≡ s.out.words
      → s0.out.head ≡ s.out.head
      → s0.out.capacity ≡ s.out.capacity + extra
      → s0.nsamp_trace ≡ s.nsamp_trace
      → Grown s (fill_gap f (pos k) s0) (replicate k (undefined f))
  unfolding fill_gap
  filled-Grown k s extra fits within why s0 words head capacity count =
      let len = length-append s.out.words (replicate k (undefined f)) in
      let len_k = length-replicate k (undefined f) in
      let all : min k (room s0.out) ≡ k = omega (arith, ap length words, capacity) in
      let filling : s0.out.words ++ fill_words (undefined f) k (room s0.out)
          ≡ s.out.words ++ replicate k (undefined f) =
        rw (fill_words-replicate (undefined f) k (room s0.out), all, words) refl in
      record {
        words = filling;
        head = head;
        fits = rw (filling, capacity) (omega (arith, len, len_k));
        larger = rw capacity (omega arith);
        counted = rw (count, len_k) refl;
        tight = rw (filling, capacity) (ground (arith, why, len, len_k));
      }

  -- Filling that has room, or has room once the buffer is enlarged.
  abbrev pub Filled : Extract f → ℕ → Gap f → Type 0
  Filled s k (filled s1) =
      Grown s s1 (replicate k (undefined f)) × (s1.endtime ≡ s.endtime) × (s1.samprate ≡ s.samprate)
  Filled s k bogus = ⊥
  Filled s k no_memory = ⊥

  -- A gap of no more than 204800 samples is filled, if the buffer can be enlarged.
  pub bridge-Filled :
      (alloc : ℕ → Bool)
      → ((i : ℕ) → alloc i ≡ true)
      → (k : ℕ) (s : Extract f) → IsReady s
      → k ≤ 204800
      → length s.out.words < 2 ^ 59
      → Filled s k (bridge f alloc (pos k) s)
  unfolding bridge enlarge fill_gap
  bridge-Filled alloc ok k s v few bound =
      let len = length s.out.words in
      let size : newsize_of f s.nsamp_trace (pos k) ≡ (len + k) * 4 + 632 =
        rw v.aligned (newsize_lem f len k (omega arith)) in
      elim (Bool-cases (ltb (buffersiz s.out) ((len + k) * 4 + 632))) [
        | inl beyond ↦
            let twice : ltb (buffersiz s.out * 2 % 2 ^ 64) ((len + k) * 4 + 632) ≡ false =
              ground (arith, v.within, v.large, v.tight) in
            rw (size, beyond, twice, ok s.allocs)
              (
                filled-Grown k s 204800 (omega (arith, v.within)) v.within
                    (inr (refl, ground arith)) (enlarged f alloc s) refl refl refl refl,
                refl,
                refl,
              )
        | inr space ↦
            rw (size, space)
              (
                filled-Grown k s 0 (ground arith) v.within (inl refl) s refl refl (omega arith)
                    refl,
                refl,
                refl,
              )
      ]

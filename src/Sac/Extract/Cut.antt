-- ===== src/Sac/Extract/Cut.antt =====
-- A gap that is longer than what one enlargement of the buffer adds.
use Prim.Native.Nat.{min}
use tank_convertor.Base.{
  ℕ, ◌+◌, ◌*◌, ◌%◌, ◌^◌, ◌≤◌, ◌<◌, ◌≡◌, refl, Bool, true, false, ltb, ◌++◌, length, length-append,
  length-replicate, replicate, pos, arith,
}
use tank_convertor.Floating.{Floating}
use tank_convertor.Sac.Head.{undefined}
use tank_convertor.Sac.Samples.{buffersiz, room, enlarge}
use tank_convertor.Sac.Extract.{Extract, filled, fill_words, newsize_of, fill_gap, enlarged, bridge}
use tank_convertor.Sac.Extract.Gaps.{IsReady, sum_pos, newsize_lem, fill_words-replicate}

module _ (f : Floating) where
  -- A gap that reaches behind the end of the enlarged buffer and is not bogus, since the trace with it
  -- is no longer than twice the buffer, is counted whole, but filled only as far as the buffer goes:
  -- behind it the trace has fewer words than the header will count.
  pub bridge-cut :
      (alloc : ℕ → Bool) (k : ℕ) (s : Extract f)
      → alloc s.allocs ≡ true
      → IsReady s
      → s.out.capacity + 204800 < length s.out.words + k
      → (length s.out.words + k) * 4 + 632 ≤ buffersiz s.out * 2
      → length s.out.words < 2 ^ 58
      → (s1 : Extract f) × (bridge f alloc (pos k) s ≡ filled s1)
        × (length s1.out.words ≡ s.out.capacity + 204800)
        × (s1.nsamp_trace ≡ pos (length s.out.words + k))
        × (length s1.out.words < length s.out.words + k)
  unfolding bridge fill_gap enlarge
  bridge-cut alloc k s ok v long fair bound =
      let len = length s.out.words in
      let size : newsize_of f s.nsamp_trace (pos k) ≡ (len + k) * 4 + 632 =
        rw v.aligned (newsize_lem f len k (omega (arith, v.tight))) in
      let beyond : ltb (buffersiz s.out) ((len + k) * 4 + 632) ≡ true = ground arith in
      let twice : ltb (buffersiz s.out * 2 % 2 ^ 64) ((len + k) * 4 + 632) ≡ false =
        ground (arith, v.tight) in
      let s2 = enlarged f alloc s in
      let all : min k (room s2.out) ≡ room s2.out = omega (arith, v.within) in
      let fills : fill_words (undefined f) k (room s2.out) ≡ replicate (room s2.out) (undefined f) =
        rw (fill_words-replicate (undefined f) k (room s2.out), all) refl in
      let count : length (s.out.words ++ fill_words (undefined f) k (room s2.out))
          ≡ s.out.capacity + 204800 =
        rw fills (
          omega (
            arith,
            v.within,
            length-append s.out.words (replicate (room s2.out) (undefined f)),
            length-replicate (room s2.out) (undefined f),
          )) in
      (
        fill_gap f (pos k) s2,
        rw (size, beyond, twice, ok) refl,
        count,
        rw v.aligned (sum_pos len k),
        omega (arith, count),
      )

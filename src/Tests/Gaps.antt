-- ===== src/Tests/Gaps.antt =====
-- A gap of two hours at 100 samples a second, and the bounds of the buffer.
use tank_convertor.Base.{◌<◌, ◌≡◌, refl, true, [], ◌∷◌, length, pos, arith}
use tank_convertor.Memory.{big}
use tank_convertor.Floating.{whole}
use tank_convertor.Sac.{zero_head}
use tank_convertor.Sac.Extract.{Extract, filled, bridge, extract}
use tank_convertor.Sac.Extract.Gaps.{IsReady}
use tank_convertor.Sac.Extract.Bounds.{Keeps, Within, extract-Within}
use tank_convertor.Sac.Extract.Cut.{bridge-cut}
use tank_convertor.Tests.Sac.{tank, first, second}

abbrev empty : Extract whole
empty = record {
  out = record { head = zero_head whole; words = []; capacity = 409600 };
  nsamp_trace = pos 0;
  endtime = pos 0;
  samprate = pos 1;
  gapcount = 0;
  nfill_max = pos 0;
  allocs = 1;
}

empty-IsReady : IsReady empty
empty-IsReady = record {
  within = omega arith;
  large = omega arith;
  tight = omega arith;
  aligned = refl;
}

bridge-cut_example :
    (s1 : Extract whole) × (bridge whole (λ _. true) (pos 720000) empty ≡ filled s1)
    × (length s1.out.words ≡ 614400)
    × (s1.nsamp_trace ≡ pos 720000)
    × (length s1.out.words < 720000)
bridge-cut_example =
    bridge-cut whole (λ _. true) 720000 empty refl empty-IsReady (omega arith) (omega arith)
      (omega arith)

extract-Within_example :
    Keeps (Within whole) (extract whole (λ _. true) big tank 0 (first ∷ first ∷ second ∷ []) empty)
extract-Within_example =
    extract-Within whole (λ _. true) big tank 0 (first ∷ first ∷ second ∷ []) empty (omega arith)

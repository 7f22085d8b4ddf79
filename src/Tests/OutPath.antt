-- ===== src/Tests/OutPath.antt =====
-- The output paths of an input file in another directory.
use tank_convertor.Base.{ℕ, ◌<◌, ◌≡◌, arith, some, List, [], ◌∷◌, ◌++◌, length}
use tank_convertor.OutPath.{
  strrchr, real_filename, mseed_suffix, msproc_outpath_gen, sacproc_outpath_gen,
}
use tank_convertor.OutPath.Name.{IsPlain, msproc_outpath_gen-IsPlain, sacproc_outpath_gen-IsPlain}

-- `/d/a.tnk`
abbrev tankfile : List ℕ
tankfile = b'/' ∷ b'd' ∷ b'/' ∷ b'a' ∷ b'.' ∷ b't' ∷ b'n' ∷ b'k' ∷ []

short : length (real_filename tankfile) < 248
unfolding real_filename strrchr
short = omega arith

shorter : length (real_filename tankfile) < 250
shorter = omega (arith, short)

msproc_outpath_gen-IsPlain_example :
    (name : List ℕ) × IsPlain name
    × (length name ≡ length (real_filename tankfile))
    × (msproc_outpath_gen tankfile [] ≡ some (b'.' ∷ b'/' ∷ name ++ mseed_suffix))
msproc_outpath_gen-IsPlain_example = msproc_outpath_gen-IsPlain tankfile short

sacproc_outpath_gen-IsPlain_example :
    (name : List ℕ) × IsPlain name
    × (length name ≡ length (real_filename tankfile))
    × (sacproc_outpath_gen tankfile []
        ≡ some (b'.' ∷ b'/' ∷ name ++ (b'_' ∷ b'S' ∷ b'A' ∷ b'C' ∷ [])))
sacproc_outpath_gen-IsPlain_example = sacproc_outpath_gen-IsPlain tankfile shorter

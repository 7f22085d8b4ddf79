-- ===== src/OutPath.antt =====
-- src/sacproc.c and src/msproc.c: sacproc_outpath_gen, with the directory that it makes, and
-- msproc_outpath_gen. A string is the list of its characters, without the terminator.
pub mod Name
use tank_convertor.Base.{
  ℕ, ◌<◌, Bool, true, false, ◌==◌, ltb, if◌then◌else◌, Option, none, some, List, [], ◌∷◌, ◌++◌, map,
  drop, length,
}
use tank_convertor.Command.{max_path_length}

-- The string from the last `c` on.
unfoldable pub strrchr : List ℕ → ℕ → Option (List ℕ)
strrchr [] c = none
strrchr (a ∷ s) c = elim (strrchr s c) [
  | some t ↦ some t
  | none ↦ if a == c then some (a ∷ s) else none
]

-- "Move the index to the head of real filename, just skip the path"
unfoldable pub real_filename : List ℕ → List ℕ
real_filename s = elim (strrchr s b'/') [ none ↦ s | some t ↦ drop 1 t ]

-- "Replace the '.' in the file name to '_'"
unfoldable pub replace_dot : ℕ → ℕ
replace_dot c = if c == b'.' then b'_' else c

-- A string in `result`, which has room for it and its terminator, or else is overrun.
unfoldable pub in_result : List ℕ → Option (List ℕ)
in_result s = if ltb (length s) max_path_length then some s else none

abbrev pub mseed_suffix : List ℕ
mseed_suffix = b'.' ∷ b'm' ∷ b's' ∷ b'e' ∷ b'e' ∷ b'd' ∷ []

abbrev pub sac_suffix : List ℕ
sac_suffix = b'_' ∷ b'S' ∷ b'A' ∷ b'C' ∷ []

-- What sprintf puts there is a part of what strcat leaves.
unfoldable pub msproc_outpath_gen : List ℕ → List ℕ → Option (List ℕ)
msproc_outpath_gen inputfile [] =
    in_result (b'.' ∷ b'/' ∷ map replace_dot (real_filename inputfile) ++ mseed_suffix)
msproc_outpath_gen inputfile (c ∷ outpath) = in_result (c ∷ outpath)

unfoldable pub sacproc_outpath_gen : List ℕ → List ℕ → Option (List ℕ)
sacproc_outpath_gen inputfile [] =
    in_result (b'.' ∷ b'/' ∷ map replace_dot (real_filename inputfile ++ sac_suffix))
sacproc_outpath_gen inputfile (c ∷ outpath) = in_result (c ∷ outpath)

-- "Check if the directory is existing or not": the directory that mkdir is asked for. `stat` says which
-- paths there are.
unfoldable pub missing_directory : (stat : List ℕ → Bool) → List ℕ → Option (List ℕ)
missing_directory stat result = if stat result then none else some result

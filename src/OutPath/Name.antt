-- ===== src/OutPath/Name.antt =====
-- Where the output goes if no path is given: to the current directory, under the name of the input.
use tank_convertor.Base.{
  ℕ, suc, ◌<◌, ◌≡◌, ◌≢◌, sym, refl, ap, ◌∙◌, length-append, lt→ltb, ◌==◌, Bool-cases, inl, inr,
  Option, none, some, Option-cases, List, [], ◌∷◌, ◌++◌, map, drop, length, All, arith,
}
use tank_convertor.OutPath.{
  strrchr, real_filename, replace_dot, in_result, mseed_suffix, sac_suffix, msproc_outpath_gen,
  sacproc_outpath_gen,
}

some_same : {A : Type 0} (x y : A) → ◌≡◌ {A = Option A} (some x) (some y) → x ≡ y
some_same x y h = ground arith

none_some : {A : Type 0} {P : Type 0} (y : A) → ◌≡◌ {A = Option A} none (some y) → P
none_some y h = ground arith

strrchr-none : (s : List ℕ) (c : ℕ) → strrchr s c ≡ none → All (λ a. a ≢ c) s
unfolding strrchr
strrchr-none [] c h = tt
strrchr-none (a ∷ s) c h = elim (Option-cases (strrchr s c)) [
  | inr (u, e) ↦ none_some u (sym (rw (e, strrchr) at h))
  | inl e ↦ elim (Bool-cases (a == c)) [
    | inl here ↦ none_some (a ∷ s) (sym (rw (e, here, strrchr) at h))
    | inr other ↦ (ground arith, strrchr-none s c e)
  ]
]

strrchr-some :
    (s : List ℕ) (c : ℕ) (t : List ℕ) → strrchr s c ≡ some t → All (λ a. a ≢ c) (drop 1 t)
unfolding strrchr
strrchr-some [] c t h = none_some t h
strrchr-some (a ∷ s) c t h = elim (Option-cases (strrchr s c)) [
  | inr (u, e) ↦
      let same : u ≡ t = some_same u t (rw (e, strrchr) at h) in rw (← same) (strrchr-some s c u e)
  | inl e ↦ elim (Bool-cases (a == c)) [
    | inl here ↦
        let same : a ∷ s ≡ t = some_same (a ∷ s) t (rw (e, here, strrchr) at h) in
        rw (← same) (strrchr-none s c e)
    | inr other ↦ none_some t (rw (e, other, strrchr) at h)
  ]
]

real_filename-All : (s : List ℕ) → All (λ c. c ≢ b'/') (real_filename s)
unfolding real_filename
real_filename-All s = elim (Option-cases (strrchr s b'/')) [
  | inl e ↦ rw (e, real_filename) (strrchr-none s b'/' e)
  | inr (t, e) ↦ rw (e, real_filename) (strrchr-some s b'/' t e)
]

-- Neither a separator nor a dot.
abbrev pub IsPlain : List ℕ → Type 0
IsPlain s = All (λ c. (c ≢ b'/') × (c ≢ b'.')) s

map-IsPlain : (s : List ℕ) → All (λ c. c ≢ b'/') s → IsPlain (map replace_dot s)
unfolding replace_dot
map-IsPlain [] a = tt
map-IsPlain (c ∷ s) a = ((ground (arith, a.0), ground (arith, a.0)), map-IsPlain s a.1)

in_result-fits : (s : List ℕ) → length s < 256 → in_result s ≡ some s
unfolding in_result
in_result-fits s h = rw (lt→ltb (length s) 256 h) refl

length-map : (g : ℕ → ℕ) (s : List ℕ) → length (map g s) ≡ length s
length-map g [] = refl
length-map g (c ∷ s) = ap suc (length-map g s)

-- Without an output path, and if the name of the input behind its last separator is shorter than 248
-- characters, the miniSEED file is in the current directory, and between `./` and `.mseed` its name
-- is as long as that of the input and has neither a separator nor a dot.
pub msproc_outpath_gen-IsPlain :
    (inputfile : List ℕ)
    → length (real_filename inputfile) < 248
    → (name : List ℕ) × IsPlain name
      × (length name ≡ length (real_filename inputfile))
      × (msproc_outpath_gen inputfile [] ≡ some (b'.' ∷ b'/' ∷ name ++ mseed_suffix))
unfolding msproc_outpath_gen
msproc_outpath_gen-IsPlain inputfile short =
    let file = real_filename inputfile in
    let name = map replace_dot file in
    let len = length-map replace_dot file in
    (
      name,
      map-IsPlain file (real_filename-All inputfile),
      len,
      in_result-fits (b'.' ∷ b'/' ∷ name ++ mseed_suffix)
          (omega (arith, short, len, length-append name mseed_suffix)),
    )

map-append_suffix : (g : ℕ → ℕ) (s t : List ℕ) → map g (s ++ t) ≡ map g s ++ map g t
map-append_suffix g [] t = refl
map-append_suffix g (c ∷ s) t = ap (λ l. g c ∷ l) (map-append_suffix g s t)

suffix_kept : map replace_dot sac_suffix ≡ b'_' ∷ b'S' ∷ b'A' ∷ b'C' ∷ []
unfolding replace_dot
suffix_kept = refl

-- Without an output path, and if the name of the input behind its last separator is shorter than 250
-- characters, the SAC files go to a directory below the current one, which is `./`, a name as long as
-- that of the input with neither a separator nor a dot in it, and `_SAC`.
pub sacproc_outpath_gen-IsPlain :
    (inputfile : List ℕ)
    → length (real_filename inputfile) < 250
    → (name : List ℕ) × IsPlain name
      × (length name ≡ length (real_filename inputfile))
      × (sacproc_outpath_gen inputfile []
          ≡ some (b'.' ∷ b'/' ∷ name ++ (b'_' ∷ b'S' ∷ b'A' ∷ b'C' ∷ [])))
unfolding sacproc_outpath_gen
sacproc_outpath_gen-IsPlain inputfile short =
    let file = real_filename inputfile in
    let name = map replace_dot file in
    let len = length-map replace_dot file in
    let suffix : List ℕ = b'_' ∷ b'S' ∷ b'A' ∷ b'C' ∷ [] in
    let whole : map replace_dot (file ++ sac_suffix) ≡ name ++ suffix =
      map-append_suffix replace_dot file sac_suffix ∙ ap (λ l. name ++ l) suffix_kept in
    (
      name,
      map-IsPlain file (real_filename-All inputfile),
      len,
      rw whole (
          in_result-fits (b'.' ∷ b'/' ∷ name ++ suffix)
            (omega (arith, short, len, length-append name suffix))),
    )

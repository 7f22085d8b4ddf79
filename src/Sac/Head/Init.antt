-- ===== src/Sac/Head/Init.antt =====
-- init_header: what it leaves, whatever was there.
use tank_convertor.Base.{
  ℕ, zero, suc, ◌+◌, ◌≤◌, ◌≡◌, refl, sym, ap, ◌∙◌, List, [], ◌∷◌, ◌++◌, length, drop, replicate,
  pos, length-append, length-replicate, arith,
}
use mathlib.Core.List.{append-nil}
use tank_convertor.Floating.{Floating}
use tank_convertor.Libc.Strings.{c_str}
use tank_convertor.Sac.{SacHead, sacundef, sacstrundef, sacversion, sac_i_d}
use tank_convertor.Sac.Fill.{fill, put, fill_strings, strncpy_at}
use tank_convertor.Sac.Fill.Split.{put-overwrite, fill-put, copies, fill_strings-put, put-append}
use tank_convertor.Sac.Head.{undefined, init_header}

drop_all {ℓ} : {A : Type ℓ} (n : ℕ) (l : List A) → length l ≤ n → drop n l ≡ []
drop_all zero [] h = refl
drop_all zero (x ∷ l) h = absurd (omega arith)
drop_all (suc n) [] h = refl
drop_all (suc n) (x ∷ l) h = drop_all n l (omega arith)

-- A write over a whole array.
put_all {ℓ} : {A : Type ℓ} (s l : List A) → length l ≡ length s → put 0 s l ≡ s
put_all s l e =
    put-overwrite 0 s l (omega (arith, e))
    ∙ ap (λ t. s ++ t) (drop_all (0 + length s) l (omega (arith, e)))
    ∙ append-nil s

fill_all {ℓ} :
    {A : Type ℓ} (n : ℕ) (v : A) (l : List A) → length l ≡ n → fill n 0 v l ≡ replicate n v
fill_all n v l e = fill-put n 0 v l ∙ put_all (replicate n v) l (e ∙ sym (length-replicate n v))

-- Two loops, one behind the other, over a whole array.
fill_twice {ℓ} :
    {A : Type ℓ} (n k : ℕ) (v w : A) (l : List A)
    → length l ≡ n + k
    → fill k n w (fill n 0 v l) ≡ replicate n v ++ replicate k w
fill_twice n k v w l e =
    let len = length-replicate n v in
    let start : 0 + length (replicate n v) ≡ n = omega (arith, len) in
    let joined = put-append 0 (replicate n v) (replicate k w) l in
    fill-put k n w (fill n 0 v l)
    ∙ rw (fill-put n 0 v l) (
        sym (rw start at joined)
        ∙ put_all (replicate n v ++ replicate k w) l (
            omega
              (arith, e, len, length-replicate k w, length-append (replicate n v) (replicate k w))))

undefined_strings :
    (l : List ℕ) → length l ≡ 192 → fill_strings 24 0 8 sacstrundef l ≡ copies 24 sacstrundef
unfolding strncpy_at c_str
undefined_strings l e =
    fill_strings-put 24 0 8 sacstrundef l (λ j u. refl) refl ∙ put_all (copies 24 sacstrundef) l e

-- Whatever a header of the right size holds, init_header sets every number to -12345 and every text
-- to `-12345`, apart from the SAC identification 2.0, the version 6, and the five logical fields 1.
pub init_header-undefined :
    (f : Floating) (h : SacHead f.Single)
    → length h.sac_float ≡ 70
    → length h.sac_int ≡ 40
    → length h.sac_string ≡ 192
    → init_header f h ≡ record {
      sac_float =
          replicate 9 (undefined f) ++ (f.single_of_int sac_i_d ∷ replicate 60 (undefined f));
      sac_int =
          replicate 6 sacundef ++ (sacversion ∷ (replicate 28 sacundef ++ replicate 5 (pos 1)));
      sac_string = copies 24 sacstrundef;
    }
unfolding init_header
init_header-undefined f h floats ints strings =
    rw
      (
        init_header,
        fill_all 70 (undefined f) h.sac_float floats,
        fill_twice 35 5 sacundef (pos 1) h.sac_int ints,
        undefined_strings h.sac_string strings,
      )
      refl

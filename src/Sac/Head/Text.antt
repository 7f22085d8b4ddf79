-- ===== src/Sac/Head/Text.antt =====
-- The text fields of the header: what copy_scnl writes there.
use tank_convertor.Base.{
  ℕ, zero, suc, ◌+◌, ◌-◌, ◌≤◌, ◌<◌, ◌≡◌, ◌⊎◌, inr, refl, ap, ◌∙◌, List, [], ◌∷◌, ◌++◌, set, length,
  take, drop, replicate, length-append, length-replicate, arith,
}
use tank_convertor.Floating.{Floating}
use tank_convertor.Libc.Strings.{c_str}
use tank_convertor.Trace.{Scnl, sta_string, chan_string, net_string, loc_string}
use tank_convertor.Sac.{SacHead}
use tank_convertor.Sac.Layout.{kstnm_field, kcmpnm_field, knetwk_field, khole_field, string_at}
use tank_convertor.Sac.Fill.{put, copy_blank}
use tank_convertor.Sac.Fill.Split.{
  drop-take_append, take-length_append, put-overwrite, copy_blank-put, length-put,
}
use tank_convertor.Sac.Head.{copy_scnl}

-- `n` characters from index `i` on.
abbrev pub text_at : (n i : ℕ) → List ℕ → List ℕ
text_at n i l = take n (drop i l)

-- A text with spaces behind it, to the end of a field.
abbrev pub padded : List ℕ → List ℕ
padded s = c_str s ++ replicate (8 - length (c_str s)) b' '

text_at-set :
    (n j : ℕ) (l : List ℕ) (i v : ℕ)
    → (i < j) ⊎ (j + n ≤ i)
    → text_at n j (set l i v) ≡ text_at n j l
text_at-set n j [] i v h = refl
text_at-set zero zero (x ∷ l) zero v h = refl
text_at-set (suc n) zero (x ∷ l) zero v h = absurd (omega arith)
text_at-set zero zero (x ∷ l) (suc i) v h = refl
text_at-set (suc n) zero (x ∷ l) (suc i) v h =
    ap (λ t. x ∷ t) (text_at-set n zero l i v (inr (omega arith)))
text_at-set n (suc j) (x ∷ l) zero v h = refl
text_at-set n (suc j) (x ∷ l) (suc i) v h = text_at-set n j l i v (omega arith)

-- A write elsewhere leaves a field alone.
pub text_at-put :
    (n j i : ℕ) (s l : List ℕ)
    → (i + length s ≤ j) ⊎ (j + n ≤ i)
    → text_at n j (put i s l) ≡ text_at n j l
unfolding put
text_at-put n j i [] l h = refl
text_at-put n j i (c ∷ s) l h =
    text_at-put n j (i + 1) s (set l i c) (omega arith) ∙ text_at-set n j l i c (omega arith)

pub text_at-put_self :
    (i : ℕ) (s l : List ℕ) → i + length s ≤ length l → text_at (length s) i (put i s l) ≡ s
text_at-put_self i s l h =
    rw (put-overwrite i s l h, drop-take_append i l (s ++ drop (i + length s) l) (omega arith))
      (take-length_append s (drop (i + length s) l))

length-padded : (s : List ℕ) → length (c_str s) < 8 → length (padded s) ≡ 8
length-padded s h = omega (
  arith,
  length-append (c_str s) (replicate (8 - length (c_str s)) b' '),
  length-replicate {A = ℕ} (8 - length (c_str s)) b' ',
)

pub text_at-copy_blank :
    (i : ℕ) (s l : List ℕ)
    → length (c_str s) < 8
    → i + 8 ≤ length l
    → text_at 8 i (copy_blank i 8 s l) ≡ padded s
text_at-copy_blank i s l h fits =
    let e = length-padded s h in
    rw (copy_blank-put i 8 s l h) (rw e at (text_at-put_self i (padded s) l (omega (arith, e))))

pub text_at-copy_blank_ne :
    (n j i : ℕ) (s l : List ℕ)
    → length (c_str s) < 8
    → (i + 8 ≤ j) ⊎ (j + n ≤ i)
    → text_at n j (copy_blank i 8 s l) ≡ text_at n j l
text_at-copy_blank_ne n j i s l h apart =
    rw (copy_blank-put i 8 s l h)
      (text_at-put n j i (padded s) l (omega (arith, length-padded s h)))

pub length-copy_blank :
    (i : ℕ) (s l : List ℕ) → length (c_str s) < 8 → length (copy_blank i 8 s l) ≡ length l
length-copy_blank i s l h = rw (copy_blank-put i 8 s l h) (length-put i (padded s) l)

-- The four texts are shorter than their fields.
pub record IsShort (k : Scnl) : Type 0 where
  pub sta : length (c_str (sta_string k)) < 8
  pub chan : length (c_str (chan_string k)) < 8
  pub net : length (c_str (net_string k)) < 8
  pub loc : length (c_str (loc_string k)) < 8

-- Station, channel, network and location of fewer than eight characters stand in their fields of a
-- header, with spaces behind them, and any eight characters that no such field has a part in are left
-- alone.
pub copy_scnl-padded :
    (f : Floating) (k : Scnl) (h : SacHead f.Single)
    → IsShort k
    → length h.sac_string ≡ 192
    → (i : ℕ) → (8 ≤ i) × (i + 8 ≤ 24) ⊎ (32 ≤ i) × (i + 8 ≤ 160) ⊎ (176 ≤ i)
    → (text_at 8 (string_at kstnm_field) (copy_scnl f k h).sac_string ≡ padded (sta_string k))
      × (text_at 8 (string_at kcmpnm_field) (copy_scnl f k h).sac_string ≡ padded (chan_string k))
      × (text_at 8 (string_at knetwk_field) (copy_scnl f k h).sac_string ≡ padded (net_string k))
      × (text_at 8 (string_at khole_field) (copy_scnl f k h).sac_string ≡ padded (loc_string k))
      × (text_at 8 i (copy_scnl f k h).sac_string ≡ text_at 8 i h.sac_string)
unfolding copy_scnl
copy_scnl-padded f k h short len i apart =
    let a = h.sac_string in
    let b = copy_blank (string_at kstnm_field) 8 (sta_string k) a in
    let c = copy_blank (string_at kcmpnm_field) 8 (chan_string k) b in
    let d = copy_blank (string_at knetwk_field) 8 (net_string k) c in
    let la = length-copy_blank (string_at kstnm_field) (sta_string k) a short.sta in
    let lb = length-copy_blank (string_at kcmpnm_field) (chan_string k) b short.chan in
    let lc = length-copy_blank (string_at knetwk_field) (net_string k) c short.net in
    let keeps_b = λ (j : ℕ) (o : (168 ≤ j) ⊎ (j + 8 ≤ 160)).
      text_at-copy_blank_ne 8 j (string_at kcmpnm_field) (chan_string k) b short.chan
        (omega arith) in
    let keeps_c = λ (j : ℕ) (o : (176 ≤ j) ⊎ (j + 8 ≤ 168)).
      text_at-copy_blank_ne 8 j (string_at knetwk_field) (net_string k) c short.net (omega arith) in
    let keeps_d = λ (j : ℕ) (o : (32 ≤ j) ⊎ (j + 8 ≤ 24)).
      text_at-copy_blank_ne 8 j (string_at khole_field) (loc_string k) d short.loc (omega arith) in
    (
      keeps_d 0 (omega arith)
          ∙ keeps_c 0 (omega arith)
          ∙ keeps_b 0 (omega arith)
          ∙ text_at-copy_blank (string_at kstnm_field) (sta_string k) a short.sta (omega arith),
      keeps_d 160 (omega arith)
          ∙ keeps_c 160 (omega arith)
          ∙ text_at-copy_blank (string_at kcmpnm_field) (chan_string k) b short.chan
              (omega (arith, la)),
      keeps_d 168 (omega arith)
          ∙ text_at-copy_blank (string_at knetwk_field) (net_string k) c short.net
              (omega (arith, la, lb)),
      text_at-copy_blank (string_at khole_field) (loc_string k) d short.loc
          (omega (arith, la, lb, lc)),
      keeps_d i (omega arith)
          ∙ keeps_c i (omega arith)
          ∙ keeps_b i (omega arith)
          ∙ text_at-copy_blank_ne 8 i (string_at kstnm_field) (sta_string k) a short.sta
              (omega arith),
    )

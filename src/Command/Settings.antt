-- ===== src/Command/Settings.antt =====
-- proc_argv, against a command line as its settings and the input file.
use tank_convertor.Base.{
  ℕ, ◌≡◌, ◌≢◌, ◌==◌, refl, ap, ◌∙◌, inl, inr, ◌⊎◌, zero, suc, sym, All, take, Bool-cases, true,
  false, Option, none, some, List, [], ◌∷◌, map, Ordering, arith,
}
use tank_convertor.Libc.Strings.{strcmp, c_str}
use tank_convertor.Libc.Strings.Order.{strcmp-eq, eq-strcmp}
use tank_convertor.Libc.Search.Order.{Ordering-cases}
use tank_convertor.Command.{
  ConvFormat, conv_format_sac, conv_format_mseed, conv_format_mseed3, toupper, strncpy, is_same,
  argument_of, other, set_format, set_path, read, read_last, read_arguments, conv_format_of, chosen,
  refused, check_options, proc_argv,
}

-- `-f format` and `-o outpath`.
pub data Setting : Type 0 where
  with_format with_path : List ℕ → Setting

abbrev pub command_line : List Setting → List ℕ → List (List ℕ)
command_line [] file = file ∷ []
command_line (with_format a ∷ ss) file = (b'-' ∷ b'f' ∷ []) ∷ a ∷ command_line ss file
command_line (with_path a ∷ ss) file = (b'-' ∷ b'o' ∷ []) ∷ a ∷ command_line ss file

-- What the last `-f` names, and what the last `-o` does.
abbrev pub last_format : Option (List ℕ) → List Setting → Option (List ℕ)
last_format d [] = d
last_format d (with_format a ∷ ss) = last_format (some a) ss
last_format d (with_path a ∷ ss) = last_format d ss

abbrev pub last_path : List ℕ → List Setting → List ℕ
last_path d [] = d
last_path d (with_format a ∷ ss) = last_path d ss
last_path d (with_path a ∷ ss) = last_path (strncpy 255 a) ss

-- The first 15 characters of a name in capitals.
abbrev pub capitals : List ℕ → List ℕ
capitals a = map toupper (strncpy 15 a)

abbrev pub sac : List ℕ
sac = b'S' ∷ b'A' ∷ b'C' ∷ []

abbrev pub mseed : List ℕ
mseed = b'M' ∷ b'S' ∷ b'E' ∷ b'E' ∷ b'D' ∷ []

abbrev pub mseed3 : List ℕ
mseed3 = b'M' ∷ b'S' ∷ b'E' ∷ b'E' ∷ b'D' ∷ b'3' ∷ []

-- The format that is asked for, if there is one of that name.
pub data IsAsked : Option (List ℕ) → Option ConvFormat → Type 0 where
  by_default : IsAsked none (some conv_format_sac)
  for_empty : {a : List ℕ} → capitals a ≡ [] → IsAsked (some a) (some conv_format_sac)
  for_sac : {a : List ℕ} → capitals a ≡ sac → IsAsked (some a) (some conv_format_sac)
  for_mseed : {a : List ℕ} → capitals a ≡ mseed → IsAsked (some a) (some conv_format_mseed)
  for_mseed3 : {a : List ℕ} → capitals a ≡ mseed3 → IsAsked (some a) (some conv_format_mseed3)
  for_none :
      {a : List ℕ}
      → capitals a ≢ []
      → capitals a ≢ sac
      → capitals a ≢ mseed
      → capitals a ≢ mseed3
      → IsAsked (some a) none

abbrev IsText : List ℕ → Type 0
IsText s = All (λ c. c ≢ 0) s

c_str-IsText : (s : List ℕ) → IsText (c_str s)
unfolding c_str
c_str-IsText [] = tt
c_str-IsText (c ∷ s) = elim (Bool-cases (c == 0)) [
  | inl ends ↦ rw (ends, c_str) tt
  | inr goes_on ↦ rw (goes_on, c_str) (ground arith, c_str-IsText s)
]

take-IsText : (n : ℕ) (s : List ℕ) → IsText s → IsText (take n s)
take-IsText zero s a = tt
take-IsText (suc n) [] a = tt
take-IsText (suc n) (c ∷ s) a = (a.0, take-IsText n s a.1)

map-IsText : (s : List ℕ) → IsText s → IsText (map toupper s)
unfolding toupper
map-IsText [] a = tt
map-IsText (c ∷ s) a = (ground (arith, a.0), map-IsText s a.1)

capitals-IsText : (a : List ℕ) → IsText (capitals a)
unfolding strncpy
capitals-IsText a = map-IsText _ (take-IsText 15 (c_str a) (c_str-IsText a))

text_same : (s : List ℕ) → IsText s → c_str s ≡ s
unfolding c_str
text_same [] a = refl
text_same (c ∷ s) a =
    let goes_on : (c == 0) ≡ false = ground (arith, a.0) in
    rw (goes_on, c_str) (ap (λ l. c ∷ l) (text_same s a.1))

-- `!strcmp(a, b)` says whether two texts are the same.
is_same-cases :
    (a b : List ℕ)
    → IsText a
    → IsText b
    → ((is_same a b ≡ true) × (a ≡ b)) ⊎ ((is_same a b ≡ false) × (a ≢ b))
unfolding is_same
is_same-cases a b u v =
    let same =
      λ (e : strcmp a b ≡ Ordering.eq). sym (text_same a u) ∙ strcmp-eq a b e ∙ text_same b v in
    let back = λ (e : a ≡ b). eq-strcmp a b (ap c_str e) in
    elim (Ordering-cases (strcmp a b)) [
      | inl lt ↦ inr (rw (lt, is_same) refl, λ e. ground (arith, lt, back e))
      | inr (inl eq) ↦ inl (rw (eq, is_same) refl, same eq)
      | inr (inr gt) ↦ inr (rw (gt, is_same) refl, λ e. ground (arith, gt, back e))
    ]

given : Option (List ℕ) → List ℕ
given none = []
given (some a) = capitals a

nothing_given : conv_format_of [] ≡ some conv_format_sac
unfolding conv_format_of is_same strcmp
nothing_given = refl

sac-IsText : IsText sac
sac-IsText = (omega arith, (omega arith, (omega arith, tt)))

mseed-IsText : IsText mseed
mseed-IsText = (omega arith, (omega arith, (omega arith, (omega arith, (omega arith, tt)))))

mseed3-IsText : IsText mseed3
mseed3-IsText =
    (omega arith, (omega arith, (omega arith, (omega arith, (omega arith, (omega arith, tt))))))

named-IsAsked : (a s : List ℕ) → capitals a ≡ s → IsText s → IsAsked (some a) (conv_format_of s)
unfolding conv_format_of
named-IsAsked a [] e u = rw nothing_given (for_empty e)
named-IsAsked a (c ∷ s) e u =
    let different : capitals a ≢ [] =
      λ (n : capitals a ≡ []). (let off : c ∷ s ≡ [] = sym e ∙ n in ground arith) in
    elim (is_same-cases (c ∷ s) sac u sac-IsText) [
      | inl (is_sac, x) ↦ rw (conv_format_of, is_sac) (for_sac (e ∙ x))
      | inr (not_sac, nx) ↦ elim (is_same-cases (c ∷ s) mseed u mseed-IsText) [
        | inl (is_mseed, y) ↦ rw (conv_format_of, not_sac, is_mseed) (for_mseed (e ∙ y))
        | inr (not_mseed, ny) ↦ elim (is_same-cases (c ∷ s) mseed3 u mseed3-IsText) [
          | inl (is_mseed3, z) ↦
              rw (conv_format_of, not_sac, not_mseed, is_mseed3) (for_mseed3 (e ∙ z))
          | inr (not_mseed3, nz) ↦
              rw (conv_format_of, not_sac, not_mseed, not_mseed3)
                (for_none different (λ h. nx (sym e ∙ h)) (λ h. ny (sym e ∙ h))
                  (λ h. nz (sym e ∙ h)))
        ]
      ]
    ]

given-IsAsked : (d : Option (List ℕ)) → IsAsked d (conv_format_of (given d))
unfolding given
given-IsAsked none = rw nothing_given by_default
given-IsAsked (some a) = named-IsAsked a (capitals a) refl (capitals-IsText a)

read_arguments-command_line :
    (ss : List Setting) (file : List ℕ) (d : Option (List ℕ)) (p : List ℕ) (i : Option (List ℕ))
    → argument_of file ≡ other
    → read_arguments
        (command_line ss file)
        (record { outformat = given d; out_path = p; input_file = i })
      ≡ read (record {
        outformat = given (last_format d ss);
        out_path = last_path p ss;
        input_file = some file;
      })
unfolding read_arguments read_last set_format set_path argument_of is_same strcmp given
read_arguments-command_line [] file d p i h = rw (h, read_last) refl
read_arguments-command_line (with_format a ∷ ss) file d p i h =
    read_arguments-command_line ss file (some a) p i h
read_arguments-command_line (with_path a ∷ ss) file d p i h =
    read_arguments-command_line ss file d (strncpy 255 a) i h

-- On any settings and an input file that is not itself an option, proc_argv gives the format whose
-- name the first 15 characters after the last `-f` are in letters of either case, SAC if they are none
-- or there is no `-f`, the path of the last `-o`, none without one, and the input file; it returns -1
-- if they are neither SAC nor MSEED nor MSEED3.
pub proc_argv-command_line :
    (ss : List Setting) (file : List ℕ)
    → argument_of file ≡ other
    → (format : Option ConvFormat) × IsAsked (last_format none ss) format
      × (proc_argv (command_line ss file) ≡ elim format [
        | none ↦ refused
        | some c ↦
            chosen (record { conv_format = c; out_path = last_path [] ss; input_file = file })
      ])
unfolding proc_argv check_options given
proc_argv-command_line ss file h =
    let format = conv_format_of (given (last_format none ss)) in
    (
      format,
      given-IsAsked (last_format none ss),
      rw (proc_argv, read_arguments-command_line ss file none [] none h, check_options) refl,
    )

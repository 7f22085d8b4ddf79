-- ===== src/Command.antt =====
-- src/tbconvert.c: proc_argv and the three output formats of include/tbconvert.h.
pub mod Settings
pub mod Usage
use tank_convertor.Base.{
  ℕ, ◌-◌, Bool, true, false, ◌&&◌, ◌||◌, leb, if◌then◌else◌, Option, none, some, List, [], ◌∷◌, map,
  take, Ordering,
}
use tank_convertor.Libc.Strings.{strcmp, c_str}

abbrev pub max_path_length : ℕ
max_path_length = 256

-- The values of `ConvFormat`.
pub data ConvFormat : Type 0 where
  conv_format_sac conv_format_mseed conv_format_mseed3 : ConvFormat

-- `!strcmp(a, b)`
unfoldable pub is_same : List ℕ → List ℕ → Bool
is_same a b = elim (strcmp a b) [ Ordering.eq ↦ true | _ ↦ false ]

-- toupper of <ctype.h>, in the C locale.
unfoldable pub toupper : ℕ → ℕ
toupper c = if leb b'a' c && leb c b'z' then c - 32 else c

-- strncpy of at most `n` characters into zero bytes, as the string that is there afterwards.
unfoldable pub strncpy : ℕ → List ℕ → List ℕ
strncpy n s = take n (c_str s)

-- The tests of the loop, in their order.
pub data Argument : Type 0 where
  version help format path other : Argument

unfoldable pub argument_of : List ℕ → Argument
argument_of a =
    if is_same a (b'-' ∷ b'v' ∷ [])
    then version
    else if is_same a (b'-' ∷ b'h' ∷ [])
    then help
    else if is_same a (b'-' ∷ b'f' ∷ [])
    then format
    else if is_same a (b'-' ∷ b'o' ∷ [])
    then path
    else other

-- `outformat` and the static variables `OutPath` and `InputFile`.
pub record Options : Type 0 where
  pub outformat : List ℕ
  pub out_path : List ℕ
  pub input_file : Option (List ℕ)

unfoldable pub set_format : List ℕ → Options → Options
set_format a o = record o { outformat = map toupper (strncpy 15 a) }

unfoldable pub set_path : List ℕ → Options → Options
set_path a o = record o { out_path = strncpy (max_path_length - 1) a }

-- How the loop ends: with the variables, by exit(0), by `return -1`, or with a strncpy from the null
-- pointer behind the last argument.
pub data Read : Type 0 where
  read : Options → Read
  exits : Read
  unknown_option : Read
  crashes : Read

unfoldable pub read_last : Argument → List ℕ → Options → Read
read_last version a o = exits
read_last help a o = exits
read_last format a o = crashes
read_last path a o = crashes
read_last other a o = read (record o { input_file = some a })

-- The loop over the arguments that are left.
unfoldable pub read_arguments : List (List ℕ) → Options → Read
read_arguments [] o = read o
read_arguments (a ∷ []) o = read_last (argument_of a) a o
read_arguments (a ∷ b ∷ rest) o = elim (argument_of a) [
  | version ↦ exits
  | help ↦ exits
  | format ↦ read_arguments rest (set_format b o)
  | path ↦ read_arguments rest (set_path b o)
  | other ↦ unknown_option
]

abbrev is_empty : List ℕ → Bool
is_empty [] = true
is_empty (c ∷ s) = false

-- The comparisons at the end; `none` is the `return -1` of an unknown format.
unfoldable pub conv_format_of : List ℕ → Option ConvFormat
conv_format_of given =
    let outformat = if is_empty given then b'S' ∷ b'A' ∷ b'C' ∷ [] else given in
    let mseed = b'M' ∷ b'S' ∷ b'E' ∷ b'E' ∷ b'D' ∷ [] in
    let mseed3 = b'M' ∷ b'S' ∷ b'E' ∷ b'E' ∷ b'D' ∷ b'3' ∷ [] in
    if is_same outformat (b'S' ∷ b'A' ∷ b'C' ∷ [])
    then some conv_format_sac
    else (if is_same outformat mseed || is_same outformat mseed3
        then some (if is_same outformat mseed then conv_format_mseed else conv_format_mseed3)
        else none)

-- What proc_argv leaves in `ConvFormat`, `OutPath` and `InputFile`.
pub record Chosen : Type 0 where
  pub conv_format : ConvFormat
  pub out_path : List ℕ
  pub input_file : List ℕ

-- The result 0, the result -1, an exit and a fault.
pub data Command : Type 0 where
  chosen : Chosen → Command
  refused : Command
  exited : Command
  faulted : Command

unfoldable pub check_options : Options → Command
check_options o = elim (o.input_file) [
  | none ↦ refused
  | some file ↦ elim (conv_format_of o.outformat) [
    | none ↦ refused
    | some c ↦ chosen (record { conv_format = c; out_path = o.out_path; input_file = file })
  ]
]

-- The arguments behind the name of the program.
unfoldable pub proc_argv : List (List ℕ) → Command
proc_argv args =
    elim (read_arguments args (record { outformat = []; out_path = []; input_file = none })) [
      | read o ↦ check_options o
      | exits ↦ exited
      | unknown_option ↦ refused
      | crashes ↦ faulted
    ]

-- ===== src/Sac.antt =====
-- include/sachead.h: the header of a SAC file, and the constants that the program puts there.
pub mod Layout
pub mod Fill
pub mod Calendar
pub mod Head
pub mod Samples
pub mod Extract
pub mod Output
pub mod Interface
use tank_convertor.Base.{ℕ, zero, suc, ◌+◌, ◌*◌, List, [], ◌∷◌, set, replicate, ℤ, pos, negsuc}
use tank_convertor.Floating.{Floating}
use tank_convertor.Sac.Layout.{FloatField, IntField, float_at, int_at}

abbrev pub sacheadersize : ℕ
sacheadersize = 632

abbrev pub sacversion : ℤ
sacversion = pos 6

abbrev pub sac_i_d : ℤ
sac_i_d = pos 2

-- sizeof(SACWORD)
abbrev pub sacword_size : ℕ
sacword_size = 4

abbrev pub sacundef : ℤ
sacundef = negsuc 12344

abbrev pub sacstrundef : List ℕ
sacstrundef = b'-' ∷ b'1' ∷ b'2' ∷ b'3' ∷ b'4' ∷ b'5' ∷ b' ' ∷ b' ' ∷ []

abbrev pub kevnmlen : ℕ
kevnmlen = 16

abbrev pub k_len : ℕ
k_len = 8

abbrev pub sac_iunkn : ℤ
sac_iunkn = pos 5

-- The other types of data: displacement, velocity, acceleration and volts.
abbrev sac_idisp : ℤ
sac_idisp = pos 6

abbrev sac_ivel : ℤ
sac_ivel = pos 7

abbrev sac_iacc : ℤ
sac_iacc = pos 8

abbrev sac_ivolts : ℤ
sac_ivolts = pos 50

abbrev sac_io : ℤ
sac_io = pos 11

abbrev pub sac_ibegintime : ℤ
sac_ibegintime = pos 9

abbrev pub sac_itime : ℤ
sac_itime = pos 1

abbrev pub num_float : ℕ
num_float = 70

abbrev pub maxint : ℕ
maxint = 40

abbrev pub maxstring : ℕ
maxstring = 24

-- A header as a `struct SAChead2`: three arrays, the last one of `maxstring * k_len` characters. A
-- field of `struct SAChead` is an index into one of them.
pub record SacHead (F : Type 0) : Type 0 where
  pub sac_float : List F
  pub sac_int : List ℤ
  pub sac_string : List ℕ

module _ {F : Type 0} where
  abbrev pub set_float : FloatField → F → SacHead F → SacHead F
  set_float i v h = record h { sac_float = set h.sac_float (float_at i) v }

  abbrev pub set_int : IntField → ℤ → SacHead F → SacHead F
  set_int i v h = record h { sac_int = set h.sac_int (int_at i) v }

  abbrev pub set_string : (List ℕ → List ℕ) → SacHead F → SacHead F
  set_string g h = record h { sac_string = g h.sac_string }

-- A header of zero bytes.
abbrev pub zero_head : (f : Floating) → SacHead f.Single
zero_head f = record {
  sac_float = replicate num_float (f.single_of_bits 0);
  sac_int = replicate maxint (pos 0);
  sac_string = replicate (maxstring * k_len) 0;
}

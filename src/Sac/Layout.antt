-- ===== src/Sac/Layout.antt =====
-- include/sachead.h: the fields of `struct SAChead` and where each stands in the arrays of
-- `struct SAChead2`, which has the same bytes.
use tank_convertor.Base.{ℕ, ◌+◌}

-- The lengths of the blank fields.
abbrev sactemp4 : ℕ
sactemp4 = 11

abbrev pub sactemp6 : ℕ
sactemp6 = 3

abbrev pub sactemp7 : ℕ
sactemp7 = 10

-- The floating-point fields, in the order of the declaration.
pub data FloatField : Type 0 where
  delta_field depmin_field depmax_field scale_field odelta_field b_field : FloatField
  e_field o_field a_field internal1_field t0_field t1_field t2_field t3_field : FloatField
  t4_field t5_field t6_field t7_field t8_field t9_field f_field resp0_field : FloatField
  resp1_field resp2_field resp3_field resp4_field resp5_field resp6_field : FloatField
  resp7_field resp8_field resp9_field stla_field stlo_field stel_field : FloatField
  stdp_field evla_field evlo_field evel_field evdp_field blank1_field : FloatField
  user0_field user1_field user2_field user3_field user4_field user5_field : FloatField
  user6_field user7_field user8_field user9_field dist_field az_field baz_field : FloatField
  gcarc_field internal2_field internal3_field depmen_field cmpaz_field : FloatField
  cmpinc_field blank4_field : FloatField

-- The index in `SACfloat`.
abbrev pub float_at : FloatField → ℕ
float_at delta_field = 0
float_at depmin_field = 1
float_at depmax_field = 2
float_at scale_field = 3
float_at odelta_field = 4
float_at b_field = 5
float_at e_field = 6
float_at o_field = 7
float_at a_field = 8
float_at internal1_field = 9
float_at t0_field = 10
float_at t1_field = 11
float_at t2_field = 12
float_at t3_field = 13
float_at t4_field = 14
float_at t5_field = 15
float_at t6_field = 16
float_at t7_field = 17
float_at t8_field = 18
float_at t9_field = 19
float_at f_field = 20
float_at resp0_field = 21
float_at resp1_field = 22
float_at resp2_field = 23
float_at resp3_field = 24
float_at resp4_field = 25
float_at resp5_field = 26
float_at resp6_field = 27
float_at resp7_field = 28
float_at resp8_field = 29
float_at resp9_field = 30
float_at stla_field = 31
float_at stlo_field = 32
float_at stel_field = 33
float_at stdp_field = 34
float_at evla_field = 35
float_at evlo_field = 36
float_at evel_field = 37
float_at evdp_field = 38
float_at blank1_field = 39
float_at user0_field = 40
float_at user1_field = 41
float_at user2_field = 42
float_at user3_field = 43
float_at user4_field = 44
float_at user5_field = 45
float_at user6_field = 46
float_at user7_field = 47
float_at user8_field = 48
float_at user9_field = 49
float_at dist_field = 50
float_at az_field = 51
float_at baz_field = 52
float_at gcarc_field = 53
float_at internal2_field = 54
float_at internal3_field = 55
float_at depmen_field = 56
float_at cmpaz_field = 57
float_at cmpinc_field = 58
float_at blank4_field = 59

-- The integer fields, in the order of the declaration.
pub data IntField : Type 0 where
  nzyear_field nzjday_field nzhour_field nzmin_field nzsec_field nzmsec_field : IntField
  internal4_field internal5_field internal6_field npts_field internal7_field : IntField
  internal8_field blank6_field iftype_field idep_field iztype_field : IntField
  iblank6a_field iinst_field istreg_field ievreg_field ievtyp_field iqual_field : IntField
  isynth_field blank7_field leven_field lpspol_field lovrok_field lcalda_field : IntField
  lblank1_field : IntField

-- The index in `SACint`.
abbrev pub int_at : IntField → ℕ
int_at nzyear_field = 0
int_at nzjday_field = 1
int_at nzhour_field = 2
int_at nzmin_field = 3
int_at nzsec_field = 4
int_at nzmsec_field = 5
int_at internal4_field = 6
int_at internal5_field = 7
int_at internal6_field = 8
int_at npts_field = 9
int_at internal7_field = 10
int_at internal8_field = 11
int_at blank6_field = 12
int_at iftype_field = 12 + sactemp6
int_at idep_field = 13 + sactemp6
int_at iztype_field = 14 + sactemp6
int_at iblank6a_field = 15 + sactemp6
int_at iinst_field = 16 + sactemp6
int_at istreg_field = 17 + sactemp6
int_at ievreg_field = 18 + sactemp6
int_at ievtyp_field = 19 + sactemp6
int_at iqual_field = 20 + sactemp6
int_at isynth_field = 21 + sactemp6
int_at blank7_field = 22 + sactemp6
int_at leven_field = 22 + sactemp6 + sactemp7
int_at lpspol_field = 23 + sactemp6 + sactemp7
int_at lovrok_field = 24 + sactemp6 + sactemp7
int_at lcalda_field = 25 + sactemp6 + sactemp7
int_at lblank1_field = 26 + sactemp6 + sactemp7

-- The text fields, in the order of the declaration.
pub data StringField : Type 0 where
  kstnm_field kevnm_field khole_field ko_field ka_field kt0_field kt1_field : StringField
  kt2_field kt3_field kt4_field kt5_field kt6_field kt7_field kt8_field : StringField
  kt9_field kf_field kuser0_field kuser1_field kuser2_field kcmpnm_field : StringField
  knetwk_field kdatrd_field kinst_field : StringField

-- The index of the first character in `SACstring`.
abbrev pub string_at : StringField → ℕ
string_at kstnm_field = 0
string_at kevnm_field = 8
string_at khole_field = 24
string_at ko_field = 32
string_at ka_field = 40
string_at kt0_field = 48
string_at kt1_field = 56
string_at kt2_field = 64
string_at kt3_field = 72
string_at kt4_field = 80
string_at kt5_field = 88
string_at kt6_field = 96
string_at kt7_field = 104
string_at kt8_field = 112
string_at kt9_field = 120
string_at kf_field = 128
string_at kuser0_field = 136
string_at kuser1_field = 144
string_at kuser2_field = 152
string_at kcmpnm_field = 160
string_at knetwk_field = 168
string_at kdatrd_field = 176
string_at kinst_field = 184

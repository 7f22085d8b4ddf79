-- ===== src/Header/Datatypes.antt =====
-- include/trace_buf.h: the data quality flags and the table of the CSS data types.
use tank_convertor.Base.{ℕ, Option, none, some}
use tank_convertor.Memory.{Endian, little, big}

-- "Byte 0 of data quality flags, as in SEED format"
pub data QualityFlag : Type 0 where
  amplifier_saturated digitizer_clipped spikes_detected glitches_detected : QualityFlag
  missing_data_present telemetry_synch_error filter_charging time_tag_questionable : QualityFlag

abbrev pub flag_value : QualityFlag → ℕ
flag_value amplifier_saturated = 1
flag_value digitizer_clipped = 2
flag_value spikes_detected = 4
flag_value glitches_detected = 8
flag_value missing_data_present = 16
flag_value telemetry_synch_error = 32
flag_value filter_charging = 64
flag_value time_tag_questionable = 128

-- "CSS datatype codes"
pub data CssDatatype : Type 0 where
  sun_single sun_double sun_integer sun_short : CssDatatype
  vax_single vax_double vax_integer vax_short noress_gain_ranged : CssDatatype

-- The two characters of the code.
abbrev pub code_of : CssDatatype → ℕ × ℕ
code_of sun_single = (b't', b'4')
code_of sun_double = (b't', b'8')
code_of sun_integer = (b's', b'4')
code_of sun_short = (b's', b'2')
code_of vax_single = (b'f', b'4')
code_of vax_double = (b'f', b'8')
code_of vax_integer = (b'i', b'4')
code_of vax_short = (b'i', b'2')
code_of noress_gain_ranged = (b'g', b'2')

-- What the table says of the samples: the byte order of the machines named, and the width. The
-- gain-ranged ones are no numbers of C.
abbrev pub layout_of : CssDatatype → Option (Endian × ℕ)
layout_of sun_single = some (big, 4)
layout_of sun_double = some (big, 8)
layout_of sun_integer = some (big, 4)
layout_of sun_short = some (big, 2)
layout_of vax_single = some (little, 4)
layout_of vax_double = some (little, 8)
layout_of vax_integer = some (little, 4)
layout_of vax_short = some (little, 2)
layout_of noress_gain_ranged = none

-- ===== src/Tests/Main.antt =====
-- The conversion of the trace of Tests.Sac.
use tank_convertor.Base.{refl, true, false, none, some, [], ◌∷◌, pos, arith}
use tank_convertor.Memory.{big}
use tank_convertor.Floating.{whole}
use tank_convertor.Walk.{Scanned}
use tank_convertor.Command.{Chosen, conv_format_sac}
use tank_convertor.Main.{Machine, convert_traces}
use tank_convertor.Header.Datatypes.{sun_integer, layout_of}
use tank_convertor.Main.Datatypes.{Understood, datatypes-Understood}
use tank_convertor.Main.Totals.{Counted, convert_traces-Counted}
use tank_convertor.Tests.Sac.{tank, node, willing}
use tank_convertor.Tests.Mseed.{keeper}

abbrev machine : Machine whole
machine = record {
  host = big;
  system = λ _. willing;
  alloc = λ _ _. true;
  scan_alloc = λ _. true;
  open_file = λ _. some (record { st_size = 144; mapped = some tank });
  stat = λ _. false;
  tankstart = 0;
  now = λ _. pos 0;
}

abbrev found : Scanned whole
found = record { nodes = node ∷ []; trace_list = some 0 ∷ none ∷ []; totaltrace = 1; mem = tank }

abbrev wanted : Chosen
wanted = record { conv_format = conv_format_sac; input_file = b'a' ∷ []; out_path = [] }

convert_traces-Counted_example :
    Counted whole keeper machine found 1 (convert_traces whole keeper machine wanted found)
convert_traces-Counted_example =
    convert_traces-Counted whole keeper machine found wanted (omega arith)

-- The samples of the first tracebuf: integers of four bytes, most significant first.
datatypes-Understood_example : Understood whole keeper big tank 0 (layout_of sun_integer)
datatypes-Understood_example =
    datatypes-Understood whole keeper big tank 0 sun_integer refl refl refl

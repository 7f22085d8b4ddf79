-- ===== src/Tests/Conversion.antt =====
-- The tank of Tests.Noise, converted to miniSEED.
use tank_convertor.Base.{ℕ, ◌≡◌, refl, true, false, some, List, [], ◌∷◌, length, arith, pos}
use tank_convertor.Memory.{little}
use tank_convertor.Floating.{whole}
use tank_convertor.Libc.Strings.{strcmp, c_str}
use tank_convertor.Swap.MakeLocal.{undefine}
use tank_convertor.Scan.Rounds.{all_of_trace}
use tank_convertor.Walk.{Scanned, scanned, scan_tracebuf}
use tank_convertor.Walk.Inventory.{IsInventory}
use tank_convertor.Command.{
  conv_format_mseed, Chosen, chosen, toupper, strncpy, argument_of, is_same, conv_format_of,
  set_format, read_arguments, read_last, check_options, proc_argv,
}
use tank_convertor.OutPath.{
  strrchr, real_filename, replace_dot, in_result, mseed_suffix, msproc_outpath_gen,
}
use tank_convertor.Main.{Machine, main}
use tank_convertor.Main.Collected.{steps, tank_list}
use tank_convertor.Main.Whole.{begun, mseed_output, main-tank_list}
use tank_convertor.Tests.Mseed.{keeper}
use tank_convertor.Tests.Noise.{noisy, held, noisy-Tank, all_numbers}
use tank_convertor.Tests.Sac.{willing}
use tank_convertor.Tests.Walk.{whole-IsOrdered}

abbrev machine : Machine whole
machine = record {
  host = little;
  system = λ _. willing;
  alloc = λ _ _. true;
  scan_alloc = λ _. true;
  open_file = λ _. some (record { st_size = 75; mapped = some noisy });
  stat = λ _. false;
  tankstart = 0;
  now = λ _. pos 0;
}

-- `-f mseed a`
abbrev arguments : List (List ℕ)
arguments = (b'-' ∷ b'f' ∷ []) ∷ (b'm' ∷ b's' ∷ b'e' ∷ b'e' ∷ b'd' ∷ []) ∷ (b'a' ∷ []) ∷ []

abbrev wanted : Chosen
wanted = record { conv_format = conv_format_mseed; input_file = b'a' ∷ []; out_path = [] }

arguments-wanted : proc_argv arguments ≡ chosen wanted
unfolding proc_argv check_options conv_format_of read_arguments read_last set_format argument_of
    is_same strcmp toupper strncpy c_str
arguments-wanted = refl

path-short : msproc_outpath_gen (b'a' ∷ []) [] ≡ some (b'.' ∷ b'/' ∷ b'a' ∷ mseed_suffix)
unfolding msproc_outpath_gen in_result real_filename strrchr replace_dot
path-short = refl

main-tank_list_example :
    (r : Scanned whole) × (scan_tracebuf whole (λ _. true) little undefine noisy 0 75 4 ≡ scanned r)
    × (v : IsInventory whole held r) × (main whole keeper machine 4 arguments
        ≡ mseed_output whole keeper
            (b'.' ∷ b'/' ∷ b'a' ∷ mseed_suffix)
            conv_format_mseed
            (tank_list whole keeper machine noisy r v.pointers [])
            (steps 2 (steps (length v.pointers) (begun (length v.pointers)))))
main-tank_list_example =
    main-tank_list whole keeper machine noisy 75 held arguments wanted
      (b'.' ∷ b'/' ∷ b'a' ∷ mseed_suffix) (λ _. Unit) (λ i. refl) (λ i j. refl) arguments-wanted
      (λ e. ground arith) path-short refl noisy-Tank tt (omega arith) (omega arith) (omega arith)
      whole-IsOrdered (λ k. all_numbers (all_of_trace k held)) 4 (omega arith)

-- ===== src/Tests/Command.antt =====
-- proc_argv on a command line with two settings.
use tank_convertor.Base.{Option, none, some, ℕ, ◌≡◌, refl, List, [], ◌∷◌}
use tank_convertor.Libc.Strings.{strcmp}
use tank_convertor.Command.{ConvFormat, chosen, refused, is_same, argument_of, other, proc_argv}
use tank_convertor.Command.Settings.{
  Setting, with_format, with_path, command_line, last_format, last_path, IsAsked,
  proc_argv-command_line,
}

abbrev settings : List Setting
settings =
    with_format (b'm' ∷ b's' ∷ b'e' ∷ b'e' ∷ b'd' ∷ [])
    ∷ with_path (b'/' ∷ b't' ∷ b'm' ∷ b'p' ∷ [])
    ∷ []

abbrev tankfile : List ℕ
tankfile = b'a' ∷ b'.' ∷ b't' ∷ b'n' ∷ b'k' ∷ []

tankfile-other : argument_of tankfile ≡ other
unfolding argument_of is_same strcmp
tankfile-other = refl

proc_argv-command_line_example :
    (format : Option ConvFormat) × IsAsked (last_format none settings) format
    × (proc_argv (command_line settings tankfile) ≡ elim format [
      | none ↦ refused
      | some c ↦
          chosen
            (record { conv_format = c; out_path = last_path [] settings; input_file = tankfile })
    ])
proc_argv-command_line_example = proc_argv-command_line settings tankfile tankfile-other

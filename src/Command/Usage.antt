-- ===== src/Command/Usage.antt =====
-- src/tbconvert.c: the lines that usage and the option -v print. The names of the program are those of
-- include/tbconvert.h.
use Prim.Native.String.{String, ◌++◌}
use tank_convertor.Base.{List, [], ◌∷◌}

abbrev prog_name : String
prog_name = "tbconvert"

abbrev version : String
version = "1.0.0 - 2022-09-15"

abbrev author : String
author = "Benjamin Ming Yang"

-- "Report program version"
abbrev pub version_lines : List String
version_lines = prog_name ∷ ("version: " ++ version) ∷ ("author:  " ++ author) ∷ []

abbrev pub options_lines : List String
options_lines =
    "*** Options ***" ∷ " -v             Report program version"
    ∷ " -h             Show this usage message"
    ∷ " -f format      Specify converting format, there are SAC, MSEED & MSEED3"
    ∷ " -o outpath     Specify the output path" ∷ ""
    ∷ "This program convert the tank format file into SAC or miniSEED." ∷ "" ∷ []

unfoldable pub usage : List String
usage =
    ""
    ∷ prog_name
    ∷ ("version: " ++ version)
    ∷ ("author:  " ++ author)
    ∷ "***************************"
    ∷ ("Usage: " ++ (prog_name ++ " [options] <input tankfile>"))
    ∷ ""
    ∷ options_lines

-- ===== src/Ansi.antt =====
-- kernel/src/ansi.rs: the escape sequences, as character codes.
use neur_os.Common.{Text, codes, ◌∷◌}

abbrev pub escape : Text → Text
escape s = 0x1b ∷ s

abbrev pub blue : Text
blue = escape (codes "[38;2;0;151;230m")

abbrev pub bold : Text
bold = escape (codes "[1m")

abbrev pub default : Text
default = escape (codes "[39m")

abbrev pub green : Text
green = escape (codes "[38;2;68;189;50m")

abbrev pub normal : Text
normal = escape (codes "[0m")

abbrev pub orange : Text
orange = escape (codes "[38;2;194;54;52m")

abbrev pub purple : Text
purple = escape (codes "[38;2;140;122;230m")

abbrev pub red : Text
red = escape (codes "[38;2;232;65;24m")

abbrev pub yellow : Text
yellow = escape (codes "[38;2;251;197;49m")

-- ===== src/Console.antt =====
-- src/headers/utils.h: the diagnostics, which are printed where -v is given.
use tcp_udp_chat_server.Mail.Print.{Output, cout}
use tcp_udp_chat_server.Common.{Bool, Bytes, List, [], codes, if◌then◌else◌, ◌++◌, ◌∷◌}

-- The three insertions of one line, between the code that sets the colour and the one that resets
-- it.
unfoldable pub print_in : Bytes → Bool → Bytes → List Output
print_in colour verbose text =
    if verbose then cout (0x1b ∷ colour ++ text ++ (0x1b ∷ codes "[0m") ++ codes "\n") ∷ [] else []

unfoldable pub print_red : Bool → Bytes → List Output
print_red = print_in (codes "[1;31m")

unfoldable pub print_green : Bool → Bytes → List Output
print_green = print_in (codes "[1;32m")

unfoldable pub print_yellow : Bool → Bytes → List Output
print_yellow = print_in (codes "[1;33m")

unfoldable pub print_blue : Bool → Bytes → List Output
print_blue = print_in (codes "[1;34m")

unfoldable pub print_magenta : Bool → Bytes → List Output
print_magenta = print_in (codes "[1;35m")

unfoldable pub print_brown : Bool → Bytes → List Output
print_brown = print_in (codes "[0;33m")

unfoldable pub print_cyan : Bool → Bytes → List Output
print_cyan = print_in (codes "[1;36m")

unfoldable pub print_white : Bool → Bytes → List Output
print_white = print_in (codes "[1;37m")

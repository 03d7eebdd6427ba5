-- ===== src/ArgumentParser/Parse.antt =====
-- src/arg-parser.cpp and src/headers/arg-parser.h. What `getopt` gives, option by option, is an
-- argument: the character that it returns, and `optarg`.
use tcp_udp_chat_server.Mail.Print.{Output, cout, decimal, endl}
use tcp_udp_chat_server.ArgumentParser.Numbers.{atoi, stoi, to_uint8}
use tcp_udp_chat_server.MailBox.State.{ProtocolType, tcp, udp}
use tcp_udp_chat_server.Common.{
  pos, ◌++◌, Bool, Bytes, List, Result, [], beq, codes, false, if◌then◌else◌, not, ok, throw,
  to_uint16, true, usage_shown, ℕ, ◌==◌, ◌>>=◌, ◌||◌, ◌∷◌,
}

pub record Args : Type 0 where
  pub type : ProtocolType
  pub ip : Bytes
  pub port : ℕ
  pub timeout : ℕ
  pub retries : ℕ
  pub verbose : Bool
  pub type_set : Bool
  pub ip_set : Bool

-- The members as they are before `parse`; `junk` is the type, which has no initialiser.
unfoldable pub make_args : ProtocolType → Args
make_args junk = record {
  type = junk;
  ip = [];
  port = 4567;
  timeout = 250;
  retries = 3;
  verbose = false;
  type_set = false;
  ip_set = false;
}

-- `usage`, which exits.
abbrev pub usage : Result Args
usage = throw usage_shown

-- `case 't':`
unfoldable pub parse_type : Bytes → Args → Result Args
parse_type optarg a =
    if beq optarg (codes "tcp")
    then ok (record a { type = tcp; type_set = true })
    else if beq optarg (codes "udp")
    then ok (record a { type = udp; type_set = true })
    else usage

-- The `switch` on the option.
unfoldable pub parse_option : ℕ → Bytes → Args → Result Args
parse_option opt optarg a =
    if opt == b't'
    then parse_type optarg a
    else if opt == b's'
    then ok (record a { ip = optarg; ip_set = true })
    else if opt == b'p'
    then (stoi optarg >>= λ n. ok (record a { port = to_uint16 n }))
    else if opt == b'd'
    then (atoi optarg >>= λ n. ok (record a { timeout = to_uint16 n }))
    else if opt == b'r'
    then (atoi optarg >>= λ n. ok (record a { retries = to_uint8 n }))
    else if opt == b'v'
    then ok (record a { verbose = true })
    else usage

-- The `while` over the options.
unfoldable pub parse_options : List (ℕ × Bytes) → Args → Result Args
parse_options [] a = ok a
parse_options (o ∷ os) a = parse_option o.0 o.1 a >>= λ b. parse_options os b

-- `parse`.
unfoldable pub parse : List (ℕ × Bytes) → Args → Result Args
parse options a =
    parse_options options a >>= λ b. if not b.type_set || not b.ip_set then usage else ok b

-- `print`; a `uint8_t` is printed as the character that it codes.
unfoldable pub print_args : Args → List Output
print_args a =
    cout (codes "Protocol: " ++ codes (elim a.type [ tcp ↦ "TCP" | udp ↦ "UDP" ]) ++ endl)
    ∷ cout (codes "Server IP: " ++ a.ip ++ endl)
    ∷ cout (codes "Port: " ++ decimal (pos a.port) ++ endl)
    ∷ cout (codes "Timeout: " ++ decimal (pos a.timeout) ++ endl)
    ∷ cout (codes "Retries: " ++ a.retries ∷ endl)
    ∷ []

-- ===== src/ArgumentParser/Ranges.antt =====
-- What ArgumentParser::parse ensures.
use tcp_udp_chat_server.MailBox.State.{ProtocolType}
use tcp_udp_chat_server.Common.{
  ap, true, ◌∙◌, to_uint16-lt, >>=-eq-ok, Bool, Bytes, List, [], arith, false, if◌then◌else◌, ok, ℕ,
  ◌<◌, ◌==◌, ◌||◌, ◌∷◌, ◌≡◌,
}
use tcp_udp_chat_server.ArgumentParser.Numbers.{to_uint8-lt}
use tcp_udp_chat_server.ArgumentParser.Parse.{
  make_args, parse, Args, parse_option, parse_options, parse_type,
}

-- The numbers fit the types of the members.
pub record InRange (a : Args) : Type 0 where
  pub port_lt : a.port < 65536
  pub timeout_lt : a.timeout < 65536
  pub retries_lt : a.retries < 256

parse_option-InRange :
    (opt : ℕ) (optarg : Bytes) (a b : Args)
    → InRange a
    → parse_option opt optarg a ≡ ok b
    → InRange b
unfolding parse_option parse_type
parse_option-InRange opt optarg a b r e = record {
  port_lt = grind (arith, r.port_lt, to_uint16-lt);
  timeout_lt = grind (arith, r.timeout_lt, to_uint16-lt);
  retries_lt = grind (arith, r.retries_lt, to_uint8-lt);
}

parse_options-InRange :
    (options : List (ℕ × Bytes)) (a b : Args)
    → InRange a
    → parse_options options a ≡ ok b
    → InRange b
unfolding parse_options
parse_options-InRange [] a b r e = let same : b ≡ a = ground arith in rw same r
parse_options-InRange (o ∷ os) a b r e =
    let (m, p, q) = >>=-eq-ok (parse_option o.0 o.1 a) _ e in
    parse_options-InRange os m b (parse_option-InRange o.0 o.1 a m r p) q

-- Whether an option was given.
unfoldable pub given : ℕ → List (ℕ × Bytes) → Bool
given c [] = false
given c (o ∷ os) = o.0 == c || given c os

-- The argument of the last -s, or what was there before.
unfoldable pub last_ip : Bytes → List (ℕ × Bytes) → Bytes
last_ip ip [] = ip
last_ip ip (o ∷ os) = last_ip (if o.0 == b's' then o.1 else ip) os

parse_option-sets :
    (opt : ℕ) (optarg : Bytes) (a b : Args)
    → parse_option opt optarg a ≡ ok b
    → (b.type_set ≡ (a.type_set || opt == b't'))
      × (b.ip_set ≡ (a.ip_set || opt == b's'))
      × (b.ip ≡ (if opt == b's' then optarg else a.ip))
unfolding parse_option parse_type
parse_option-sets opt optarg a b e = ground arith

pub parse_options-sets :
    (options : List (ℕ × Bytes)) (a b : Args)
    → parse_options options a ≡ ok b
    → (b.type_set ≡ (a.type_set || given b't' options))
      × (b.ip_set ≡ (a.ip_set || given b's' options))
      × (b.ip ≡ last_ip a.ip options)
unfolding parse_options given last_ip
parse_options-sets [] a b e = ground arith
parse_options-sets (o ∷ os) a b e =
    let (m, p, q) = >>=-eq-ok (parse_option o.0 o.1 a) _ e in
    let (type_is, ip_is, value_is) = parse_option-sets o.0 o.1 a m p in
    let (types, ips, values) = parse_options-sets os m b q in
    (
      ground (arith, type_is, types),
      ground (arith, ip_is, ips),
      values ∙ ap (λ ip. last_ip ip os) value_is,
    )

-- Where `parse` returns, from the members as they are first set, the numbers fit their types, -t
-- and -s were given, and the address is that of the last -s.
pub parse-InRange :
    (junk : ProtocolType) (options : List (ℕ × Bytes)) (b : Args)
    → parse options (make_args junk) ≡ ok b
    → InRange b
      × (given b't' options ≡ true)
      × (given b's' options ≡ true)
      × (b.ip ≡ last_ip [] options)
unfolding parse make_args
parse-InRange junk options b e =
    let (m, p, q) = >>=-eq-ok (parse_options options (make_args junk)) _ e in
    let same : m ≡ b = ground arith in
    let (types, ips, value) = parse_options-sets options (make_args junk) m p in
    let start : InRange (make_args junk) = record {
      port_lt = omega arith;
      timeout_lt = omega arith;
      retries_lt = omega arith;
    } in
    (
      rw (← same) (parse_options-InRange options (make_args junk) m start p),
      ground (arith, types),
      ground (arith, ips),
      rw (← same) value,
    )

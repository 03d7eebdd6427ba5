-- ===== src/ArgumentParser/Numbers.antt =====
-- What ArgumentParser uses of `std::stoi` and `atoi`, and the conversions of an `int` to the types
-- of its members.
use tcp_udp_chat_server.Streams.{skip_space}
use tcp_udp_chat_server.Common.{
  out_of_bounds, Bool, Bytes, Option, Result, [], arith, false, if◌then◌else◌, leb, ltb, negsuc,
  none, not_a_number, number_out_of_range, ok, pos, some, suc, throw, zero, ℕ, ℤ, ◌%◌, ◌&&◌, ◌*◌,
  ◌+◌, ◌-◌, ◌<◌, ◌==◌, ◌^◌, ◌∷◌,
}

unfoldable pub is_digit : ℕ → Bool
is_digit c = leb b'0' c && leb c b'9'

-- The digits in front, with the value read so far.
unfoldable pub read_digits : ℕ → Bytes → ℕ
read_digits n [] = n
read_digits n (c ∷ cs) =
    let more = read_digits (n * 10 + (c - b'0')) cs in if is_digit c then more else n

unfoldable pub starts_with_digit : Bytes → Bool
starts_with_digit [] = false
starts_with_digit (c ∷ cs) = is_digit c

-- The number at the front, none where there is no digit.
unfoldable pub read_unsigned : Bytes → Option ℕ
read_unsigned s = if starts_with_digit s then some (read_digits 0 s) else none

abbrev pub negated : ℕ → ℤ
negated zero = pos zero
negated (suc n) = negsuc n

with_sign : (ℕ → ℤ) → Option ℕ → Option ℤ
with_sign sign none = none
with_sign sign (some n) = some (sign n)

-- A sign, if there is one, and the digits.
unfoldable pub read_signed : Bytes → Option ℤ
unfolding with_sign
read_signed [] = none
read_signed (c ∷ cs) =
    if c == b'-'
    then with_sign negated (read_unsigned cs)
    else if c == b'+'
    then with_sign pos (read_unsigned cs)
    else with_sign pos (read_unsigned (c ∷ cs))

abbrev pub is_int : ℤ → Bool
is_int (pos n) = ltb n (2 ^ 31)
is_int (negsuc n) = ltb n (2 ^ 31)

-- `std::stoi`
unfoldable pub stoi : Bytes → Result ℤ
stoi s = elim (read_signed (skip_space s)) [
  | none ↦ throw not_a_number
  | some n ↦ if is_int n then ok n else throw number_out_of_range
]

-- `atoi`: 0 where there is no number; its behaviour is undefined for one that is no `int`.
unfoldable pub atoi : Bytes → Result ℤ
atoi s = elim (read_signed (skip_space s)) [
  | none ↦ ok (pos 0)
  | some n ↦ if is_int n then ok n else throw out_of_bounds
]

-- The conversion of an `int` to `uint8_t`.
unfoldable pub to_uint8 : ℤ → ℕ
to_uint8 (pos n) = n % 256
to_uint8 (negsuc n) = 255 - n % 256

pub to_uint8-lt : (z : ℤ) → to_uint8 z < 256
unfolding to_uint8
to_uint8-lt (pos n) = omega arith
to_uint8-lt (negsuc n) = omega arith

-- ===== src/Net/Hex.antt =====
-- src/net.cpp, UdpProtocol::convertBufferToHexString: the text of a datagram in the log.
use tcp_udp_chat_server.Common.{
  All, Bytes, [], arith, if◌then◌else◌, length, ltb, refl, ℕ, ◌%◌, ◌*◌, ◌+◌, ◌-◌, ◌/◌, ◌<◌, ◌∷◌,
  ◌≡◌,
}

-- A digit of `std::hex`.
abbrev pub hex_digit : ℕ → ℕ
hex_digit n = if ltb n 10 then b'0' + n else (b'a' + n - 10)

-- `convertBufferToHexString`: two digits for each byte, the first a '0' if need be.
unfoldable pub convert_buffer_to_hex_string : Bytes → Bytes
convert_buffer_to_hex_string [] = []
convert_buffer_to_hex_string (c ∷ cs) =
    hex_digit (c / 16) ∷ hex_digit (c % 16) ∷ convert_buffer_to_hex_string cs

-- The value of a digit, and the bytes of a text of digits, as one reads them in the log.
unfoldable pub digit_value : ℕ → ℕ
digit_value c = if ltb c b'a' then c - b'0' else (c - b'a' + 10)

unfoldable pub from_hex : Bytes → Bytes
from_hex (c ∷ d ∷ cs) = (digit_value c * 16 + digit_value d) ∷ from_hex cs
from_hex _ = []

digit_value-hex_digit : (n : ℕ) → n < 16 → digit_value (hex_digit n) ≡ n
unfolding digit_value
digit_value-hex_digit n h = ground arith

-- Bytes below 256 can be read off the text that the log shows of them, which has two digits for
-- each.
pub from_hex-convert :
    (bytes : Bytes)
    → All (λ c. c < 256) bytes
    → (from_hex (convert_buffer_to_hex_string bytes) ≡ bytes)
      × (length (convert_buffer_to_hex_string bytes) ≡ 2 * length bytes)
unfolding convert_buffer_to_hex_string from_hex
from_hex-convert [] h = (refl, refl)
from_hex-convert (c ∷ cs) h =
    let (same, twice) = from_hex-convert cs h.1 in
    let high = digit_value-hex_digit (c / 16) (omega (arith, h.0)) in
    let low = digit_value-hex_digit (c % 16) (omega arith) in
    let first : digit_value (hex_digit (c / 16)) * 16 + digit_value (hex_digit (c % 16)) ≡ c =
      omega (arith, high, low) in
    (cc, omega (arith, twice))

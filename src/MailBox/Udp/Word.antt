-- ===== src/MailBox/Udp/Word.antt =====
-- MailBox::readUInt16 in closed form.
use tcp_udp_chat_server.Common.{
  ◌≤◌, ◌↔◌, ◌⊎◌, ℕ, zero, suc, ◌+◌, ◌*◌, ◌%◌, ◌<◌, ◌≡◌, refl, Bool, true, ◌&&◌, arith, ltb, ◌==◌,
  if◌then◌else◌,
}
use tcp_udp_chat_server.MailBox.Udp.{uint16_of}

-- The test holds of every byte below the bound.
each_byte : (test : ℕ → Bool) → (bound : ℕ) → Bool
each_byte test zero = true
each_byte test (suc bound) = each_byte test bound && test bound

each_byte-holds :
    (test : ℕ → Bool) (bound c : ℕ) → c < bound → each_byte test bound ≡ true → test c ≡ true
unfolding each_byte
each_byte-holds test zero c less h = absurd (omega arith)
each_byte-holds test (suc bound) c less h = ground (arith, each_byte-holds test bound c)

-- The value that `readUInt16` gives for the two bytes of a number.
unfoldable pub as_read : ℕ → ℕ
as_read n = if ltb (n % 256) 128 then n else 0xff00 + n % 256

agrees : ℕ → ℕ → Bool
agrees hi lo = uint16_of hi lo == as_read (hi * 256 + lo)

table : each_byte (λ hi. each_byte (agrees hi) 256) 256 ≡ true
unfolding each_byte agrees uint16_of as_read
table = refl

pub uint16_of-as_read :
    (hi lo : ℕ) → hi < 256 → lo < 256 → uint16_of hi lo ≡ as_read (hi * 256 + lo)
unfolding agrees
uint16_of-as_read hi lo h l =
    let row = each_byte-holds (λ hi. each_byte (agrees hi) 256) 256 hi h table in
    let cell = each_byte-holds (agrees hi) 256 lo l row in ground arith

-- A number survives `readUInt16` exactly when its low byte is below 128, or its high byte is 255.
pub as_read_fixed : (n : ℕ) → n < 65536 → (as_read n ≡ n) ↔ ((n % 256 < 128) ⊎ (0xff00 ≤ n))
unfolding as_read
as_read_fixed n h = (λ e. ground arith, λ s. ground arith)

pub as_read-lt : (n : ℕ) → n < 65536 → as_read n < 65536
unfolding as_read
as_read-lt n h = ground arith

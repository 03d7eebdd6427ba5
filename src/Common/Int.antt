-- ===== src/Common/Int.antt =====
-- The C++ `int`s of the program: message ids, `-1` where there is none.
use Prim.Native.Nat.{◌+◌, ℕ, ◌-◌, ◌%◌, ◌<◌}
use mathlib.Core.Path.{◌≡◌, refl}
use mathlib.Core.Logic.{◌↔◌}
use mathlib.Core.Bool.{Bool, true, false}
use native.Mathlib.Omega.{arith}
use tcp_udp_chat_server.Common.Tests.{if◌then◌else◌, ◌==◌, leb}

-- `negsuc n` is -(n + 1).
pub data ℤ : Type 0 where
  pos : ℕ → ℤ
  negsuc : ℕ → ℤ

abbrev pub eq_ℤ : ℤ → ℤ → Bool
eq_ℤ (pos a) (pos b) = a == b
eq_ℤ (negsuc a) (negsuc b) = a == b
eq_ℤ _ _ = false

abbrev pub leb_ℤ : ℤ → ℤ → Bool
leb_ℤ (pos a) (pos b) = leb a b
leb_ℤ (pos a) (negsuc b) = false
leb_ℤ (negsuc a) (pos b) = true
leb_ℤ (negsuc a) (negsuc b) = leb b a

infix 50 ◌≤ℤ◌
abbrev pub ◌≤ℤ◌ : ℤ → ℤ → Type 0
a ≤ℤ b = leb_ℤ a b ≡ true

-- `-1`.
abbrev pub minus_one : ℤ
minus_one = negsuc 0

abbrev pub u16_mod : ℕ
u16_mod = 65536

-- The conversion of an `int` to `uint16_t`.
unfoldable pub to_uint16 : ℤ → ℕ
to_uint16 (pos n) = n % u16_mod
to_uint16 (negsuc n) = u16_mod - 1 - n % u16_mod

pub to_uint16-lt : (z : ℤ) → to_uint16 z < u16_mod
unfolding to_uint16
to_uint16-lt (pos n) = omega arith
to_uint16-lt (negsuc n) = omega arith

pub eq_ℤ_iff : (a b : ℤ) → (eq_ℤ a b ≡ true) ↔ (a ≡ b)
eq_ℤ_iff (pos a) (pos b) = ground arith
eq_ℤ_iff _ _ = ground arith

-- An `int` less a count.
infixl 65 ◌-ℤ◌
unfoldable pub ◌-ℤ◌ : ℤ → ℕ → ℤ
pos a -ℤ n = if leb n a then pos (a - n) else negsuc (n - a - 1)
negsuc a -ℤ n = negsuc (a + n)

pub leb_ℤ-refl : (a : ℤ) → a ≤ℤ a
leb_ℤ-refl (pos a) = ground arith
leb_ℤ-refl (negsuc a) = ground arith

pub leb_ℤ-trans : (a b c : ℤ) → a ≤ℤ b → b ≤ℤ c → a ≤ℤ c
leb_ℤ-trans (pos a) (pos b) (pos c) h h' = ground arith
leb_ℤ-trans (pos a) (pos b) (negsuc c) h h' = cc
leb_ℤ-trans (pos a) (negsuc b) c h h' = cc
leb_ℤ-trans (negsuc a) (pos b) (pos c) h h' = refl
leb_ℤ-trans (negsuc a) (pos b) (negsuc c) h h' = cc
leb_ℤ-trans (negsuc a) (negsuc b) (pos c) h h' = refl
leb_ℤ-trans (negsuc a) (negsuc b) (negsuc c) h h' = ground arith

pub leb_ℤ-of_false : (a b : ℤ) → leb_ℤ a b ≡ false → b ≤ℤ a
leb_ℤ-of_false (pos a) (pos b) h = ground arith
leb_ℤ-of_false (pos a) (negsuc b) h = refl
leb_ℤ-of_false (negsuc a) (pos b) h = cc
leb_ℤ-of_false (negsuc a) (negsuc b) h = ground arith

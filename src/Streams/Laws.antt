-- ===== src/Streams/Laws.antt =====
-- How the stream operations read text that was put together from tokens.
use tcp_udp_chat_server.StopWatch.{stop}
use tcp_udp_chat_server.Streams.{
  c_string, get_line, is_space, read_token, skip_space, strip_return, take_token,
}
use tcp_udp_chat_server.Common.{
  append-nil, Bool, Bool-cases, Bytes, [], all, ap, arith, false, inl, inr, length, not, ok, refl,
  suc, true, zero, ℕ, ◌++◌, ◌==◌, ◌∷◌, ◌≡◌, ◌≤◌,
}

-- A byte that ends no token and no string.
abbrev pub is_solid : ℕ → Bool
is_solid c = not (is_space c)

-- A token followed by a byte that ends it.
pub take_token-all :
    (t : Bytes) (stop : ℕ) (rest : Bytes)
    → all is_solid t ≡ true
    → is_space stop ≡ true
    → take_token (t ++ stop ∷ rest) ≡ (t, stop ∷ rest)
unfolding take_token all
take_token-all [] stop rest h s = ground arith
take_token-all (c ∷ t) stop rest h s = ground (arith, take_token-all t stop rest)

pub skip_space_solid :
    (t rest : Bytes) → all is_solid t ≡ true → 1 ≤ length t → skip_space (t ++ rest) ≡ t ++ rest
unfolding skip_space all
skip_space_solid [] rest h l = absurd (omega arith)
skip_space_solid (c ∷ t) rest h l = ground arith

-- `>>` reads a token that stands first.
pub read_token_first :
    (t : Bytes) (stop : ℕ) (rest : Bytes)
    → all is_solid t ≡ true
    → 1 ≤ length t
    → is_space stop ≡ true
    → read_token (t ++ stop ∷ rest) ≡ (t, stop ∷ rest)
unfolding read_token
read_token_first t stop rest h l s =
    rw (skip_space_solid t (stop ∷ rest) h l) (take_token-all t stop rest h s)

-- `>>` passes over the blank in front of a token.
pub read_token_next :
    (t : Bytes) (stop : ℕ) (rest : Bytes)
    → all is_solid t ≡ true
    → 1 ≤ length t
    → is_space stop ≡ true
    → read_token (b' ' ∷ (t ++ stop ∷ rest)) ≡ (t, stop ∷ rest)
unfolding read_token skip_space is_space
read_token_next t stop rest h l s =
    rw (skip_space_solid t (stop ∷ rest) h l) (take_token-all t stop rest h s)

-- A byte outside a class is none of its members.
outside_class : (cls : ℕ → Bool) (c d : ℕ) → cls d ≡ false → cls c ≡ true → (c == d) ≡ false
outside_class cls c d z h = elim (Bool-cases (c == d)) [
  | inl e ↦ let f : c ≡ d = ground arith in let k : cls d ≡ true = rw f at h in cc
  | inr n ↦ n
]

pub get_line-all :
    (cls : ℕ → Bool) (s rest : Bytes)
    → cls b'\n' ≡ false
    → all cls s ≡ true
    → get_line (s ++ b'\r' ∷ b'\n' ∷ rest) ≡ s ++ b'\r' ∷ []
unfolding get_line all
get_line-all cls [] rest z h = refl
get_line-all cls (c ∷ s) rest z h =
    ground (arith, outside_class cls c b'\n' z, get_line-all cls s rest z)

pub strip_return-append : (s : Bytes) → strip_return (s ++ b'\r' ∷ []) ≡ s
unfolding strip_return
strip_return-append [] = refl
strip_return-append (c ∷ []) = refl
strip_return-append (c ∷ d ∷ s) = ap (◌∷◌ c) (strip_return-append (d ∷ s))

pub c_string-all :
    (cls : ℕ → Bool) (s rest : Bytes)
    → cls 0 ≡ false
    → all cls s ≡ true
    → c_string (s ++ 0 ∷ rest) ≡ ok s
unfolding c_string all
c_string-all cls [] rest z h = refl
c_string-all cls (zero ∷ s) rest z h = ground arith
c_string-all cls (suc c ∷ s) rest z h = ground (arith, c_string-all cls s rest z)

take_token-end : (t : Bytes) → all is_solid t ≡ true → take_token t ≡ (t, [])
unfolding take_token all
take_token-end [] h = refl
take_token-end (c ∷ t) h = ground (arith, take_token-end t)

-- `>>` reads a token that stands last.
pub read_token_last :
    (t : Bytes) → all is_solid t ≡ true → 1 ≤ length t → read_token (b' ' ∷ t) ≡ (t, [])
unfolding read_token skip_space is_space
read_token_last t h l =
    let skips : skip_space t ≡ t = rw (← append-nil t) (skip_space_solid t [] h l) in
    rw skips (take_token-end t h)

-- ===== src/Streams.antt =====
-- The parts of the C++ library that src/headers/mail-box.h reads text with: `std::istringstream`
-- with `>>` and `std::getline`, and the `std::string` made from a `char *`. A stream is what is
-- left to read. All strings that are read into start empty, so that a failed read gives [].
pub mod Laws
use tcp_udp_chat_server.Common.{
  ℕ, Bool, List, [], ◌∷◌, ◌||◌, ◌&&◌, Bytes, leb, ◌==◌, if◌then◌else◌, Result, ok, throw, ◌>>=◌,
  out_of_bounds,
}

-- `isspace` in the "C" locale: \t \n \v \f \r and the blank.
unfoldable pub is_space : ℕ → Bool
is_space c = c == b' ' || (leb 9 c && leb c 13)

unfoldable pub skip_space : Bytes → Bytes
skip_space [] = []
skip_space (c ∷ cs) = if is_space c then skip_space cs else c ∷ cs

abbrev pub push_front : ℕ → Bytes × Bytes → Bytes × Bytes
push_front c (token, rest) = (c ∷ token, rest)

unfoldable pub take_token : Bytes → Bytes × Bytes
take_token [] = ([], [])
take_token (c ∷ cs) = if is_space c then ([], c ∷ cs) else push_front c (take_token cs)

-- `iss >> s`: the token, and what is left of the stream.
unfoldable pub read_token : Bytes → Bytes × Bytes
read_token iss = take_token (skip_space iss)

-- `std::getline(iss, s)`.
unfoldable pub get_line : Bytes → Bytes
get_line [] = []
get_line (c ∷ cs) = if c == b'\n' then [] else c ∷ get_line cs

-- `std::string str(buffer)`: the bytes in front of the first zero, which must stand in the array.
unfoldable pub c_string : Bytes → Result Bytes
c_string [] = throw out_of_bounds
c_string (c ∷ cs) = if c == 0 then ok [] else (c_string cs >>= λ s. ok (c ∷ s))

-- `if (!mC.empty() && mC.back() == '\r') mC.pop_back();`
unfoldable pub strip_return : Bytes → Bytes
strip_return [] = []
strip_return (c ∷ []) = if c == b'\r' then [] else c ∷ []
strip_return (c ∷ d ∷ cs) = c ∷ strip_return (d ∷ cs)

-- `if (!mC.empty() && mC.front() == ' ') mC = mC.substr(1);`
unfoldable pub strip_blank : Bytes → Bytes
strip_blank [] = []
strip_blank (c ∷ cs) = if c == b' ' then cs else c ∷ cs

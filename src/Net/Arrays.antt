-- ===== src/Net/Arrays.antt =====
-- src/net.cpp, the two `receiveData`: what fits into the array of 1024 bytes that the listener
-- gives them (src/listeners.cpp, Listener::listenSocket).
use mathlib.Core.Logic.{◌↔◌}
use tcp_udp_chat_server.Net.{
  Connection, copy_into_array, follow_port, packet, receive_data, receive_tcp, receive_udp,
}
use tcp_udp_chat_server.MailBox.State.{ProtocolType, tcp, udp}
use tcp_udp_chat_server.Common.{
  false, leb, inl, inr, ◌⊎◌, Bool, Bytes, [], arith, length, length-append, length-replicate, ok,
  out_of_bounds, refl, replicate, suc, take, throw, true, zero, ℕ, ◌++◌, ◌-◌, ◌<◌, ◌∷◌, ◌≡◌, ◌≤◌,
}

length-take-≤ : (n : ℕ) (xs : Bytes) → length (take n xs) ≤ n
length-take-≤ zero xs = omega arith
length-take-≤ (suc n) [] = omega arith
length-take-≤ (suc n) (x ∷ xs) = omega (arith, length-take-≤ n xs)

length-take-short : (n m : ℕ) (xs : Bytes) → length xs ≤ m → length (take n xs) ≤ m
length-take-short zero m xs h = omega arith
length-take-short (suc n) m [] h = omega arith
length-take-short (suc n) zero (x ∷ xs) h = omega arith
length-take-short (suc n) (suc m) (x ∷ xs) h = omega (arith, length-take-short n m xs (omega arith))

length-take-≥ : (n m : ℕ) (xs : Bytes) → m ≤ n → m ≤ length xs → m ≤ length (take n xs)
length-take-≥ zero m xs h h' = omega arith
length-take-≥ (suc n) m [] h h' = omega arith
length-take-≥ (suc n) zero (x ∷ xs) h h' = omega arith
length-take-≥ (suc n) (suc m) (x ∷ xs) h h' =
    omega (arith, length-take-≥ n m xs (omega arith) (omega arith))

-- A copy that stays inside the array fills it with the bytes and with zeros behind them.
copy_into_array-fits :
    (limit : ℕ) (bytes : Bytes)
    → length (take limit bytes) ≤ 1024
    → (buffer : Bytes) × (copy_into_array limit bytes ≡ ok buffer)
      × (length buffer ≡ 1024)
      × (buffer ≡ take limit bytes ++ replicate (1024 - length (take limit bytes)) 0)
unfolding copy_into_array
copy_into_array-fits limit bytes h = (
  take limit bytes ++ replicate (1024 - length (take limit bytes)) 0,
  ground arith,
  omega (
    arith,
    length-append (take limit bytes) (replicate (1024 - length (take limit bytes)) 0),
    length-replicate {A = ℕ} (1024 - length (take limit bytes)) 0,
  ),
  refl,
)

-- By TCP, whatever arrives fits: the array is filled with the first 1024 bytes and zeros behind
-- them, and the connection stays.
pub receive_tcp-fits :
    (bytes : Bytes) (port : ℕ) (resolves : Bool) (c : Connection)
    → c.protocol ≡ tcp
    → (buffer : Bytes) × (receive_data (packet bytes port resolves) c ≡ ok (true, buffer, c))
      × (length buffer ≡ 1024)
      × (buffer ≡ take 1024 bytes ++ replicate (1024 - length (take 1024 bytes)) 0)
unfolding receive_data receive_tcp
receive_tcp-fits bytes port resolves c p =
    let (buffer, e, n, is) = copy_into_array-fits 1024 bytes (length-take-≤ 1024 bytes) in
    (buffer, rw (p, e) refl, n, is)

leb_cases : (m n : ℕ) → (m ≤ n) ⊎ (n < m)
leb_cases m n = ground arith

above : (m n : ℕ) → n < m → leb m n ≡ false
above m n h = ground arith

copy_into_array_overflows :
    (bytes : Bytes) → 1024 < length bytes → copy_into_array 1500 bytes ≡ throw out_of_bounds
unfolding copy_into_array
copy_into_array_overflows bytes h =
    let more = length-take-≥ 1500 1025 bytes (omega arith) (omega arith) in
    rw (above (length (take 1500 bytes)) 1024 more) refl

-- By UDP, a datagram of one byte or more writes past the end of the array exactly if it has more
-- than 1024 bytes, since 1500 are asked for.
pub receive_udp_overflows_iff :
    (b : ℕ) (bytes : Bytes) (port : ℕ) (resolves : Bool) (c : Connection)
    → c.protocol ≡ udp
    → (receive_data (packet (b ∷ bytes) port resolves) c ≡ throw out_of_bounds)
      ↔ (1024 < length (b ∷ bytes))
unfolding receive_data receive_udp follow_port
receive_udp_overflows_iff b bytes port resolves c p = (
  λ e. elim (leb_cases (length (b ∷ bytes)) 1024) [
    | inl h ↦
        let (buffer, runs, n, is) =
          copy_into_array-fits 1500 (b ∷ bytes) (length-take-short 1500 1024 (b ∷ bytes) h) in
        ground (arith, runs)
    | inr h ↦ h
  ],
  λ h. rw (p, copy_into_array_overflows (b ∷ bytes) h) refl,
)

-- What is received, of one byte or more, is written past the end of the array exactly by UDP, and
-- exactly where it has more than 1024 bytes.
pub receive_data_overflows_iff :
    (b : ℕ) (bytes : Bytes) (port : ℕ) (resolves : Bool) (c : Connection)
    → (receive_data (packet (b ∷ bytes) port resolves) c ≡ throw out_of_bounds)
      ↔ ((c.protocol ≡ udp) × (1024 < length (b ∷ bytes)))
receive_data_overflows_iff b bytes port resolves c = by_protocol c.protocol refl
  where
    by_protocol :
        (s : ProtocolType)
        → c.protocol ≡ s
        → (receive_data (packet (b ∷ bytes) port resolves) c ≡ throw out_of_bounds)
          ↔ ((c.protocol ≡ udp) × (1024 < length (b ∷ bytes)))
    by_protocol udp p =
        let both = receive_udp_overflows_iff b bytes port resolves c p in
        (λ e. (p, both.0 e), λ h. both.1 h.1)
    by_protocol tcp p =
        let (buffer, runs, n, is) = receive_tcp-fits (b ∷ bytes) port resolves c p in
        (λ e. cc, λ h. cc)

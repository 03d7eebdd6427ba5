-- ===== src/MailBox/Udp/Bounds.antt =====
-- MailBox::writeUDPMail stays within the 1024-byte array of Listener::runListener, for every
-- datagram that leaves room for three terminating zeros.
use tcp_udp_chat_server.MailBox.Udp.{
  received, read_body, read_char, read_string, read_uint16, uint16_of, write_udp_mail,
}
use tcp_udp_chat_server.MailBox.State.{ProtocolType}
use tcp_udp_chat_server.Mail.Validate.{make_auth, make_error, make_join, make_reply, make_text}
use tcp_udp_chat_server.Mail.Types.{
  reply_message, error_message, join_message, text_message, auth_message, Mail, MessageType, auth,
  bye, confirm, err, join, msg, reply, type_of_code, unknown,
}
use native.Mathlib.Nat.{zero-add, suc-add}
use tcp_udp_chat_server.Common.{
  not, ◌==◌, pos, ap, true, Bytes, Result, [], append_assoc, arith, length, length-append,
  length-replicate, ok, out_of_bounds, refl, replicate, suc, throw, zero, ℕ, ◌++◌, ◌+◌, ◌-◌, ◌>>=◌,
  ◌∷◌, ◌≡◌, ◌≢◌, ◌≤◌,
}

-- A buffer that ends in `zeros` zeros, with `front` bytes or more before them.
record Ends (zeros front : ℕ) (buffer : Bytes) : Type 0 where
  before : Bytes
  long : front ≤ length before
  splits : buffer ≡ before ++ replicate zeros 0

abbrev InBounds {ℓ} : {A : Type ℓ} → Result A → Type ℓ
InBounds r = r ≢ throw out_of_bounds

Ends-tail :
    (zeros front : ℕ) (buffer : Bytes)
    → Ends zeros (suc front) buffer
    → (c : ℕ) × (rest : Bytes) × (buffer ≡ c ∷ rest) × Ends zeros front rest
Ends-tail zeros front buffer e = go e.before e.long e.splits
  where
    go :
        (b : Bytes)
        → suc front ≤ length b
        → buffer ≡ b ++ replicate zeros 0
        → (c : ℕ) × (rest : Bytes) × (buffer ≡ c ∷ rest) × Ends zeros front rest
    go [] h s = absurd (omega arith)
    go (c ∷ b) h s =
        (c, b ++ replicate zeros 0, s, record { before = b; long = omega arith; splits = refl })

read_string-Ends :
    (zeros : ℕ) (b : Bytes)
    → (s : Bytes) × (rest : Bytes) × (read_string (b ++ replicate (suc zeros) 0) ≡ ok (s, rest))
      × Ends zeros 0 rest
unfolding read_string
read_string-Ends zeros [] =
    ([], replicate zeros 0, refl, record { before = []; long = omega arith; splits = refl })
read_string-Ends zeros (zero ∷ b) = (
  [],
  b ++ 0 ∷ replicate zeros 0,
  refl,
  record { before = b ++ 0 ∷ []; long = omega arith; splits = rw append_assoc },
)
read_string-Ends zeros (suc c ∷ b) =
    let (s, rest, e, k) = read_string-Ends zeros b in (suc c ∷ s, rest, ground arith, k)

module _ {ℓ} {A : Type ℓ} where
  after_char :
      (zeros front : ℕ) (buffer : Bytes) (f : ℕ × Bytes → Result A)
      → Ends zeros (suc front) buffer
      → ((c : ℕ) (rest : Bytes) → Ends zeros front rest → InBounds (f (c, rest)))
      → InBounds (read_char buffer >>= f)
  unfolding read_char
  after_char zeros front buffer f e k =
      let (c, rest, s, t) = Ends-tail zeros front buffer e in rw s (k c rest t)

  after_uint16 :
      (zeros front : ℕ) (buffer : Bytes) (f : ℕ × Bytes → Result A)
      → Ends zeros (suc (suc front)) buffer
      → ((n : ℕ) (rest : Bytes) → Ends zeros front rest → InBounds (f (n, rest)))
      → InBounds (read_uint16 buffer >>= f)
  unfolding read_uint16
  after_uint16 zeros front buffer f e k =
      let (hi, more, s, t) = Ends-tail zeros (suc front) buffer e in
      let (lo, rest, s', t') = Ends-tail zeros front more t in
      rw (s, s') (k (uint16_of hi lo) rest t')

  after_string :
      (zeros front : ℕ) (buffer : Bytes) (f : Bytes × Bytes → Result A)
      → Ends (suc zeros) front buffer
      → ((s : Bytes) (rest : Bytes) → Ends zeros 0 rest → InBounds (f (s, rest)))
      → InBounds (read_string buffer >>= f)
  after_string zeros front buffer f e k =
      let (s, rest, r, t) = read_string-Ends zeros e.before in rw (e.splits, r) (k s rest t)

read_body-InBounds :
    (t : MessageType) (service : ProtocolType) (current : Bytes) (mail : Mail)
    → Ends 3 5 current
    → InBounds (read_body t service current mail)
unfolding read_body
read_body-InBounds confirm service current mail e = after_uint16 3 3 current _ e (λ n rest t h. cc)
read_body-InBounds bye service current mail e = after_uint16 3 3 current _ e (λ n rest t h. cc)
read_body-InBounds unknown service current mail e = after_uint16 3 3 current _ e (λ n rest t h. cc)
read_body-InBounds err service current mail e = after_uint16 3 3 current _ e λ n rest t.
    after_string 2 3 rest _ t λ d rest1 t1.
      after_string 1 0 rest1
        (λ r. make_error (pos n) d r.0 >>= λ m. received err (error_message m) true mail) t1
        λ c rest2 t2. unfold make_error in ground arith
read_body-InBounds msg service current mail e = after_uint16 3 3 current _ e λ n rest t.
    after_string 2 3 rest _ t λ d rest1 t1.
      after_string 1 0 rest1
        (λ r. make_text (pos n) d r.0 >>= λ m. received msg (text_message m) true mail) t1
        λ c rest2 t2. unfold make_text in ground arith
read_body-InBounds join service current mail e = after_uint16 3 3 current _ e λ n rest t.
    after_string 2 3 rest _ t λ c rest1 t1.
      after_string 1 0 rest1
        (λ r. make_join (pos n) c r.0 >>= λ m. received join (join_message m) true mail) t1
        λ d rest2 t2. unfold make_join in ground arith
read_body-InBounds auth service current mail e = after_uint16 3 3 current _ e λ n rest t.
    after_string 2 3 rest _ t λ u rest1 t1. after_string 1 0 rest1 _ t1 λ d rest2 t2.
      after_string 0 0 rest2
        (λ r. make_auth n u d r.0 >>= λ m. received auth (auth_message m) true mail) t2
        λ s rest3 t3. unfold make_auth in ground arith
read_body-InBounds reply service current mail e = after_uint16 3 3 current _ e λ n rest t.
    after_char 3 2 rest _ t λ r rest1 t1. after_uint16 3 0 rest1 _ t1 λ f rest2 t2.
      after_string 2 0 rest2
        (λ c. make_reply (pos n) (not (r == 0)) (pos f) c.0 >>= λ m.
          received reply (reply_message m) true mail)
        t2 λ c rest3 t3. unfold make_reply in ground arith

-- The array `char buffer[1024] = {0}` after a datagram was received into it.
abbrev pub array_with : Bytes → Bytes
array_with datagram = datagram ++ replicate (1024 - length datagram) 0

replicate-add : (m n : ℕ) (a : ℕ) → replicate (m + n) a ≡ replicate m a ++ replicate n a
replicate-add zero n a = rw zero-add
replicate-add (suc m) n a = rw suc-add (ap (◌∷◌ a) (replicate-add m n a))

array_with-Ends : (datagram : Bytes) → length datagram ≤ 1021 → Ends 3 6 (array_with datagram)
array_with-Ends datagram h =
    let e : 1024 - length datagram ≡ (1021 - length datagram) + 3 = omega arith in
    record {
      before = datagram ++ replicate (1021 - length datagram) 0;
      long = omega (
        arith,
        length-append {0} datagram (replicate (1021 - length datagram) 0),
        length-replicate {0} {A = ℕ} (1021 - length datagram) 0,
      );
      splits = rw (e, replicate-add, append_assoc);
    }

-- For a datagram of 1021 bytes or fewer, whatever bytes they are, nothing is read outside the
-- array.
pub write_udp_mail-InBounds :
    (service : ProtocolType) (datagram : Bytes) (mail : Mail)
    → length datagram ≤ 1021
    → write_udp_mail service (array_with datagram) mail ≢ throw out_of_bounds
unfolding write_udp_mail
write_udp_mail-InBounds service datagram mail h =
    after_char 3 5 (array_with datagram) _ (array_with-Ends datagram h)
      (λ c rest t. read_body-InBounds (type_of_code c) service rest mail t)

-- ===== src/MailBox/Udp.antt =====
-- src/headers/mail-box.h, MailBox::writeUDPMail with readUInt16 and readString: a datagram is read
-- from the array that it was received into. A `char` is signed, as it is with g++ on x86.
pub mod Word
pub mod RoundTrip
pub mod Bounds
pub mod Ids
use Prim.Native.Nat.{bit_or}
use tcp_udp_chat_server.Common.{
  ℕ, ◌+◌, ◌-◌, ◌*◌, ◌%◌, ◌^◌, Bool, true, false, not, List, [], ◌∷◌, ◌++◌, Bytes, codes, ltb, ◌==◌,
  if◌then◌else◌, ℤ, pos, Result, ok, throw, ◌>>=◌, out_of_bounds,
}
use tcp_udp_chat_server.Mail.Types.{
  MessageType, auth, join, err, bye, msg, reply, confirm, unknown, type_of_code, MessageData,
  confirm_message, auth_message, join_message, error_message, bye_message, text_message,
  reply_message, unknown_message, Mail,
}
use tcp_udp_chat_server.Mail.Validate.{make_auth, make_join, make_error, make_text, make_reply}
use tcp_udp_chat_server.Mail.Print.{Output, cerr, endl}
use tcp_udp_chat_server.MailBox.State.{ProtocolType, tcp, udp}

-- A `char`, promoted to a 32-bit `int`, as a bit pattern.
unfoldable pub promote : ℕ → ℕ
promote c = if ltb c 128 then c else c + (2 ^ 32 - 256)

-- `(*(*buffer + 1)) | (**buffer << 8)`, converted to `uint16_t`.
unfoldable pub uint16_of : ℕ → ℕ → ℕ
unfolding promote
uint16_of hi lo = bit_or (promote lo) (promote hi * 256 % 2 ^ 32) % 2 ^ 16

-- `readUInt16`: the value, and what is left of the array.
unfoldable pub read_uint16 : Bytes → Result (ℕ × Bytes)
read_uint16 (hi ∷ lo ∷ rest) = ok (uint16_of hi lo, rest)
read_uint16 _ = throw out_of_bounds

-- `readString`.
unfoldable pub read_string : Bytes → Result (Bytes × Bytes)
read_string [] = throw out_of_bounds
read_string (c ∷ cs) =
    let more = (read_string cs >>= λ r. ok (c ∷ r.0, r.1)) in if c == 0 then ok ([], cs) else more

-- `*current` and `current++`.
unfoldable pub read_char : Bytes → Result (ℕ × Bytes)
read_char [] = throw out_of_bounds
read_char (c ∷ cs) = ok (c, cs)

abbrev pub Received : Type 0
Received = Bool × Mail × List Output

abbrev pub received : MessageType → MessageData → Bool → Mail → Result Received
received type payload queued mail =
    ok (true, record mail { type = type; payload = payload; add_to_mail_queue = queued }, [])

-- BYE is queued unless the mailbox delivers by TCP.
abbrev pub by_udp : ProtocolType → Bool
by_udp tcp = false
by_udp udp = true

-- The `switch` on the type.
unfoldable pub read_body : MessageType → ProtocolType → Bytes → Mail → Result Received
read_body confirm service current mail = do
  (id, rest) ← read_uint16 current
  received confirm (confirm_message (record { ref_message_id = pos id })) false mail
read_body bye service current mail = do
  (id, rest) ← read_uint16 current
  received bye (bye_message (record { message_id = pos id })) (by_udp service) mail
read_body err service current mail = do
  (id, rest) ← read_uint16 current
  (display_name, rest1) ← read_string rest
  (content, rest2) ← read_string rest1
  m ← make_error (pos id) display_name content
  received err (error_message m) true mail
read_body reply service current mail = do
  (id, rest) ← read_uint16 current
  (result, rest1) ← read_char rest
  (ref, rest2) ← read_uint16 rest1
  (content, rest3) ← read_string rest2
  m ← make_reply (pos id) (not (result == 0)) (pos ref) content
  received reply (reply_message m) true mail
read_body auth service current mail = do
  (id, rest) ← read_uint16 current
  (username, rest1) ← read_string rest
  (display_name, rest2) ← read_string rest1
  (secret, rest3) ← read_string rest2
  m ← make_auth id username display_name secret
  received auth (auth_message m) true mail
read_body join service current mail = do
  (id, rest) ← read_uint16 current
  (channel_id, rest1) ← read_string rest
  (display_name, rest2) ← read_string rest1
  m ← make_join (pos id) channel_id display_name
  received join (join_message m) true mail
read_body msg service current mail = do
  (id, rest) ← read_uint16 current
  (display_name, rest1) ← read_string rest
  (content, rest2) ← read_string rest1
  m ← make_text (pos id) display_name content
  received msg (text_message m) true mail
read_body unknown service current mail = do
  (id, rest) ← read_uint16 current
  ok (
    true,
    record mail {
      type = unknown;
      payload = unknown_message (record { message_id = pos id });
      add_to_mail_queue = true;
    },
    cerr (codes "ERR: Unknown message type." ++ endl) ∷ [],
  )

unfoldable pub write_udp_mail : ProtocolType → Bytes → Mail → Result Received
write_udp_mail service buffer mail = do
  (type, current) ← read_char buffer
  read_body (type_of_code type) service current mail

-- ===== src/MailBox/Udp/Ids.antt =====
-- What MailBox::readUInt16 does to the ids that the protocol depends on.
use tcp_udp_chat_server.Mail.Validate.{make_reply}
use tcp_udp_chat_server.Serializer.{serialize_data, serialize_string, serialize_uint16}
use tcp_udp_chat_server.MailBox.Udp.Word.{as_read, as_read_fixed, uint16_of-as_read}
use tcp_udp_chat_server.MailBox.Udp.{
  read_string, read_body, read_char, read_uint16, received, write_udp_mail,
}
use tcp_udp_chat_server.MailBox.State.{ProtocolType}
use tcp_udp_chat_server.Mail.Types.{
  Mail, ReplyMessage, confirm, confirm_message, reply, reply_message, type_code, type_of_code,
}
use tcp_udp_chat_server.Mail.Print.{Output}
use tcp_udp_chat_server.Common.{
  [], append_assoc, refl, to_uint16, ℤ, ◌>>=◌, Bool, Bytes, List, arith, false, if◌then◌else◌, ok,
  pos, true, ℕ, ◌%◌, ◌*◌, ◌++◌, ◌+◌, ◌/◌, ◌<◌, ◌↔◌, ◌∷◌, ◌≡◌, ◌≤◌, ◌⊎◌,
}

-- A CONFIRM of message `n` is read as a CONFIRM of `n` exactly when the low byte of `n` is below
-- 128, or its high byte is 255.
pub confirm_read_iff :
    (n : ℕ) (service : ProtocolType) (rest : Bytes) (mail : Mail)
    → n < 65536
    → (write_udp_mail service (0 ∷ (n / 256) ∷ (n % 256) ∷ rest) mail
        ≡ received confirm (confirm_message (record { ref_message_id = pos n })) false mail)
      ↔ ((n % 256 < 128) ⊎ (0xff00 ≤ n))
unfolding write_udp_mail read_char read_uint16 read_body type_of_code
confirm_read_iff n service rest mail h =
    let e : n / 256 * 256 + n % 256 ≡ n = omega arith in
    let r = uint16_of-as_read (n / 256) (n % 256) (omega arith) (omega arith) in
    let k = as_read_fixed n h in rw (r, e) ((λ q. k.0 (ground arith)), λ s. rw (k.1 s))

-- Once its low byte is 128 or more an id is read as a number from 0xff80 up.
pub as_read-high : (n : ℕ) → 128 ≤ n % 256 → 0xff80 ≤ as_read n
unfolding as_read
as_read-high n h = ground arith

result_bytes :
    (b : Bool) → serialize_uint16 true (pos (if b then 1 else 0)) ≡ 0 ∷ (if b then 1 else 0) ∷ []
unfolding serialize_uint16 to_uint16
result_bytes true = refl
result_bytes false = refl

reply_bytes :
    (m : ReplyMessage) (rest : Bytes)
    → (serialize_data true (reply_message m) ++ rest)
      ≡ serialize_uint16 true m.message_id
        ++ (0
            ∷ (if m.result then 1 else 0)
            ∷ (serialize_uint16 true m.ref_message_id
                ++ (serialize_string true m.message_content ++ rest)))
unfolding serialize_data
reply_bytes m rest = simp (append_assoc, result_bytes)

reply_tail :
    (id ref : ℕ) (buffer : Bytes) (mail read : Mail) (b : Bool) (r : ReplyMessage)
    (out : List Output)
    → (read_string buffer >>= λ c.
        make_reply (pos id) false (pos ref) c.0 >>= λ m. received reply (reply_message m) true mail)
      ≡ ok (b, read, out)
    → read.payload ≡ reply_message r
    → r.result ≡ false
unfolding make_reply
reply_tail id ref buffer mail read b r out e p = ground arith

read_reply :
    (z w : ℤ) (x : ℕ) (service : ProtocolType) (rest : Bytes) (mail read : Mail) (b : Bool)
    (r : ReplyMessage) (out : List Output)
    → read_body reply service
        (serialize_uint16 true z ++ (0 ∷ x ∷ (serialize_uint16 true w ++ rest)))
        mail
      ≡ ok (b, read, out)
    → read.payload ≡ reply_message r
    → r.result ≡ false
unfolding read_body read_uint16 read_char serialize_uint16
read_reply z w x service rest mail read b r out e p =
    reply_tail _ _ ((to_uint16 w % 256) ∷ rest) mail read b r out e p

-- The serializer writes the result of a REPLY as two bytes where `writeUDPMail` reads one: whatever
-- result was serialized, a REPLY that is read back says `false`.
pub reply_result_lost :
    (m : ReplyMessage) (service : ProtocolType) (rest : Bytes) (mail read : Mail) (b : Bool)
    (r : ReplyMessage) (out : List Output)
    → write_udp_mail service
        (type_code reply ∷ (serialize_data true (reply_message m) ++ rest))
        mail
      ≡ ok (b, read, out)
    → read.payload ≡ reply_message r
    → r.result ≡ false
unfolding write_udp_mail read_char type_of_code type_code
reply_result_lost m service rest mail read b r out e p =
    read_reply m.message_id m.ref_message_id _ service
      (serialize_string true m.message_content ++ rest) mail read b r out (rw reply_bytes at e) p

-- ===== src/MailBox/Udp/RoundTrip.antt =====
-- MailBox::writeUDPMail reads what MailSerializer writes.
use tcp_udp_chat_server.Mail.Print.{Output, cerr, endl}
use tcp_udp_chat_server.MailBox.State.{ProtocolType}
use tcp_udp_chat_server.Mail.Validate.{is_channel, is_graphic, is_printable, is_word, passes}
use tcp_udp_chat_server.Mail.Valid.{
  make_error_ok, make_join_ok, make_text_ok, IsValid, make_auth_ok, passes-All,
}
use tcp_udp_chat_server.Mail.Types.{
  ErrorMessage, JoinMessage, MessageType, TextMessage, bye, confirm, err, join, msg, reply,
  type_code, type_of_code, type_of_data, unknown, AuthMessage, Mail, auth, reply_message,
  unknown_message,
}
use tcp_udp_chat_server.Common.{
  List, codes, ◌∙◌, ◌≢◌, append_assoc, pos, ℕ, zero, ◌+◌, ◌*◌, ◌/◌, ◌%◌, ◌≡◌, refl, Bool, true,
  false, [], ◌∷◌, ◌++◌, arith, Bytes, All, ℤ, to_uint16, to_uint16-lt, ok,
}
use tcp_udp_chat_server.Serializer.{serialize, serialize_data, serialize_string, serialize_uint16}
use tcp_udp_chat_server.MailBox.Udp.{
  by_udp, read_char, write_udp_mail, received, text_message, bye_message, error_message,
  join_message, auth_message, confirm_message, MessageData, read_body, read_uint16, read_string,
}
use tcp_udp_chat_server.MailBox.Udp.Word.{as_read, uint16_of-as_read}

abbrev pub as_sent : ℤ → ℕ
as_sent z = as_read (to_uint16 z)

read_uint16-serialize_uint16 :
    (z : ℤ) (rest : Bytes) → read_uint16 (serialize_uint16 true z ++ rest) ≡ ok (as_sent z, rest)
unfolding read_uint16 serialize_uint16
read_uint16-serialize_uint16 z rest =
    let n = to_uint16 z in
    let small = to_uint16-lt z in
    let e : n / 256 * 256 + n % 256 ≡ n = omega arith in
    let r = uint16_of-as_read (n / 256) (n % 256) (omega arith) (omega arith) in rw (r, e)

pub read_string-All :
    (cls : ℕ → Bool) (s rest : Bytes)
    → cls 0 ≡ false
    → All (λ c. cls c ≡ true) s
    → read_string (s ++ 0 ∷ rest) ≡ ok (s, rest)
unfolding read_string
read_string-All cls [] rest z h = refl
read_string-All cls (zero ∷ s) rest z h = cc (h.0, z)
read_string-All cls (c ∷ s) rest z h = ground (arith, read_string-All cls s rest z h.1)

read_string-serialize_string :
    (cls : ℕ → Bool) (max : ℕ) (s rest : Bytes)
    → cls 0 ≡ false
    → passes cls max s ≡ true
    → read_string (serialize_string true s ++ rest) ≡ ok (s, rest)
unfolding serialize_string
read_string-serialize_string cls max s rest z h =
    rw append_assoc (read_string-All cls s rest z (passes-All cls max s h))

read_word :
    (max : ℕ) (s rest : Bytes)
    → passes is_word max s ≡ true
    → read_string (serialize_string true s ++ rest) ≡ ok (s, rest)
unfolding is_word
read_word max s rest h = read_string-serialize_string is_word max s rest refl h

read_channel :
    (max : ℕ) (s rest : Bytes)
    → passes is_channel max s ≡ true
    → read_string (serialize_string true s ++ rest) ≡ ok (s, rest)
unfolding is_channel is_word
read_channel max s rest h = read_string-serialize_string is_channel max s rest refl h

read_graphic :
    (max : ℕ) (s rest : Bytes)
    → passes is_graphic max s ≡ true
    → read_string (serialize_string true s ++ rest) ≡ ok (s, rest)
unfolding is_graphic
read_graphic max s rest h = read_string-serialize_string is_graphic max s rest refl h

read_printable :
    (max : ℕ) (s rest : Bytes)
    → passes is_printable max s ≡ true
    → read_string (serialize_string true s ++ rest) ≡ ok (s, rest)
unfolding is_printable
read_printable max s rest h = read_string-serialize_string is_printable max s rest refl h

-- What comes back of a message: each id as `readUInt16` reads it, and a text that came from
-- outside.
unfoldable pub reread : MessageData → MessageData
reread (confirm_message m) =
    confirm_message (record { ref_message_id = pos (as_sent m.ref_message_id) })
reread (auth_message m) = auth_message (record m { message_id = as_sent (pos m.message_id) })
reread (join_message m) = join_message (record m { message_id = pos (as_sent m.message_id) })
reread (error_message m) = error_message (record m { message_id = pos (as_sent m.message_id) })
reread (bye_message m) = bye_message (record { message_id = pos (as_sent m.message_id) })
reread (text_message m) =
    text_message (record m { to_send = false; message_id = pos (as_sent m.message_id) })
reread (reply_message m) = reply_message m
reread (unknown_message m) = unknown_message (record { message_id = pos (as_sent m.message_id) })

-- Whether the mail is passed on to the state machine.
unfoldable pub is_queued : ProtocolType → MessageType → Bool
is_queued service confirm = false
is_queued service bye = by_udp service
is_queued service _ = true

-- What is printed as it is read.
unfoldable pub complaint : MessageType → List Output
complaint unknown = cerr (codes "ERR: Unknown message type." ++ endl) ∷ []
complaint _ = []

-- The mail that a datagram with message `d` gives.
unfoldable pub arrival : ProtocolType → Mail → MessageData → Mail
unfolding reread is_queued type_of_data
arrival service mail d = record mail {
  type = type_of_data d;
  payload = reread d;
  add_to_mail_queue = is_queued service (type_of_data d);
}

module _ (service : ProtocolType) (rest : Bytes) (mail : Mail) where
  read_body_auth :
      (m : AuthMessage)
      → IsValid (auth_message m)
      → read_body auth service (serialize_data true (auth_message m) ++ rest) mail
        ≡ received auth (reread (auth_message m)) true mail
  unfolding read_body serialize_data IsValid reread
  read_body_auth m v = simp (
    append_assoc,
    read_uint16-serialize_uint16,
    read_word 20 m.username _ v.0,
    read_graphic 20 m.display_name _ v.1,
    read_word 128 m.secret _ v.2,
    make_auth_ok _ m.username m.display_name m.secret v,
  )

  read_body_join :
      (m : JoinMessage)
      → IsValid (join_message m)
      → read_body join service (serialize_data true (join_message m) ++ rest) mail
        ≡ received join (reread (join_message m)) true mail
  unfolding read_body serialize_data IsValid reread
  read_body_join m v = simp (
    append_assoc,
    read_uint16-serialize_uint16,
    read_channel 20 m.channel_id _ v.0,
    read_graphic 20 m.display_name _ v.1,
    make_join_ok _ m.channel_id m.display_name v,
  )

  read_body_error :
      (m : ErrorMessage)
      → IsValid (error_message m)
      → read_body err service (serialize_data true (error_message m) ++ rest) mail
        ≡ received err (reread (error_message m)) true mail
  unfolding read_body serialize_data IsValid reread
  read_body_error m v = simp (
    append_assoc,
    read_uint16-serialize_uint16,
    read_graphic 20 m.display_name _ v.0,
    read_printable 1400 m.message_content _ v.1,
    make_error_ok _ m.display_name m.message_content v,
  )

  read_body_text :
      (m : TextMessage)
      → IsValid (text_message m)
      → read_body msg service (serialize_data true (text_message m) ++ rest) mail
        ≡ received msg (reread (text_message m)) true mail
  unfolding read_body serialize_data IsValid reread
  read_body_text m v = simp (
    append_assoc,
    read_uint16-serialize_uint16,
    read_graphic 20 m.display_name _ v.0,
    read_printable 1400 m.message_content _ v.1,
    make_text_ok _ m.display_name m.message_content v,
  )

  read_body-serialize_data :
      (d : MessageData)
      → IsValid d
      → type_of_data d ≢ reply
      → read_body (type_of_data d) service (serialize_data true d ++ rest) mail
        ≡ ok (true, arrival service mail d, complaint (type_of_data d))
  unfolding type_of_data arrival complaint
  read_body-serialize_data (auth_message m) v n = read_body_auth m v
  read_body-serialize_data (join_message m) v n = read_body_join m v
  read_body-serialize_data (error_message m) v n = read_body_error m v
  read_body-serialize_data (text_message m) v n = read_body_text m v
  read_body-serialize_data (reply_message m) v n = absurd (n refl)
  read_body-serialize_data (confirm_message m) v n =
      unfold read_body serialize_data reread in simp read_uint16-serialize_uint16
  read_body-serialize_data (bye_message m) v n =
      unfold read_body serialize_data reread in simp read_uint16-serialize_uint16
  read_body-serialize_data (unknown_message m) v n =
      unfold read_body serialize_data reread in simp read_uint16-serialize_uint16

type_of_code-type_code : (t : MessageType) → type_of_code (type_code t) ≡ t
unfolding type_of_code type_code
type_of_code-type_code t = ground arith

write_udp_mail-serialize_data :
    (t : MessageType) (d : MessageData) (service : ProtocolType) (rest : Bytes) (mail : Mail)
    → t ≡ type_of_data d
    → IsValid d
    → t ≢ reply
    → write_udp_mail service (type_code t ∷ (serialize_data true d ++ rest)) mail
      ≡ ok (true, arrival service mail d, complaint t)
unfolding write_udp_mail read_char
write_udp_mail-serialize_data t d service rest mail e v n =
    rw (type_of_code-type_code, e) (read_body-serialize_data service rest mail d v (λ f. n (e ∙ f)))

-- Whatever stands behind it in the array, a mail of valid fields, whose type is that of its data
-- and not REPLY, comes back as it was serialized for UDP, but for its ids, which come back as
-- `as_read` says.
pub write_udp_mail-serialize :
    (m : Mail) (service : ProtocolType) (rest : Bytes) (mail : Mail)
    → m.type ≡ type_of_data m.payload
    → IsValid m.payload
    → m.type ≢ reply
    → write_udp_mail service (serialize true m ++ rest) mail
      ≡ ok (true, arrival service mail m.payload, complaint m.type)
unfolding serialize
write_udp_mail-serialize m service rest mail e v n =
    write_udp_mail-serialize_data m.type m.payload service rest mail e v n

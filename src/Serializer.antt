-- ===== src/Serializer.antt =====
-- src/headers/mail-box.h, class MailSerializer. The member `buffer` is emptied first and every
-- member function appends to it, so each is modelled by the bytes that it appends.
pub mod Grammar
use tcp_udp_chat_server.Common.{
  ◌/◌, ◌%◌, Bool, true, false, [], ◌∷◌, ◌++◌, Bytes, codes, if◌then◌else◌, ℤ, pos, to_uint16,
}
use tcp_udp_chat_server.Mail.Types.{
  MessageType, auth, join, err, bye, msg, reply, confirm, type_code, MessageData, confirm_message,
  auth_message, join_message, error_message, bye_message, text_message, reply_message,
  unknown_message, Mail,
}

-- `serialize(uint16_t)`: `htons`, then the two bytes in memory; nothing for TCP.
unfoldable pub serialize_uint16 : Bool → ℤ → Bytes
serialize_uint16 true value = (to_uint16 value / 256) ∷ (to_uint16 value % 256) ∷ []
serialize_uint16 false value = []

-- `serialize(const std::string &)`.
unfoldable pub serialize_string : Bool → Bytes → Bytes
serialize_string true str = str ++ 0 ∷ []
serialize_string false str = str ++ b' ' ∷ []

-- What is inserted under `if (!isUDP)`.
abbrev pub keyword : Bool → Bytes → Bytes
keyword true word = []
keyword false word = word

-- The `operator()` for each alternative of the variant.
unfoldable pub serialize_data : Bool → MessageData → Bytes
serialize_data is_udp (confirm_message m) = serialize_uint16 is_udp m.ref_message_id
serialize_data is_udp (unknown_message m) = serialize_uint16 is_udp m.message_id
serialize_data is_udp (auth_message m) =
    serialize_uint16 is_udp (pos m.message_id)
    ++ (serialize_string is_udp m.username
        ++ (keyword is_udp (codes "AS ")
            ++ (serialize_string is_udp m.display_name
                ++ (keyword is_udp (codes "USING ") ++ serialize_string is_udp m.secret))))
serialize_data is_udp (join_message m) =
    serialize_uint16 is_udp m.message_id
    ++ (serialize_string is_udp m.channel_id
        ++ (keyword is_udp (codes "AS ") ++ serialize_string is_udp m.display_name))
serialize_data is_udp (error_message m) =
    keyword is_udp (codes "FROM ")
    ++ (serialize_uint16 is_udp m.message_id
        ++ (serialize_string is_udp m.display_name
            ++ (keyword is_udp (codes "IS ") ++ serialize_string is_udp m.message_content)))
serialize_data is_udp (bye_message m) = serialize_uint16 is_udp m.message_id
serialize_data is_udp (text_message m) =
    keyword is_udp (codes "FROM ")
    ++ (serialize_uint16 is_udp m.message_id
        ++ (serialize_string is_udp m.display_name
            ++ (keyword is_udp (codes "IS ") ++ serialize_string is_udp m.message_content)))
serialize_data is_udp (reply_message m) =
    serialize_uint16 is_udp m.message_id
    ++ (serialize_uint16 is_udp (pos (if m.result then 1 else 0))
        ++ (keyword is_udp (codes (if m.result then "OK " else "NOK ") ++ codes "IS ")
            ++ (serialize_uint16 is_udp m.ref_message_id
                ++ serialize_string is_udp m.message_content)))

-- The word that stands for the type in TCP.
unfoldable pub type_word : MessageType → Bytes
type_word confirm = codes "CONFIRM "
type_word auth = codes "AUTH "
type_word join = codes "JOIN "
type_word err = codes "ERR "
type_word bye = codes "BYE "
type_word msg = codes "MSG "
type_word reply = codes "REPLY "
type_word _ = codes "ERR "

-- `buffer.pop_back()` and the two `push_back`s: the last byte becomes \r\n. (A pop from an empty
-- vector would be undefined; the type's word is never empty.)
unfoldable pub end_line : Bytes → Bytes
end_line [] = b'\r' ∷ b'\n' ∷ []
end_line (c ∷ []) = b'\r' ∷ b'\n' ∷ []
end_line (c ∷ d ∷ cs) = c ∷ end_line (d ∷ cs)

-- `serialize(const Mail &)`, with `isUDP` first.
unfoldable pub serialize : Bool → Mail → Bytes
serialize true mail = type_code mail.type ∷ serialize_data true mail.payload
serialize false mail = end_line (type_word mail.type ++ serialize_data false mail.payload)

-- ===== src/Serializer/Grammar.antt =====
-- The lines that MailSerializer writes for TCP, as a grammar.
use tcp_udp_chat_server.Serializer.{
  end_line, serialize, serialize_data, serialize_string, serialize_uint16, type_word,
}
use tcp_udp_chat_server.Mail.Types.{
  Mail, MessageData, auth_message, bye_message, confirm_message, error_message, join_message,
  reply_message, text_message, type_of_data, unknown_message,
}
use tcp_udp_chat_server.Common.{
  Bool-cases, Bytes, [], ap, append_assoc, codes, false, if◌then◌else◌, inl, inr, refl, ◌++◌, ◌∷◌,
  ◌≡◌,
}

-- The line of each message, without its end.
unfoldable pub line_of : MessageData → Bytes
line_of (confirm_message m) = codes "CONFIRM"
line_of (auth_message m) =
    codes "AUTH "
    ++ (m.username ++ (codes " AS " ++ (m.display_name ++ (codes " USING " ++ m.secret))))
line_of (join_message m) = codes "JOIN " ++ (m.channel_id ++ (codes " AS " ++ m.display_name))
line_of (error_message m) =
    codes "ERR FROM " ++ (m.display_name ++ (codes " IS " ++ m.message_content))
line_of (bye_message m) = codes "BYE"
line_of (text_message m) =
    codes "MSG FROM " ++ (m.display_name ++ (codes " IS " ++ m.message_content))
line_of (reply_message m) =
    codes "REPLY "
    ++ (codes (if m.result then "OK" else "NOK") ++ (codes " IS " ++ m.message_content))
line_of (unknown_message m) = codes "ERR"

abbrev pub crlf : Bytes
crlf = b'\r' ∷ b'\n' ∷ []

end_line-append : (s : Bytes) → end_line (s ++ b' ' ∷ []) ≡ s ++ crlf
unfolding end_line
end_line-append [] = refl
end_line-append (c ∷ []) = refl
end_line-append (c ∷ d ∷ s) = ap (◌∷◌ c) (end_line-append (d ∷ s))

blank_last :
    (d : MessageData)
    → type_word (type_of_data d) ++ serialize_data false d ≡ line_of d ++ b' ' ∷ []
unfolding type_word type_of_data serialize_data serialize_uint16 serialize_string line_of
blank_last (confirm_message m) = refl
blank_last (auth_message m) = simp append_assoc
blank_last (join_message m) = simp append_assoc
blank_last (error_message m) = simp append_assoc
blank_last (bye_message m) = refl
blank_last (text_message m) = simp append_assoc
blank_last (reply_message m) = elim (Bool-cases m.result) [
  | inl e ↦ rw e (simp append_assoc)
  | inr e ↦ rw e (simp append_assoc)
]
blank_last (unknown_message m) = refl

-- For TCP a mail whose type is that of its data is serialized as its line, ended by \r\n: the ids
-- are left out.
pub serialize-line_of :
    (m : Mail) → m.type ≡ type_of_data m.payload → serialize false m ≡ line_of m.payload ++ crlf
unfolding serialize
serialize-line_of m e = rw (e, blank_last m.payload) (end_line-append (line_of m.payload))

-- ===== src/MailBox/Tcp/RoundTrip.antt =====
-- MailBox::writeTCPMail on what MailSerializer writes.
use tcp_udp_chat_server.Streams.Laws.{c_string-all}
use tcp_udp_chat_server.Streams.{c_string, is_space, read_token, skip_space, take_token}
use tcp_udp_chat_server.Serializer.Grammar.{serialize-line_of, crlf, line_of}
use tcp_udp_chat_server.Serializer.{serialize}
use tcp_udp_chat_server.MailBox.Udp.{Received, received}
use tcp_udp_chat_server.MailBox.Tcp.Lines.{
  all_mono, read_auth-line, read_err-from_is, read_join-line, read_msg-from_is, read_reply-line,
}
use tcp_udp_chat_server.MailBox.Tcp.{read_line, unknown_type, write_tcp_mail}
use tcp_udp_chat_server.Mail.Validate.{
  is_channel, is_graphic, is_printable, is_word, make_auth, passes,
}
use tcp_udp_chat_server.Mail.Valid.{IsValid, passes_iff}
use tcp_udp_chat_server.Mail.Types.{
  Mail, MessageData, auth, auth_message, bye, bye_message, confirm_message, err, error_message,
  join, join_message, msg, reply, reply_message, text_message, type_of_data, unknown,
  unknown_message,
}
use tcp_udp_chat_server.Common.{
  ◌∙◌, Bool, Bool-cases, Bytes, Result, [], all, append_assoc, arith, beq, display_name_field,
  false, inl, inr, invalid, minus_one, not, ok, pos, refl, throw, true, ℕ, ◌&&◌, ◌++◌, ◌==◌, ◌>>=◌,
  ◌∷◌, ◌≡◌, ◌≢◌,
}

-- What the line of message `d` gives, when the next number is `seq`. The reader of AUTH takes the
-- display name for the secret and the secret for the display name.
unfoldable pub tcp_arrival : ℕ → MessageData → Mail → Result Received
tcp_arrival seq (confirm_message m) mail =
    ok (true, record mail { type = unknown; add_to_mail_queue = true }, unknown_type)
tcp_arrival seq (auth_message m) mail = make_auth seq m.username m.secret m.display_name >>= λ k.
    received auth (auth_message k) true mail
tcp_arrival seq (join_message m) mail =
    received join (join_message (record m { message_id = pos seq })) true mail
tcp_arrival seq (error_message m) mail =
    received err (error_message (record m { message_id = pos seq })) true mail
tcp_arrival seq (bye_message m) mail = ok (true, record mail { type = bye }, [])
tcp_arrival seq (text_message m) mail =
    received msg (text_message (record m { to_send = false; message_id = pos seq })) true mail
tcp_arrival seq (reply_message m) mail =
    received reply (reply_message (record m { message_id = pos seq; ref_message_id = minus_one }))
      true mail
tcp_arrival seq (unknown_message m) mail = throw (invalid display_name_field)

module _ (seq : ℕ) (rest : Bytes) (mail : Mail) where
  read_line-line_of :
      (d : MessageData)
      → IsValid d
      → type_of_data d ≢ unknown
      → read_line seq (line_of d ++ (crlf ++ rest)) mail ≡ tcp_arrival seq d mail
  unfolding read_line line_of tcp_arrival type_of_data read_token skip_space take_token is_space beq
  read_line-line_of (confirm_message m) v n = refl
  read_line-line_of (auth_message m) v n = simp append_assoc (read_auth-line m seq rest mail v)
  read_line-line_of (join_message m) v n = simp append_assoc (read_join-line m seq rest mail v)
  read_line-line_of (error_message m) v n = simp append_assoc (read_err-from_is m seq rest mail v)
  read_line-line_of (bye_message m) v n = refl
  read_line-line_of (text_message m) v n = simp append_assoc (read_msg-from_is m seq rest mail v)
  read_line-line_of (reply_message m) v n = simp append_assoc (read_reply-line m seq rest mail v)
  read_line-line_of (unknown_message m) v n = absurd (n refl)

abbrev pub is_nonzero : ℕ → Bool
is_nonzero c = not (c == 0)

pub all-append : (p : ℕ → Bool) (xs ys : Bytes) → all p (xs ++ ys) ≡ (all p xs && all p ys)
unfolding all
all-append p [] ys = refl
all-append p (x ∷ xs) ys = ground (arith, all-append p xs ys)

nonzero_of :
    (cls : ℕ → Bool) (max : ℕ) (s : Bytes)
    → ((c : ℕ) → cls c ≡ true → is_nonzero c ≡ true)
    → passes cls max s ≡ true
    → all is_nonzero s ≡ true
nonzero_of cls max s f h = all_mono cls is_nonzero s f ((passes_iff cls max s).0 h).2

word_nonzero : (max : ℕ) (s : Bytes) → passes is_word max s ≡ true → all is_nonzero s ≡ true
unfolding is_word
word_nonzero max s = nonzero_of is_word max s (λ c h. ground arith)

channel_nonzero : (s : Bytes) → passes is_channel 20 s ≡ true → all is_nonzero s ≡ true
unfolding is_channel is_word
channel_nonzero s = nonzero_of is_channel 20 s (λ c h. ground arith)

graphic_nonzero : (s : Bytes) → passes is_graphic 20 s ≡ true → all is_nonzero s ≡ true
unfolding is_graphic
graphic_nonzero s = nonzero_of is_graphic 20 s (λ c h. ground arith)

printable_nonzero : (s : Bytes) → passes is_printable 1400 s ≡ true → all is_nonzero s ≡ true
unfolding is_printable
printable_nonzero s = nonzero_of is_printable 1400 s (λ c h. ground arith)

line_of-nonzero : (d : MessageData) → IsValid d → all is_nonzero (line_of d) ≡ true
unfolding IsValid line_of
line_of-nonzero (confirm_message m) v = unfold all in refl
line_of-nonzero (auth_message m) v =
    simp
      (
        all-append,
        word_nonzero 20 m.username v.0,
        graphic_nonzero m.display_name v.1,
        word_nonzero 128 m.secret v.2,
      )
      (unfold all in refl)
line_of-nonzero (join_message m) v =
    simp (all-append, channel_nonzero m.channel_id v.0, graphic_nonzero m.display_name v.1)
      (unfold all in refl)
line_of-nonzero (error_message m) v =
    simp (all-append, graphic_nonzero m.display_name v.0, printable_nonzero m.message_content v.1)
      (unfold all in refl)
line_of-nonzero (bye_message m) v = unfold all in refl
line_of-nonzero (text_message m) v =
    simp (all-append, graphic_nonzero m.display_name v.0, printable_nonzero m.message_content v.1)
      (unfold all in refl)
line_of-nonzero (reply_message m) v = elim (Bool-cases m.result) [
  | inl e ↦ rw e (unfold all in printable_nonzero m.message_content v)
  | inr e ↦ rw e (unfold all in printable_nonzero m.message_content v)
]
line_of-nonzero (unknown_message m) v = unfold all in refl

-- The line that is sent for a valid mail holds no NUL.
pub serialize-nonzero :
    (m : Mail)
    → m.type ≡ type_of_data m.payload
    → IsValid m.payload
    → all is_nonzero (serialize false m) ≡ true
serialize-nonzero m t v =
    rw (serialize-line_of m t) (simp (all-append, line_of-nonzero m.payload v) (unfold all in refl))

-- A mail whose type is that of its data and not UNKNOWN, whose fields are valid, and that was
-- serialized for TCP, with anything behind it that holds no NUL, up to the terminating zero of the
-- array: the first line is read as `tcp_arrival` says, and what stands behind it is dropped.
pub write_tcp_mail-serialize :
    (m : Mail) (seq : ℕ) (more junk : Bytes) (mail : Mail)
    → m.type ≡ type_of_data m.payload
    → IsValid m.payload
    → m.type ≢ unknown
    → all is_nonzero more ≡ true
    → write_tcp_mail seq (serialize false m ++ (more ++ 0 ∷ junk)) mail
      ≡ tcp_arrival seq m.payload mail
unfolding write_tcp_mail
write_tcp_mail-serialize m seq more junk mail e v n z =
    let s = line_of m.payload ++ (crlf ++ more) in
    let solid : all is_nonzero s ≡ true =
      simp (all-append, line_of-nonzero m.payload v, z) (unfold all in refl) in
    let text : c_string (s ++ 0 ∷ junk) ≡ ok s = c_string-all is_nonzero s junk refl solid in
    let split : serialize false m ++ (more ++ 0 ∷ junk) ≡ s ++ 0 ∷ junk =
      rw (serialize-line_of m e) (simp append_assoc) in
    rw (split, text) (read_line-line_of seq more mail m.payload v (λ f. n (e ∙ f)))

-- ===== src/MailBox/Tcp.antt =====
-- src/headers/mail-box.h, MailBox::writeTCPMail: one line of text is read from the array that the
-- socket's bytes were received into. Where it returns false, the mail is left as it was.
pub mod RoundTrip
pub mod Lines
use tcp_udp_chat_server.Streams.{c_string, get_line, read_token, strip_blank, strip_return}
use tcp_udp_chat_server.MailBox.Udp.{Received, received}
use tcp_udp_chat_server.Mail.Validate.{make_auth, make_error, make_join, make_reply, make_text}
use tcp_udp_chat_server.Mail.Types.{
  Mail, auth, auth_message, bye, err, error_message, join, join_message, msg, reply, reply_message,
  text_message, unknown,
}
use tcp_udp_chat_server.Mail.Print.{Output, cerr, endl}
use tcp_udp_chat_server.Common.{
  Bytes, List, Result, [], beq, codes, false, if◌then◌else◌, minus_one, not, ok, pos, true, ℕ, ◌&&◌,
  ◌++◌, ◌>>=◌, ◌||◌, ◌∷◌,
}

-- `std::getline(iss, mC)`, with the return and the blank taken off.
unfoldable pub read_content : Bytes → Bytes
read_content iss = strip_blank (strip_return (get_line iss))

abbrev pub refused : Mail → Result Received
refused mail = ok (false, mail, [])

-- `ERR FROM {dN} IS {mC}`
unfoldable pub read_err : ℕ → Bytes → Mail → Result Received
read_err seq iss mail =
    let (from, iss1) = read_token iss in
    let (display_name, iss2) = read_token iss1 in
    let (is, iss3) = read_token iss2 in
    make_error (pos seq) display_name (read_content iss3) >>= λ m.
    if not (beq from (codes "FROM")) || not (beq is (codes "IS")) || beq m.message_content []
    then refused mail
    else received err (error_message m) true mail

-- `REPLY {OK|NOK} IS {mC}`
unfoldable pub read_reply : ℕ → Bytes → Mail → Result Received
read_reply seq iss mail =
    let (response, iss1) = read_token iss in
    let (is, iss2) = read_token iss1 in
    make_reply (pos seq) (beq response (codes "OK")) minus_one (read_content iss2) >>= λ m.
    if (not (beq response (codes "OK")) && not (beq response (codes "NOK")))
      || not (beq is (codes "IS"))
    then refused mail
    else received reply (reply_message m) true mail

-- The source reads `username AS secret USING dN`.
unfoldable pub read_auth : ℕ → Bytes → Mail → Result Received
read_auth seq iss mail =
    let (username, iss1) = read_token iss in
    let (as_word, iss2) = read_token iss1 in
    let (secret, iss3) = read_token iss2 in
    let (usg, iss4) = read_token iss3 in
    let (display_name, iss5) = read_token iss4 in
    make_auth seq username display_name secret >>= λ m.
    if not (beq as_word (codes "AS")) || not (beq usg (codes "USING"))
    then refused mail
    else received auth (auth_message m) true mail

-- `JOIN {channelID} AS {dN}`
unfoldable pub read_join : ℕ → Bytes → Mail → Result Received
read_join seq iss mail =
    let (channel_id, iss1) = read_token iss in
    let (as_word, iss2) = read_token iss1 in
    let (display_name, iss3) = read_token iss2 in
    make_join (pos seq) channel_id display_name >>= λ m.
    if not (beq as_word (codes "AS"))
    then refused mail
    else received join (join_message m) true mail

-- `MSG FROM {dN} IS {mC}`
unfoldable pub read_msg : ℕ → Bytes → Mail → Result Received
read_msg seq iss mail =
    let (from, iss1) = read_token iss in
    let (display_name, iss2) = read_token iss1 in
    let (is, iss3) = read_token iss2 in
    make_text (pos seq) display_name (read_content iss3) >>= λ m.
    if not (beq from (codes "FROM")) || not (beq is (codes "IS"))
    then refused mail
    else received msg (text_message m) true mail

abbrev pub unknown_type : List Output
unknown_type = cerr (codes "ERR: Unknown message type." ++ endl) ∷ []

-- The choice by the first word. BYE and an unknown word leave the data as it was.
unfoldable pub read_line : ℕ → Bytes → Mail → Result Received
read_line seq str mail =
    let (msg_type, iss) = read_token str in
    if beq msg_type (codes "BYE")
    then ok (true, record mail { type = bye }, [])
    else if beq msg_type (codes "ERR")
    then read_err seq iss mail
    else if beq msg_type (codes "REPLY")
    then read_reply seq iss mail
    else if beq msg_type (codes "AUTH")
    then read_auth seq iss mail
    else if beq msg_type (codes "JOIN")
    then read_join seq iss mail
    else if beq msg_type (codes "MSG")
    then read_msg seq iss mail
    else ok (true, record mail { type = unknown; add_to_mail_queue = true }, unknown_type)

-- `seq` is the member `sequenceUDPNumber`, which each message is numbered with.
unfoldable pub write_tcp_mail : ℕ → Bytes → Mail → Result Received
write_tcp_mail seq buffer mail = c_string buffer >>= λ str. read_line seq str mail

-- ===== src/MailBox/Typed.antt =====
-- Every mail that MailBox::writeMail makes, and that is to be queued, has the type of its data, but
-- for the BYE and the unknown lines of TCP. So `std::get` by the type finds its alternative.

use tcp_udp_chat_server.Streams.{c_string}
use tcp_udp_chat_server.MailBox.Wire.{write_mail_buffer}
use tcp_udp_chat_server.MailBox.Udp.{read_body, read_char, write_udp_mail}
use tcp_udp_chat_server.MailBox.Tcp.{
  write_tcp_mail, read_auth, read_err, read_join, read_line, read_msg, read_reply,
}
use tcp_udp_chat_server.MailBox.State.{tcp, udp, MailBox, ProtocolType}
use tcp_udp_chat_server.MailBox.Laws.{IsTyped}
use tcp_udp_chat_server.MailBox.Commands.{write_mail_line}
use tcp_udp_chat_server.Mail.Validate.{make_auth, make_error, make_join, make_reply, make_text}
use tcp_udp_chat_server.Mail.Types.{Mail, MessageType, confirm, type_of_code, type_of_data}
use tcp_udp_chat_server.Mail.Print.{Output}
use tcp_udp_chat_server.Common.{
  inl, inr, false, refl, ◌⊎◌, >>=-eq-ok, Bool, Bytes, List, arith, ok, true, ℕ, ◌≡◌,
}

-- A mail that `writeMail` makes of a line that the user types, and that is to be queued, has the
-- type of its data, as `IsTyped` says.
pub write_mail_line-IsTyped :
    (line : Bytes) (mail m : Mail) (mb mb' : MailBox) (out : List Output)
    → write_mail_line line mail mb ≡ ok (m, mb', out)
    → m.add_to_mail_queue ≡ true
    → IsTyped m
unfolding write_mail_line make_auth make_join make_text type_of_data
write_mail_line-IsTyped line mail m mb mb' out e q = ground arith

read_body-IsTyped :
    (t : MessageType) (service : ProtocolType) (current : Bytes) (mail m : Mail) (b : Bool)
    (out : List Output)
    → read_body t service current mail ≡ ok (b, m, out)
    → (b ≡ true) × IsTyped m
unfolding read_body make_auth make_join make_text make_error make_reply type_of_data
read_body-IsTyped confirm service current mail m b out e = ground arith
read_body-IsTyped _ service current mail m b out e = ground arith

udp-IsTyped :
    (service : ProtocolType) (buffer : Bytes) (mail m : Mail) (b : Bool) (out : List Output)
    → write_udp_mail service buffer mail ≡ ok (b, m, out)
    → (b ≡ true) × IsTyped m
unfolding write_udp_mail
udp-IsTyped service buffer mail m b out e =
    let (c, s, k) = >>=-eq-ok (read_char buffer) _ e in
    read_body-IsTyped (type_of_code c.0) service c.1 mail m b out k

read_line-IsTyped :
    (seq : ℕ) (str : Bytes) (mail m : Mail) (out : List Output)
    → read_line seq str mail ≡ ok (true, m, out)
    → IsTyped m
unfolding read_line read_err read_reply read_auth read_join read_msg make_auth make_join make_text
    make_error make_reply type_of_data
read_line-IsTyped seq str mail m out e = ground arith

-- A TCP line that `writeTCPMail` turns down.
read_line-refused :
    (seq : ℕ) (str : Bytes) (mail m : Mail) (out : List Output)
    → read_line seq str mail ≡ ok (false, m, out)
    → m ≡ mail
unfolding read_line read_err read_reply read_auth read_join read_msg
read_line-refused seq str mail m out e = ground arith

tcp_cases :
    (b : Bool) (seq : ℕ) (str : Bytes) (mail m : Mail) (out : List Output)
    → read_line seq str mail ≡ ok (b, m, out)
    → ((b ≡ true) × IsTyped m) ⊎ ((b ≡ false) × (m ≡ mail))
tcp_cases true seq str mail m out e = inl (refl, read_line-IsTyped seq str mail m out e)
tcp_cases false seq str mail m out e = inr (refl, read_line-refused seq str mail m out e)

tcp-IsTyped :
    (seq : ℕ) (buffer : Bytes) (mail m : Mail) (b : Bool) (out : List Output)
    → write_tcp_mail seq buffer mail ≡ ok (b, m, out)
    → ((b ≡ true) × IsTyped m) ⊎ ((b ≡ false) × (m ≡ mail))
unfolding write_tcp_mail
tcp-IsTyped seq buffer mail m b out e =
    let (str, s, k) = >>=-eq-ok (c_string buffer) _ e in tcp_cases b seq str mail m out k

-- What is received has the type of its data, as `IsTyped` says, where `writeMail` returns true.
-- Where it returns false, which it does for TCP alone, the mail is left as it was before the call.
pub write_mail_buffer-IsTyped :
    (buffer : Bytes) (mail m : Mail) (mb : MailBox) (b : Bool) (out : List Output)
    → write_mail_buffer buffer mail mb ≡ ok (b, m, out)
    → ((b ≡ true) × IsTyped m) ⊎ ((b ≡ false) × (mb.delivery_service ≡ tcp) × (m ≡ mail))
unfolding write_mail_buffer
write_mail_buffer-IsTyped buffer mail m mb b out e = by_service mb.delivery_service refl
  where
    by_service :
        (s : ProtocolType)
        → mb.delivery_service ≡ s
        → ((b ≡ true) × IsTyped m) ⊎ ((b ≡ false) × (mb.delivery_service ≡ tcp) × (m ≡ mail))
    by_service udp s =
        inl (udp-IsTyped mb.delivery_service buffer mail m b out (rw (s, write_mail_buffer) at e))
    by_service tcp s = ground (
      arith,
      tcp-IsTyped mb.sequence_udp_number buffer mail m b out (rw (s, write_mail_buffer) at e),
    )

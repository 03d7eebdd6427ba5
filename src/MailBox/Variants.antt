-- ===== src/MailBox/Variants.antt =====
-- src/headers/mail-box.h, class MailBox: where `std::get` finds the alternative that it asks for.
use mathlib.Core.Path.{subst}
use tcp_udp_chat_server.MailBox.Wire.{write_mail_buffer}
use tcp_udp_chat_server.MailBox.Udp.{write_udp_mail, read_body, read_char, read_string, read_uint16}
use tcp_udp_chat_server.MailBox.State.{udp, MailBox, ProtocolType}
use tcp_udp_chat_server.MailBox.Queue.{Taken, announce_as, wait_mail}
use tcp_udp_chat_server.MailBox.Local.{write_mail_type}
use tcp_udp_chat_server.MailBox.Laws.{wait_mail-cons, wait_mail-nil, IsTyped}
use tcp_udp_chat_server.MailBox.Commands.{write_mail_line}
use tcp_udp_chat_server.Mail.Validate.{make_auth, make_error, make_join, make_reply, make_text}
use tcp_udp_chat_server.Mail.Types.{type_of_code, Mail, MessageType, type_of_data}
use tcp_udp_chat_server.Common.{
  All, Bytes, List, Result, [], arith, bad_variant_access, ok, refl, some, throw, ℤ, ◌>>=◌, ◌∷◌,
  ◌≡◌, ◌≢◌,
}

-- It does not throw `std::bad_variant_access`.
abbrev pub GetsRight {ℓ} : {Value : Type ℓ} → Result Value → Type ℓ
GetsRight r = r ≢ throw bad_variant_access

pub >>=-GetsRight {ℓ κ} :
    {Value : Type ℓ} {Next : Type κ} (r : Result Value) (next : Value → Result Next)
    → GetsRight r
    → ((value : Value) → r ≡ ok value → GetsRight (next value))
    → GetsRight (r >>= next)
>>=-GetsRight (throw x) next g h = λ e. g cc
>>=-GetsRight (ok value) next g h = h value refl

announce_as-GetsRight : (m : Mail) → IsTyped m → GetsRight (announce_as m.type m)
unfolding announce_as type_of_data
announce_as-GetsRight m t e = ground arith

-- `waitMail` of a mail that has the type of its data.
pub wait_mail-GetsRight :
    (mb : MailBox) (r : Result Taken)
    → All IsTyped mb.incoming_mails
    → wait_mail mb ≡ some r
    → GetsRight r
wait_mail-GetsRight mb r t e = by_queue mb.incoming_mails refl
  where
    by_queue : (queue : List Mail) → mb.incoming_mails ≡ queue → GetsRight r
    by_queue [] q = ground (arith, wait_mail-nil mb q)
    by_queue (m ∷ rest) q =
        let typed : All IsTyped (m ∷ rest) = subst (All IsTyped) q t in
        λ bad. announce_as-GetsRight m typed.0 (ground (arith, wait_mail-cons mb m rest q))

pub write_mail_type-GetsRight :
    (type : MessageType) (mail : Mail) (ref : ℤ) (mb : MailBox)
    → GetsRight (write_mail_type type mail ref mb)
unfolding write_mail_type make_error
write_mail_type-GetsRight type mail ref mb e = ground arith

pub write_mail_line-GetsRight :
    (line : Bytes) (mail : Mail) (mb : MailBox) → GetsRight (write_mail_line line mail mb)
unfolding write_mail_line make_auth make_join make_text
write_mail_line-GetsRight line mail mb e = ground arith

read_string-GetsRight : (s : Bytes) → GetsRight (read_string s)
unfolding read_string
read_string-GetsRight [] e = cc
read_string-GetsRight (c ∷ cs) e = ground (arith, read_string-GetsRight cs)

read_body-GetsRight :
    (t : MessageType) (service : ProtocolType) (buffer : Bytes) (mail : Mail)
    → GetsRight (read_body t service buffer mail)
unfolding read_body read_uint16 read_char make_auth make_join make_text make_error make_reply
read_body-GetsRight t service buffer mail e = grind (arith, read_string-GetsRight)

-- What is received by UDP is read without an alternative being asked for.
pub write_mail_buffer-GetsRight :
    (buffer : Bytes) (mail : Mail) (mb : MailBox)
    → mb.delivery_service ≡ udp
    → GetsRight (write_mail_buffer buffer mail mb)
unfolding write_mail_buffer write_udp_mail read_char
write_mail_buffer-GetsRight [] mail mb u = rw u (λ e. cc)
write_mail_buffer-GetsRight (c ∷ cs) mail mb u =
    rw u (read_body-GetsRight (type_of_code c) udp cs mail)

-- ===== src/Listener/Unconfirmed.antt =====
-- src/headers/mail-box.h, MailBox::writeUDPMail with src/net.cpp, UdpProtocol::receiveData: which
-- datagrams are read as the CONFIRM of an id.
use tcp_udp_chat_server.MailBox.Wire.{write_mail_buffer}
use tcp_udp_chat_server.Net.{Connection, receive_data, receive_udp, copy_into_array, packet}
use tcp_udp_chat_server.MailBox.Udp.{read_body, read_char, read_uint16, uint16_of, write_udp_mail}
use tcp_udp_chat_server.MailBox.State.{MailBox, udp, ProtocolType}
use tcp_udp_chat_server.Mail.Types.{
  MessageType, new_mail, Mail, confirm, data_message_id, get_message_id, type_of_code,
}
use tcp_udp_chat_server.Mail.Print.{Output}
use tcp_udp_chat_server.Listener.Loop.{Event, Wake, events, socket_ready, to_send_ready}
use tcp_udp_chat_server.Common.{
  eq_ℤ_iff, >>=-eq-ok, sym, refl, ◌∙◌, ◌≢◌, length, replicate, take, ◌++◌, ◌-◌, Bool, Bytes, List,
  [], all, arith, eq_ℤ, false, not, ok, pos, true, ℕ, ℤ, ◌&&◌, ◌==◌, ◌∷◌, ◌≡◌,
}

-- The byte of the array, zero where the datagram is shorter.
abbrev pub first_or_zero : Bytes → ℕ
first_or_zero [] = 0
first_or_zero (c ∷ cs) = c

abbrev pub behind : Bytes → Bytes
behind [] = []
behind (c ∷ cs) = cs

-- Whether a datagram is read as the CONFIRM of an id.
unfoldable pub confirms : ℤ → Bytes → Bool
confirms id [] = false
confirms id (c ∷ rest) =
    (c == 0) && eq_ℤ (pos (uint16_of (first_or_zero rest) (first_or_zero (behind rest)))) id

-- The events that can come while the CONFIRM of `id` is awaited, but for that CONFIRM: the queue of
-- the mails to send is not watched.
unfoldable pub is_quiet : ℤ → Event → Bool
is_quiet id (to_send_ready r) = false
is_quiet id (socket_ready (packet bytes port resolves)) = not (confirms id bytes)
is_quiet id _ = true

unfoldable pub is_quiet_wake : ℤ → Wake → Bool
is_quiet_wake id (events es) = all (is_quiet id) es
is_quiet_wake id _ = true

copied :
    (bytes buffer : Bytes)
    → copy_into_array 1500 bytes ≡ ok buffer
    → buffer ≡ take 1500 bytes ++ replicate (1024 - length (take 1500 bytes)) 0
unfolding copy_into_array
copied bytes buffer e = ground arith

array_starts :
    (c : ℕ) (rest buffer : Bytes)
    → buffer ≡ take 1500 (c ∷ rest) ++ replicate (1024 - length (take 1500 (c ∷ rest))) 0
    → (more : Bytes) × (buffer ≡ c ∷ first_or_zero rest ∷ first_or_zero (behind rest) ∷ more)
array_starts c [] buffer e = (replicate 1021 0, e)
array_starts c (h ∷ []) buffer e = (replicate 1021 0, e)
array_starts c (h ∷ l ∷ rest) buffer e = (_, e)

-- A datagram that is read as a CONFIRM.
confirm_bytes :
    (service : ProtocolType) (c hi lo : ℕ) (more : Bytes) (mail m : Mail) (b : Bool)
    (out : List Output)
    → write_udp_mail service (c ∷ hi ∷ lo ∷ more) mail ≡ ok (b, m, out)
    → m.type ≡ confirm
    → (c ≡ 0) × (get_message_id m ≡ pos (uint16_of hi lo))
unfolding write_udp_mail read_char read_uint16 read_body type_of_code data_message_id
confirm_bytes service c hi lo more mail m b out e t = ground arith

received_udp :
    (bytes buffer : Bytes) (port : ℕ) (resolves got : Bool) (c d : Connection)
    → c.protocol ≡ udp
    → receive_data (packet bytes port resolves) c ≡ ok (got, buffer, d)
    → (x : ℕ) × (rest : Bytes) × (bytes ≡ x ∷ rest) × (copy_into_array 1500 (x ∷ rest) ≡ ok buffer)
unfolding receive_data receive_udp
received_udp [] buffer port resolves got c d u r = absurd (ground arith)
received_udp (x ∷ rest) buffer port resolves got c d u r =
    let (filled, q, p) = >>=-eq-ok (copy_into_array 1500 (x ∷ rest)) _ (rw u at r) in
    (x, rest, refl, ground arith)

pub write_by_udp :
    (buffer : Bytes) (mail : Mail) (mb : MailBox)
    → mb.delivery_service ≡ udp
    → write_mail_buffer buffer mail mb ≡ write_udp_mail mb.delivery_service buffer mail
unfolding write_mail_buffer
write_by_udp buffer mail mb u = ground arith

-- What is read of a datagram that does not confirm the id is no CONFIRM of it.
pub read-unconfirmed :
    (junk : MessageType) (id : ℤ) (bytes buffer : Bytes) (port : ℕ) (resolves : Bool)
    (c d : Connection) (mb : MailBox) (b got : Bool) (m : Mail) (out : List Output)
    → c.protocol ≡ udp
    → mb.delivery_service ≡ udp
    → confirms id bytes ≡ false
    → receive_data (packet bytes port resolves) c ≡ ok (got, buffer, d)
    → write_mail_buffer buffer (new_mail junk) mb ≡ ok (b, m, out)
    → m.type ≡ confirm
    → get_message_id m ≢ id
unfolding confirms
read-unconfirmed junk id bytes buffer port resolves c d mb b got m out u s n r w t same =
    let (x, rest, is, copy) = received_udp bytes buffer port resolves got c d u r in
    let (more, starts) = array_starts x rest buffer (copied (x ∷ rest) buffer copy) in
    let read : write_udp_mail mb.delivery_service
          (x ∷ first_or_zero rest ∷ first_or_zero (behind rest) ∷ more) (new_mail junk)
        ≡ ok (b, m, out) =
      rw starts at (sym (write_by_udp buffer (new_mail junk) mb s) ∙ w) in
    let (first, id_is) =
      confirm_bytes mb.delivery_service x _ _ more (new_mail junk) m b out read t in
    let other = rw is at n in
    let equal =
      (eq_ℤ_iff (pos (uint16_of (first_or_zero rest) (first_or_zero (behind rest)))) id).1
        (sym id_is ∙ same) in
    ground arith

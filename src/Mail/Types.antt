-- ===== src/Mail/Types.antt =====
-- src/headers/mail-box.h, class Mail: the kinds of message and their ids.
use tcp_udp_chat_server.Common.{ℕ, Bool, true, false, Bytes, ℤ, pos, minus_one, ◌==◌, if◌then◌else◌}

pub data MessageType : Type 0 where
  auth join err bye msg reply confirm unknown : MessageType

-- The byte of each type on the wire.
unfoldable pub type_code : MessageType → ℕ
type_code auth = 0x02
type_code join = 0x03
type_code err = 0xfe
type_code bye = 0xff
type_code msg = 0x04
type_code reply = 0x01
type_code confirm = 0x00
type_code unknown = 0x05

-- The cast of a byte to the enumeration. A byte that no enumerator has is treated as UNKNOWN by
-- every `switch` on the type.
unfoldable pub type_of_code : ℕ → MessageType
type_of_code b =
    if b == 0x02
    then auth
    else if b == 0x03
    then join
    else if b == 0xfe
    then err
    else if b == 0xff
    then bye
    else if b == 0x04
    then msg
    else if b == 0x01
    then reply
    else if b == 0x00
    then confirm
    else unknown

pub record ConfirmMessage : Type 0 where
  pub ref_message_id : ℤ

pub record AuthMessage : Type 0 where
  pub message_id : ℕ
  pub username : Bytes
  pub display_name : Bytes
  pub secret : Bytes

pub record JoinMessage : Type 0 where
  pub message_id : ℤ
  pub channel_id : Bytes
  pub display_name : Bytes

pub record ErrorMessage : Type 0 where
  pub message_id : ℤ
  pub display_name : Bytes
  pub message_content : Bytes

pub record ByeMessage : Type 0 where
  pub message_id : ℤ

pub record TextMessage : Type 0 where
  pub to_send : Bool
  pub message_id : ℤ
  pub display_name : Bytes
  pub message_content : Bytes

pub record ReplyMessage : Type 0 where
  pub message_id : ℤ
  pub result : Bool
  pub ref_message_id : ℤ
  pub message_content : Bytes

pub record UnknownMessage : Type 0 where
  pub message_id : ℤ

pub data MessageData : Type 0 where
  confirm_message : ConfirmMessage → MessageData
  auth_message : AuthMessage → MessageData
  join_message : JoinMessage → MessageData
  error_message : ErrorMessage → MessageData
  bye_message : ByeMessage → MessageData
  text_message : TextMessage → MessageData
  reply_message : ReplyMessage → MessageData
  unknown_message : UnknownMessage → MessageData

pub record Mail : Type 0 where
  pub type : MessageType
  pub payload : MessageData
  pub add_to_mail_queue : Bool
  pub sigint : Bool

-- `Mail mail;`: the variant holds its first alternative, and the type is whatever the memory held.
abbrev pub new_mail : MessageType → Mail
new_mail junk = record {
  type = junk;
  payload = confirm_message (record { ref_message_id = pos 0 });
  add_to_mail_queue = true;
  sigint = false;
}

unfoldable pub data_message_id : MessageData → ℤ
data_message_id (confirm_message m) = m.ref_message_id
data_message_id (auth_message m) = pos m.message_id
data_message_id (join_message m) = m.message_id
data_message_id (error_message m) = m.message_id
data_message_id (bye_message m) = m.message_id
data_message_id (text_message m) = m.message_id
data_message_id (reply_message m) = m.message_id
data_message_id (unknown_message m) = m.message_id

-- `getMessageID`.
abbrev pub get_message_id : Mail → ℤ
get_message_id m = data_message_id m.payload

unfoldable pub data_ref_message_id : MessageData → ℤ
data_ref_message_id (confirm_message m) = m.ref_message_id
data_ref_message_id (reply_message m) = m.ref_message_id
data_ref_message_id _ = minus_one

-- `getRefMessageID`.
abbrev pub get_ref_message_id : Mail → ℤ
get_ref_message_id m = data_ref_message_id m.payload

-- The type that each alternative of the variant belongs to.
unfoldable pub type_of_data : MessageData → MessageType
type_of_data (confirm_message _) = confirm
type_of_data (auth_message _) = auth
type_of_data (join_message _) = join
type_of_data (error_message _) = err
type_of_data (bye_message _) = bye
type_of_data (text_message _) = msg
type_of_data (reply_message _) = reply
type_of_data (unknown_message _) = unknown

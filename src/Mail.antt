-- ===== src/Mail.antt =====
-- src/headers/mail-box.h, class Mail: the messages, their ids, and how they are printed.
-- A `Mail` that is declared without an initialiser has a type that no one has set yet; it is an
-- argument of `new_mail`.
pub mod Validate
pub mod Patterns
pub mod Print
pub mod Types
pub mod Valid

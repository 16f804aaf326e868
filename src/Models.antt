-- ===== src/Models.antt =====
-- Rows of the mail tables (src/lenovmail/models/mail.py). Identifiers, hashes and instants are
-- numbers: the program only compares them. Texts are lists of code points.
use lenovmail.Prelude.{ℕ, Bool, Option, List}
use lenovmail.Text.{Text}

pub data BodyState : Type 0 where
  not_fetched partial full : BodyState

-- An entry of an address list, `{"name": ..., "addr": ...}`.
pub record Address : Type 0 where
  pub name : Text
  pub addr : Text

-- The columns of `messages` that are only shown or searched.
pub record Display : Type 0 where
  pub rfc822_message_id : Option Text
  pub subject : Option Text
  pub subject_norm : Option Text
  pub from_name : Option Text
  pub from_addr : Option Text
  pub to_addrs : List Address
  pub cc_addrs : List Address
  pub bcc_addrs : List Address
  pub reply_to : List Address
  pub snippet : Option Text
  pub has_attachments : Bool

pub record Message : Type 0 where
  pub id : ℕ
  pub account_id : ℕ
  pub thread_id : Option ℕ
  pub dedup_hash : ℕ
  pub provisional : Bool
  pub internal_date : Option ℕ
  pub sent_date : Option ℕ
  pub size_bytes : Option ℕ
  pub body_state : BodyState
  pub blob_sha256 : Option ℕ
  pub values_mined_at : Option ℕ
  pub created_at : ℕ
  pub display : Display

pub record Thread : Type 0 where
  pub id : ℕ
  pub account_id : ℕ
  pub subject_norm : Option Text
  pub last_message_at : Option ℕ
  pub message_count : ℕ

pub record MessageRef : Type 0 where
  pub message_id : ℕ
  pub position : ℕ
  pub ref : Text

-- The flag columns of `mailbox_messages`.
pub record Flags : Type 0 where
  pub seen : Bool
  pub flagged : Bool
  pub answered : Bool
  pub draft : Bool
  pub deleted : Bool

-- The placement of a message in a folder.
pub record MailboxMessage : Type 0 where
  pub folder_id : ℕ
  pub message_id : ℕ
  pub remote_uid : Option ℕ
  pub remote_item_id : Option ℕ
  pub flags : Flags
  pub modseq : Option ℕ
  pub last_seen_at : Option ℕ

-- The tables that the mail writers share.
pub record MailDb : Type 0 where
  pub messages : List Message
  pub placements : List MailboxMessage
  pub refs : List MessageRef
  pub threads : List Thread

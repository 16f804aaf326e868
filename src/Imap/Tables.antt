-- ===== src/Imap/Tables.antt =====
-- What a sync cycle works with (src/lenovmail/sync/imap_sync.py and src/lenovmail/models/mail.py): the
-- tables, the methods of the connection and the settings.
use lenovmail.Imap.{Reply, SelectInfo, FlagEntry}
use lenovmail.Prelude.{ℕ, Bool, Option, List}
use lenovmail.Text.{Text}
use lenovmail.Models.{MailDb}

pub data SyncState : Type 0 where
  idle_state error_state : SyncState

-- The columns of `folders` that a cycle reads and writes.
pub record Folder : Type 0 where
  pub id : ℕ
  pub uidvalidity : Option ℕ
  pub uidnext : Option ℕ
  pub highestmodseq : Option ℕ
  pub sync_state : SyncState
  pub sync_error : Option Text
  pub sync_pass : ℕ
  pub last_synced_at : Option ℕ

pub data Kind : Type 0 where
  full_kind incremental_kind : Kind

pub record SyncRun : Type 0 where
  pub kind : Kind
  pub started_at : ℕ
  pub finished_at : Option ℕ
  pub added : ℕ
  pub updated : ℕ
  pub removed : ℕ
  pub error : Option Text

pub record SyncStats : Type 0 where
  pub kind : Kind
  pub added : ℕ
  pub updated : ℕ
  pub removed : ℕ
  pub flag_refresh : Bool
  pub full_resync : Bool
  pub body_candidates : ℕ

-- The tables, and the identifier that the database draws next.
pub record SyncDb : Type 0 where
  pub mail : MailDb
  pub folder : Folder
  pub runs : List SyncRun
  pub next_id : ℕ

-- An address of an ENVELOPE and the ENVELOPE itself, their values read as UTF-8 and not yet decoded.
pub record RawAddress : Type 0 where
  pub name : Option Text
  pub mailbox : Option Text
  pub host : Option Text

pub record Envelope : Type 0 where
  pub message_id : Option Text
  pub subject : Option Text
  pub from_ : List RawAddress
  pub to : List RawAddress
  pub cc : List RawAddress
  pub bcc : List RawAddress
  pub reply_to : List RawAddress

-- A flag as it is handed on: `imapclient` answers with bytes, which equal no `str`.
pub data RawFlag : Type 0 where
  bytes_flag text_flag : Text → RawFlag

-- An entry of a FETCH response of headers.
pub record HeaderEntry : Type 0 where
  pub uid : ℕ
  pub envelope : Option Envelope
  pub internal_date : Option ℕ
  pub size_bytes : Option ℕ
  pub flags : List RawFlag
  pub modseq : Option ℕ

-- The methods of the connection that a cycle calls.
pub record Server : Type 0 where
  pub condstore : Bool
  pub select : Reply SelectInfo
  pub search_all : Reply (List ℕ)
  pub search_since : ℕ → Reply (List ℕ)
  pub fetch_changed : ℕ → List ℕ → Reply (List FlagEntry)
  pub fetch_all : List ℕ → Reply (List FlagEntry)
  pub fetch_headers : List ℕ → Reply (List HeaderEntry)

-- What `make_header(decode_header(...))` of the library does with a text: the decoded one, an exception
-- that `_decode` catches, or `HeaderParseError`, which is no `ValueError`.
pub data DecodedWords : Type 0 where
  decoded : Text → DecodedWords
  undecodable : DecodedWords
  malformed : Text → DecodedWords

-- `hash_message_id`, `provisional_hash`, `normalize_subject`, the library's decoding and `str.lower`
pub record Hashing : Type 0 where
  pub hash_message_id : Text → ℕ
  pub provisional_hash : ℕ → ℕ → ℕ
  pub normalize_subject : Option Text → Option Text
  pub decode_words : Text → DecodedWords
  pub lower : Text → Text

pub record Job : Type 0 where
  pub account_id : ℕ
  pub force_full : Bool
  pub now : ℕ
  pub flag_refresh_every : ℕ
  pub header_fetch_chunk : ℕ
  pub hashing : Hashing

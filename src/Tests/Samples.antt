-- ===== src/Tests/Samples.antt =====
-- Concrete rows and requests, from which the runs in this directory start.
use lenovmail.Queries.{Query, Mailbox}
use lenovmail.Workers.{Redis}
use lenovmail.Maintenance.Checks.{mail_ok, reply_ok, reply_request, ProviderWorld}
use lenovmail.Store.Identity.{IsUnique}
use lenovmail.Outbox.Counting.{is_handled}
use lenovmail.Table.Keys.{IsKeyed}
use lenovmail.Outbox.Provider.{
  smtp_settings, append_failed, ImapWorld, graph_ok, graph_config, GraphWorld,
}
use lenovmail.Prelude.{
  ℕ, ◌+◌, ◌-◌, ◌≡◌, refl, true, false, Option, none, some, List, [], ◌∷◌, arith, ◌==◌,
  if◌then◌else◌,
}
use lenovmail.Text.{Text, codes}
use lenovmail.Models.{full, Display, Message, Thread, MessageRef, Flags, MailboxMessage, MailDb}
use lenovmail.Threads.{ThreadRequest}
use lenovmail.Outbox.{
  Status, pending_approval, queued, sending, sent, Outbox, transient, Attempted, delivered, raised,
}
use lenovmail.Outbox.Content.{Payload}
use lenovmail.Api.Principal.{mail_read, mail_send, AgentToken, User, Principal, AccountRow}
use lenovmail.Api.Queueing.{OutboxCreate}
use lenovmail.Api.Tokens.{AgentTokenCreate}
use lenovmail.Maintenance.{
  AccountStatus, active, auth_error, Account, invalid, CredentialCheck, disable,
}
use lenovmail.Maintenance.Purge.{Settings, Janitor}
use lenovmail.Store.Upsert.{Record}

abbrev pub no_display : Display
no_display = record {
  rfc822_message_id = none;
  subject = none;
  subject_norm = none;
  from_name = none;
  from_addr = none;
  to_addrs = [];
  cc_addrs = [];
  bcc_addrs = [];
  reply_to = [];
  snippet = none;
  has_attachments = false;
}

-- A message of account 1.
abbrev pub message : ℕ → Option ℕ → Message
message id thread = record {
  id = id;
  account_id = 1;
  thread_id = thread;
  dedup_hash = id + 100;
  provisional = false;
  internal_date = some (id + 50);
  sent_date = none;
  size_bytes = none;
  body_state = full;
  blob_sha256 = none;
  values_mined_at = none;
  created_at = 60;
  display = no_display;
}

abbrev pub thread : ℕ → ℕ → Thread
thread id count = record {
  id = id;
  account_id = 1;
  subject_norm = none;
  last_message_at = none;
  message_count = count;
}

abbrev pub first_ref : Text
first_ref = codes "<a@x>"

abbrev pub second_ref : Text
second_ref = codes "<b@x>"

abbrev pub ref_of : ℕ → Text → MessageRef
ref_of id ref = record { message_id = id; position = 0; ref = ref }

abbrev pub no_flags : Flags
no_flags = record {
  seen = false;
  flagged = false;
  answered = false;
  draft = false;
  deleted = false;
}

abbrev pub placement : ℕ → ℕ → MailboxMessage
placement id uid = record {
  folder_id = 5;
  message_id = id;
  remote_uid = some uid;
  remote_item_id = none;
  flags = no_flags;
  modseq = none;
  last_seen_at = none;
}

-- Two threads of one message each, and a message in none.
abbrev pub two_threads : MailDb
two_threads = record {
  messages = message 1 (some 10) ∷ message 2 (some 11) ∷ message 3 none ∷ [];
  placements = placement 1 7 ∷ placement 2 8 ∷ placement 3 9 ∷ [];
  refs = ref_of 1 first_ref ∷ ref_of 2 second_ref ∷ [];
  threads = thread 10 1 ∷ thread 11 1 ∷ [];
}

-- The third message answers the first two.
abbrev pub joining : ThreadRequest
joining = record {
  account_id = 1;
  message_row_id = 3;
  msg_id_header = some (codes " <c@x>");
  refs = codes "<a@x> " ∷ codes " " ∷ second_ref ∷ [];
  subject_norm = some (codes "hi");
  internal_date = some 53;
}

-- The second message is found to answer the first.
abbrev pub moving : ThreadRequest
moving = record {
  account_id = 1;
  message_row_id = 2;
  msg_id_header = none;
  refs = first_ref ∷ [];
  subject_norm = none;
  internal_date = none;
}

abbrev pub payload : Payload
payload = record {
  from_ = codes "me@x";
  to = codes "you@x" ∷ [];
  cc = [];
  bcc = codes "boss@x" ∷ [];
  subject = some (codes "hi");
  text = some (codes "hello");
  html = none;
  in_reply_to = none;
  references = [];
  attachments = [];
}

abbrev pub row : ℕ → Status → Option ℕ → Outbox
row id status locked = record {
  id = id;
  account_id = 1;
  created_by_user_id = some 4;
  created_by_token_id = none;
  status = status;
  payload = payload;
  mime_sha256 = none;
  attempts = 0;
  last_error = none;
  locked_at = locked;
  created_at = 1000 - id;
  sent_at = none;
}

-- A row of each status.
abbrev pub five_rows : List Outbox
five_rows =
    row 1 queued none
    ∷ row 2 queued none
    ∷ row 3 pending_approval none
    ∷ row 4 sending (some 5)
    ∷ row 5 sent none
    ∷ []

-- The second row cannot be sent now.
abbrev pub busy_second : Outbox → Attempted
busy_second r = if r.id == 2 then raised (transient (codes "busy")) else delivered

abbrev pub account_row : AccountRow
account_row = record { id = 1; owner_id = 4 }

abbrev pub token : AgentToken
token = record {
  id = 8;
  owner_id = 4;
  token_hash = 77;
  scopes = mail_read ∷ mail_send ∷ [];
  account_ids = some (1 ∷ []);
  require_send_approval = true;
  send_limit_per_hour = 3;
  expires_at = some 9000;
  last_used_at = none;
  revoked_at = none;
  created_at = 100;
}

abbrev pub owner : User
owner = record { id = 4; is_active = true }

abbrev pub agent : Principal
agent = record {
  user_id = 4;
  scopes = mail_read ∷ mail_send ∷ [];
  agent = some token;
  account_ids = some (1 ∷ []);
}

abbrev pub reader : Principal
reader = record {
  user_id = 4;
  scopes = mail_read ∷ [];
  agent = some token;
  account_ids = some (1 ∷ []);
}

abbrev pub send_request : OutboxCreate
send_request = record { id = 6; digest = 55; payload = payload; requires_approval = false }

abbrev pub token_request : AgentTokenCreate
token_request = record {
  id = 9;
  token_hash = 78;
  scopes = some mail_send ∷ [];
  account_ids = some (1 ∷ []);
  require_send_approval = false;
  send_limit_per_hour = none;
  expires_in_days = some 30;
}

abbrev pub account : ℕ → AccountStatus → Option ℕ → Account
account id status since = record {
  id = id;
  status = status;
  status_detail = none;
  invalid_since = since;
  last_sync_at = none;
  updated_at = id;
}

abbrev pub three_accounts : List Account
three_accounts =
    account 1 auth_error (some 10) ∷ account 2 active none ∷ account 3 auth_error none ∷ []

abbrev pub rejects : Account → CredentialCheck
rejects a = record { state = invalid; detail = none }

-- A token past its expiry beside the first.
abbrev pub two_tokens : List AgentToken
two_tokens = record token { id = 7; token_hash = 76; expires_at = some 10 } ∷ token ∷ []

abbrev pub settings : Settings
settings = record {
  grace = 100;
  account_action = disable;
  check_batch = 10;
  token_retention = 50;
  audit_retention = 0;
}

abbrev pub janitor : Janitor
janitor = record {
  accounts = three_accounts;
  tokens = two_tokens;
  audit = record { created_at = 1; tool = 2 } ∷ [];
}

abbrev pub header : ℕ → Record
header hash = record {
  dedup_hash = hash;
  provisional = false;
  uid = some hash;
  remote_item_id = none;
  display = no_display;
  internal_date = none;
  size_bytes = none;
  flags = no_flags;
  modseq = none;
}

pub busy_second_handled : (r : Outbox) → is_handled (busy_second r) ≡ true
busy_second_handled r = ground arith

pub five_rows-IsKeyed : IsKeyed (λ r. r.id) five_rows
five_rows-IsKeyed = (
  (refl, (refl, (refl, (refl, tt)))),
  ((refl, (refl, (refl, tt))), ((refl, (refl, tt)), ((refl, tt), (tt, tt)))),
)

-- A mail server that takes the message, with a Sent folder that cannot be written.
abbrev pub full_sent_folder : ImapWorld
full_sent_folder = record {
  settings = smtp_settings true;
  smtp_send = λ _. delivered;
  append = append_failed;
}

-- Graph takes the message, and then the settings are gone.
abbrev pub half_graph : GraphWorld
half_graph = record {
  client = none;
  send_mail = λ _. graph_ok;
  save_tokens = graph_config (codes "no settings");
}

-- The row that the agent's request makes.
abbrev pub agent_row : Outbox
agent_row = record (row 6 pending_approval none) {
  created_by_token_id = some 8;
  mime_sha256 = some 55;
  created_at = 2000;
}

abbrev pub issued : AgentToken
issued = record {
  id = 9;
  owner_id = 4;
  token_hash = 78;
  scopes = mail_send ∷ [];
  account_ids = some (1 ∷ []);
  require_send_approval = false;
  send_limit_per_hour = 60;
  expires_at = some 2592100;
  last_used_at = none;
  revoked_at = none;
  created_at = 100;
}

pub ids-IsKeyed : IsKeyed (λ m. m.id) two_threads.messages
ids-IsKeyed = ((refl, (refl, tt)), ((refl, tt), (tt, tt)))

pub messages-IsUnique : IsUnique two_threads.messages
messages-IsUnique = ((refl, (refl, tt)), ((refl, tt), (tt, tt)))

abbrev pub everyone : ℕ → Option User
everyone _ = some owner

-- The principal of the token's first request.
abbrev pub touched_agent : Principal
touched_agent = record agent { agent = some (record token { last_used_at = some 500 }) }

-- Graph answers 403.
abbrev pub forbidden_graph : ProviderWorld
forbidden_graph = record {
  is_graph = true;
  pool = mail_ok;
  noop = mail_ok;
  client = none;
  me = reply_request 403 (codes "gone");
  save = reply_ok;
}

abbrev pub no_keys : Redis
no_keys _ _ = none

abbrev pub every_message : Query
every_message = record {
  folder_id = none;
  found = none;
  unread = some true;
  flagged = none;
  has_attachments = none;
  thread_id = none;
  value_kinds = [];
  limit = 2;
  cursor = none;
}

abbrev pub mailbox : Mailbox
mailbox = record {
  messages = two_threads.messages;
  placements = two_threads.placements;
  values = [];
  folders = λ _. some 1;
}

-- A message of which only the sent date is known.
abbrev pub undated : Message
undated = record (message 4 none) { internal_date = none; sent_date = some 20 }

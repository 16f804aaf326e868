-- ===== src/Imap/Headers.antt =====
-- The header pass of a sync cycle (src/lenovmail/sync/imap_sync.py): records of FETCH responses, upserted
-- chunk by chunk, and the threads of their messages.
use lenovmail.Prelude.{ℕ, ◌+◌, false, Option, none, some, List, [], ◌∷◌, length, is_none, get_or}
use lenovmail.Models.{Address, Display, Message, MailboxMessage, MailDb}
use lenovmail.Imap.Tables.{Envelope, HeaderEntry, Server, Hashing, Job}
use lenovmail.Imap.Envelope.{non_empty, decode, addr_list, text_flags}
use lenovmail.Imap.{Reply, got, failed, ◌>>=◌}
use lenovmail.Text.{Text, codes}
use lenovmail.Threads.{ThreadRequest, assign_thread}
use lenovmail.Store.Flags.{flags_to_columns}
use lenovmail.Store.Upsert.{Record, upsert_messages}
use lenovmail.Store.Placements.{id_of, upsert_placements}

abbrev pub hash_of : Hashing → ℕ → ℕ → Option Text → ℕ
hash_of h folder_id uid none = h.provisional_hash folder_id uid
hash_of h folder_id uid (some []) = h.provisional_hash folder_id uid
hash_of h folder_id uid (some (c ∷ cs)) = h.hash_message_id (c ∷ cs)

abbrev pub no_envelope : Envelope
no_envelope = record {
  message_id = none;
  subject = none;
  from_ = [];
  to = [];
  cc = [];
  bcc = [];
  reply_to = [];
}

-- `from_addrs[0]`
abbrev first_name : List Address → Option Text
first_name [] = none
first_name (a ∷ _) = non_empty a.name

abbrev first_addr : List Address → Option Text
first_addr [] = none
first_addr (a ∷ _) = non_empty a.addr

-- The columns that come from the ENVELOPE.
unfoldable pub display_of : Hashing → Envelope → Reply Display
unfolding decode addr_list
display_of h e = do
  message_id ← decode h e.message_id
  subject ← decode h e.subject
  from_addrs ← addr_list h e.from_
  to_addrs ← addr_list h e.to
  cc_addrs ← addr_list h e.cc
  bcc_addrs ← addr_list h e.bcc
  reply_to ← addr_list h e.reply_to
  got (record {
    rfc822_message_id = message_id;
    subject = subject;
    subject_norm = h.normalize_subject subject;
    from_name = first_name from_addrs;
    from_addr = first_addr from_addrs;
    to_addrs = to_addrs;
    cc_addrs = cc_addrs;
    bcc_addrs = bcc_addrs;
    reply_to = reply_to;
    snippet = none;
    has_attachments = false;
  })

-- The record of an entry whose ENVELOPE is decoded.
unfoldable pub record_of : Hashing → ℕ → HeaderEntry → Display → Record
unfolding text_flags
record_of h folder_id e display = record {
  dedup_hash = hash_of h folder_id e.uid display.rfc822_message_id;
  provisional = is_none display.rfc822_message_id;
  uid = some e.uid;
  remote_item_id = none;
  display = display;
  internal_date = e.internal_date;
  size_bytes = e.size_bytes;
  flags = flags_to_columns (text_flags e.flags);
  modseq = e.modseq;
}

unfoldable pub record_from_fetch : Hashing → ℕ → HeaderEntry → Reply Record
unfolding display_of record_of
record_from_fetch h folder_id e = do
  display ← display_of h (get_or e.envelope no_envelope)
  got (record_of h folder_id e display)

-- The records of a response.
unfoldable pub records_of : Hashing → ℕ → List HeaderEntry → Reply (List Record)
unfolding record_from_fetch
records_of h folder_id [] = got []
records_of h folder_id (e ∷ response) = do
  r ← record_from_fetch h folder_id e
  records ← records_of h folder_id response
  got (r ∷ records)

-- `assign_subject_thread`
unfoldable pub subject_request : ℕ → ℕ → Record → ThreadRequest
subject_request account_id message_id r = record {
  account_id = account_id;
  message_row_id = message_id;
  msg_id_header = r.display.rfc822_message_id;
  refs = [];
  subject_norm = r.display.subject_norm;
  internal_date = r.internal_date;
}

unfoldable pub assign_found : ℕ → ℕ → Record → Option ℕ → MailDb → MailDb
unfolding subject_request
assign_found account_id new_id r none db = db
assign_found account_id new_id r (some id) db =
    (assign_thread new_id (subject_request account_id id r) db).1

-- The inner loop of the header pass.
unfoldable pub assign_all : ℕ → ℕ → List Record → List (ℕ × ℕ) → MailDb → MailDb
unfolding assign_found
assign_all account_id new_id [] ids db = db
assign_all account_id new_id (r ∷ records) ids db =
    assign_all account_id (new_id + 1) records ids
      (assign_found account_id new_id r (id_of r.dedup_hash ids) db)

-- What the upserts of a chunk leave; a refused statement is an exception of the database.
abbrev refused : Text
refused = codes "CardinalityViolation"

unfoldable pub after_upsert :
    Job
    → List Record
    → MailDb
    → ℕ
    → List Message × List (ℕ × ℕ)
    → Option (List MailboxMessage × ℕ)
    → Reply (ℕ × MailDb)
unfolding assign_all
after_upsert job records mail next_id (messages, ids) none = failed refused
after_upsert job records mail next_id (messages, ids) (some (placements, n)) = got (
  n,
  assign_all job.account_id next_id records ids
      (record mail { messages = messages; placements = placements }),
)

-- One chunk of the header pass: the placements written, and the tables.
unfoldable pub write_chunk : Job → ℕ → List Record → MailDb → ℕ → Reply (ℕ × MailDb)
unfolding after_upsert
write_chunk job folder_id [] mail next_id = got (0, mail)
write_chunk job folder_id (r ∷ records) mail next_id =
    let upserted = upsert_messages job.account_id next_id job.now (r ∷ records) mail.messages in
    after_upsert job (r ∷ records) mail (next_id + length (r ∷ records)) upserted
      (upsert_placements folder_id job.now (r ∷ records) upserted.1 mail.placements)

-- 3) Header pass for new UIDs.
unfoldable pub header_pass : Job → Server → ℕ → List (List ℕ) → MailDb → ℕ → Reply (ℕ × MailDb × ℕ)
unfolding records_of write_chunk
header_pass job server folder_id [] mail next_id = got (0, mail, next_id)
header_pass job server folder_id (c ∷ cs) mail next_id = do
  response ← server.fetch_headers c
  records ← records_of job.hashing folder_id response
  (n, mail') ← write_chunk job folder_id records mail next_id
  (k, mail'', next_id') ←
      header_pass job server folder_id cs mail' (next_id + (length records + length records))
  got (n + k, mail'', next_id')

-- ===== src/Outbox/Content.antt =====
-- What is sent (src/lenovmail/sync/outbox.py): the payload of an outbox row, the headers of the
-- message built from it, its envelope recipients, and the body of the Graph request. Encoding MIME
-- is the work of `email.message` and is not modelled: the message is the list of header and part
-- assignments that `_build_mime_sync` makes.
use lenovmail.Prelude.{ℕ, Option, none, some, List, [], ◌∷◌, ◌++◌, map, ◌==◌, if◌then◌else◌, get_or}
use lenovmail.Text.{Text, codes}

pub record Attachment : Type 0 where
  pub filename : Text
  pub mime_type : Option Text
  pub content_b64 : Text

pub record Payload : Type 0 where
  pub from_ : Text
  pub to : List Text
  pub cc : List Text
  pub bcc : List Text
  pub subject : Option Text
  pub text : Option Text
  pub html : Option Text
  pub in_reply_to : Option Text
  pub references : List Text
  pub attachments : List Attachment

pub data HeaderName : Type 0 where
  from_header to_header cc_header subject_header date_header message_id_header : HeaderName
  in_reply_to_header references_header : HeaderName

abbrev pub Header : Type 0
Header = HeaderName × Text

-- `sep.join(items)`
pub join_texts : Text → List Text → Text
join_texts sep [] = []
join_texts sep (t ∷ []) = t
join_texts sep (t ∷ u ∷ us) = t ++ (sep ++ join_texts sep (u ∷ us))

-- A text that is not empty, which is what `if payload.get(...)` asks.
abbrev pub nonempty : Option Text → Option Text
nonempty none = none
nonempty (some []) = none
nonempty (some (c ∷ cs)) = some (c ∷ cs)

abbrev header_if : HeaderName → Option Text → List Header
header_if h none = []
header_if h (some t) = (h, t) ∷ []

abbrev joined_if : HeaderName → Text → List Text → List Header
joined_if h sep [] = []
joined_if h sep (t ∷ ts) = (h, join_texts sep (t ∷ ts)) ∷ []

-- The headers that `_build_mime_sync` writes; the date and the new identifier come from the library.
unfoldable pub mime_headers : Text → Text → Payload → List Header
unfolding join_texts
mime_headers date message_id p =
    (from_header, p.from_)
    ∷ (to_header, join_texts (44 ∷ 32 ∷ []) p.to)
    ∷ (joined_if cc_header (44 ∷ 32 ∷ []) p.cc
        ++ ((subject_header, get_or p.subject [])
            ∷ (date_header, date)
            ∷ (message_id_header, message_id)
            ∷ (header_if in_reply_to_header (nonempty p.in_reply_to)
                ++ joined_if references_header (32 ∷ []) p.references)))

-- The body parts in the order in which they are set: plain text first, HTML as the alternative.
pub data Part : Type 0 where
  plain_part html_part : Text → Part
  -- main type, subtype, file name, and the content, still in base 64
  file_part : Text → Text → Text → Text → Part

-- `mime_type.partition("/")`
abbrev slash : ℕ
slash = b'/'

pub partition_slash : Text → Text × Text
partition_slash [] = ([], [])
partition_slash (c ∷ cs) =
    let (main, sub) = partition_slash cs in if c == slash then ([], cs) else (c ∷ main, sub)

abbrev text_or : Text → Text → Text
text_or [] d = d
text_or (c ∷ cs) d = c ∷ cs

pub attachment_part : Attachment → Part
unfolding partition_slash
attachment_part a =
    let (main, sub) =
      partition_slash (get_or (nonempty a.mime_type) (codes "application/octet-stream")) in
    file_part (text_or main (codes "application")) (text_or sub (codes "octet-stream")) a.filename
      a.content_b64

abbrev body_parts : Option Text → Option Text → List Part
body_parts (some text) (some html) = plain_part text ∷ html_part html ∷ []
body_parts none (some html) = html_part html ∷ []
body_parts (some text) none = plain_part text ∷ []
body_parts none none = plain_part [] ∷ []

unfoldable pub mime_parts : Payload → List Part
unfolding attachment_part
mime_parts p = body_parts (nonempty p.text) (nonempty p.html) ++ map attachment_part p.attachments

-- `_envelope_recipients`
unfoldable pub envelope_recipients : Payload → List Text
envelope_recipients p = p.to ++ (p.cc ++ p.bcc)

-- `_graph_message_payload`
pub data GraphBody : Type 0 where
  html_body text_body : Text → GraphBody

pub record GraphMessage : Type 0 where
  pub subject : Text
  pub body : GraphBody
  pub to_recipients : List Text
  pub cc_recipients : List Text
  pub bcc_recipients : List Text
  pub attachments : List Attachment

abbrev graph_body : Option Text → Option Text → GraphBody
graph_body (some html) text = html_body html
graph_body none text = text_body (get_or text [])

unfoldable pub graph_message : Payload → GraphMessage
graph_message p = record {
  subject = get_or p.subject [];
  body = graph_body (nonempty p.html) p.text;
  to_recipients = p.to;
  cc_recipients = p.cc;
  bcc_recipients = p.bcc;
  attachments = p.attachments;
}

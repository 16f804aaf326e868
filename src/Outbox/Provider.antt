-- ===== src/Outbox/Provider.antt =====
-- How a row is sent (src/lenovmail/sync/outbox.py, `_send_via_imap` and `_send_via_graph`): which
-- failures of the steps become which exception. What the steps answer comes from the mail server, the
-- identity provider and the stored settings, and is an argument.
use lenovmail.Prelude.{Bool, true, false, Option, none, some, List}
use lenovmail.Text.{Text}
use lenovmail.Outbox.Content.{Payload, envelope_recipients, GraphMessage, graph_message}
use lenovmail.Outbox.{
  Outbox, transient, auth, permanent, config, other, Attempted, delivered, raised,
}

-- `load_smtp_config`: the settings that matter here, or `AccountConfigError`.
pub data SmtpSettings : Type 0 where
  smtp_settings : Bool → SmtpSettings
  no_smtp : Text → SmtpSettings

-- The copy in the Sent folder: there is no such folder, it was stored, or any failure.
pub data AppendEnd : Type 0 where
  no_sent_folder appended append_failed : AppendEnd

pub record ImapWorld : Type 0 where
  pub settings : SmtpSettings
  pub smtp_send : List Text → Attempted
  pub append : AppendEnd

-- `_append_to_sent`: a failure is only logged.
append_to_sent : AppendEnd → Attempted
append_to_sent no_sent_folder = delivered
append_to_sent appended = delivered
append_to_sent append_failed = delivered

after_smtp : Bool → AppendEnd → Attempted → Attempted
unfolding append_to_sent
after_smtp append? world (raised e) = raised e
after_smtp true world delivered = append_to_sent world
after_smtp false world delivered = delivered

unfoldable pub send_via_imap : ImapWorld → Payload → Attempted
unfolding after_smtp
send_via_imap w p = elim w.settings [
  | no_smtp e ↦ raised (permanent e)
  | smtp_settings append? ↦ after_smtp append? w.append (w.smtp_send (envelope_recipients p))
]

-- What a Graph call may raise.
pub data GraphEnd : Type 0 where
  graph_ok : GraphEnd
  graph_auth graph_transient graph_request graph_config graph_other : Text → GraphEnd

pub record GraphWorld : Type 0 where
  pub client : Option Text
  pub send_mail : GraphMessage → GraphEnd
  pub save_tokens : GraphEnd

-- The `except` clauses of `_send_via_graph`; `AccountConfigError` is not among them.
graph_raised : GraphEnd → Attempted
graph_raised graph_ok = delivered
graph_raised (graph_auth e) = raised (auth e)
graph_raised (graph_transient e) = raised (transient e)
graph_raised (graph_request e) = raised (permanent e)
graph_raised (graph_config e) = raised (config e)
graph_raised (graph_other e) = raised (other e)

graph_then : GraphEnd → GraphEnd → GraphEnd
graph_then graph_ok next = next
graph_then (graph_auth e) next = graph_auth e
graph_then (graph_transient e) next = graph_transient e
graph_then (graph_request e) next = graph_request e
graph_then (graph_config e) next = graph_config e
graph_then (graph_other e) next = graph_other e

-- `client` is the failure of `graph_client_for`, which stands before the `try`.
unfoldable pub send_via_graph : GraphWorld → Payload → Attempted
unfolding graph_raised graph_then
send_via_graph w p = elim w.client [
  | some e ↦ raised (config e)
  | none ↦ graph_raised (graph_then (w.send_mail (graph_message p)) w.save_tokens)
]

pub data Provider : Type 0 where
  imap : ImapWorld → Provider
  graph : GraphWorld → Provider

-- The `try` body of `send_one`. The first argument is what `build_mime` raises for a payload, such as an
-- attachment that is not base64 or a line feed in a header; `send_one` names no such exception.
unfoldable pub attempt_send : (Payload → Option Text) → Provider → Outbox → Attempted
unfolding send_via_imap send_via_graph
attempt_send mime_failure provider row = elim (mime_failure row.payload) [
  | some e ↦ raised (other e)
  | none ↦ elim provider [
    | imap w ↦ send_via_imap w row.payload
    | graph w ↦ send_via_graph w row.payload
  ]
]

-- ===== src/Outbox/Delivery.antt =====
-- The two ways of sending (src/lenovmail/sync/outbox.py) seen from the queue.
use mathlib.Core.List.{append_assoc}
use lenovmail.Prelude.{
  ℕ, ◌+◌, ◌<◌, ◌≡◌, refl, sym, Bool, true, false, Option, none, some, List, [], ◌∷◌, ◌++◌, arith,
}
use lenovmail.Table.{update_where}
use lenovmail.Text.{Text}
use lenovmail.Outbox.Content.{Payload, mime_headers, envelope_recipients, graph_message}
use lenovmail.Outbox.{
  queued, sending, Outbox, config, Attempted, delivered, raised, claim_timeout_s, send_one,
  claim_expired, release_stale_claims,
}
use lenovmail.Outbox.Provider.{
  SmtpSettings, smtp_settings, no_smtp, graph_ok, graph_config, GraphWorld, graph, attempt_send,
}

abbrev pub is_configured : SmtpSettings → Bool
is_configured (smtp_settings _) = true
is_configured (no_smtp _) = false

abbrev pub is_delivered : Attempted → Bool
is_delivered delivered = true
is_delivered (raised _) = false

-- Through Graph a message can be delivered and its row queued again: if its MIME form can be built,
-- the mail is accepted and then storing the refreshed tokens finds no settings, `send_one` lets the
-- exception through with the row in `sending`, and the first release after the timeout queues the
-- row for another attempt.
pub graph-redelivers :
    (mime_failure : Payload → Option Text) (w : GraphWorld) (row : Outbox) (e : Text)
    (at now later : ℕ)
    → mime_failure row.payload ≡ none
    → w.client ≡ none
    → w.send_mail (graph_message row.payload) ≡ graph_ok
    → w.save_tokens ≡ graph_config e
    → row.locked_at ≡ some at
    → at + claim_timeout_s < later
    → let (after, raise) = send_one now (attempt_send mime_failure (graph w)) row in
      (raise ≡ some (config e))
      × (after ≡ record row { status = sending })
      × (release_stale_claims row.account_id claim_timeout_s later (after ∷ [])
          ≡ record row { status = queued; locked_at = none; last_error = some claim_expired } ∷ [])
unfolding send_one attempt_send release_stale_claims update_where
graph-redelivers mime_failure w row e at now later b c m s l t =
    (ground arith, ground arith, ground arith)

-- Blind recipients are in the envelope and in no header.
pub bcc-hidden :
    (date message_id : Text) (p : Payload) (bcc : List Text)
    → (mime_headers date message_id (record p { bcc = bcc }) ≡ mime_headers date message_id p)
      × (envelope_recipients (record p { bcc = bcc }) ≡ (p.to ++ p.cc) ++ bcc)
unfolding mime_headers envelope_recipients
bcc-hidden date message_id p bcc = (refl, sym (append_assoc p.to p.cc bcc))

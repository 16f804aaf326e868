-- ===== src/Outbox.antt =====
-- The outgoing queue (src/lenovmail/sync/outbox.py): rows, claims and sending. The table is the
-- list of its rows; functions take it and return it changed, and the current time, read once by each
-- call of an entry point, is an argument.
-- What a provider answers is an argument too: `attempt` says how the sending of a row ended.
use lenovmail.Prelude.{
  ℕ, ◌+◌, Bool, true, false, not, ◌&&◌, Option, none, some, List, [], ◌∷◌, ◌++◌, map, ltb, leb,
  ◌==◌, if◌then◌else◌, take, elem, opt_eq,
}
use lenovmail.Table.{select_where, update_where, count_where}
use lenovmail.Table.Order.{order_by}
use lenovmail.Text.{Text, codes}
use lenovmail.Outbox.Content.{Payload}
pub mod Content
pub mod Claims
pub mod Sending
pub mod Counting
pub mod Settling
pub mod Provider
pub mod Delivery

pub data Status : Type 0 where
  pending_approval queued sending sent failed : Status

pub record Outbox : Type 0 where
  pub id : ℕ
  pub account_id : ℕ
  pub created_by_user_id : Option ℕ
  pub created_by_token_id : Option ℕ
  pub status : Status
  pub payload : Payload
  pub mime_sha256 : Option ℕ
  pub attempts : ℕ
  pub last_error : Option Text
  pub locked_at : Option ℕ
  pub created_at : ℕ
  pub sent_at : Option ℕ

-- What may be raised while a message is sent; `config` is `AccountConfigError`, `other` any
-- exception that the module does not name.
pub data Raised : Type 0 where
  transient auth permanent config other : Text → Raised

-- How the `try` body of `send_one` ended.
pub data Attempted : Type 0 where
  delivered : Attempted
  raised : Raised → Attempted

abbrev pub claim_timeout_s : ℕ
claim_timeout_s = 900

-- `str(exc)[:2000]`
abbrev pub clip : Text → Text
clip t = take 2000 t

abbrev pub status_is : Status → Status → Bool
status_is pending_approval pending_approval = true
status_is queued queued = true
status_is sending sending = true
status_is sent sent = true
status_is failed failed = true
status_is _ _ = false

-- The rows that a token created within the last hour.
unfoldable pub used_in_hour : ℕ → ℕ → List Outbox → ℕ
used_in_hour token now rows =
    count_where (λ r. opt_eq r.created_by_token_id token && leb now (r.created_at + 3600)) rows

-- `enforce_agent_send_limit` lets the call pass; otherwise it raises `SendLimitExceeded`.
unfoldable pub within_send_limit : ℕ → ℕ → ℕ → List Outbox → Bool
unfolding used_in_hour
within_send_limit token send_limit_per_hour now rows =
    not (leb send_limit_per_hour (used_in_hour token now rows))

-- The arguments of `queue`; the digest of the built message is what `hashlib` answers.
pub record NewMessage : Type 0 where
  pub id : ℕ
  pub account_id : ℕ
  pub payload : Payload
  pub created_by_user_id : Option ℕ
  pub created_by_token_id : Option ℕ
  pub requires_approval : Bool
  pub digest : ℕ

unfoldable pub new_row : NewMessage → ℕ → Outbox
new_row m now = record {
  id = m.id;
  account_id = m.account_id;
  created_by_user_id = m.created_by_user_id;
  created_by_token_id = m.created_by_token_id;
  status = if m.requires_approval then pending_approval else queued;
  payload = m.payload;
  mime_sha256 = some m.digest;
  attempts = 0;
  last_error = none;
  locked_at = none;
  created_at = now;
  sent_at = none;
}

-- `queue`
unfoldable pub queue_message : NewMessage → ℕ → List Outbox → List Outbox
unfolding new_row
queue_message m now rows = rows ++ new_row m now ∷ []

-- `approve`, of the row with this identifier
unfoldable pub approve : ℕ → List Outbox → List Outbox
approve id rows = update_where (λ r. r.id == id) (λ r. record r { status = queued }) rows

-- The row after an attempt, and the exception that `send_one` lets through.
pub finish : ℕ → Attempted → Outbox → Outbox × Option Raised
finish now delivered row = (record row { status = sent; sent_at = some now }, none)
finish now (raised (transient e)) row =
    (record row { status = queued; attempts = row.attempts + 1; last_error = some (clip e) }, none)
finish now (raised (auth e)) row =
    (record row { status = failed; attempts = row.attempts + 1; last_error = some (clip e) }, none)
finish now (raised (permanent e)) row =
    (record row { status = failed; attempts = row.attempts + 1; last_error = some (clip e) }, none)
finish now (raised (config e)) row = (row, some (config e))
finish now (raised (other e)) row = (row, some (other e))

-- `send_one`: the row is marked `sending`, and that is committed, before the attempt.
pub send_one : ℕ → (Outbox → Attempted) → Outbox → Outbox × Option Raised
unfolding finish
send_one now attempt row =
    let marked = record row { status = sending } in finish now (attempt marked) marked

-- `_release_stale_claims`; `locked_at < now - timeout`
pub is_stale : ℕ → ℕ → ℕ → Outbox → Bool
is_stale account timeout_s now r =
    r.account_id == account
    && status_is r.status sending
    && elim r.locked_at [ none ↦ false | some at ↦ ltb (at + timeout_s) now ]

abbrev pub claim_expired : Text
claim_expired = codes "send claim expired"

pub release_stale_claims : ℕ → ℕ → ℕ → List Outbox → List Outbox
unfolding is_stale
release_stale_claims account timeout_s now rows =
    update_where (is_stale account timeout_s now)
      (λ r. record r { status = queued; locked_at = none; last_error = some claim_expired }) rows

-- The rows that a claim may take: `locked` are those that another open transaction holds, which
-- SKIP LOCKED passes over.
pub is_claimable : ℕ → List ℕ → Outbox → Bool
is_claimable account locked r =
    r.account_id == account && status_is r.status queued && not (elem r.id locked)

pub claimable : ℕ → List ℕ → List Outbox → List Outbox
unfolding is_claimable
claimable account locked rows =
    order_by (λ r. r.created_at) (select_where (is_claimable account locked) rows)

-- The claim of `send_pending`, in one transaction: the oldest rows, at most `limit`.
pub claim : ℕ → ℕ → List ℕ → ℕ → List Outbox → List ℕ × List Outbox
unfolding claimable
claim account limit locked now rows =
    let claimed = map (λ r. r.id) (take limit (claimable account locked rows)) in
    (
      claimed,
      update_where (λ r. elem r.id claimed)
          (λ r. record r { status = sending; locked_at = some now }) rows,
    )

abbrev pub find_row : ℕ → List Outbox → Option Outbox
find_row id [] = none
find_row id (r ∷ rs) = if r.id == id then some r else find_row id rs

-- How `send_pending` ends: with the number of messages sent, or by an exception.
pub data Sent : Type 0 where
  count_sent : ℕ → Sent
  escaped : Raised → Sent

-- One round of the loop: the exception that ends it, the messages sent so far, and the rows.
send_found :
    ℕ → (Outbox → Attempted) → ℕ → Option Outbox → ℕ → List Outbox → Option Raised × ℕ × List Outbox
unfolding send_one
send_found now attempt id none done rows = (none, done, rows)
send_found now attempt id (some row) done rows =
    let (after, raise) = send_one now attempt row in
    (
      raise,
      if status_is after.status sent then done + 1 else done,
      update_where (λ r. r.id == id) (λ r. (send_one now attempt r).0) rows,
    )

-- The loop over the claimed rows. An exception that `send_one` lets through ends it.
pub send_claimed : ℕ → (Outbox → Attempted) → List ℕ → ℕ → List Outbox → Sent × List Outbox
unfolding send_found
send_claimed now attempt [] done rows = (count_sent done, rows)
send_claimed now attempt (id ∷ ids) done rows =
    let (raise, done', rows') = send_found now attempt id (find_row id rows) done rows in
    elim raise [ some e ↦ (escaped e, rows') | none ↦ send_claimed now attempt ids done' rows' ]

-- `send_pending`
pub send_pending : ℕ → ℕ → List ℕ → ℕ → (Outbox → Attempted) → List Outbox → Sent × List Outbox
unfolding release_stale_claims claim send_claimed
send_pending account limit locked now attempt rows =
    let released = release_stale_claims account claim_timeout_s now rows in
    let (claimed, marked) = claim account limit locked now released in
    send_claimed now attempt claimed 0 marked

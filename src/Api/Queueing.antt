-- ===== src/Api/Queueing.antt =====
-- The handlers of the outgoing queue, `queue_outbox` and `approve_outbox` of
-- src/lenovmail/api/routes/mail.py.
use lenovmail.Table.{update_where, count_where}
use mathlib.Core.Option
use mathlib.Core.Option.{some-injective}
use lenovmail.Prelude.{
  ℕ, ◌+◌, ◌≤◌, ◌<◌, ◌≡◌, sym, ap, ◌∙◌, ◌⊎◌, inl, inr, Bool, true, false, ◌||◌, Option, none, some,
  List, [], ◌∷◌, ◌++◌, arith, ◌==◌, ==_iff, Bool-cases,
}
use lenovmail.Outbox.Content.{Payload}
use lenovmail.Outbox.{
  pending_approval, queued, Outbox, status_is, used_in_hour, within_send_limit, NewMessage, new_row,
  queue_message, approve, find_row,
}
use lenovmail.Api.Principal.{
  mail_send, has_scope, AgentToken, Principal, not_found, too_many_requests, Answer, ok, err, ◌>>=◌,
  ◌>>◌, guard, found_or, require, allows, AccountRow, find_account, owned_account,
  owned_account_sound,
}

-- The send limit and the approval that a principal needs.
agent_limit : Option AgentToken → ℕ → List Outbox → Answer (Unit {0})
agent_limit none now rows = ok tt
agent_limit (some t) now rows =
    guard (within_send_limit t.id t.send_limit_per_hour now rows) too_many_requests

abbrev agent_approval : Option AgentToken → Bool
agent_approval none = false
agent_approval (some t) = t.require_send_approval

-- The body of the request; `id` and `digest` come from the database and from `hashlib`.
pub record OutboxCreate : Type 0 where
  pub id : ℕ
  pub digest : ℕ
  pub payload : Payload
  pub requires_approval : Bool

-- What a handler leaves: the rows, and whether a `deliver_outbox` job was put into the job queue.
abbrev pub Queued : Type 0
Queued = Outbox × List Outbox × Bool

abbrev message_of : Principal → ℕ → OutboxCreate → NewMessage
message_of p account body = record {
  id = body.id;
  account_id = account;
  payload = body.payload;
  created_by_user_id = some p.user_id;
  created_by_token_id = elim p.agent [ none ↦ none | some t ↦ some t.id ];
  requires_approval = body.requires_approval || agent_approval p.agent;
  digest = body.digest;
}

unfoldable pub queue_outbox :
    Principal → ℕ → OutboxCreate → ℕ → List AccountRow → List Outbox → Answer Queued
unfolding require owned_account agent_limit new_row queue_message within_send_limit
queue_outbox p account_id body now accounts rows = do
  account ← owned_account p account_id accounts
  require p mail_send
  agent_limit p.agent now rows
  let m = message_of p account.id body
  ok (new_row m now, queue_message m now rows, status_is (new_row m now).status queued)

-- The row must exist and its account must be the caller's.
pub approve_outbox : Principal → ℕ → List AccountRow → List Outbox → Answer (List Outbox × ℕ)
unfolding require approve
approve_outbox p outbox_id accounts rows = do
  require p mail_send
  row ← found_or (find_row outbox_id rows) not_found
  account ← found_or (find_account row.account_id accounts) not_found
  guard (account.owner_id == p.user_id) not_found
  ok (approve row.id rows, account.id)

>>=-ok :
    {A B : Type 0} (m : Answer A) (f : A → Answer B) (b : B)
    → (m >>= f) ≡ ok b
    → (a : A) × (m ≡ ok a) × (f a ≡ ok b)
>>=-ok (ok a) f b h = (a, λ i. ok a, h)
>>=-ok (err e) f b h = absurd (cc)

-- The chain of a queued message: `owned_account` grants the account that its row goes to.
granted_row :
    (p : Principal) (account_id : ℕ) (body : OutboxCreate) (now : ℕ) (accounts : List AccountRow)
    (rows : List Outbox) (row : Outbox) (after : List Outbox) (started : Bool)
    → queue_outbox p account_id body now accounts rows ≡ ok (row, after, started)
    → (account : AccountRow) × (owned_account p account_id accounts ≡ ok account)
      × (row ≡ new_row (message_of p account.id body) now)
      × (started ≡ status_is row.status queued)
unfolding queue_outbox
granted_row p account_id body now accounts rows row after started h =
    let (account, owned, h₁) = >>=-ok (owned_account p account_id accounts) _ _ h in
    let (_, _, h₂) = >>=-ok (require p mail_send) _ _ h₁ in
    let (_, _, h₃) = >>=-ok (agent_limit p.agent now rows) _ _ h₂ in
    (account, owned, ground arith, ground arith)

granted_row-waits :
    (p : Principal) (t : AgentToken) (account : ℕ) (body : OutboxCreate) (now : ℕ) (row : Outbox)
    (started : Bool)
    → p.agent ≡ some t
    → t.require_send_approval ≡ true
    → row ≡ new_row (message_of p account body) now
    → started ≡ status_is row.status queued
    → (row.status ≡ pending_approval) × (started ≡ false)
unfolding new_row
granted_row-waits p t account body now row started a asked e s =
    let waits : row.status ≡ pending_approval =
      ap (λ (x : Outbox). x.status) e ∙ rw (a, asked) (ground arith) in
    (waits, s ∙ ap (λ x. status_is x queued) waits)

-- A message that an agent queues goes to an account that exists, is its owner's and is within the
-- token's accounts; and if the token requires approval, the row waits for it and no delivery is started.
pub queue_outbox-approval :
    (p : Principal) (t : AgentToken) (account_id : ℕ) (body : OutboxCreate) (now : ℕ)
    (accounts : List AccountRow) (rows : List Outbox) (row : Outbox) (after : List Outbox)
    (started : Bool)
    → p.agent ≡ some t
    → queue_outbox p account_id body now accounts rows ≡ ok (row, after, started)
    → (account : AccountRow) × (find_account account_id accounts ≡ some account)
      × (account.owner_id ≡ p.user_id)
      × (row.account_id ≡ account.id)
      × (allows p.account_ids account.id ≡ true)
      × ((t.require_send_approval ≡ false) ⊎ ((row.status ≡ pending_approval) × (started ≡ false)))
unfolding new_row
queue_outbox-approval p t account_id body now accounts rows row after started a h =
    let (account, owned, e, s) =
      granted_row p account_id body now accounts rows row after started h in
    let (owner, allowed, found) = owned_account_sound p account_id accounts account owned in
    (
      account,
      found,
      owner,
      ap (λ (x : Outbox). x.account_id) e,
      allowed,
      elim (Bool-cases t.require_send_approval) [
        | inl asked ↦ inr (granted_row-waits p t account.id body now row started a asked e s)
        | inr free ↦ inl free
      ],
    )

used_in_hour-append :
    (token now : ℕ) (rows : List Outbox) (r : Outbox)
    → used_in_hour token now (rows ++ r ∷ []) ≤ used_in_hour token now rows + 1
unfolding used_in_hour count_where
used_in_hour-append token now [] r = ground arith
used_in_hour-append token now (x ∷ rows) r = omega (arith, used_in_hour-append token now rows r)

-- After a message that an agent queued, its token has created at most `send_limit_per_hour` rows in
-- the last hour.
pub queue_outbox-limit :
    (p : Principal) (t : AgentToken) (account_id : ℕ) (body : OutboxCreate) (now : ℕ)
    (accounts : List AccountRow) (rows : List Outbox) (row : Outbox) (after : List Outbox)
    (started : Bool)
    → p.agent ≡ some t
    → queue_outbox p account_id body now accounts rows ≡ ok (row, after, started)
    → used_in_hour t.id now after ≤ t.send_limit_per_hour
unfolding queue_outbox
queue_outbox-limit p t account_id body now accounts rows row after started a h =
    let within : used_in_hour t.id now rows < t.send_limit_per_hour = ground (arith, a) in
    let grown : after ≡ rows ++ row ∷ [] = ground (arith, a) in
    rw grown (omega (arith, within, used_in_hour-append t.id now rows row))

-- An approval does not ask who gives it: two callers of one owner who both have or both lack the
-- scope to send get the same answer, whether or not they are agents and whatever accounts and approval
-- rules their tokens have.
pub approve_outbox-any_caller :
    (p q : Principal) (id : ℕ) (accounts : List AccountRow) (rows : List Outbox)
    → p.user_id ≡ q.user_id
    → has_scope mail_send p.scopes ≡ has_scope mail_send q.scopes
    → approve_outbox p id accounts rows ≡ approve_outbox q id accounts rows
unfolding approve_outbox
approve_outbox-any_caller p q id accounts rows u s = rw (s, u)

found-id : (r row : Outbox) (id : ℕ) → (r.id == id) ≡ true → some r ≡ some row → row.id ≡ id
found-id r row id e h =
    ap (λ (x : Outbox). x.id) (sym (some-injective r row h)) ∙ (==_iff r.id id).0 e

find_row-id :
    (id : ℕ) (rows : List Outbox) (row : Outbox) → find_row id rows ≡ some row → row.id ≡ id
find_row-id id [] row h = absurd (cc)
find_row-id id (r ∷ rows) row h = elim (Bool-cases (r.id == id)) [
  | inl e ↦ found-id r row id e (rw e at h)
  | inr e ↦ find_row-id id rows row (rw e at h)
]

find_row-approve :
    (id : ℕ) (rows : List Outbox) (row : Outbox)
    → find_row id rows ≡ some row
    → find_row id (approve id rows) ≡ some (record row { status = queued })
unfolding approve update_where
find_row-approve id [] row h = absurd (cc)
find_row-approve id (r ∷ rows) row h = elim (Bool-cases (r.id == id)) [
  | inl e ↦ rw e (rw e (ap (Option.map (λ (x : Outbox). record x { status = queued })) (rw e at h)))
  | inr e ↦ rw e (rw e (find_row-approve id rows row (rw e at h)))
]

-- A caller with the scope to send who owns the account can approve any of its rows, whatever its
-- status, and the row is then queued again: also one that is being sent, was sent or has failed.
pub approve_outbox-requeues :
    (p : Principal) (id : ℕ) (accounts : List AccountRow) (rows : List Outbox) (row : Outbox)
    (account : AccountRow)
    → has_scope mail_send p.scopes ≡ true
    → find_row id rows ≡ some row
    → find_account row.account_id accounts ≡ some account
    → account.owner_id ≡ p.user_id
    → (after : List Outbox) × (approve_outbox p id accounts rows ≡ ok (after, account.id))
      × (find_row id after ≡ some (record row { status = queued }))
unfolding approve_outbox
approve_outbox-requeues p id accounts rows row account s f a o =
    (approve id rows, ground (arith, find_row-id id rows row f), find_row-approve id rows row f)

-- ===== src/Api/Principal.antt =====
-- src/lenovmail/api/deps.py: tokens, principals, and the accounts that they reach.
use mathlib.Core.Option
use lenovmail.Prelude.{
  ℕ, ◌+◌, ◌≡◌, inl, inr, Bool, true, false, ◌&&◌, ◌||◌, Option, none, some, List, [], ◌∷◌, map,
  arith, ltb, ◌==◌, if◌then◌else◌, Option-cases, is_none, elem,
}
use lenovmail.Table.{select_where}

pub data Scope : Type 0 where
  mail_read mail_write mail_send mail_delete mail_manage : Scope

abbrev pub scope_eq : Scope → Scope → Bool
scope_eq mail_read mail_read = true
scope_eq mail_write mail_write = true
scope_eq mail_send mail_send = true
scope_eq mail_delete mail_delete = true
scope_eq mail_manage mail_manage = true
scope_eq _ _ = false

abbrev pub has_scope : Scope → List Scope → Bool
has_scope s [] = false
has_scope s (t ∷ ts) = scope_eq s t || has_scope s ts

abbrev pub all_scopes : List Scope
all_scopes = mail_read ∷ mail_write ∷ mail_send ∷ mail_delete ∷ mail_manage ∷ []

pub record AgentToken : Type 0 where
  pub id : ℕ
  pub owner_id : ℕ
  pub token_hash : ℕ
  pub scopes : List Scope
  pub account_ids : Option (List ℕ)
  pub require_send_approval : Bool
  pub send_limit_per_hour : ℕ
  pub expires_at : Option ℕ
  pub last_used_at : Option ℕ
  pub revoked_at : Option ℕ
  pub created_at : ℕ

pub record User : Type 0 where
  pub id : ℕ
  pub is_active : Bool

pub record Principal : Type 0 where
  pub user_id : ℕ
  pub scopes : List Scope
  pub agent : Option AgentToken
  pub account_ids : Option (List ℕ)

pub data HttpError : Type 0 where
  bad_request unauthorized forbidden not_found too_many_requests : HttpError

pub data Answer (A : Type 0) : Type 0 where
  ok : A → Answer A
  err : HttpError → Answer A

infixl 5 ◌>>=◌ ◌>>◌
abbrev pub ◌>>=◌ : {A B : Type 0} → Answer A → (A → Answer B) → Answer B
ok a >>= f = f a
err e >>= f = err e

abbrev pub ◌>>◌ : {B : Type 0} → Answer (Unit {0}) → Answer B → Answer B
m >> k = m >>= λ _. k

abbrev pub guard : Bool → HttpError → Answer (Unit {0})
guard true e = ok tt
guard false e = err e

abbrev pub found_or : {A : Type 0} → Option A → HttpError → Answer A
found_or none e = err e
found_or (some a) e = ok a

-- `Principal.require`
unfoldable pub require : Principal → Scope → Answer (Unit {0})
require p s = guard (has_scope s p.scopes) forbidden

-- `account_ids is None` is no restriction.
abbrev pub allows : Option (List ℕ) → ℕ → Bool
allows none id = true
allows (some ids) id = elem id ids

-- `Principal.ensure_account`
unfoldable pub ensure_account : Principal → ℕ → Answer (Unit {0})
ensure_account p id = guard (allows p.account_ids id) forbidden

pub record AccountRow : Type 0 where
  pub id : ℕ
  pub owner_id : ℕ

abbrev pub find_account : ℕ → List AccountRow → Option AccountRow
find_account id [] = none
find_account id (a ∷ rows) = if a.id == id then some a else find_account id rows

-- `owned_account`
unfoldable pub owned_account : Principal → ℕ → List AccountRow → Answer AccountRow
unfolding ensure_account
owned_account p id accounts = do
  row ← found_or (find_account id accounts) not_found
  guard (row.owner_id == p.user_id) not_found
  ensure_account p row.id
  ok row

-- A token that is neither revoked nor expired.
unfoldable pub is_valid_at : ℕ → AgentToken → Bool
is_valid_at now t = is_none t.revoked_at && elim t.expires_at [ none ↦ true | some at ↦ ltb now at ]

abbrev pub find_token : ℕ → List AgentToken → Option AgentToken
find_token hash [] = none
find_token hash (t ∷ ts) = if t.token_hash == hash then some t else find_token hash ts

-- `load_agent`, of the digest of the presented token
unfoldable pub load_agent : ℕ → ℕ → List AgentToken → Option AgentToken
unfolding is_valid_at
load_agent hash now tokens = elim (find_token hash tokens) [
  | none ↦ none
  | some t ↦ if is_valid_at now t then some t else none
]

-- `list(account_ids) if account_ids else None`
abbrev pub or_unrestricted : Option (List ℕ) → Option (List ℕ)
or_unrestricted none = none
or_unrestricted (some []) = none
or_unrestricted (some (a ∷ ids)) = some (a ∷ ids)

-- `touch_agent_last_used`: at most one write a minute
unfoldable pub touch_agent_last_used : ℕ → AgentToken → AgentToken
touch_agent_last_used now t =
    if elim t.last_used_at [ none ↦ true | some at ↦ ltb (at + 60) now ]
    then record t { last_used_at = some now }
    else t

-- The branch of `current_principal` for a bearer token.
unfoldable pub agent_principal : ℕ → ℕ → List AgentToken → (ℕ → Option User) → Answer Principal
unfolding load_agent touch_agent_last_used
agent_principal hash now tokens users = do
  agent ← found_or (load_agent hash now tokens) unauthorized
  user ← found_or (users agent.owner_id) unauthorized
  guard user.is_active unauthorized
  ok (record {
    user_id = user.id;
    scopes = agent.scopes;
    agent = some (touch_agent_last_used now agent);
    account_ids = or_unrestricted agent.account_ids;
  })

-- The branch for a browser session.
pub session_principal : User → Principal
session_principal u = record {
  user_id = u.id;
  scopes = all_scopes;
  agent = none;
  account_ids = none;
}

reachable : Principal → AccountRow → Bool
reachable p a = a.owner_id == p.user_id && allows p.account_ids a.id

all_in : List ℕ → List ℕ → Bool
all_in [] ids = true
all_in (k ∷ ks) ids = elem k ids && all_in ks ids

-- `readable_account_ids`; the accounts are listed in order of creation.
unfoldable pub readable_account_ids :
    Principal → Option (List ℕ) → List AccountRow → Answer (List ℕ)
unfolding reachable all_in
readable_account_ids p requested accounts =
    let allowed = map (λ a. a.id) (select_where (reachable p) accounts) in
    elim requested [
      | none ↦ ok allowed
      | some ids ↦
          guard (all_in ids allowed) not_found >> ok (select_where (λ id. elem id ids) allowed)
    ]

-- An account that `owned_account` grants is owned by the caller and inside the caller's accounts.
pub owned_account_sound :
    (p : Principal) (id : ℕ) (accounts : List AccountRow) (row : AccountRow)
    → owned_account p id accounts ≡ ok row
    → (row.owner_id ≡ p.user_id)
      × (allows p.account_ids row.id ≡ true)
      × (find_account id accounts ≡ some row)
unfolding owned_account
owned_account_sound p id accounts row h = ground arith

-- The expiry, if there is one, lies after `now`.
abbrev pub is_unexpired : ℕ → Option ℕ → Bool
is_unexpired now none = true
is_unexpired now (some at) = ltb now at

load_agent_valid :
    (hash now : ℕ) (tokens : List AgentToken) (t : AgentToken)
    → load_agent hash now tokens ≡ some t
    → (t.revoked_at ≡ none) × (is_unexpired now t.expires_at ≡ true)
unfolding load_agent
load_agent_valid hash now tokens t h = (ground arith, ground arith)

-- A token's owner that is known and active.
abbrev pub is_active_user : Option User → Bool
is_active_user none = false
is_active_user (some u) = u.is_active

agent_principal-of_token :
    (now : ℕ) (t : AgentToken) (owner : Option User) (p : Principal)
    → (do
      user ← found_or owner unauthorized
      guard user.is_active unauthorized
      ok (record {
        user_id = user.id;
        scopes = t.scopes;
        agent = some (touch_agent_last_used now t);
        account_ids = or_unrestricted t.account_ids;
      }))
      ≡ ok p
    → (p.scopes ≡ t.scopes)
      × (p.account_ids ≡ or_unrestricted t.account_ids)
      × (is_active_user owner ≡ true)
      × (Option.map (λ (u : User). u.id) owner ≡ some p.user_id)
agent_principal-of_token now t owner p h = ground arith

-- A principal that a bearer token gives is the token's active owner, with the scopes and the accounts
-- of the token; the token is in the table under the presented digest, is not revoked, and expires, if
-- at all, later than now.
pub agent_principal_sound :
    (hash now : ℕ) (tokens : List AgentToken) (users : ℕ → Option User) (p : Principal)
    → agent_principal hash now tokens users ≡ ok p
    → (t : AgentToken) × (load_agent hash now tokens ≡ some t)
      × ((p.scopes ≡ t.scopes)
          × (p.account_ids ≡ or_unrestricted t.account_ids)
          × (is_active_user (users t.owner_id) ≡ true)
          × (Option.map (λ (u : User). u.id) (users t.owner_id) ≡ some p.user_id))
      × (t.revoked_at ≡ none)
      × (is_unexpired now t.expires_at ≡ true)
unfolding agent_principal
agent_principal_sound hash now tokens users p h = elim (Option-cases (load_agent hash now tokens)) [
  | inl e ↦ absurd (ground (arith, e))
  | inr (t, e) ↦ (
    t,
    e,
    agent_principal-of_token now t (users t.owner_id) p (rw e at h),
    (load_agent_valid hash now tokens t e).0,
    (load_agent_valid hash now tokens t e).1,
  )
]

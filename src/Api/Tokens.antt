-- ===== src/Api/Tokens.antt =====
-- src/lenovmail/api/routes/agent.py: issuing agent tokens.
use lenovmail.Prelude.{
  ℕ, ◌+◌, ◌*◌, ◌≡◌, Bool, true, false, ◌&&◌, Option, none, some, List, [], ◌∷◌, arith, ◌==◌,
  if◌then◌else◌, get_or,
}
use lenovmail.Table.{exists_where}
use lenovmail.Api.Principal.{
  Scope, AgentToken, Principal, bad_request, Answer, ok, err, ◌>>=◌, ◌>>◌, guard, AccountRow,
  or_unrestricted,
}

-- The body of the request. A scope outside the five known ones is `none`. `id` and `token_hash` come
-- from the database and from `security.new_agent_token`.
pub record AgentTokenCreate : Type 0 where
  pub id : ℕ
  pub token_hash : ℕ
  pub scopes : List (Option Scope)
  pub account_ids : Option (List ℕ)
  pub require_send_approval : Bool
  pub send_limit_per_hour : Option ℕ
  pub expires_in_days : Option ℕ

known_scopes : List (Option Scope) → Answer (List Scope)
known_scopes [] = ok []
known_scopes (none ∷ ss) = err bad_request
known_scopes (some s ∷ ss) = do rest ← known_scopes ss; ok (s ∷ rest)

abbrev pub some_scope : List Scope → Bool
some_scope [] = false
some_scope (_ ∷ _) = true

owns : ℕ → List AccountRow → ℕ → Bool
owns user accounts id = exists_where (λ a. a.owner_id == user && a.id == id) accounts

pub owns_all : ℕ → List AccountRow → List ℕ → Bool
unfolding owns
owns_all user accounts [] = true
owns_all user accounts (id ∷ ids) = owns user accounts id && owns_all user accounts ids

-- `if expires_in_days`
abbrev expiry : ℕ → Option ℕ → Option ℕ
expiry now none = none
expiry now (some days) = if days == 0 then none else some (now + days * 86400)

unfoldable pub create_token :
    ℕ → Principal → AgentTokenCreate → ℕ → List AccountRow → Answer AgentToken
unfolding known_scopes owns_all
create_token default_limit p body now accounts = do
  scopes ← known_scopes body.scopes
  guard (some_scope scopes) bad_request
  guard (owns_all p.user_id accounts (get_or (or_unrestricted body.account_ids) [])) bad_request
  ok (record {
    id = body.id;
    owner_id = p.user_id;
    token_hash = body.token_hash;
    scopes = scopes;
    account_ids = or_unrestricted body.account_ids;
    require_send_approval = body.require_send_approval;
    send_limit_per_hour = get_or body.send_limit_per_hour default_limit;
    expires_at = expiry now body.expires_in_days;
    last_used_at = none;
    revoked_at = none;
    created_at = now;
  })

-- A token that is issued belongs to the caller's owner, has at least one scope, and is limited, if it
-- is limited, to accounts that the owner has.
pub create_token_sound :
    (default_limit : ℕ) (p : Principal) (body : AgentTokenCreate) (now : ℕ)
    (accounts : List AccountRow) (t : AgentToken)
    → create_token default_limit p body now accounts ≡ ok t
    → (t.owner_id ≡ p.user_id)
      × (some_scope t.scopes ≡ true)
      × (owns_all p.user_id accounts (get_or t.account_ids []) ≡ true)
unfolding create_token
create_token_sound default_limit p body now accounts t h =
    (ground arith, ground arith, ground arith)

-- Issuing a token does not ask what the caller may do: two callers of one owner get the same token,
-- whatever scopes, accounts and approval rule they have themselves. So an agent that may only read can
-- issue a token that sends without approval.
pub create_token-any_caller :
    (default_limit : ℕ) (p q : Principal) (body : AgentTokenCreate) (now : ℕ)
    (accounts : List AccountRow)
    → p.user_id ≡ q.user_id
    → create_token default_limit p body now accounts
      ≡ create_token default_limit q body now accounts
unfolding create_token
create_token-any_caller default_limit p q body now accounts u = rw u

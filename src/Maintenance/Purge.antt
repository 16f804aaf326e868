-- ===== src/Maintenance/Purge.antt =====
-- The purges of src/lenovmail/maintenance.py and the pass that runs all three.
use lenovmail.Table.Keys.{IsKeyed}
use lenovmail.Table.Laws.{length-delete_where, delete_where_sound, All-delete_where}
use lenovmail.Prelude.{
  ℕ, zero, suc, ◌+◌, ◌≤◌, ◌≡◌, refl, sym, ◌∙◌, inl, inr, Bool, true, false, ◌||◌, Option, none,
  some, List, [], ◌∷◌, arith, ltb, ◌==◌, if◌then◌else◌, ==_ne, Bool-cases, length, get_or, All,
}
use lenovmail.Table.{delete_where, count_where}
use lenovmail.Api.Principal.{AgentToken, is_valid_at, find_token, load_agent}
use lenovmail.Maintenance.{Account, CredentialCheck, RetireAction, SweepReport, sweep_accounts}

-- `field IS NOT NULL AND field < cutoff`, with `cutoff = now - retention`.
abbrev pub is_before : ℕ → ℕ → Option ℕ → Bool
is_before now retention none = false
is_before now retention (some t) = ltb (t + retention) now

abbrev pub is_dead : ℕ → ℕ → AgentToken → Bool
is_dead now retention t =
    is_before now retention t.revoked_at || is_before now retention t.expires_at

-- The tokens left, and the number of deleted rows.
pub purge_agent_tokens : ℕ → ℕ → List AgentToken → List AgentToken × ℕ
purge_agent_tokens now retention tokens =
    (delete_where (is_dead now retention) tokens, count_where (is_dead now retention) tokens)

-- A row of `agent_audit`: when it was written, and what it says.
pub record AuditRow : Type 0 where
  pub created_at : ℕ
  pub tool : ℕ

abbrev pub is_old : ℕ → ℕ → AuditRow → Bool
is_old now retention row = ltb (row.created_at + retention) now

pub purge_agent_audit : ℕ → ℕ → List AuditRow → List AuditRow × ℕ
purge_agent_audit now zero rows = (rows, 0)
purge_agent_audit now (suc n) rows =
    (delete_where (is_old now (suc n)) rows, count_where (is_old now (suc n)) rows)

-- The settings of the janitor.
pub record Settings : Type 0 where
  pub grace : ℕ
  pub account_action : RetireAction
  pub check_batch : ℕ
  pub token_retention : ℕ
  pub audit_retention : ℕ

pub record Janitor : Type 0 where
  pub accounts : List Account
  pub tokens : List AgentToken
  pub audit : List AuditRow

pub run_sweep :
    Settings
    → ℕ
    → Option RetireAction
    → (Account → CredentialCheck)
    → Janitor
    → Janitor × SweepReport
unfolding purge_agent_tokens purge_agent_audit
run_sweep s now action check j =
    let (accounts, report) =
      sweep_accounts now s.grace (get_or action s.account_action) none s.check_batch check
        j.accounts in
    let (tokens, tokens_deleted) = purge_agent_tokens now s.token_retention j.tokens in
    let (audit, audit_rows_deleted) = purge_agent_audit now s.audit_retention j.audit in
    (
      record { accounts = accounts; tokens = tokens; audit = audit },
      record report { tokens_deleted = tokens_deleted; audit_rows_deleted = audit_rows_deleted },
    )

is_dead-is_valid_at :
    (now later retention : ℕ) (t : AgentToken)
    → now ≤ later
    → is_dead now retention t ≡ true
    → is_valid_at later t ≡ false
unfolding is_valid_at
is_dead-is_valid_at now later retention t n d = ground arith

find_token-absent :
    (h : ℕ) (tokens : List AgentToken)
    → All (λ t. (t.token_hash == h) ≡ false) tokens
    → find_token h tokens ≡ none
find_token-absent h [] a = refl
find_token-absent h (t ∷ ts) a = rw a.0 (find_token-absent h ts a.1)

load_agent-absent :
    (h now : ℕ) (tokens : List AgentToken)
    → All (λ t. (t.token_hash == h) ≡ false) tokens
    → load_agent h now tokens ≡ none
unfolding load_agent
load_agent-absent h now tokens a = rw (find_token-absent h tokens a, load_agent)

load_agent-skip :
    (h now : ℕ) (t : AgentToken) (ts : List AgentToken)
    → (t.token_hash == h) ≡ false
    → load_agent h now (t ∷ ts) ≡ load_agent h now ts
unfolding load_agent
load_agent-skip h now t ts e = rw (e, load_agent)

load_agent-here :
    (h now : ℕ) (t : AgentToken) (ts us : List AgentToken)
    → (t.token_hash == h) ≡ true
    → load_agent h now (t ∷ ts) ≡ load_agent h now (t ∷ us)
unfolding load_agent
load_agent-here h now t ts us e = rw (e, load_agent)

load_agent-invalid :
    (h now : ℕ) (t : AgentToken) (ts : List AgentToken)
    → (t.token_hash == h) ≡ true
    → is_valid_at now t ≡ false
    → load_agent h now (t ∷ ts) ≡ none
unfolding load_agent
load_agent-invalid h now t ts e v = rw (e, v, load_agent)

same_hash :
    (h : ℕ) (t : AgentToken) (ts : List AgentToken)
    → (t.token_hash == h) ≡ true
    → All (λ u. (u.token_hash == t.token_hash) ≡ false) ts
    → All (λ u. (u.token_hash == h) ≡ false) ts
same_hash h t [] e a = tt
same_hash h t (u ∷ us) e a = (ground (arith, a.0), same_hash h t us e a.1)

delete_where-drop :
    (now retention : ℕ) (t : AgentToken) (ts : List AgentToken)
    → is_dead now retention t ≡ true
    → delete_where (is_dead now retention) (t ∷ ts) ≡ delete_where (is_dead now retention) ts
unfolding delete_where
delete_where-drop now retention t ts d = rw d

delete_where-keep :
    (now retention : ℕ) (t : AgentToken) (ts : List AgentToken)
    → is_dead now retention t ≡ false
    → delete_where (is_dead now retention) (t ∷ ts) ≡ t ∷ delete_where (is_dead now retention) ts
unfolding delete_where
delete_where-keep now retention t ts d = rw d

-- Purging tokens logs nobody out: where no two tokens share a digest, a purge changes the answer of
-- `load_agent` for no digest, at its own time and at every later one, whatever the retention is.
pub purge_agent_tokens-load_agent :
    (now later retention h : ℕ) (tokens : List AgentToken)
    → now ≤ later
    → IsKeyed (λ t. t.token_hash) tokens
    → load_agent h later (purge_agent_tokens now retention tokens).0 ≡ load_agent h later tokens
unfolding purge_agent_tokens delete_where
purge_agent_tokens-load_agent now later retention h [] n k = refl
purge_agent_tokens-load_agent now later retention h (t ∷ ts) n k =
    elim (Bool-cases (is_dead now retention t)) [
      | inl d ↦ elim (Bool-cases (t.token_hash == h)) [
        | inl e ↦ rw (delete_where-drop now retention t ts d) (
            load_agent-absent h later (delete_where (is_dead now retention) ts) (
              All-delete_where (λ u. (u.token_hash == h) ≡ false) (is_dead now retention) ts
                (same_hash h t ts e k.0))
            ∙ sym
                (load_agent-invalid h later t ts e (is_dead-is_valid_at now later retention t n d)))
        | inr e ↦ rw (delete_where-drop now retention t ts d) (
            purge_agent_tokens-load_agent now later retention h ts n k.1
            ∙ sym (load_agent-skip h later t ts e))
      ]
      | inr d ↦ elim (Bool-cases (t.token_hash == h)) [
        | inl e ↦
            rw (delete_where-keep now retention t ts d)
              (load_agent-here h later t (delete_where (is_dead now retention) ts) ts e)
        | inr e ↦ rw (delete_where-keep now retention t ts d) (
            load_agent-skip h later t (delete_where (is_dead now retention) ts) e
            ∙ purge_agent_tokens-load_agent now later retention h ts n k.1
            ∙ sym (load_agent-skip h later t ts e))
      ]
    ]

purge_agent_audit_lem :
    (now retention : ℕ) (rows : List AuditRow)
    → let (kept, n) = purge_agent_audit now retention rows in
      (length kept + n ≡ length rows)
      × (kept ≡ (if retention == 0 then rows else delete_where (is_old now retention) rows))
unfolding purge_agent_audit
purge_agent_audit_lem now zero rows = (omega arith, refl)
purge_agent_audit_lem now (suc n) rows =
    (length-delete_where (is_old now (suc n)) rows, rw (==_ne (suc n) 0 (λ z. omega (arith, z))))

-- One pass of the janitor leaves no dead token, reports each deleted token and audit row, and keeps
-- exactly the audit rows within the retention, all of them where it is 0.
pub run_sweep-reports :
    (s : Settings) (now : ℕ) (action : Option RetireAction) (check : Account → CredentialCheck)
    (j : Janitor)
    → let (k, r) = run_sweep s now action check j in
      All (λ t. is_dead now s.token_retention t ≡ false) k.tokens
      × (length k.tokens + r.tokens_deleted ≡ length j.tokens)
      × (length k.audit + r.audit_rows_deleted ≡ length j.audit)
      × (k.audit ≡ (
          if s.audit_retention == 0
          then j.audit
          else delete_where (is_old now s.audit_retention) j.audit))
unfolding run_sweep purge_agent_tokens
run_sweep-reports s now action check j =
    let audited : _ = purge_agent_audit_lem now s.audit_retention j.audit in
    (
      delete_where_sound (is_dead now s.token_retention) j.tokens,
      length-delete_where (is_dead now s.token_retention) j.tokens,
      audited.0,
      audited.1,
    )

-- ===== src/Maintenance.antt =====
-- The janitor (src/lenovmail/maintenance.py): re-checking quarantined accounts, retiring those that
-- stay rejected, and purging dead tokens and old audit rows. Times are in seconds; a difference of
-- times is compared by moving the subtrahend to the other side. What the providers answer is an
-- argument: `check` is the `check` parameter of the source.
pub mod Checks
pub mod Sweep
pub mod Counts
pub mod Purge
use lenovmail.Prelude.{
  ℕ, zero, suc, ◌+◌, Bool, true, false, Option, none, some, List, [], ◌∷◌, ltb, ◌==◌, if◌then◌else◌,
  take,
}
use lenovmail.Table.{select_where, update_where, delete_where}
use lenovmail.Table.Order.{order_by}
use lenovmail.Text.{Text, codes}

pub data AccountStatus : Type 0 where
  active auth_error error disabled : AccountStatus

pub record Account : Type 0 where
  pub id : ℕ
  pub status : AccountStatus
  pub status_detail : Option Text
  pub invalid_since : Option ℕ
  pub last_sync_at : Option ℕ
  pub updated_at : ℕ

pub data CredentialState : Type 0 where
  valid invalid unknown : CredentialState

pub record CredentialCheck : Type 0 where
  pub state : CredentialState
  pub detail : Option Text

pub data RetireAction : Type 0 where
  disable delete : RetireAction

pub record SweepReport : Type 0 where
  pub checked : ℕ
  pub recovered : ℕ
  pub quarantined : ℕ
  pub disabled : ℕ
  pub deleted : ℕ
  pub unreachable : ℕ
  pub tokens_deleted : ℕ
  pub audit_rows_deleted : ℕ

abbrev pub empty_report : SweepReport
empty_report = record {
  checked = 0;
  recovered = 0;
  quarantined = 0;
  disabled = 0;
  deleted = 0;
  unreachable = 0;
  tokens_deleted = 0;
  audit_rows_deleted = 0;
}

abbrev pub is_auth_error : AccountStatus → Bool
is_auth_error auth_error = true
is_auth_error _ = false

-- What the sweep does to one account: the row, or none if it is deleted, and the report. `now -
-- invalid_since < grace` is `now < invalid_since + grace`.
abbrev pub Swept : Type 0
Swept = Option Account × SweepReport

-- `(detail or "credentials rejected")[:2000]`
abbrev pub rejection : Option Text → Text
rejection none = codes "credentials rejected"
rejection (some []) = codes "credentials rejected"
rejection (some (c ∷ cs)) = take 2000 (c ∷ cs)

-- The account was rejected again, and its grace period is over.
retire : RetireAction → Account → SweepReport → Swept
retire delete a r = (none, record r { deleted = r.deleted + 1 })
retire disable a r =
    (some (record a { status = AccountStatus.disabled }), record r { disabled = r.disabled + 1 })

-- The account was rejected.
reject : ℕ → ℕ → RetireAction → Option ℕ → Account → SweepReport → Swept
unfolding retire
reject now grace action none a r =
    (some (record a { invalid_since = some now }), record r { quarantined = r.quarantined + 1 })
reject now grace action (some since) a r =
    if ltb now (since + grace) then (some a, r) else retire action a r

after_check :
    ℕ → ℕ → RetireAction → CredentialCheck → CredentialState → Account → SweepReport → Swept
unfolding reject
after_check now grace action c unknown a r = (some a, record r { unreachable = r.unreachable + 1 })
after_check now grace action c valid a r = (
  some (record a { status = active; status_detail = none; invalid_since = none }),
  record r { recovered = r.recovered + 1 },
)
after_check now grace action c invalid a r =
    reject now grace action a.invalid_since (record a { status_detail = some (rejection c.detail) })
      r

-- One round of the loop of `sweep_accounts`.
unfoldable pub sweep_one :
    ℕ → ℕ → RetireAction → (Account → CredentialCheck) → Account → SweepReport → Swept
unfolding after_check
sweep_one now grace action check a r =
    after_check now grace action (check a) (check a).state a (record r { checked = r.checked + 1 })

-- The row of an account is written or deleted.
write_account : ℕ → Option Account → List Account → List Account
write_account id none rows = delete_where (λ a. a.id == id) rows
write_account id (some b) rows = update_where (λ a. a.id == id) (λ _. b) rows

-- The loop of `sweep_accounts` over the selected accounts.
pub sweep_list :
    ℕ
    → ℕ
    → RetireAction
    → (Account → CredentialCheck)
    → List Account
    → List Account
    → SweepReport
    → List Account × SweepReport
unfolding sweep_one write_account
sweep_list now grace action check [] rows r = (rows, r)
sweep_list now grace action check (a ∷ chosen) rows r =
    let (row, r') = sweep_one now grace action check a r in
    sweep_list now grace action check chosen (write_account a.id row rows) r'

-- WHERE status = 'auth_error' ORDER BY updated_at LIMIT limit
pub quarantined_accounts : ℕ → List Account → List Account
quarantined_accounts limit rows =
    take limit (order_by (λ a. a.updated_at) (select_where (λ a. is_auth_error a.status) rows))

-- `limit or settings.janitor_check_batch`
abbrev pub limit_or : Option ℕ → ℕ → ℕ
limit_or none batch = batch
limit_or (some zero) batch = batch
limit_or (some (suc n)) batch = suc n

pub sweep_accounts :
    ℕ
    → ℕ
    → RetireAction
    → Option ℕ
    → ℕ
    → (Account → CredentialCheck)
    → List Account
    → List Account × SweepReport
unfolding sweep_list quarantined_accounts
sweep_accounts now grace action limit batch check rows =
    sweep_list now grace action check (quarantined_accounts (limit_or limit batch) rows) rows
      empty_report

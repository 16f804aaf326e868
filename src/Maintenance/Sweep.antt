-- ===== src/Maintenance/Sweep.antt =====
-- What one sweep (src/lenovmail/maintenance.py, `sweep_accounts`) does to an account.
use lenovmail.Prelude.{ℕ, ◌+◌, ◌≤◌, ◌≡◌, Bool, true, false, ◌&&◌, Option, none, some, arith, leb}
use lenovmail.Maintenance.{
  AccountStatus, disabled, Account, CredentialState, invalid, CredentialCheck, RetireAction,
  SweepReport, sweep_one,
}

abbrev pub is_disabled : AccountStatus → Bool
is_disabled disabled = true
is_disabled _ = false

-- The row was deleted, or is disabled.
abbrev pub is_retired : Option Account → Bool
is_retired none = true
is_retired (some a) = is_disabled a.status

-- The rejection was confirmed before, and the grace period is over.
abbrev pub is_overdue : ℕ → ℕ → Option ℕ → Bool
is_overdue now grace none = false
is_overdue now grace (some since) = leb (since + grace) now

abbrev pub is_invalid : CredentialState → Bool
is_invalid invalid = true
is_invalid _ = false

-- A sweep retires an account that was not disabled exactly if the provider rejects its credentials
-- now, has rejected them before, and the first rejection is at least the grace period ago.
pub sweep_one-retires :
    (now grace : ℕ) (action : RetireAction) (check : Account → CredentialCheck) (a : Account)
    (r : SweepReport)
    → is_disabled a.status ≡ false
    → let (row, _) = sweep_one now grace action check a r in
      is_retired row ≡ (is_invalid (check a).state && is_overdue now grace a.invalid_since)
unfolding sweep_one
sweep_one-retires now grace action check a r h = ground arith

-- An account whose credentials are rejected at two sweeps: the first stamps the time and keeps the
-- row, and the second retires it, if the grace period lies between them.
pub sweep_one-twice :
    (now later grace : ℕ) (action : RetireAction) (check check' : Account → CredentialCheck)
    (a b : Account) (r r' : SweepReport)
    → a.invalid_since ≡ none
    → (check a).state ≡ invalid
    → (sweep_one now grace action check a r).0 ≡ some b
    → (check' b).state ≡ invalid
    → now + grace ≤ later
    → (b.invalid_since ≡ some now)
      × (b.status ≡ a.status)
      × (is_retired (sweep_one later grace action check' b r').0 ≡ true)
unfolding sweep_one
sweep_one-twice now later grace action check check' a b r r' i c s c' g =
    (ground arith, ground arith, ground arith)

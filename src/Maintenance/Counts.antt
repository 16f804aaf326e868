-- ===== src/Maintenance/Counts.antt =====
-- The report of a sweep (src/lenovmail/maintenance.py).
use lenovmail.Prelude.{
  ℕ, zero, suc, ◌+◌, ◌≤◌, ◌≡◌, refl, ◌∙◌, true, false, Option, none, some, List, [], ◌∷◌, arith,
  ◌==◌, length, take, All,
}
use lenovmail.Table.{select_where, count_where}
use lenovmail.Table.Laws.{
  select_where_sound, length-select_where, All-select_where, select-update_where_other,
  select-delete_where_other, All-map₂,
}
use lenovmail.Table.Order.{order_by, length-order_by, All-order_by, All-take, length-take_le}
use lenovmail.Maintenance.{
  Account, CredentialCheck, RetireAction, SweepReport, empty_report, is_auth_error, sweep_one,
  sweep_list, quarantined_accounts, limit_or, sweep_accounts, write_account,
}

-- The accounts of which the report says what became of them.
abbrev pub decided : SweepReport → ℕ
decided r = r.recovered + r.unreachable + r.quarantined + r.disabled + r.deleted

-- One account is checked once, and enters at most one of the other counters.
sweep_one-report :
    (now grace : ℕ) (action : RetireAction) (check : Account → CredentialCheck) (a : Account)
    (r : SweepReport)
    → let (_, r') = sweep_one now grace action check a r in
      (r'.checked ≡ r.checked + 1) × (decided r' ≤ decided r + 1) × (decided r ≤ decided r')
unfolding sweep_one
sweep_one-report now grace action check a r = (ground arith, ground arith, ground arith)

sweep_list-report :
    (now grace : ℕ) (action : RetireAction) (check : Account → CredentialCheck)
    (chosen rows : List Account) (r : SweepReport)
    → let (_, r') = sweep_list now grace action check chosen rows r in
      (r'.checked ≡ r.checked + length chosen) × (decided r' ≤ decided r + length chosen)
unfolding sweep_list
sweep_list-report now grace action check [] rows r = (omega arith, omega arith)
sweep_list-report now grace action check (a ∷ chosen) rows r =
    let (row, r') = sweep_one now grace action check a r in
    let one : _ = sweep_one-report now grace action check a r in
    let rest : _ =
      sweep_list-report now grace action check chosen (write_account a.id row rows) r' in
    (omega (arith, one.0, rest.0), omega (arith, one.1, rest.1))

length-take-shorter {ℓ} : {A : Type ℓ} (n : ℕ) (xs : List A) → length (take n xs) ≤ length xs
length-take-shorter zero xs = omega arith
length-take-shorter (suc n) [] = omega arith
length-take-shorter (suc n) (x ∷ xs) = omega (arith, length-take-shorter n xs)

length-quarantined_accounts :
    (limit : ℕ) (rows : List Account)
    → (length (quarantined_accounts limit rows) ≤ limit)
      × (length (quarantined_accounts limit rows) ≤ count_where (λ a. is_auth_error a.status) rows)
unfolding quarantined_accounts
length-quarantined_accounts limit rows =
    let selected : _ = select_where (λ a. is_auth_error a.status) rows in
    let sorted : _ = order_by (λ a. a.updated_at) selected in
    (
      length-take_le limit sorted,
      omega (
        arith,
        length-take-shorter limit sorted,
        length-order_by (λ a. a.updated_at) selected,
        length-select_where (λ a. is_auth_error a.status) rows,
      ),
    )

-- A sweep checks at most as many accounts as its limit, or the configured batch if the limit is absent
-- or 0, and at most as many as are quarantined; the recovered, unreachable, newly quarantined, disabled
-- and deleted accounts of the report are together at most the checked ones.
pub sweep_accounts-report :
    (now grace : ℕ) (action : RetireAction) (limit : Option ℕ) (batch : ℕ)
    (check : Account → CredentialCheck) (rows : List Account)
    → let (_, r) = sweep_accounts now grace action limit batch check rows in
      (r.checked ≤ limit_or limit batch)
      × (r.checked ≤ count_where (λ a. is_auth_error a.status) rows)
      × (decided r ≤ r.checked)
unfolding sweep_accounts
sweep_accounts-report now grace action limit batch check rows =
    let all : _ =
      sweep_list-report now grace action check (quarantined_accounts (limit_or limit batch) rows)
        rows empty_report in
    let few : _ = length-quarantined_accounts (limit_or limit batch) rows in
    (omega (arith, all.0, few.0), omega (arith, all.0, few.1), omega (arith, all.0, all.1))

-- A row that is still there has this id.
abbrev KeepsId : ℕ → Option Account → Type 0
KeepsId k none = Unit
KeepsId k (some b) = b.id ≡ k

sweep_one-id :
    (now grace : ℕ) (action : RetireAction) (check : Account → CredentialCheck) (a : Account)
    (r : SweepReport)
    → KeepsId a.id (sweep_one now grace action check a r).0
unfolding sweep_one
sweep_one-id now grace action check a r = ground arith

write_account-other :
    (k id : ℕ) (row : Option Account) (rows : List Account)
    → KeepsId k row
    → (k == id) ≡ false
    → select_where (λ a. a.id == id) (write_account k row rows)
      ≡ select_where (λ a. a.id == id) rows
unfolding write_account
write_account-other k id none rows h n =
    select-delete_where_other (λ a. a.id == k) (λ a. a.id == id) rows (λ a e. ground arith)
write_account-other k id (some b) rows h n =
    select-update_where_other (λ a. a.id == k) (λ a. a.id == id) (λ _. b) rows
      (λ a e. (ground arith, ground arith))

sweep_list-other :
    (now grace : ℕ) (action : RetireAction) (check : Account → CredentialCheck) (id : ℕ)
    (chosen rows : List Account) (r : SweepReport)
    → All (λ a. (a.id == id) ≡ false) chosen
    → select_where (λ a. a.id == id) (sweep_list now grace action check chosen rows r).0
      ≡ select_where (λ a. a.id == id) rows
unfolding sweep_list
sweep_list-other now grace action check id [] rows r h = refl
sweep_list-other now grace action check id (a ∷ chosen) rows r h =
    let (row, r') = sweep_one now grace action check a r in
    sweep_list-other now grace action check id chosen (write_account a.id row rows) r' h.1
    ∙ write_account-other a.id id row rows (sweep_one-id now grace action check a r) h.0

-- A sweep leaves an account alone that is not quarantined: its row is neither deleted nor changed,
-- whatever the provider would have answered.
pub sweep_accounts-healthy :
    (now grace : ℕ) (action : RetireAction) (limit : Option ℕ) (batch : ℕ)
    (check : Account → CredentialCheck) (rows : List Account) (id : ℕ)
    → All (λ a. (a.id == id) ≡ true → is_auth_error a.status ≡ false) rows
    → select_where (λ a. a.id == id) (sweep_accounts now grace action limit batch check rows).0
      ≡ select_where (λ a. a.id == id) rows
unfolding sweep_accounts quarantined_accounts
sweep_accounts-healthy now grace action limit batch check rows id h =
    let IsOther : (Account → Type 0) = λ a. (a.id == id) ≡ false in
    let selected : _ = select_where (λ a. is_auth_error a.status) rows in
    let others : All IsOther selected =
      All-map₂ (λ a. is_auth_error a.status ≡ true)
        (λ a. (a.id == id) ≡ true → is_auth_error a.status ≡ false) IsOther selected
        (λ a s n. ground arith) (select_where_sound (λ a. is_auth_error a.status) rows)
        (All-select_where (λ a. (a.id == id) ≡ true → is_auth_error a.status ≡ false)
          (λ a. is_auth_error a.status) rows h) in
    sweep_list-other now grace action check id (quarantined_accounts (limit_or limit batch) rows)
      rows empty_report
      (All-take IsOther (limit_or limit batch) (order_by (λ a. a.updated_at) selected)
        (All-order_by (λ a. a.updated_at) IsOther selected others))

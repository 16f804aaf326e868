-- ===== src/Tests/Working.antt =====
-- The jobs (src/lenovmail/workers/tasks.py) at concrete times.
use lenovmail.Prelude.{◌≡◌, refl, true, false, [], ◌∷◌, arith, All, elem}
use lenovmail.Workers.{begin_sync, begins, ends, happen_all, sync_all_accounts}
use lenovmail.Tests.Samples.{three_accounts, no_keys}
use lenovmail.Workers.Lock.{begin_sync_exclusive}
use lenovmail.Workers.Scheduling.{sync_all_accounts-once}

begin_sync_exclusive_example :
    (begin_sync 1 1500
      (happen_all (begins 2 1100 ∷ begins 1 1200 ∷ ends 2 ∷ []) (begin_sync 1 1000 no_keys).1)).0
    ≡ false
unfolding begin_sync
begin_sync_exclusive_example =
    begin_sync_exclusive 1 1000 1500 (begins 2 1100 ∷ begins 1 1200 ∷ ends 2 ∷ []) no_keys refl
      (refl, (refl, (refl, tt))) (omega arith)

sync_all_accounts-once_example :
    let (queued_ids, r') = sync_all_accounts 1000 (λ _. 300) (λ _. true) three_accounts no_keys in
    All
      (λ id. elem id (sync_all_accounts 1030 (λ _. 300) (λ _. true) three_accounts r').0 ≡ false)
      queued_ids
sync_all_accounts-once_example =
    sync_all_accounts-once 1000 1030 (λ _. 300) (λ _. true) (λ _. true) three_accounts
      three_accounts no_keys (omega arith) (omega arith)

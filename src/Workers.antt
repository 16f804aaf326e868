-- ===== src/Workers.antt =====
-- The jobs (src/lenovmail/workers/tasks.py): the lock that keeps two sync cycles of an account apart,
-- the marker that keeps the scheduler from queueing an account twice, and the back-off of a watcher.
-- Redis is a function from keys to the time at which the key expires; jobs of several workers are a
-- sequence of events, each with its time. What a cycle does between them is left out.
pub mod Lock
pub mod Scheduling
use lenovmail.Prelude.{
  ℕ, ◌+◌, Bool, true, false, ◌&&◌, Option, none, some, List, [], ◌∷◌, map, ltb, ◌==◌, if◌then◌else◌,
  drop,
}
use lenovmail.Table.{select_where}
use lenovmail.Maintenance.{AccountStatus, active, auth_error, error, disabled, Account}

-- The prefixes of the keys.
pub data KeyKind : Type 0 where
  sync_lock sync_queued : KeyKind

abbrev pub kind_eq : KeyKind → KeyKind → Bool
kind_eq sync_lock sync_lock = true
kind_eq sync_queued sync_queued = true
kind_eq _ _ = false

-- When the key of an account expires, if it is there.
abbrev pub Redis : Type 0
Redis = KeyKind → ℕ → Option ℕ

abbrev pub sync_lock_ttl_s : ℕ
sync_lock_ttl_s = 900

abbrev pub sync_queued_ttl_s : ℕ
sync_queued_ttl_s = 900

abbrev pub is_live : ℕ → Option ℕ → Bool
is_live now none = false
is_live now (some expiry) = ltb now expiry

abbrev pub put : KeyKind → ℕ → Option ℕ → Redis → Redis
put kind id expiry r k a = if kind_eq k kind && a == id then expiry else r k a

-- `redis.set(key, "1", ex=ttl, nx=True)`
abbrev pub set_nx : KeyKind → ℕ → ℕ → ℕ → Redis → Bool × Redis
set_nx kind id ttl now r =
    if is_live now (r kind id) then (false, r) else (true, put kind id (some (now + ttl)) r)

-- `sync_account` up to its `try`, with Redis in the context: whether the cycle may run.
unfoldable pub begin_sync : ℕ → ℕ → Redis → Bool × Redis
begin_sync id now r = set_nx sync_lock id sync_lock_ttl_s now (put sync_queued id none r)

-- Without Redis in the context no lock is taken, and the cycle runs.
pub begin_job : ℕ → ℕ → Option Redis → Bool × Option Redis
unfolding begin_sync
begin_job id now none = (true, none)
begin_job id now (some r) = ((begin_sync id now r).0, some (begin_sync id now r).1)

-- The `finally` of `sync_account`, with Redis
pub end_sync : ℕ → Redis → Redis
end_sync id r = put sync_lock id none r

pub data Provider : Type 0 where
  imap_account graph_account other_account : Provider

pub data Cycle : Type 0 where
  skipped imap_cycle graph_cycle : Cycle

abbrev cycle_of : Provider → Cycle
cycle_of imap_account = imap_cycle
cycle_of graph_account = graph_cycle
cycle_of other_account = skipped

-- Which cycle the body of `sync_account` runs.
pub choose_cycle : Option (AccountStatus × Provider) → Cycle
choose_cycle none = skipped
choose_cycle (some (disabled, p)) = skipped
choose_cycle (some (auth_error, p)) = skipped
choose_cycle (some (active, p)) = cycle_of p
choose_cycle (some (error, p)) = cycle_of p

-- A job starts or ends. The job queue may run others in between.
pub data Event : Type 0 where
  begins : ℕ → ℕ → Event
  ends : ℕ → Event

pub happen : Event → Redis → Redis
unfolding begin_sync end_sync
happen (begins id now) r = (begin_sync id now r).1
happen (ends id) r = end_sync id r

pub happen_all : List Event → Redis → Redis
unfolding happen
happen_all [] r = r
happen_all (e ∷ events) r = happen_all events (happen e r)

-- WHERE status IN ('active', 'error') AND (last_sync_at IS NULL OR last_sync_at < now - interval)
pub is_due : ℕ → (ℕ → ℕ) → Account → Bool
is_due now interval a =
    elim a.status [ active ↦ true | error ↦ true | auth_error ↦ false | disabled ↦ false ]
    && elim a.last_sync_at [ none ↦ true | some at ↦ ltb (at + interval a.id) now ]

-- The loop of `sync_all_accounts`; `accepts` is whether the job queue took the job.
pub enqueue_due : ℕ → (ℕ → Bool) → List ℕ → Redis → List ℕ × Redis
enqueue_due now accepts [] r = ([], r)
enqueue_due now accepts (id ∷ ids) r =
    let (fresh, r') = set_nx sync_queued id sync_queued_ttl_s now r in
    let (skipped_ids, skipped_r) = enqueue_due now accepts ids r' in
    let (queued_ids, queued_r) = enqueue_due now accepts ids r' in
    let (refused_ids, refused_r) = enqueue_due now accepts ids (put sync_queued id none r') in
    if fresh
    then (if accepts id then (id ∷ queued_ids, queued_r) else (refused_ids, refused_r))
    else (skipped_ids, skipped_r)

pub sync_all_accounts : ℕ → (ℕ → ℕ) → (ℕ → Bool) → List Account → Redis → List ℕ × Redis
unfolding is_due enqueue_due
sync_all_accounts now interval accepts accounts r =
    enqueue_due now accepts (map (λ a. a.id) (select_where (is_due now interval) accounts)) r

-- `IDLE_RECONNECT_BACKOFFS_S`
abbrev pub idle_backoffs_s : List ℕ
idle_backoffs_s = 5 ∷ 10 ∷ 20 ∷ 40 ∷ 60 ∷ []

abbrev first_delay : List ℕ → Option ℕ
first_delay [] = none
first_delay (d ∷ _) = some d

-- `_idle_backoff`: how long to wait, or none once the attempts are spent
pub idle_backoff : ℕ → Option ℕ
idle_backoff attempt = first_delay (drop attempt idle_backoffs_s)

-- ===== src/Tests/Janitor.antt =====
-- The janitor (src/lenovmail/maintenance.py) at concrete accounts and tokens.
use lenovmail.Prelude.{◌≤◌, ◌≡◌, refl, ◌&&◌, ◌||◌, none, arith, ◌==◌, if◌then◌else◌, is_some}
use lenovmail.Table.{select_where, count_where}
use lenovmail.Api.Principal.{load_agent}
use lenovmail.Maintenance.{delete, is_auth_error, limit_or, sweep_accounts}
use lenovmail.Maintenance.Purge.{purge_agent_tokens, purge_agent_tokens-load_agent}
use lenovmail.Maintenance.Checks.{
  check_account, mail_refused, mail_is_ok, graph_refused, gives_invalid, check_account-invalid,
}
use lenovmail.Tests.Samples.{three_accounts, rejects, two_tokens, forbidden_graph}
use lenovmail.Maintenance.Counts.{decided, sweep_accounts-report, sweep_accounts-healthy}

sweep_accounts-report_example :
    let (_, r) = sweep_accounts 500 100 delete none 10 rejects three_accounts in
    (r.checked ≤ limit_or none 10)
    × (r.checked ≤ count_where (λ a. is_auth_error a.status) three_accounts)
    × (decided r ≤ r.checked)
sweep_accounts-report_example = sweep_accounts-report 500 100 delete none 10 rejects three_accounts

sweep_accounts-healthy_example :
    select_where (λ a. a.id == 2) (sweep_accounts 500 100 delete none 10 rejects three_accounts).0
    ≡ select_where (λ a. a.id == 2) three_accounts
sweep_accounts-healthy_example =
    sweep_accounts-healthy 500 100 delete none 10 rejects three_accounts 2
      (λ e. absurd (ground (arith, e)), (λ _. refl, (λ e. absurd (ground (arith, e)), tt)))

purge_agent_tokens-load_agent_example :
    load_agent 77 600 (purge_agent_tokens 500 50 two_tokens).0 ≡ load_agent 77 600 two_tokens
purge_agent_tokens-load_agent_example =
    purge_agent_tokens-load_agent 500 600 50 77 two_tokens (omega arith) ((refl, tt), (tt, tt))

check_account-invalid_example : gives_invalid (check_account forbidden_graph) ≡ (
    if forbidden_graph.is_graph
    then is_some forbidden_graph.client || graph_refused forbidden_graph.me
    else mail_refused forbidden_graph.pool
      || (mail_is_ok forbidden_graph.pool && mail_refused forbidden_graph.noop))
check_account-invalid_example = check_account-invalid forbidden_graph

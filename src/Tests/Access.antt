-- ===== src/Tests/Access.antt =====
-- The handlers (src/lenovmail/api) at concrete callers.
use lenovmail.Prelude.{◌≤◌, ◌≡◌, refl, ◌⊎◌, true, false, none, some, List, [], ◌∷◌, ◌++◌, get_or}
use lenovmail.Outbox.{
  pending_approval, queued, sent, Outbox, used_in_hour, within_send_limit, new_row, queue_message,
  find_row,
}
use lenovmail.Api.Principal.{
  AgentToken, User, ok, require, allows, ensure_account, AccountRow, find_account, owned_account,
  is_valid_at, load_agent, or_unrestricted, touch_agent_last_used, agent_principal,
  owned_account_sound, is_unexpired, is_active_user, agent_principal_sound,
}
use lenovmail.Api.Queueing.{
  queue_outbox, approve_outbox, queue_outbox-approval, queue_outbox-limit, approve_outbox-requeues,
}
use lenovmail.Tests.Samples.{
  row, five_rows, account_row, token, agent, send_request, token_request, two_tokens, agent_row,
  issued, everyone, touched_agent,
}
use mathlib.Core.Option
use lenovmail.Table.{count_where, exists_where}
use lenovmail.Api.Tokens.{some_scope, owns_all, create_token, create_token_sound}

owned_account_sound_example :
    (account_row.owner_id ≡ agent.user_id)
    × (allows agent.account_ids account_row.id ≡ true)
    × (find_account 1 (account_row ∷ []) ≡ some account_row)
unfolding owned_account ensure_account
owned_account_sound_example = owned_account_sound agent 1 (account_row ∷ []) account_row refl

agent_principal_sound_example :
    (t : AgentToken) × (load_agent 77 500 two_tokens ≡ some t)
    × ((touched_agent.scopes ≡ t.scopes)
        × (touched_agent.account_ids ≡ or_unrestricted t.account_ids)
        × (is_active_user (everyone t.owner_id) ≡ true)
        × (Option.map (λ (u : User). u.id) (everyone t.owner_id) ≡ some touched_agent.user_id))
    × (t.revoked_at ≡ none)
    × (is_unexpired 500 t.expires_at ≡ true)
unfolding agent_principal load_agent is_valid_at touch_agent_last_used
agent_principal_sound_example = agent_principal_sound 77 500 two_tokens everyone touched_agent refl

queue_outbox-approval_example :
    (account : AccountRow) × (find_account 1 (account_row ∷ []) ≡ some account)
    × (account.owner_id ≡ agent.user_id)
    × (agent_row.account_id ≡ account.id)
    × (allows agent.account_ids account.id ≡ true)
    × ((token.require_send_approval ≡ false)
        ⊎ ((agent_row.status ≡ pending_approval) × (false ≡ false)))
unfolding queue_outbox owned_account ensure_account require queue_message new_row within_send_limit
    used_in_hour count_where
queue_outbox-approval_example =
    queue_outbox-approval agent token 1 send_request 2000 (account_row ∷ []) five_rows agent_row
      (five_rows ++ agent_row ∷ []) false refl refl

queue_outbox-limit_example :
    used_in_hour token.id 2000 (five_rows ++ agent_row ∷ []) ≤ token.send_limit_per_hour
unfolding queue_outbox owned_account ensure_account require queue_message new_row within_send_limit
    used_in_hour count_where
queue_outbox-limit_example =
    queue_outbox-limit agent token 1 send_request 2000 (account_row ∷ []) five_rows agent_row
      (five_rows ++ agent_row ∷ []) false refl refl

create_token_sound_example :
    (issued.owner_id ≡ agent.user_id)
    × (some_scope issued.scopes ≡ true)
    × (owns_all agent.user_id (account_row ∷ []) (get_or issued.account_ids []) ≡ true)
unfolding create_token exists_where
create_token_sound_example =
    create_token_sound 60 agent token_request 100 (account_row ∷ []) issued refl

-- The fifth row was sent.
approve_outbox-requeues_example :
    (after : List Outbox) × (approve_outbox agent 5 (account_row ∷ []) five_rows
      ≡ ok (after, account_row.id))
    × (find_row 5 after ≡ some (record (row 5 sent none) { status = queued }))
approve_outbox-requeues_example =
    approve_outbox-requeues agent 5 (account_row ∷ []) five_rows (row 5 sent none) account_row refl
      refl refl refl

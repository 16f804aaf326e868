-- ===== src/Tests/Sending.antt =====
-- The outgoing queue (src/lenovmail/sync/outbox.py) at concrete rows.
use lenovmail.Prelude.{
  ◌≤◌, ◌≡◌, refl, true, false, none, some, [], ◌∷◌, map, arith, length, take, drop, All, elem,
}
use lenovmail.Outbox.Counting.{is_sent_at}
use lenovmail.Outbox.Provider.{graph, attempt_send}
use lenovmail.Outbox.Delivery.{graph-redelivers}
use lenovmail.Tests.Samples.{
  row, five_rows, busy_second, busy_second_handled, five_rows-IsKeyed, half_graph,
}
use lenovmail.Table.{count_where}
use lenovmail.Text.{codes}
use lenovmail.Table.Order.{Along}
use lenovmail.Outbox.{
  queued, sending, config, claim_timeout_s, status_is, send_one, claim_expired,
  release_stale_claims, is_claimable, claimable, claim, count_sent, send_pending,
}
use lenovmail.Outbox.Settling.{send_pending_settles}
use lenovmail.Outbox.Claims.{claim_exclusive, claim_oldest}
use lenovmail.Outbox.Sending.{Moves, send_pending-Moves}

claim_exclusive_example :
    let (first, after) = claim 1 1 [] 1000 five_rows in
    let (second, _) = claim 1 10 [] 1900 (release_stale_claims 1 claim_timeout_s 1900 after) in
    All (λ id. elem id first ≡ false) second
claim_exclusive_example = claim_exclusive 1 1 10 [] [] 1000 1900 five_rows (omega arith)

claim_oldest_example :
    let eligible = claimable 1 (2 ∷ []) five_rows in
    let claimed = (claim 1 1 (2 ∷ []) 1000 five_rows).0 in
    (claimed ≡ map (λ r. r.id) (take 1 eligible))
    × (length claimed ≤ 1)
    × All (λ r. (r.status ≡ queued) × (r.account_id ≡ 1) × (elem r.id (2 ∷ []) ≡ false)) eligible
    × All (λ r. All (λ s. r.created_at ≤ s.created_at) (drop 1 eligible)) (take 1 eligible)
    × (length eligible ≡ count_where (is_claimable 1 (2 ∷ [])) five_rows)
claim_oldest_example = claim_oldest 1 1 (2 ∷ []) 1000 five_rows

send_pending-Moves_example :
    Along (Moves 1) five_rows (send_pending 1 10 [] 1000 busy_second five_rows).1
send_pending-Moves_example = send_pending-Moves 1 10 [] 1000 busy_second five_rows five_rows-IsKeyed

send_pending_settles_example :
    let (result, after) = send_pending 1 10 [] 1000 busy_second five_rows in
    let (claimed, _) = claim 1 10 [] 1000 (release_stale_claims 1 claim_timeout_s 1000 five_rows) in
    (result ≡ count_sent (count_where (is_sent_at after) claimed))
    × (count_where (is_sent_at after) claimed ≤ 10)
    × All (λ r. elem r.id claimed ≡ true → status_is r.status sending ≡ false) after
send_pending_settles_example =
    send_pending_settles 1000 busy_second busy_second_handled 1 10 [] five_rows five_rows-IsKeyed

graph-redelivers_example :
    let (after, raise) =
      send_one 1000 (attempt_send (λ _. none) (graph half_graph)) (row 1 sending (some 5)) in
    (raise ≡ some (config (codes "no settings")))
    × (after ≡ record (row 1 sending (some 5)) { status = sending })
    × (release_stale_claims (row 1 sending (some 5)).account_id claim_timeout_s 2000 (after ∷ [])
        ≡ record (row 1 sending (some 5)) {
          status = queued;
          locked_at = none;
          last_error = some claim_expired;
        }
          ∷ [])
graph-redelivers_example =
    graph-redelivers (λ _. none) half_graph (row 1 sending (some 5)) (codes "no settings") 5 1000
      2000 refl refl refl refl refl (omega arith)

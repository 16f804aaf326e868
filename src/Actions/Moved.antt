-- ===== src/Actions/Moved.antt =====
-- Moving a message (src/lenovmail/sync/actions.py, `move_message`), once every call was answered.
use lenovmail.Imap.Replies.{bind-got}
use lenovmail.Imap.{Reply, got, transient, failed, ◌>>=◌, Caps}
use lenovmail.Actions.{
  FolderRow, Placement, placement_of, placements_for_message, Call, open_client, Provider,
  move_calls, act_each, ActionEnd, done, commit_action, find_target, act_on, move_to_target,
  move_message,
}
use lenovmail.Store.Removal.{has_placement, is_orphan}
use lenovmail.Table.{delete_where, exists_where}
use mathlib.Core.Bool.{false≢true}
use mathlib.Core.Path.{subst}
use lenovmail.Prelude.{
  ℕ, ◌≡◌, refl, sym, ◌∙◌, inl, inr, Bool, true, false, ◌&&◌, Option, none, some, List, [], ◌∷◌,
  arith, ◌==◌, Bool-cases, is_some, All,
}
use lenovmail.Table.Laws.{delete_where_sound, All-delete_where, All-map, All-map₂}
use lenovmail.Models.{Message, MailboxMessage, MailDb}
use lenovmail.Actions.Dropping.{drops, AllPlaced, is_dropped, act_each_lem}
use lenovmail.Actions.Moving.{
  in_account, is_left, placements_for_message_complete, left_dropped, find_target_sound,
}

abbrev is_done : ActionEnd → Bool
is_done done = true
is_done _ = false

commit_action-done :
    (provider : Provider) (world : Call → Reply Unit) (db : MailDb) (r : Reply MailDb)
    → (commit_action provider world db r).0 ≡ done
    → r ≡ got (commit_action provider world db r).1
commit_action-done provider world db (got a) h = refl
commit_action-done provider world db (transient e) h = absurd (cc)
commit_action-done provider world db (failed e) h = absurd (cc)

act_on-done :
    (provider : Provider) (world : Call → Reply Unit) (account_id : ℕ)
    (calls_of : Placement → Option (List Call)) (sources : List Placement) (db : MailDb)
    → (act_on provider world account_id calls_of sources db).0 ≡ done
    → act_each world account_id calls_of sources db
      ≡ got (act_on provider world account_id calls_of sources db).1
act_on-done provider world account_id calls_of [] db h = absurd (cc)
act_on-done provider world account_id calls_of (p ∷ ps) db h =
    let acted : _ = act_each world account_id calls_of (p ∷ ps) db in
    let (_, _, k) =
      bind-got (world open_client) (λ _. acted)
        (act_on provider world account_id calls_of (p ∷ ps) db).1
        (commit_action-done provider world db (world open_client >>= (λ _. acted)) h) in
    k

module _ (provider : Provider) (caps : Caps) (world : Call → Reply Unit)
    (account_id message_id destination_id : ℕ) (folders : List FolderRow) (db : MailDb) where
  abbrev left : MailboxMessage → Bool
  left = is_left provider account_id message_id destination_id folders

  -- Every row that the message is moved out of is dropped.
  left-dropped :
      (d : FolderRow)
      → (d.id == destination_id) ≡ true
      → All
          (λ r.
            left r ≡ true
            → is_dropped
                (move_calls provider caps d)
                (placements_for_message account_id message_id folders db.placements)
                r
              ≡ true)
          db.placements
  left-dropped d same =
      All-map
        (λ r.
          (r.message_id == message_id) ≡ true
          → in_account account_id folders r.folder_id ≡ true
          → ((f : FolderRow)
              → (f.id == r.folder_id) ≡ true
              → (is_some (move_calls provider caps d (placement_of f r))
                  && drops (placement_of f r) r)
                ≡ true)
          → is_dropped (move_calls provider caps d)
              (placements_for_message account_id message_id folders db.placements) r
            ≡ true)
        (λ r.
          left r ≡ true
          → is_dropped (move_calls provider caps d)
              (placements_for_message account_id message_id folders db.placements) r
            ≡ true)
        db.placements
        (λ r h e.
          h (ground (arith, e)) (ground (arith, e)) (λ f k.
            left_dropped provider caps d f r k (ground (arith, e, same)) (ground (arith, e))))
        (placements_for_message_complete account_id message_id
          (λ r p. is_some (move_calls provider caps d p) && drops p r) folders db.placements)

  -- The rows that are kept, and the messages.
  moved :
      (o : Option FolderRow)
      → ((d : FolderRow) → o ≡ some d → (d.id == destination_id) ≡ true)
      → let sources = placements_for_message account_id message_id folders db.placements in
        let end = move_to_target provider caps world account_id sources db o in
        end.0 ≡ done
        → All (λ r. left r ≡ false) end.1.placements
          × (AllPlaced account_id db → AllPlaced account_id end.1)
          × ((q : MailboxMessage → Bool) × (end.1.placements ≡ delete_where q db.placements))
  moved none t h = absurd (cc)
  moved (some d) t h =
      let sources : _ = placements_for_message account_id message_id folders db.placements in
      let calls_of : _ = move_calls provider caps d in
      let after : _ = (act_on provider world account_id calls_of sources db).1 in
      let acted : _ = act_on-done provider world account_id calls_of sources db h in
      let (rows, placed) = act_each_lem world account_id calls_of sources db after acted in
      (
        subst (λ rs. All (λ r. left r ≡ false) rs) (sym rows)
            (All-map₂ (λ r. is_dropped calls_of sources r ≡ false)
              (λ r. left r ≡ true → is_dropped calls_of sources r ≡ true) (λ r. left r ≡ false)
              (delete_where (is_dropped calls_of sources) db.placements)
              (λ r kept gone. elim (Bool-cases (left r)) [
                | inl e ↦ absurd (false≢true (sym kept ∙ gone e))
                | inr e ↦ e
              ])
              (delete_where_sound (is_dropped calls_of sources) db.placements)
              (All-delete_where (λ r. left r ≡ true → is_dropped calls_of sources r ≡ true)
                (is_dropped calls_of sources) db.placements (left-dropped d (t d refl)))),
        placed,
        (is_dropped calls_of sources, rows),
      )

  -- How the move ends, and the tables after it.
  abbrev pub ended : ActionEnd × MailDb
  ended = move_message provider caps world account_id message_id destination_id folders db

  -- If every call of a move is answered, so that it ends well, the message has no placement left in
  -- another folder of the account than the destination that its provider names it by.
  pub move_message-leaves :
      ended.0 ≡ done
      → All
          (λ r. is_left provider account_id message_id destination_id folders r ≡ false)
          ended.1.placements
  unfolding move_message
  move_message-leaves h =
      (moved (find_target account_id destination_id folders)
        (find_target_sound account_id destination_id folders) h).0

  unplaced :
      (placements : List MailboxMessage) (m : Message)
      → All (λ r. (r.message_id == message_id) ≡ false) placements
      → (m.id == message_id) ≡ true
      → has_placement placements m ≡ false
  unfolding exists_where
  unplaced [] m h e = refl
  unplaced (r ∷ rows) m h e = ground (arith, e, h.0, unplaced rows m h.1 e)

  -- If every placement of the message is one that it is moved out of, and no message of the account was
  -- without a placement, then after a move that ends well the account has no message with its
  -- identifier any more: the purge of orphans deletes the row of the message that was moved.
  pub move_message-forgets :
      ended.0 ≡ done
      → AllPlaced account_id db
      → All
          (λ r.
            (r.message_id == message_id) ≡ true
            → is_left provider account_id message_id destination_id folders r ≡ true)
          db.placements
      → All (λ m. (m.id == message_id && m.account_id == account_id) ≡ false) ended.1.messages
  unfolding move_message
  move_message-forgets h all every =
      let (kept, placed, (q, rows)) =
        moved (find_target account_id destination_id folders)
          (find_target_sound account_id destination_id folders) h in
      let after : _ =
        (move_message provider caps world account_id message_id destination_id folders db).1 in
      let still : _ =
        subst (λ rs. All (λ r. (r.message_id == message_id) ≡ true → left r ≡ true) rs) (sym rows)
          (All-delete_where (λ r. (r.message_id == message_id) ≡ true → left r ≡ true) q
            db.placements every) in
      let none_left : All (λ r. (r.message_id == message_id) ≡ false) after.placements =
        All-map₂ (λ r. left r ≡ false) (λ r. (r.message_id == message_id) ≡ true → left r ≡ true)
          (λ r. (r.message_id == message_id) ≡ false) after.placements
          (λ r no yes. elim (Bool-cases (r.message_id == message_id)) [
            | inl e ↦ absurd (false≢true (sym no ∙ yes e))
            | inr e ↦ e
          ])
          kept still in
      All-map (λ m. is_orphan account_id after.placements m ≡ false)
        (λ m. (m.id == message_id && m.account_id == account_id) ≡ false) after.messages
        (λ m o. elim (Bool-cases (m.id == message_id)) [
          | inl e ↦ ground (arith, o, e, unplaced after.placements m none_left e)
          | inr e ↦ ground (arith, e)
        ])
        (placed all)

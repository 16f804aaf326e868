-- ===== src/Actions.antt =====
-- Moving and deleting a message (src/lenovmail/sync/actions.py): the server first, then the local
-- placements. Of `move_message` and `delete_message` this is all up to the sync of the folders that
-- follows. The mail server and Graph answer each call, which is an argument.
pub mod Dropping
pub mod Moving
pub mod Moved
pub mod Flagging
use lenovmail.Prelude.{ℕ, ◌&&◌, Option, none, some, List, [], ◌∷◌, ◌++◌, ◌==◌, if◌then◌else◌}
use lenovmail.Text.{Text}
use lenovmail.Models.{MailboxMessage, MailDb}
use lenovmail.Store.Removal.{remove_placements}
use lenovmail.Imap.{
  Reply, got, transient, failed, ◌>>=◌, Caps, Command, delete_commands, move_commands,
}

-- The columns of `folders` that an action reads.
pub record FolderRow : Type 0 where
  pub id : ℕ
  pub account_id : ℕ
  pub path : Option Text
  pub name : Text
  pub remote_id : Text

pub record Placement : Type 0 where
  pub folder_id : ℕ
  pub folder_path : Text
  pub folder_remote_id : Text
  pub remote_uid : Option ℕ
  pub remote_item_id : Option ℕ

-- `path or name`, and `path or ""`
abbrev pub path_or : Option Text → Text → Text
path_or none d = d
path_or (some []) d = d
path_or (some (c ∷ cs)) d = c ∷ cs

unfoldable pub placement_of : FolderRow → MailboxMessage → Placement
placement_of f r = record {
  folder_id = f.id;
  folder_path = path_or f.path [];
  folder_remote_id = f.remote_id;
  remote_uid = r.remote_uid;
  remote_item_id = r.remote_item_id;
}

-- The placements of a message in one folder.
unfoldable pub placed_in : ℕ → FolderRow → List MailboxMessage → List Placement
unfolding placement_of
placed_in message_id f [] = []
placed_in message_id f (r ∷ rows) =
    let rest = placed_in message_id f rows in
    if r.folder_id == f.id && r.message_id == message_id then placement_of f r ∷ rest else rest

unfoldable pub placements_for_message :
    ℕ → ℕ → List FolderRow → List MailboxMessage → List Placement
unfolding placed_in
placements_for_message account_id message_id [] rows = []
placements_for_message account_id message_id (f ∷ folders) rows =
    let rest = placements_for_message account_id message_id folders rows in
    if f.account_id == account_id then placed_in message_id f rows ++ rest else rest

-- What an action sends: to the mail server over a connection of the pool, or to Graph.
pub data Call : Type 0 where
  -- `get_account_pool` or `graph_client_for`; then `pool.connection`.
  open_client get_connection save_graph_tokens : Call
  select_folder : Text → Call
  send_command : Command → Call
  graph_move : ℕ → Text → Call
  graph_delete : ℕ → Call

unfoldable pub send_all : (Call → Reply Unit) → List Call → Reply Unit
send_all world [] = got tt
send_all world (c ∷ cs) = do _ ← world c; send_all world cs

abbrev pub drop_by : ℕ → ℕ → Option ℕ → Option ℕ → MailDb → MailDb
drop_by account_id folder_id (some uid) item db =
    (remove_placements (λ r. r.remote_uid) account_id folder_id (uid ∷ []) db).0
drop_by account_id folder_id none (some item) db =
    (remove_placements (λ r. r.remote_item_id) account_id folder_id (item ∷ []) db).0
drop_by account_id folder_id none none db = db

-- `_drop_local_placement`
pub drop_local_placement : ℕ → Placement → MailDb → MailDb
drop_local_placement account_id p db =
    drop_by account_id p.folder_id p.remote_uid p.remote_item_id db

pub data Provider : Type 0 where
  imap graph : Provider

abbrev pub to_commands : List Command → List Call
to_commands [] = []
to_commands (c ∷ cs) = send_command c ∷ to_commands cs

-- The calls of `move_message` for a placement, or none if it is passed over.
unfoldable pub move_calls : Provider → Caps → FolderRow → Placement → Option (List Call)
move_calls imap caps destination p = elim p.remote_uid [
  | none ↦ none
  | some uid ↦
      if p.folder_id == destination.id
      then none
      else some (
          get_connection
          ∷ select_folder p.folder_path
          ∷ to_commands (move_commands caps uid (path_or destination.path destination.name)))
]
move_calls graph caps destination p = elim p.remote_item_id [
  | none ↦ none
  | some item ↦
      if p.folder_id == destination.id
      then none
      else some (graph_move item destination.remote_id ∷ [])
]

-- The calls of `delete_message` for a placement.
pub delete_calls : Provider → Caps → Placement → Option (List Call)
delete_calls imap caps p = elim p.remote_uid [
  | none ↦ none
  | some uid ↦
      some (get_connection ∷ select_folder p.folder_path ∷ to_commands (delete_commands caps uid))
]
delete_calls graph caps p = elim p.remote_item_id [
  | none ↦ none
  | some item ↦ some (graph_delete item ∷ [])
]

-- A placement without calls is passed over.
abbrev pub act_if :
    (Call → Reply Unit) → Option (List Call) → Reply MailDb → Reply MailDb → Reply MailDb
act_if world none passed acted = passed
act_if world (some calls) passed acted = do _ ← send_all world calls; acted

-- The loop over the placements.
unfoldable pub act_each :
    (Call → Reply Unit)
    → ℕ
    → (Placement → Option (List Call))
    → List Placement
    → MailDb
    → Reply MailDb
unfolding send_all drop_local_placement
act_each world account_id calls_of [] db = got db
act_each world account_id calls_of (p ∷ ps) db =
    act_if world (calls_of p) (act_each world account_id calls_of ps db)
      (act_each world account_id calls_of ps (drop_local_placement account_id p db))

pub data ActionEnd : Type 0 where
  done not_found bad_target : ActionEnd
  raised : Text → ActionEnd

-- What follows the commit: Graph's tokens are stored.
abbrev pub after_commit : Provider → (Call → Reply Unit) → ActionEnd
after_commit imap world = done
after_commit graph world = elim (world save_graph_tokens) [
  | got _ ↦ done
  | transient e ↦ raised e
  | failed e ↦ raised e
]

-- The tables are committed if every call was answered, and else left as they were.
abbrev pub commit_action :
    Provider → (Call → Reply Unit) → MailDb → Reply MailDb → ActionEnd × MailDb
commit_action provider world db (got after) = (after_commit provider world, after)
commit_action provider world db (transient e) = (raised e, db)
commit_action provider world db (failed e) = (raised e, db)

abbrev pub find_target : ℕ → ℕ → List FolderRow → Option FolderRow
find_target account_id id [] = none
find_target account_id id (f ∷ folders) =
    let rest = find_target account_id id folders in
    if f.id == id && f.account_id == account_id then some f else rest

abbrev pub act_on :
    Provider
    → (Call → Reply Unit)
    → ℕ
    → (Placement → Option (List Call))
    → List Placement
    → MailDb
    → ActionEnd × MailDb
act_on provider world account_id calls_of [] db = (not_found, db)
act_on provider world account_id calls_of (p ∷ ps) db =
    commit_action provider world db
      (do _ ← world open_client; act_each world account_id calls_of (p ∷ ps) db)

abbrev pub move_to_target :
    Provider
    → Caps
    → (Call → Reply Unit)
    → ℕ
    → List Placement
    → MailDb
    → Option FolderRow
    → ActionEnd × MailDb
move_to_target provider caps world account_id sources db none = (bad_target, db)
move_to_target provider caps world account_id sources db (some destination) =
    act_on provider world account_id (move_calls provider caps destination) sources db

unfoldable pub move_message :
    Provider → Caps → (Call → Reply Unit) → ℕ → ℕ → ℕ → List FolderRow → MailDb → ActionEnd × MailDb
unfolding act_each move_calls placements_for_message
move_message provider caps world account_id message_id destination_id folders db =
    move_to_target provider caps world account_id
      (placements_for_message account_id message_id folders db.placements) db
      (find_target account_id destination_id folders)

pub delete_message :
    Provider → Caps → (Call → Reply Unit) → ℕ → ℕ → List FolderRow → MailDb → ActionEnd × MailDb
unfolding act_each delete_calls placements_for_message
delete_message provider caps world account_id message_id folders db =
    act_on provider world account_id (delete_calls provider caps)
      (placements_for_message account_id message_id folders db.placements) db

-- ===== src/Tests/Moving.antt =====
-- Moving a message (src/lenovmail/sync/actions.py) between two folders.
use lenovmail.Prelude.{ℕ, ◌≡◌, refl, true, false, ◌&&◌, none, List, [], ◌∷◌, arith, ◌==◌, All}
use lenovmail.Table.{exists_where}
use lenovmail.Text.{codes}
use lenovmail.Models.{MailDb}
use lenovmail.Imap.{Reply, got, Caps, delete_commands, move_commands}
use lenovmail.Actions.{
  FolderRow, placement_of, placed_in, placements_for_message, Call, send_all, imap, move_calls,
  act_each, done, move_message,
}
use lenovmail.Actions.Dropping.{AllPlaced}
use lenovmail.Actions.Moving.{is_left}
use lenovmail.Actions.Moved.{move_message-leaves, move_message-forgets}
use lenovmail.Tests.Samples.{two_threads}

abbrev folder : ℕ → FolderRow
folder id = record {
  id = id;
  account_id = 1;
  path = none;
  name = codes "INBOX";
  remote_id = codes "INBOX";
}

abbrev two_folders : List FolderRow
two_folders = folder 5 ∷ folder 6 ∷ []

abbrev plain_caps : Caps
plain_caps = record { condstore = false; can_move = false; uidplus = true }

abbrev answering : Call → Reply Unit
answering c = got tt

-- Message 1 is in folder 5 only.
abbrev before : MailDb
before = two_threads

move_done : (move_message imap plain_caps answering 1 1 6 two_folders before).0 ≡ done
unfolding move_message act_each move_calls placements_for_message placed_in placement_of send_all
    move_commands delete_commands
move_done = refl

before-AllPlaced : AllPlaced 1 before
unfolding exists_where
before-AllPlaced = (refl, (refl, (refl, tt)))

move_message-leaves_example :
    All
      (λ r. is_left imap 1 1 6 two_folders r ≡ false)
      (move_message imap plain_caps answering 1 1 6 two_folders before).1.placements
move_message-leaves_example =
    move_message-leaves imap plain_caps answering 1 1 6 two_folders before move_done

move_message-forgets_example :
    All
      (λ m. (m.id == 1 && m.account_id == 1) ≡ false)
      (move_message imap plain_caps answering 1 1 6 two_folders before).1.messages
unfolding exists_where
move_message-forgets_example =
    move_message-forgets imap plain_caps answering 1 1 6 two_folders before move_done
      before-AllPlaced
      ((λ _. refl), ((λ e. absurd (ground (arith, e))), ((λ e. absurd (ground (arith, e))), tt)))

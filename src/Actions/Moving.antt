-- ===== src/Actions/Moving.antt =====
-- What `move_message` of src/lenovmail/sync/actions.py leaves in the tables.
use mathlib.Core.Option.{some-injective}
use lenovmail.Actions.Dropping.{has_handle, drops}
use mathlib.Core.Bool.{false≢true}
use mathlib.Core.Path.{subst}
use lenovmail.Prelude.{
  ℕ, ◌≡◌, refl, ap, ◌∙◌, inl, inr, Bool, true, false, not, ◌&&◌, Option, none, some, List, [], ◌∷◌,
  ◌++◌, arith, ◌==◌, if◌then◌else◌, ==_iff, ==_refl, Bool-cases, is_some, All, opt_eq,
}
use lenovmail.Table.{exists_where}
use lenovmail.Table.Laws.{All-intro, All-map, All-map₂}
use lenovmail.Text.{Text}
use lenovmail.Models.{MailboxMessage}
use lenovmail.Imap.{Caps}
use lenovmail.Actions.{
  FolderRow, Placement, placement_of, placements_for_message, Provider, imap, graph, move_calls,
  find_target, placed_in,
}

abbrev pub in_account : ℕ → List FolderRow → ℕ → Bool
in_account account_id folders id =
    exists_where (λ f. f.account_id == account_id && f.id == id) folders

-- What the provider names a message by.
abbrev pub is_named : Provider → Option ℕ → Option ℕ → Bool
is_named imap uid item = is_some uid
is_named graph uid item = is_some item

-- A placement that the message is moved out of.
abbrev pub is_left : Provider → ℕ → ℕ → ℕ → List FolderRow → MailboxMessage → Bool
is_left provider account_id message_id destination_id folders r =
    r.message_id == message_id
    && in_account account_id folders r.folder_id
    && not (r.folder_id == destination_id)
    && is_named provider r.remote_uid r.remote_item_id

exists_where-left :
    (p : Placement → Bool) (xs ys : List Placement)
    → exists_where p xs ≡ true
    → exists_where p (xs ++ ys) ≡ true
unfolding exists_where
exists_where-left p [] ys h = absurd (false≢true h)
exists_where-left p (x ∷ xs) ys h = elim (Bool-cases (p x)) [
  | inl e ↦ rw e refl
  | inr e ↦ rw e (exists_where-left p xs ys (ground (arith, e, h)))
]

exists_where-right :
    (p : Placement → Bool) (xs ys : List Placement)
    → exists_where p ys ≡ true
    → exists_where p (xs ++ ys) ≡ true
unfolding exists_where
exists_where-right p [] ys h = h
exists_where-right p (x ∷ xs) ys h = ground (arith, exists_where-right p xs ys h)

module _ (account_id message_id : ℕ) (q : MailboxMessage → Placement → Bool) where
  placed_in_complete :
      (f : FolderRow) (rows : List MailboxMessage)
      → All
          (λ r.
            (r.folder_id == f.id && r.message_id == message_id) ≡ true
            → q r (placement_of f r) ≡ true
            → exists_where (q r) (placed_in message_id f rows) ≡ true)
          rows
  unfolding placed_in exists_where
  placed_in_complete f [] = tt
  placed_in_complete f (r ∷ rows) = (
    (λ e k. rw e (ground (arith, k))),
    All-map
        (λ s.
          (s.folder_id == f.id && s.message_id == message_id) ≡ true
          → q s (placement_of f s) ≡ true
          → exists_where (q s) (placed_in message_id f rows) ≡ true)
        (λ s.
          (s.folder_id == f.id && s.message_id == message_id) ≡ true
          → q s (placement_of f s) ≡ true
          → exists_where (q s) (placed_in message_id f (r ∷ rows)) ≡ true)
        rows
        (λ s h e k. elim (Bool-cases (r.folder_id == f.id && r.message_id == message_id)) [
          | inl c ↦ rw c (ground (arith, h e k))
          | inr c ↦ rw c (h e k)
        ])
        (placed_in_complete f rows),
  )

  -- Every placement of the message in a folder of the account is found.
  pub placements_for_message_complete :
      (folders : List FolderRow) (rows : List MailboxMessage)
      → All
          (λ r.
            (r.message_id == message_id) ≡ true
            → in_account account_id folders r.folder_id ≡ true
            → ((f : FolderRow) → (f.id == r.folder_id) ≡ true → q r (placement_of f r) ≡ true)
            → exists_where (q r) (placements_for_message account_id message_id folders rows) ≡ true)
          rows
  unfolding placements_for_message exists_where
  placements_for_message_complete [] rows = All-intro _ (λ r e k. absurd (false≢true k)) rows
  placements_for_message_complete (f ∷ folders) rows =
      All-map₂
        (λ r.
          (r.folder_id == f.id && r.message_id == message_id) ≡ true
          → q r (placement_of f r) ≡ true
          → exists_where (q r) (placed_in message_id f rows) ≡ true)
        (λ r.
          (r.message_id == message_id) ≡ true
          → in_account account_id folders r.folder_id ≡ true
          → ((d : FolderRow) → (d.id == r.folder_id) ≡ true → q r (placement_of d r) ≡ true)
          → exists_where (q r) (placements_for_message account_id message_id folders rows) ≡ true)
        (λ r.
          (r.message_id == message_id) ≡ true
          → in_account account_id (f ∷ folders) r.folder_id ≡ true
          → ((d : FolderRow) → (d.id == r.folder_id) ≡ true → q r (placement_of d r) ≡ true)
          → exists_where (q r) (placements_for_message account_id message_id (f ∷ folders) rows)
            ≡ true)
        rows
        (λ r here later e k g. elim (Bool-cases (f.account_id == account_id)) [
          | inr a ↦ rw a (later e (ground (arith, k, a)) g)
          | inl a ↦ elim (Bool-cases (f.id == r.folder_id)) [
            | inl b ↦ rw a (
                exists_where-left (q r) (placed_in message_id f rows) _
                  (here (ground (arith, b, e)) (g f b)))
            | inr b ↦ rw a (
                exists_where-right (q r) (placed_in message_id f rows) _
                  (later e (ground (arith, k, b)) g))
          ]
        ])
        (placed_in_complete f rows) (placements_for_message_complete folders rows)

-- Where the provider names the message, calls are made, and the row is dropped.
is_named-calls :
    (provider : Provider) (caps : Caps) (d : FolderRow) (folder_id : ℕ) (path remote : Text)
    (uid item : Option ℕ)
    → is_named provider uid item ≡ true
    → (folder_id == d.id) ≡ false
    → is_some (
        move_calls provider caps d (record {
          folder_id = folder_id;
          folder_path = path;
          folder_remote_id = remote;
          remote_uid = uid;
          remote_item_id = item;
        }))
      ≡ true
unfolding move_calls
is_named-calls imap caps d folder_id path remote none item h n = absurd (false≢true h)
is_named-calls imap caps d folder_id path remote (some u) item h n = rw n refl
is_named-calls graph caps d folder_id path remote uid none h n = absurd (false≢true h)
is_named-calls graph caps d folder_id path remote uid (some i) h n = rw n refl

is_named-handle :
    (provider : Provider) (r : MailboxMessage) (uid item : Option ℕ)
    → r.remote_uid ≡ uid
    → r.remote_item_id ≡ item
    → is_named provider uid item ≡ true
    → has_handle uid item r ≡ true
is_named-handle provider r (some u) item e k h = ap (λ c. opt_eq c u) e ∙ ==_refl u
is_named-handle provider r none (some i) e k h = ap (λ c. opt_eq c i) k ∙ ==_refl i
is_named-handle imap r none none e k h = absurd (false≢true h)
is_named-handle graph r none none e k h = absurd (false≢true h)

pub left_dropped :
    (provider : Provider) (caps : Caps) (d f : FolderRow) (r : MailboxMessage)
    → (f.id == r.folder_id) ≡ true
    → (r.folder_id == d.id) ≡ false
    → is_named provider r.remote_uid r.remote_item_id ≡ true
    → (is_some (move_calls provider caps d (placement_of f r)) && drops (placement_of f r) r) ≡ true
unfolding placement_of
left_dropped provider caps d f r e n h =
    let same : f.id ≡ r.folder_id = (==_iff f.id r.folder_id).0 e in
    let calls : _ =
      is_named-calls provider caps d f.id (placement_of f r).folder_path
        (placement_of f r).folder_remote_id r.remote_uid r.remote_item_id h
        (ap (λ i. i == d.id) same ∙ n) in
    let handle : _ = is_named-handle provider r r.remote_uid r.remote_item_id refl refl h in
    ground (arith, calls, handle, e)

picked :
    (P : FolderRow → Type 0) (c : Bool) (f : FolderRow) (rest : Option FolderRow) (d : FolderRow)
    → (if c then some f else rest) ≡ some d
    → (c ≡ true → P f)
    → (rest ≡ some d → P d)
    → P d
picked P true f rest d h a b = subst P (some-injective f d h) (a refl)
picked P false f rest d h a b = b h

pub find_target_sound :
    (account_id id : ℕ) (folders : List FolderRow) (d : FolderRow)
    → find_target account_id id folders ≡ some d
    → (d.id == id) ≡ true
find_target_sound account_id id [] d h = absurd (cc)
find_target_sound account_id id (f ∷ folders) d h =
    picked (λ x. (x.id == id) ≡ true) (f.id == id && f.account_id == account_id) f
      (find_target account_id id folders) d h (λ e. ground (arith, e))
      (find_target_sound account_id id folders d)

-- ===== src/Store/Flags/Rows.antt =====
-- The rows after the grouped updates of src/lenovmail/sync/store.py.
use lenovmail.Prelude.{
  ℕ, ◌≡◌, refl, sym, ap, ap₂, ◌∙◌, inl, inr, Bool, true, false, ◌&&◌, ◌||◌, Option, none, some,
  List, [], ◌∷◌, map, ◌==◌, if◌then◌else◌, Bool-cases, opt_in,
}
use lenovmail.Table.{update_where, exists_where}
use lenovmail.Table.Laws.{update_where-eq-map}
use lenovmail.Table.Keys.{IsKeyed}
use lenovmail.Text.{Text}
use lenovmail.Models.{Flags, MailboxMessage}
use lenovmail.Store.Flags.{
  group_flags, in_uids, set_flags, apply_flags_by_uid, update_flags_grouped,
}
use lenovmail.Store.Flags.Grouping.{last_of, reported, last_of-group_flags}

-- The flags of a row, where `report` says what the statements set for a UID of the folder.
abbrev flags_after : ℕ → (ℕ → Flags → Flags) → ℕ → Option ℕ → Flags → Flags
flags_after folder_id report f none old = old
flags_after folder_id report f (some uid) old = if f == folder_id then report uid old else old

-- One UPDATE for each row by itself.
pub update_each : ℕ → (ℕ → Flags → Flags) → MailboxMessage → MailboxMessage
update_each folder_id report r =
    set_flags (flags_after folder_id report r.folder_id r.remote_uid r.flags) r

flags_after-ext :
    (folder_id : ℕ) (f g : ℕ → Flags → Flags) (folder : ℕ) (uid : Option ℕ) (old : Flags)
    → ((u : ℕ) → f u old ≡ g u old)
    → flags_after folder_id f folder uid old ≡ flags_after folder_id g folder uid old
flags_after-ext folder_id f g folder none old h = refl
flags_after-ext folder_id f g folder (some u) old h =
    ap (λ x. if folder == folder_id then x else old) (h u)

flags_after-same :
    (folder_id folder : ℕ) (uid : Option ℕ) (old : Flags)
    → flags_after folder_id (λ _ x. x) folder uid old ≡ old
flags_after-same folder_id folder none old = refl
flags_after-same folder_id folder (some u) old = elim (Bool-cases (folder == folder_id)) [
  | inl e ↦ rw e
  | inr e ↦ rw e
]

-- One statement is taken off the front.
flags_after-cons :
    (folder_id : ℕ) (key : Flags) (uids : List ℕ) (groups : List (Flags × List ℕ)) (folder : ℕ)
    (uid : Option ℕ) (old : Flags)
    → flags_after folder_id
        (last_of groups)
        folder
        uid
        (if (folder == folder_id && opt_in uid uids) then key else old)
      ≡ flags_after folder_id (last_of ((key, uids) ∷ groups)) folder uid old
unfolding last_of
flags_after-cons folder_id key uids groups folder none old =
    elim (Bool-cases (folder == folder_id)) [ inl e ↦ rw e | inr e ↦ rw e ]
flags_after-cons folder_id key uids groups folder (some u) old =
    elim (Bool-cases (folder == folder_id)) [ inl e ↦ rw e | inr e ↦ rw e ]

set_flags-if :
    (p : Bool) (key : Flags) (r : MailboxMessage)
    → (if p then set_flags key r else r) ≡ set_flags (if p then key else r.flags) r
set_flags-if true key r = refl
set_flags-if false key r = refl

update_each-cons :
    (folder_id : ℕ) (key : Flags) (uids : List ℕ) (groups : List (Flags × List ℕ))
    (r : MailboxMessage)
    → update_each folder_id
        (last_of groups)
        (if in_uids folder_id uids r then set_flags key r else r)
      ≡ update_each folder_id (last_of ((key, uids) ∷ groups)) r
unfolding update_each
update_each-cons folder_id key uids groups r =
    ap (update_each folder_id (last_of groups)) (set_flags-if (in_uids folder_id uids r) key r)
    ∙ ap (λ f. set_flags f r)
        (flags_after-cons folder_id key uids groups r.folder_id r.remote_uid r.flags)

map-ext {ℓ κ} :
    {A : Type ℓ} {B : Type κ} (f g : A → B) (xs : List A)
    → ((a : A) → f a ≡ g a)
    → map f xs ≡ map g xs
map-ext f g [] h = refl
map-ext f g (x ∷ xs) h = ap₂ ◌∷◌ (h x) (map-ext f g xs h)

map-map {ℓ κ μ} :
    {A : Type ℓ} {B : Type κ} {C : Type μ} (g : B → C) (f : A → B) (xs : List A)
    → map g (map f xs) ≡ map (λ a. g (f a)) xs
map-map g f [] = refl
map-map g f (x ∷ xs) = ap₂ ◌∷◌ refl (map-map g f xs)

map_same {ℓ} : {A : Type ℓ} (f : A → A) (xs : List A) → ((a : A) → f a ≡ a) → map f xs ≡ xs
map_same f [] h = refl
map_same f (x ∷ xs) h = ap₂ ◌∷◌ (h x) (map_same f xs h)

-- The rows after the statements, one by one.
update_flags_grouped-eq-map :
    (folder_id : ℕ) (groups : List (Flags × List ℕ)) (rows : List MailboxMessage)
    → (update_flags_grouped folder_id groups rows).0
      ≡ map (update_each folder_id (last_of groups)) rows
unfolding update_flags_grouped last_of update_each
update_flags_grouped-eq-map folder_id [] rows = sym (
    map_same (update_each folder_id (last_of [])) rows
      (λ r. ap (λ f. set_flags f r) (flags_after-same folder_id r.folder_id r.remote_uid r.flags)))
update_flags_grouped-eq-map folder_id ((key, uids) ∷ groups) rows =
    let step : (MailboxMessage → MailboxMessage) =
      λ r. if in_uids folder_id uids r then set_flags key r else r in
    let after : (MailboxMessage → MailboxMessage) = update_each folder_id (last_of groups) in
    update_flags_grouped-eq-map folder_id groups
      (update_where (in_uids folder_id uids) (set_flags key) rows)
    ∙ ap (map after) (update_where-eq-map (in_uids folder_id uids) (set_flags key) rows)
    ∙ map-map after step rows
    ∙ map-ext (λ r. after (step r)) (update_each folder_id (last_of ((key, uids) ∷ groups))) rows
        (update_each-cons folder_id key uids groups)

-- Writing the flags group by group is writing them row by row: where the server reported each UID
-- once, every placement of the folder with a reported UID gets exactly the flags reported for it,
-- and every other placement stays as it is.
pub apply_flags_by_uid-eq-map :
    (folder_id : ℕ) (changed : List (ℕ × List Text)) (rows : List MailboxMessage)
    → IsKeyed (λ c. c.0) changed
    → (apply_flags_by_uid folder_id changed rows).0
      ≡ map (update_each folder_id (reported changed)) rows
unfolding apply_flags_by_uid update_each reported
apply_flags_by_uid-eq-map folder_id [] rows k = sym (
    map_same (update_each folder_id (reported [])) rows
      (λ r. ap (λ f. set_flags f r) (flags_after-same folder_id r.folder_id r.remote_uid r.flags)))
apply_flags_by_uid-eq-map folder_id (c ∷ changed) rows k =
    update_flags_grouped-eq-map folder_id (group_flags (c ∷ changed)) rows
    ∙ map-ext (update_each folder_id (last_of (group_flags (c ∷ changed))))
        (update_each folder_id (reported (c ∷ changed))) rows
        (λ r.
          ap (λ f. set_flags f r)
            (flags_after-ext folder_id (last_of (group_flags (c ∷ changed)))
              (reported (c ∷ changed)) r.folder_id r.remote_uid r.flags
              (λ u. last_of-group_flags u (c ∷ changed) r.flags k)))

exists-map_same :
    (p : MailboxMessage → Bool) (f : MailboxMessage → MailboxMessage) (rows : List MailboxMessage)
    → ((r : MailboxMessage) → p (f r) ≡ p r)
    → exists_where p (map f rows) ≡ exists_where p rows
unfolding exists_where
exists-map_same p f [] h = refl
exists-map_same p f (r ∷ rows) h = ap₂ ◌||◌ (h r) (exists-map_same p f rows h)

-- A search that does not look at the flags finds the same rows after the updates.
pub exists-apply_flags_by_uid :
    (folder_id : ℕ) (changed : List (ℕ × List Text)) (rows : List MailboxMessage)
    (p : MailboxMessage → Bool)
    → ((f : Flags) (r : MailboxMessage) → p (set_flags f r) ≡ p r)
    → exists_where p (apply_flags_by_uid folder_id changed rows).0 ≡ exists_where p rows
unfolding apply_flags_by_uid update_each
exists-apply_flags_by_uid folder_id [] rows p h = refl
exists-apply_flags_by_uid folder_id (c ∷ changed) rows p h =
    ap (exists_where p) (update_flags_grouped-eq-map folder_id (group_flags (c ∷ changed)) rows)
    ∙ exists-map_same p (update_each folder_id (last_of (group_flags (c ∷ changed)))) rows (λ r.
      h
        (flags_after folder_id (last_of (group_flags (c ∷ changed))) r.folder_id r.remote_uid
          r.flags)
        r)

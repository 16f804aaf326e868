-- ===== src/Store/Identity/Merging.antt =====
-- Where the placements go under `ensure_dedup_hash` of src/lenovmail/sync/store.py.
use lenovmail.Store.Identity.Uniqueness.{
  first_row_sound, first_row-exists, first_row-kept, with_hash,
}
use mathlib.Core.Bool.{false≢true}
use lenovmail.Prelude.{
  ℕ, ◌≡◌, refl, sym, ap, ap₂, ◌∙◌, inl, inr, true, false, ◌&&◌, some, List, [], ◌∷◌, map, arith,
  ◌==◌, ==_iff, ==_refl, Bool-cases, Option-cases, opt_eq,
}
use lenovmail.Table.{select_where, update_where, exists_where}
use lenovmail.Table.Laws.{update_where-eq-map, delete_where-none, All-after_update, All-intro}
use lenovmail.Models.{Message, MailboxMessage, MailDb}
use lenovmail.Store.Removal.{is_of, delete_messages}
use lenovmail.Store.Identity.{
  first_row, is_twin, current_hash, move_to, ensure_dedup_hash, merge_twin, set_hash, merge_or_set,
}

is_of-other :
    (id k : ℕ) (ms : List Message) → (k == id) ≡ false → is_of (λ m. m.id == id) ms k ≡ false
unfolding exists_where
is_of-other id k [] n = refl
is_of-other id k (m ∷ ms) n = ground (arith, is_of-other id k ms n)

move_to-same : (id : ℕ) (r : MailboxMessage) → move_to id id r ≡ r
move_to-same id r = elim (Bool-cases (r.message_id == id)) [
  | inl e ↦ rw e (ap (λ k. record r { message_id = k }) (sym ((==_iff r.message_id id).0 e)))
  | inr e ↦ rw e
]

map_same :
    (f : MailboxMessage → MailboxMessage) (rs : List MailboxMessage)
    → ((r : MailboxMessage) → f r ≡ r)
    → map f rs ≡ rs
map_same f [] h = refl
map_same f (r ∷ rs) h = ap₂ ◌∷◌ (h r) (map_same f rs h)

merge_twin-placements :
    (id twin : ℕ) (db : MailDb)
    → (twin == id) ≡ false
    → (merge_twin id twin db).placements ≡ map (move_to id twin) db.placements
unfolding merge_twin delete_messages
merge_twin-placements id twin db n =
    let f : (MailboxMessage → MailboxMessage) = λ r. record r { message_id = twin } in
    let moved : _ = update_where (λ r. r.message_id == id) f db.placements in
    delete_where-none (λ r. is_of (λ m. m.id == id) db.messages r.message_id) moved
      (All-after_update (λ r. is_of (λ m. m.id == id) db.messages r.message_id ≡ false)
        (λ r. r.message_id == id) f db.placements (λ r e. is_of-other id twin db.messages n)
        (All-intro
          (λ r.
            (r.message_id == id) ≡ false → is_of (λ m. m.id == id) db.messages r.message_id ≡ false)
          (λ r e. is_of-other id r.message_id db.messages e) db.placements))
    ∙ update_where-eq-map (λ r. r.message_id == id) f db.placements

exists-set_hash :
    (id desired : ℕ) (ms : List Message)
    → exists_where (λ m. m.id == id) ms ≡ true
    → exists_where
        (λ m. m.id == id && m.dedup_hash == desired)
        (update_where (λ m. m.id == id) (with_hash desired) ms)
      ≡ true
unfolding exists_where update_where
exists-set_hash id desired [] h = h
exists-set_hash id desired (m ∷ ms) h = elim (Bool-cases (m.id == id)) [
  | inl e ↦ rw e (rw e (ground (arith, ==_refl desired)))
  | inr e ↦ rw e (ground (arith, exists-set_hash id desired ms (rw e at h)))
]

current_hash-exists :
    (id desired : ℕ) (ms : List Message)
    → opt_eq (current_hash id ms) desired ≡ true
    → exists_where (λ m. m.id == id && m.dedup_hash == desired) ms ≡ true
current_hash-exists id desired ms h =
    elim (Option-cases (first_row (select_where (λ m. m.id == id) ms))) [
      | inl n ↦ absurd (false≢true (rw n at h))
      | inr n ↦
          let (m, here) = n in
          let is_id : (m.id == id) ≡ true = first_row_sound (λ m. m.id == id) ms m here in
          let hash : (m.dedup_hash == desired) ≡ true = rw here at h in
          first_row-exists (λ m. m.id == id) (λ m. m.id == id && m.dedup_hash == desired) ms m here
            (rw (is_id, hash))
    ]

set_hash_lem :
    (id desired : ℕ) (db : MailDb)
    → exists_where (λ m. m.id == id) db.messages ≡ true
    → exists_where (λ m. m.id == id && m.dedup_hash == desired) (set_hash id desired db).messages
      ≡ true
unfolding set_hash
set_hash_lem id desired db h = exists-set_hash id desired db.messages h

merge_twin-exists :
    (id desired : ℕ) (twin : Message) (db : MailDb)
    → first_row (select_where (is_twin id desired) db.messages) ≡ some twin
    → is_twin id desired twin ≡ true
    → exists_where
        (λ m. m.id == twin.id && m.dedup_hash == desired)
        (merge_twin id twin.id db).messages
      ≡ true
unfolding merge_twin delete_messages
merge_twin-exists id desired twin db here is_other =
    first_row-kept (is_twin id desired) (λ m. m.id == id)
      (λ m. m.id == twin.id && m.dedup_hash == desired) db.messages twin here
      (ground (arith, is_other)) (ground (arith, is_other, ==_refl twin.id))

-- For a message that is stored: the row that is returned is stored with the desired hash, and every
-- placement of the message is now one of that row, in its folder and with its flags; no other
-- placement changes and none is lost.
pub ensure_dedup_hash_lem :
    (id desired : ℕ) (db : MailDb)
    → exists_where (λ m. m.id == id) db.messages ≡ true
    → let (id', db') = ensure_dedup_hash id desired db in
      (exists_where (λ m. m.id == id' && m.dedup_hash == desired) db'.messages ≡ true)
      × (db'.placements ≡ map (move_to id id') db.placements)
unfolding ensure_dedup_hash merge_or_set
ensure_dedup_hash_lem id desired db h =
    let twin : _ = first_row (select_where (is_twin id desired) db.messages) in
    let same : db.placements ≡ map (move_to id id) db.placements =
      sym (map_same (move_to id id) db.placements (move_to-same id)) in
    elim (Bool-cases (opt_eq (current_hash id db.messages) desired)) [
      | inl e ↦ rw e (current_hash-exists id desired db.messages e, same)
      | inr e ↦ elim (Option-cases twin) [
        | inl n ↦ rw (e, n) (set_hash_lem id desired db h, same)
        | inr n ↦
            let is_other : is_twin id desired n.0 ≡ true =
              first_row_sound (is_twin id desired) db.messages n.0 n.1 in
            rw (e, n.1)
              (
                merge_twin-exists id desired n.0 db n.1 is_other,
                merge_twin-placements id n.0.id db (ground (arith, is_other)),
              )
      ]
    ]

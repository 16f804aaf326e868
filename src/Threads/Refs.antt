-- ===== src/Threads/Refs.antt =====
-- The rows of `message_refs` under `assign_thread` (src/lenovmail/sync/threads.py).
use mathlib.Core.Bool.{false≢true}
use mathlib.Core.List.{append-nil}
use lenovmail.Prelude.{
  ℕ, ◌+◌, ◌≡◌, refl, sym, ap, ap₂, ◌∙◌, inl, inr, Bool, true, false, ◌||◌, Option, none, some, List,
  [], ◌∷◌, ◌++◌, map, arith, ◌==◌, ==_refl, Bool-cases, All,
}
use lenovmail.Table.{select_where, delete_where}
use lenovmail.Table.Laws.{
  delete_where_sound, select_where-append, select_where-none, delete_where-append,
  delete_where_every, select_where_every, delete_where_idem,
}
use lenovmail.Text.{
  Text, text_eq, strip, is_empty, text_elem, add_text, sorted_texts, text_eq_refl, text_eq_sound,
  text_elem-sorted_texts,
}
use lenovmail.Models.{MessageRef, MailDb}
use lenovmail.Threads.{
  merge_threads, ThreadRequest, own_ref, candidate_refs, ref_rows, settle, assign_thread, add_own,
  stripped_set, number_refs, own_then, rewrite_refs,
}

abbrev pub of_message : ℕ → MessageRef → Bool
of_message id r = r.message_id == id

number_refs-of_message :
    (id position : ℕ) (rs : List Text)
    → All (λ r. of_message id r ≡ true) (number_refs id position rs)
unfolding number_refs
number_refs-of_message id position [] = tt
number_refs-of_message id position (r ∷ rs) =
    (==_refl id, number_refs-of_message id (position + 1) rs)

own_then-of_message :
    (id : ℕ) (own : Option Text) (cs : List Text)
    → All (λ r. of_message id r ≡ true) (own_then id own cs)
unfolding own_then
own_then-of_message id none cs = number_refs-of_message id 0 cs
own_then-of_message id (some own) cs = (==_refl id, number_refs-of_message id 1 _)

ref_rows-of_message :
    (q : ThreadRequest) → All (λ r. of_message q.message_row_id r ≡ true) (ref_rows q)
unfolding ref_rows
ref_rows-of_message q = own_then-of_message q.message_row_id (own_ref q) _

settle-refs :
    (n : ℕ) (q : ThreadRequest) (matched : List ℕ) (db : MailDb)
    → (settle n q matched db).1.refs ≡ rewrite_refs q db.refs
unfolding settle merge_threads
settle-refs n q [] db = refl
settle-refs n q (t ∷ []) db = refl
settle-refs n q (t ∷ o ∷ others) db = refl

assign_thread-refs :
    (n : ℕ) (q : ThreadRequest) (db : MailDb)
    → (assign_thread n q db).1.refs ≡ rewrite_refs q db.refs
unfolding assign_thread
assign_thread-refs n q db = settle-refs n q _ db

rewrite_refs_self :
    (q : ThreadRequest) (rows : List MessageRef)
    → select_where (of_message q.message_row_id) (rewrite_refs q rows) ≡ ref_rows q
unfolding rewrite_refs
rewrite_refs_self q rows =
    select_where-append _ _ (ref_rows q)
    ∙ ap₂ ◌++◌ (select_where-none _ _ (delete_where_sound _ rows))
        (select_where_every _ (ref_rows q) (ref_rows-of_message q))

rewrite_refs-others :
    (q : ThreadRequest) (rows : List MessageRef)
    → delete_where (of_message q.message_row_id) (rewrite_refs q rows)
      ≡ delete_where (of_message q.message_row_id) rows
unfolding rewrite_refs
rewrite_refs-others q rows =
    delete_where-append _ _ (ref_rows q)
    ∙ ap₂ ◌++◌ (delete_where_idem _ rows)
        (delete_where_every _ (ref_rows q) (ref_rows-of_message q))
    ∙ append-nil _

-- After `assign_thread` the references of the message are exactly its own identifier and the
-- candidates, those of every other message are untouched, and a second call, whatever new thread it
-- is given, changes no reference.
pub assign_thread-refs_idem :
    (n k : ℕ) (q : ThreadRequest) (db : MailDb)
    → let after = (assign_thread n q db).1 in
      (select_where (of_message q.message_row_id) after.refs ≡ ref_rows q)
      × (delete_where (of_message q.message_row_id) after.refs
          ≡ delete_where (of_message q.message_row_id) db.refs)
      × ((assign_thread k q after).1.refs ≡ after.refs)
assign_thread-refs_idem n k q db = (
  ap (select_where (of_message q.message_row_id)) (assign_thread-refs n q db)
      ∙ rewrite_refs_self q db.refs,
  ap (delete_where (of_message q.message_row_id)) (assign_thread-refs n q db)
      ∙ rewrite_refs-others q db.refs,
  assign_thread-refs k q (assign_thread n q db).1
      ∙ ap (rewrite_refs q) (assign_thread-refs n q db)
      ∙ unfold rewrite_refs in
        ap (λ (rows : List MessageRef). rows ++ ref_rows q) (rewrite_refs-others q db.refs)
        ∙ sym (assign_thread-refs n q db),
)

text_elem-number_refs :
    (t : Text) (id position : ℕ) (rs : List Text)
    → text_elem t (map (λ r. r.ref) (number_refs id position rs)) ≡ text_elem t rs
unfolding text_elem number_refs
text_elem-number_refs t id position [] = refl
text_elem-number_refs t id position (r ∷ rs) = rw (text_elem-number_refs t id (position + 1) rs)

text_elem-without :
    (t own : Text) (rs : List Text)
    → (text_eq t own || text_elem t (delete_where (λ r. text_eq r own) rs))
      ≡ (text_eq t own || text_elem t rs)
unfolding text_elem delete_where
text_elem-without t own [] = refl
text_elem-without t own (r ∷ rs) = elim (Bool-cases (text_eq r own)) [
  | inl e ↦
      rw (text_eq_sound r own e)
        (rw (text_eq_refl own) (ground (arith, text_elem-without t own rs)))
  | inr e ↦ rw e (ground (arith, text_elem-without t own rs))
]

-- Removing the own identifier and putting it first loses no reference.
text_elem-own_then :
    (t : Text) (id : ℕ) (own : Option Text) (cs : List Text)
    → ((o : Text) → own ≡ some o → text_elem o cs ≡ true)
    → text_elem t (map (λ r. r.ref) (own_then id own cs)) ≡ text_elem t cs
unfolding own_then text_elem
text_elem-own_then t id none cs h = text_elem-number_refs t id 0 cs
text_elem-own_then t id (some o) cs h =
    ap (λ (b : Bool). text_eq t o || b) (text_elem-number_refs t id 1 _)
    ∙ text_elem-without t o cs
    ∙ absorb (text_eq t o) refl
  where
    absorb : (b : Bool) → text_eq t o ≡ b → (text_eq t o || text_elem t cs) ≡ text_elem t cs
    absorb true e = rw (text_eq_sound t o e) (rw (text_eq_refl o) (sym (h o refl)))
    absorb false e = rw e

text_elem-add_text :
    (t u : Text) (us : List Text) → text_elem t (add_text u us) ≡ (text_eq t u || text_elem t us)
unfolding add_text
text_elem-add_text t u us = elim (Bool-cases (text_elem u us)) [
  | inl e ↦ rw e (absorb (text_eq t u) refl e)
  | inr e ↦ rw e (unfold text_elem in refl)
]
  where
    absorb :
        (b : Bool)
        → text_eq t u ≡ b
        → text_elem u us ≡ true
        → text_elem t us ≡ (text_eq t u || text_elem t us)
    absorb true e k = rw (text_eq_sound t u e) (rw (text_eq_refl u) k)
    absorb false e k = rw e

text_elem-add_own :
    (o : Text) (own : Option Text) (us : List Text)
    → own ≡ some o
    → text_elem o (add_own own us) ≡ true
text_elem-add_own o none us e = cc
text_elem-add_own o (some x) us e =
    text_elem-add_text o x us
    ∙ ap (λ (b : Bool). b || text_elem o us) (ap (text_eq o) (ground arith) ∙ text_eq_refl o)

add_own-keeps :
    (t : Text) (own : Option Text) (us : List Text)
    → text_elem t us ≡ true
    → text_elem t (add_own own us) ≡ true
add_own-keeps t none us h = h
add_own-keeps t (some x) us h = text_elem-add_text t x us ∙ rw h (ground arith)

stripped_set-tail :
    (t x : Text) (rs : List Text)
    → text_elem t (stripped_set rs) ≡ true
    → text_elem t (stripped_set (x ∷ rs)) ≡ true
unfolding stripped_set
stripped_set-tail t x rs k = elim (Bool-cases (is_empty (strip x))) [
  | inl empty ↦ rw empty k
  | inr filled ↦ rw filled (text_elem-add_text t (strip x) (stripped_set rs) ∙ rw k (ground arith))
]

stripped_set-head :
    (x : Text) (rs : List Text)
    → is_empty (strip x) ≡ false
    → text_elem (strip x) (stripped_set (x ∷ rs)) ≡ true
unfolding stripped_set
stripped_set-head x rs e =
    rw e (text_elem-add_text (strip x) (strip x) (stripped_set rs) ∙ rw (text_eq_refl (strip x)))

text_elem-stripped_set :
    (r : Text) (rs : List Text)
    → text_elem r rs ≡ true
    → is_empty (strip r) ≡ false
    → text_elem (strip r) (stripped_set rs) ≡ true
unfolding text_elem
text_elem-stripped_set r [] h e = absurd (false≢true h)
text_elem-stripped_set r (x ∷ rs) h e = elim (Bool-cases (text_eq r x)) [
  | inl p ↦ rw (text_eq_sound r x p) (stripped_set-head x rs (rw (text_eq_sound r x p) at e))
  | inr p ↦ stripped_set-tail (strip r) x rs (text_elem-stripped_set r rs (rw p at h) e)
]

own-candidate :
    (q : ThreadRequest) (o : Text) → own_ref q ≡ some o → text_elem o (candidate_refs q) ≡ true
unfolding candidate_refs
own-candidate q o e = text_elem-add_own o (own_ref q) (stripped_set q.refs) e

recorded-candidate :
    (q : ThreadRequest) (t : Text)
    → text_elem t (map (λ r. r.ref) (ref_rows q)) ≡ text_elem t (candidate_refs q)
unfolding ref_rows
recorded-candidate q t =
    text_elem-own_then t q.message_row_id (own_ref q) (sorted_texts (candidate_refs q))
      (λ o e. text_elem-sorted_texts o (candidate_refs q) ∙ own-candidate q o e)
    ∙ text_elem-sorted_texts t (candidate_refs q)

abbrev pub has_ref_of : Option Text → List Text → Bool
has_ref_of none refs = true
has_ref_of (some o) refs = text_elem o refs

own-recorded :
    (q : ThreadRequest) (own : Option Text)
    → own_ref q ≡ own
    → has_ref_of own (map (λ r. r.ref) (ref_rows q)) ≡ true
own-recorded q none e = refl
own-recorded q (some o) e = recorded-candidate q o ∙ own-candidate q o e

-- The references that `assign_thread` records for a message are its candidates. Among them are its
-- own identifier, if it has one, and every reference `r` of the header that is not blank, stripped.
pub ref_rows_complete :
    (q : ThreadRequest) (r : Text)
    → text_elem r q.refs ≡ true
    → is_empty (strip r) ≡ false
    → let recorded = map (λ m. m.ref) (ref_rows q) in
      ((t : Text) → text_elem t recorded ≡ text_elem t (candidate_refs q))
      × (has_ref_of (own_ref q) recorded ≡ true)
      × (text_elem (strip r) recorded ≡ true)
ref_rows_complete q r m e = (
  recorded-candidate q,
  own-recorded q (own_ref q) refl,
  recorded-candidate q (strip r)
      ∙ unfold candidate_refs in
        add_own-keeps (strip r) (own_ref q) (stripped_set q.refs)
          (text_elem-stripped_set r q.refs m e),
)

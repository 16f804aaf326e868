-- ===== src/Store/Flags/Grouping.antt =====
-- The groups that `_group_flags` of src/lenovmail/sync/store.py builds, handle by handle.
use lenovmail.Table.Keys.{IsKeyed}
use mathlib.Core.Bool.{false≢true}
use lenovmail.Prelude.{
  ℕ, ◌≡◌, refl, sym, ap, ◌∙◌, inl, inr, Bool, true, false, ◌&&◌, ◌||◌, List, [], ◌∷◌, ◌++◌, arith,
  ◌==◌, if◌then◌else◌, ==_iff, ==_refl, Bool-cases, All, elem,
}
use lenovmail.Text.{Text}
use lenovmail.Models.{Flags}
use lenovmail.Store.Flags.{
  flags_to_columns, bool_eq, flags_eq, add_to_group, group_flags_into, group_flags,
}

-- What the groups say of one handle, the later groups first, and otherwise the old flags.
unfoldable pub last_of : List (Flags × List ℕ) → ℕ → Flags → Flags
last_of [] h old = old
last_of ((k, hs) ∷ groups) h old = last_of groups h (if elem h hs then k else old)

-- What the server said of one handle, and otherwise the old flags.
unfoldable pub reported : List (ℕ × List Text) → ℕ → Flags → Flags
unfolding flags_to_columns
reported [] h old = old
reported ((handle, flags) ∷ entries) h old =
    if handle == h then flags_to_columns flags else reported entries h old

-- No group holds the handle.
abbrev IsAbsent : ℕ → List (Flags × List ℕ) → Type 0
IsAbsent h groups = All (λ g. elem h g.1 ≡ false) groups

bool_eq_sound : (a b : Bool) → bool_eq a b ≡ true → a ≡ b
bool_eq_sound true b h = sym h
bool_eq_sound false true h = absurd (cc)
bool_eq_sound false false h = refl

and-both : (a b : Bool) → (a && b) ≡ true → (a ≡ true) × (b ≡ true)
and-both true b h = (refl, h)
and-both false b h = absurd (false≢true h)

abbrev of_columns : Bool → Bool → Bool → Bool → Bool → Flags
of_columns a b c d e = record { seen = a; flagged = b; answered = c; draft = d; deleted = e }

of_columns-cong :
    {a b c d e a' b' c' d' e' : Bool}
    → a ≡ a'
    → b ≡ b'
    → c ≡ c'
    → d ≡ d'
    → e ≡ e'
    → of_columns a b c d e ≡ of_columns a' b' c' d' e'
of_columns-cong p q r s t = λ i. of_columns (p i) (q i) (r i) (s i) (t i)

flags_eq_sound : (f g : Flags) → flags_eq f g ≡ true → f ≡ g
flags_eq_sound f g h =
    let seen_flagged : _ = bool_eq f.seen g.seen && bool_eq f.flagged g.flagged in
    let to_answered : _ = seen_flagged && bool_eq f.answered g.answered in
    let to_draft : _ = to_answered && bool_eq f.draft g.draft in
    let at_deleted : _ = and-both to_draft (bool_eq f.deleted g.deleted) h in
    let at_draft : _ = and-both to_answered (bool_eq f.draft g.draft) at_deleted.0 in
    let at_answered : _ = and-both seen_flagged (bool_eq f.answered g.answered) at_draft.0 in
    let at_flagged : _ =
      and-both (bool_eq f.seen g.seen) (bool_eq f.flagged g.flagged) at_answered.0 in
    of_columns-cong (bool_eq_sound f.seen g.seen at_flagged.0)
      (bool_eq_sound f.flagged g.flagged at_flagged.1)
      (bool_eq_sound f.answered g.answered at_answered.1) (bool_eq_sound f.draft g.draft at_draft.1)
      (bool_eq_sound f.deleted g.deleted at_deleted.1)

elem-append_one : (h k : ℕ) (hs : List ℕ) → elem h (hs ++ k ∷ []) ≡ (elem h hs || h == k)
elem-append_one h k [] = ground arith
elem-append_one h k (x ∷ hs) = ground (arith, elem-append_one h k hs)

IsAbsent-add_to_group :
    (h k : ℕ) (key : Flags) (groups : List (Flags × List ℕ))
    → (h == k) ≡ false
    → IsAbsent h groups
    → IsAbsent h (add_to_group key k groups)
unfolding add_to_group
IsAbsent-add_to_group h k key [] n a = (ground arith, tt)
IsAbsent-add_to_group h k key ((f, hs) ∷ groups) n a = elim (Bool-cases (flags_eq f key)) [
  | inl e ↦ rw e (rw (elem-append_one h k hs) (ground (arith, a.0)), a.1)
  | inr e ↦ rw e (a.0, IsAbsent-add_to_group h k key groups n a.1)
]

last_of-absent :
    (h : ℕ) (groups : List (Flags × List ℕ)) (old : Flags)
    → IsAbsent h groups
    → last_of groups h old ≡ old
unfolding last_of
last_of-absent h [] old a = refl
last_of-absent h ((k, hs) ∷ groups) old a =
    ap (λ b. last_of groups h (if b then k else old)) a.0 ∙ last_of-absent h groups old a.1

-- The handle that is added gets the flags of its group.
last_of-added :
    (h : ℕ) (key : Flags) (groups : List (Flags × List ℕ)) (old : Flags)
    → IsAbsent h groups
    → last_of (add_to_group key h groups) h old ≡ key
unfolding last_of add_to_group
last_of-added h key [] old a = ground (arith, ==_refl h)
last_of-added h key ((f, hs) ∷ groups) old a = elim (Bool-cases (flags_eq f key)) [
  | inl e ↦
      let member : elem h (hs ++ h ∷ []) ≡ true =
        elem-append_one h h hs ∙ ground (arith, ==_refl h) in
      rw e (
        ap (λ b. last_of groups h (if b then f else old)) member
        ∙ last_of-absent h groups f a.1
        ∙ flags_eq_sound f key e)
  | inr e ↦ rw e (
      ap (λ b. last_of (add_to_group key h groups) h (if b then f else old)) a.0
      ∙ last_of-added h key groups old a.1)
]

-- The others keep theirs.
last_of-other :
    (h k : ℕ) (key : Flags) (groups : List (Flags × List ℕ)) (old : Flags)
    → (h == k) ≡ false
    → last_of (add_to_group key k groups) h old ≡ last_of groups h old
unfolding last_of add_to_group
last_of-other h k key [] old n = ground arith
last_of-other h k key ((f, hs) ∷ groups) old n = elim (Bool-cases (flags_eq f key)) [
  | inl e ↦
      rw e
        (ap (λ b. last_of groups h (if b then f else old)) (elem-append_one h k hs ∙ ground arith))
  | inr e ↦ rw e (last_of-other h k key groups (if elem h hs then f else old) n)
]

has_entry : ℕ → List (ℕ × List Text) → Bool
has_entry h [] = false
has_entry h (c ∷ entries) = c.0 == h || has_entry h entries

has_entry-absent :
    (h k : ℕ) (entries : List (ℕ × List Text))
    → (k == h) ≡ true
    → All (λ c. (c.0 == k) ≡ false) entries
    → has_entry h entries ≡ false
unfolding has_entry
has_entry-absent h k [] e a = refl
has_entry-absent h k (c ∷ entries) e a = ground (arith, a.0, has_entry-absent h k entries e a.1)

-- After the loop of `_group_flags`, a handle has the flags of its entry.
last_of-group_flags_into :
    (h : ℕ) (entries : List (ℕ × List Text)) (groups : List (Flags × List ℕ)) (old : Flags)
    → IsKeyed (λ c. c.0) entries
    → (has_entry h entries ≡ true → IsAbsent h groups)
    → last_of (group_flags_into groups entries) h old
      ≡ (if has_entry h entries then reported entries h old else last_of groups h old)
unfolding group_flags_into reported has_entry
last_of-group_flags_into h [] groups old k a = refl
last_of-group_flags_into h ((handle, flags) ∷ entries) groups old k a =
    let key : _ = flags_to_columns flags in
    let groups' : _ = add_to_group key handle groups in
    elim (Bool-cases (handle == h)) [
      | inl e ↦
          let last : has_entry h entries ≡ false = has_entry-absent h handle entries e k.0 in
          rw e (
            last_of-group_flags_into h entries groups' old k.1
              (λ t. absurd (false≢true (sym last ∙ t)))
            ∙ ap (λ b. if b then reported entries h old else last_of groups' h old) last
            ∙ ap (λ x. last_of (add_to_group key x groups) h old) ((==_iff handle h).0 e)
            ∙ last_of-added h key groups old (a (rw e)))
      | inr e ↦
          let other : (h == handle) ≡ false = ground (arith, e) in
          rw e (
            last_of-group_flags_into h entries groups' old k.1
              (λ t. IsAbsent-add_to_group h handle key groups other (a (rw e t)))
            ∙ ap (λ x. if has_entry h entries then reported entries h old else x)
                (last_of-other h handle key groups old other))
    ]

reported-no_entry :
    (h : ℕ) (entries : List (ℕ × List Text)) (old : Flags)
    → has_entry h entries ≡ false
    → reported entries h old ≡ old
unfolding has_entry reported
reported-no_entry h [] old n = refl
reported-no_entry h ((handle, flags) ∷ entries) old n = elim (Bool-cases (handle == h)) [
  | inl e ↦ absurd (false≢true (sym n ∙ rw e))
  | inr e ↦ rw e (reported-no_entry h entries old (rw e at n))
]

pub last_of-group_flags :
    (h : ℕ) (entries : List (ℕ × List Text)) (old : Flags)
    → IsKeyed (λ c. c.0) entries
    → last_of (group_flags entries) h old ≡ reported entries h old
unfolding group_flags last_of
last_of-group_flags h entries old k =
    last_of-group_flags_into h entries [] old k (λ _. tt)
    ∙ elim (Bool-cases (has_entry h entries)) [
      | inl e ↦ rw e
      | inr e ↦ rw e (sym (reported-no_entry h entries old e))
    ]

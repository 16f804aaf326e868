-- ===== src/Threads/Groups.antt =====
-- The grouping query of `_threads_referenced_by` (src/lenovmail/sync/threads.py): messages grouped
-- by thread with the earliest date of each, and the groups in order, missing dates last.
use lenovmail.Prelude.{
  ℕ, min, ◌≡◌, refl, sym, ◌≢◌, inl, inr, Bool, true, false, Option, none, some, List, [], ◌∷◌, map,
  arith, leb, ◌==◌, if◌then◌else◌, ==_ne, Bool-cases, Option-cases, All, elem,
}
use lenovmail.Models.{Message}

-- A thread and the earliest date of its messages in the group.
abbrev pub Group : Type 0
Group = ℕ × Option ℕ

-- SQL's `min` takes no account of nulls.
abbrev pub min_date : Option ℕ → Option ℕ → Option ℕ
min_date none b = b
min_date (some a) none = some a
min_date (some a) (some b) = some (min a b)

unfoldable pub add_group : ℕ → Option ℕ → List Group → List Group
add_group t d [] = (t, d) ∷ []
add_group t d ((u, e) ∷ gs) = if t == u then (u, min_date e d) ∷ gs else (u, e) ∷ add_group t d gs

abbrev pub add_row : Message → List Group → List Group
add_row m gs = elim m.thread_id [ none ↦ gs | some t ↦ add_group t m.internal_date gs ]

-- Later rows go into the groups that the earlier ones began.
unfoldable pub group_from : (Message → Bool) → List Group → List Message → List Group
unfolding add_group
group_from hit gs [] = gs
group_from hit gs (m ∷ ms) = group_from hit (if hit m then add_row m gs else gs) ms

unfoldable pub group_by_thread : (Message → Bool) → List Message → List Group
unfolding group_from
group_by_thread hit ms = group_from hit [] ms

-- ASC NULLS LAST
abbrev pub date_le : Option ℕ → Option ℕ → Bool
date_le a none = true
date_le none (some b) = false
date_le (some a) (some b) = leb a b

unfoldable pub insert_group : Group → List Group → List Group
insert_group g [] = g ∷ []
insert_group g (h ∷ gs) = if date_le g.1 h.1 then g ∷ h ∷ gs else h ∷ insert_group g gs

unfoldable pub sort_groups : List Group → List Group
unfolding insert_group
sort_groups [] = []
sort_groups (g ∷ gs) = insert_group g (sort_groups gs)

-- No thread has two groups.
abbrev pub Lacks : ℕ → List Group → Type 0
Lacks t gs = All (λ g. t ≢ g.0) gs

abbrev pub IsDistinct : List Group → Type 0
IsDistinct [] = Unit
IsDistinct (g ∷ gs) = Lacks g.0 gs × IsDistinct gs

Lacks-add_group :
    (t u : ℕ) (d : Option ℕ) (gs : List Group) → t ≢ u → Lacks t gs → Lacks t (add_group u d gs)
unfolding add_group
Lacks-add_group t u d [] ne h = (ne, tt)
Lacks-add_group t u d ((v, e) ∷ gs) ne h = elim (Bool-cases (u == v)) [
  | inl same ↦ rw same (h.0, h.1)
  | inr other ↦ rw other (h.0, Lacks-add_group t u d gs ne h.1)
]

add_group-IsDistinct :
    (t : ℕ) (d : Option ℕ) (gs : List Group) → IsDistinct gs → IsDistinct (add_group t d gs)
unfolding add_group
add_group-IsDistinct t d [] h = (tt, tt)
add_group-IsDistinct t d ((v, e) ∷ gs) h = elim (Bool-cases (t == v)) [
  | inl same ↦ rw same (h.0, h.1)
  | inr other ↦
      rw other (Lacks-add_group v t d gs (ground arith) h.0, add_group-IsDistinct t d gs h.1)
]

add_row-IsDistinct : (m : Message) (gs : List Group) → IsDistinct gs → IsDistinct (add_row m gs)
add_row-IsDistinct m gs h = elim (Option-cases m.thread_id) [
  | inl e ↦ rw e h
  | inr (t, e) ↦ rw e (add_group-IsDistinct t m.internal_date gs h)
]

group_from-IsDistinct :
    (hit : Message → Bool) (gs : List Group) (ms : List Message)
    → IsDistinct gs
    → IsDistinct (group_from hit gs ms)
unfolding group_from
group_from-IsDistinct hit gs [] h = h
group_from-IsDistinct hit gs (m ∷ ms) h = elim (Bool-cases (hit m)) [
  | inl e ↦ rw e (group_from-IsDistinct hit (add_row m gs) ms (add_row-IsDistinct m gs h))
  | inr e ↦ rw e (group_from-IsDistinct hit gs ms h)
]

All-insert_group {κ} :
    (P : Group → Type κ) (g : Group) (gs : List Group) → P g → All P gs → All P (insert_group g gs)
unfolding insert_group
All-insert_group P g [] p h = (p, h)
All-insert_group P g (k ∷ gs) p h = elim (Bool-cases (date_le g.1 k.1)) [
  | inl e ↦ rw e (p, h)
  | inr e ↦ rw e (h.0, All-insert_group P g gs p h.1)
]

pub All-sort_groups {κ} : (P : Group → Type κ) (gs : List Group) → All P gs → All P (sort_groups gs)
unfolding sort_groups
All-sort_groups P [] h = h
All-sort_groups P (g ∷ gs) h = All-insert_group P g (sort_groups gs) h.0 (All-sort_groups P gs h.1)

insert_group-IsDistinct :
    (g : Group) (gs : List Group) → Lacks g.0 gs → IsDistinct gs → IsDistinct (insert_group g gs)
unfolding insert_group
insert_group-IsDistinct g [] l h = (tt, tt)
insert_group-IsDistinct g (k ∷ gs) l h = elim (Bool-cases (date_le g.1 k.1)) [
  | inl e ↦ rw e (l, h)
  | inr e ↦ rw e (
    All-insert_group (λ x. k.0 ≢ x.0) g gs (λ p. l.0 (sym p)) h.0,
    insert_group-IsDistinct g gs l.1 h.1,
  )
]

sort_groups-IsDistinct : (gs : List Group) → IsDistinct gs → IsDistinct (sort_groups gs)
unfolding sort_groups
sort_groups-IsDistinct [] h = h
sort_groups-IsDistinct (g ∷ gs) h =
    insert_group-IsDistinct g (sort_groups gs) (All-sort_groups (λ x. g.0 ≢ x.0) gs h.0)
      (sort_groups-IsDistinct gs h.1)

pub groups-IsDistinct :
    (hit : Message → Bool) (ms : List Message) → IsDistinct (sort_groups (group_by_thread hit ms))
unfolding group_by_thread
groups-IsDistinct hit ms = sort_groups-IsDistinct _ (group_from-IsDistinct hit [] ms tt)

Lacks-elem : (t : ℕ) (gs : List Group) → Lacks t gs → elem t (map (λ g. g.0) gs) ≡ false
Lacks-elem t [] h = refl
Lacks-elem t (g ∷ gs) h = ground (arith, ==_ne t g.0 h.0, Lacks-elem t gs h.1)

-- The canonical thread is not among those that are merged into it.
pub head-not_in_tail :
    (t : ℕ) (others : List ℕ) (gs : List Group)
    → IsDistinct gs
    → map (λ g. g.0) gs ≡ t ∷ others
    → elem t others ≡ false
head-not_in_tail t others [] h e = cc
head-not_in_tail t others (g ∷ gs) h e = ground (arith, Lacks-elem g.0 gs h.0)

-- The groups are in order of date.
abbrev pub IsOrdered : List Group → Type 0
IsOrdered [] = Unit
IsOrdered (g ∷ gs) = All (λ k. date_le g.1 k.1 ≡ true) gs × IsOrdered gs

date_le_total : (a b : Option ℕ) → date_le a b ≡ false → date_le b a ≡ true
date_le_total a b h = ground arith

date_le_trans : (a b c : Option ℕ) → date_le a b ≡ true → date_le b c ≡ true → date_le a c ≡ true
date_le_trans a b c h k = ground arith

All-date_le :
    (a b : Option ℕ) (gs : List Group)
    → date_le a b ≡ true
    → All (λ k. date_le b k.1 ≡ true) gs
    → All (λ k. date_le a k.1 ≡ true) gs
All-date_le a b [] h k = tt
All-date_le a b (g ∷ gs) h k = (date_le_trans a b g.1 h k.0, All-date_le a b gs h k.1)

insert_group-IsOrdered :
    (g : Group) (gs : List Group) → IsOrdered gs → IsOrdered (insert_group g gs)
unfolding insert_group
insert_group-IsOrdered g [] h = (tt, tt)
insert_group-IsOrdered g (k ∷ gs) h = elim (Bool-cases (date_le g.1 k.1)) [
  | inl e ↦ rw e ((e, All-date_le g.1 k.1 gs e h.0), h)
  | inr e ↦ rw e (
    All-insert_group (λ x. date_le k.1 x.1 ≡ true) g gs (date_le_total g.1 k.1 e) h.0,
    insert_group-IsOrdered g gs h.1,
  )
]

pub sort_groups-IsOrdered : (gs : List Group) → IsOrdered (sort_groups gs)
unfolding sort_groups
sort_groups-IsOrdered [] = tt
sort_groups-IsOrdered (g ∷ gs) =
    insert_group-IsOrdered g (sort_groups gs) (sort_groups-IsOrdered gs)

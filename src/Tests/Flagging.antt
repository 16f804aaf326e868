-- ===== src/Tests/Flagging.antt =====
-- Setting the flags of a message (src/lenovmail/sync/actions.py) on a mailbox that stores them.
use lenovmail.Prelude.{
  ◌≡◌, refl, sym, ap, ◌∙◌, inl, inr, true, false, not, ◌&&◌, ◌||◌, some, List, [], ◌∷◌, ◌++◌, map,
  arith, Bool-cases,
}
use lenovmail.Table.{delete_where}
use lenovmail.Text.{Text, codes, text_eq, text_elem, text_eq_iff}
use lenovmail.Store.Flags.{upper, has_flag, flags_to_columns}
use lenovmail.Actions.Flagging.{with_flags, imap_flags, IsStoring, imap_flags-agree}

mailbox_store : List Text → List Text → List Text → List Text
mailbox_store before added removed =
    delete_where (λ t. text_elem (upper t) (map upper removed)) (before ++ added)

has_flag-append :
    (name : Text) (xs ys : List Text)
    → has_flag name (xs ++ ys) ≡ (has_flag name xs || has_flag name ys)
unfolding has_flag text_elem
has_flag-append name [] ys = refl
has_flag-append name (x ∷ xs) ys = ground (arith, has_flag-append name xs ys)

has_flag-delete_where :
    (name : Text) (gone xs : List Text)
    → has_flag name (delete_where (λ t. text_elem (upper t) gone) xs)
      ≡ (has_flag name xs && not (text_elem name gone))
unfolding has_flag text_elem delete_where
has_flag-delete_where name gone [] = refl
has_flag-delete_where name gone (x ∷ xs) =
    let rest : _ = has_flag-delete_where name gone xs in
    elim (Bool-cases (text_eq name (upper x))) [
      | inl e ↦
          let same : text_elem (upper x) gone ≡ text_elem name gone =
            ap (λ t. text_elem t gone) (sym ((text_eq_iff name (upper x)).0 e)) in
          elim (Bool-cases (text_elem (upper x) gone)) [
            | inl n ↦ rw n (ground (arith, rest, same, n, e))
            | inr n ↦ rw n (ground (arith, rest, same, n, e))
          ]
      | inr e ↦ elim (Bool-cases (text_elem (upper x) gone)) [
        | inl n ↦ rw n (ground (arith, rest, e))
        | inr n ↦ rw n (ground (arith, rest, e))
      ]
    ]

mailbox_store-IsStoring : IsStoring mailbox_store
unfolding mailbox_store text_elem has_flag
mailbox_store-IsStoring name before added removed =
    has_flag-delete_where name (map upper removed) (before ++ added)
    ∙ ap (λ b. b && not (has_flag name removed)) (has_flag-append name before added)

imap_flags-agree_example :
    flags_to_columns (
      mailbox_store
        (codes "\\Flagged" ∷ codes "\\Draft" ∷ [])
        (imap_flags (some true) (some false) true)
        (imap_flags (some true) (some false) false))
    ≡ with_flags
        (some true)
        (some false)
        (flags_to_columns (codes "\\Flagged" ∷ codes "\\Draft" ∷ []))
imap_flags-agree_example =
    imap_flags-agree mailbox_store (some true) (some false)
      (codes "\\Flagged" ∷ codes "\\Draft" ∷ []) mailbox_store-IsStoring

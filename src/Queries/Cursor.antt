-- ===== src/Queries/Cursor.antt =====
-- The cursor as text (src/lenovmail/sync/queries.py, `encode_cursor` and `decode_cursor`). Base64 and
-- the formats of instants and identifiers are the standard library's, and arguments.
use mathlib.Core.Bool.{false≢true}
use lenovmail.Prelude.{
  ℕ, zero, suc, ◌+◌, ◌-◌, ◌%◌, ◌≤◌, ◌≡◌, refl, sym, ap, ap₂, ◌∙◌, inl, inr, Bool, true, false, ◌&&◌,
  Option, none, some, [], ◌∷◌, ◌++◌, arith, ◌==◌, if◌then◌else◌, ==_iff, Bool-cases, length, elem,
}
use lenovmail.Text.{Text, codes, text_eq}
use lenovmail.Models.{Message}
use lenovmail.Queries.{cursor_of}

pub record Formats : Type 0 where
  pub b64encode : Text → Text
  pub b64decode : Text → Option Text
  pub isoformat : ℕ → Text
  pub fromisoformat : Text → Option ℕ
  pub show_id : ℕ → Text
  pub read_id : Text → Option ℕ

-- `=`
abbrev pub equals_sign : ℕ
equals_sign = 61

-- `|`
abbrev pub bar : ℕ
bar = 124

abbrev pub is_blank : Text → Bool
is_blank [] = true
is_blank (_ ∷ _) = false

-- `rstrip(b"=")`
unfoldable pub rstrip_equals : Text → Text
rstrip_equals [] = []
rstrip_equals (c ∷ cs) =
    let rest = rstrip_equals cs in if is_blank rest && c == equals_sign then [] else c ∷ rest

-- `"=" * n`
abbrev equals_signs : ℕ → Text
equals_signs zero = []
equals_signs (suc n) = equals_sign ∷ equals_signs n

-- `cursor + "=" * (-len(cursor) % 4)`
pub pad_cursor : Text → Text
pad_cursor cursor = cursor ++ equals_signs ((4 - length cursor % 4) % 4)

-- `CURSOR_VERSION`
abbrev cursor_version : Text
cursor_version = codes "1"

pub encode_cursor : Formats → Message → Text
unfolding rstrip_equals
encode_cursor f m =
    let (stamp, id) = cursor_of m in
    rstrip_equals (f.b64encode (cursor_version ++ bar ∷ f.isoformat stamp ++ bar ∷ f.show_id id))

abbrev put_before : ℕ → Option (Text × Text) → Option (Text × Text)
put_before c none = none
put_before c (some (before, after)) = some (c ∷ before, after)

-- The text before the first bar, and the text behind it.
split_bar : Text → Option (Text × Text)
split_bar [] = none
split_bar (c ∷ cs) =
    let rest = split_bar cs in if c == bar then some ([], cs) else put_before c rest

infixl 5 ◌>>=◌
abbrev ◌>>=◌ : {A B : Type 0} → Option A → (A → Option B) → Option B
none >>= f = none
some a >>= f = f a

-- `decode_cursor`; a `ValueError` of a step is none.
pub decode_cursor : Formats → Text → Option (ℕ × ℕ)
unfolding pad_cursor split_bar
decode_cursor f cursor = do
  raw ← f.b64decode (pad_cursor cursor)
  (version, rest) ← split_bar raw
  (stamp, raw_id) ← split_bar rest
  if text_eq version cursor_version
      then (do t ← f.fromisoformat stamp; id ← f.read_id raw_id; some (t, id))
      else none

-- What the standard library promises: base64 is undone, is a multiple of four characters long, and
-- ends in at most two signs of padding; the formats of instants and identifiers are undone, and an
-- instant is written without a bar.
pub record IsStandard (f : Formats) : Type 0 where
  pub b64_undone : (t : Text) → f.b64decode (f.b64encode t) ≡ some t
  pub b64_fours : (t : Text) → length (f.b64encode t) % 4 ≡ 0
  pub b64_padding : (t : Text) → length (f.b64encode t) ≤ length (rstrip_equals (f.b64encode t)) + 2
  pub iso_undone : (t : ℕ) → f.fromisoformat (f.isoformat t) ≡ some t
  pub iso_barless : (t : ℕ) → elem bar (f.isoformat t) ≡ false
  pub id_undone : (id : ℕ) → f.read_id (f.show_id id) ≡ some id

is_blank_lem : (t : Text) → is_blank t ≡ true → t ≡ []
is_blank_lem [] h = refl
is_blank_lem (c ∷ cs) h = absurd (false≢true h)

-- What is stripped is so many equals signs.
rstrip_equals-stripped :
    (t : Text)
    → (k : ℕ) × (rstrip_equals t ++ equals_signs k ≡ t) × (length (rstrip_equals t) + k ≡ length t)
unfolding rstrip_equals
rstrip_equals-stripped [] = (0, refl, refl)
rstrip_equals-stripped (c ∷ cs) =
    let (k, whole, count) = rstrip_equals-stripped cs in
    elim (Bool-cases (is_blank (rstrip_equals cs) && c == equals_sign)) [
      | inr e ↦ rw e (k, ap (λ t. c ∷ t) whole, omega (arith, count))
      | inl e ↦
          let nothing : rstrip_equals cs ≡ [] =
            is_blank_lem (rstrip_equals cs) (ground (arith, e)) in
          let signs : equals_signs k ≡ cs = ap (λ t. t ++ equals_signs k) (sym nothing) ∙ whole in
          let same : equals_sign ≡ c = sym ((==_iff c equals_sign).0 (ground (arith, e))) in
          rw e (suc k, ap₂ (λ x xs. x ∷ xs) same signs, omega (arith, count, ap length nothing))
    ]

fill_up : (n k : ℕ) → (n + k) % 4 ≡ 0 → k ≤ 2 → (4 - n % 4) % 4 ≡ k
fill_up n k h l = omega (arith, h, l)

split_bar-first :
    (before after : Text)
    → elem bar before ≡ false
    → split_bar (before ++ bar ∷ after) ≡ some (before, after)
unfolding split_bar
split_bar-first [] after h = refl
split_bar-first (c ∷ cs) after h =
    let other : (c == bar) ≡ false = ground (arith, h) in
    rw other (ap (put_before c) (split_bar-first cs after (ground (arith, h))))

-- Padding a stripped text again gives the text.
pad_cursor-rstrip_equals :
    (t : Text)
    → length t % 4 ≡ 0
    → length t ≤ length (rstrip_equals t) + 2
    → pad_cursor (rstrip_equals t) ≡ t
unfolding pad_cursor
pad_cursor-rstrip_equals t fours padding =
    let (k, whole, count) = rstrip_equals-stripped t in
    let signs : (4 - length (rstrip_equals t) % 4) % 4 ≡ k =
      fill_up (length (rstrip_equals t)) k (ap (λ n. n % 4) count ∙ fours)
        (omega (arith, count, padding)) in
    ap (λ n. rstrip_equals t ++ equals_signs n) signs ∙ whole

-- A cursor that is read back is the position that was written, if base64 is undone, a multiple of four
-- characters long and padded with two signs at most, and the formats of instants and identifiers are
-- undone and an instant is written without a bar.
pub decode_cursor-encode_cursor :
    (f : Formats) (m : Message)
    → IsStandard f
    → decode_cursor f (encode_cursor f m) ≡ some (cursor_of m)
unfolding decode_cursor encode_cursor split_bar text_eq
decode_cursor-encode_cursor f m standard =
    let (stamp, id) = cursor_of m in
    let behind : _ = f.isoformat stamp ++ bar ∷ f.show_id id in
    let raw : _ = cursor_version ++ bar ∷ behind in
    let padded : pad_cursor (rstrip_equals (f.b64encode raw)) ≡ f.b64encode raw =
      pad_cursor-rstrip_equals (f.b64encode raw) (standard.b64_fours raw)
        (standard.b64_padding raw) in
    let read : f.b64decode (pad_cursor (rstrip_equals (f.b64encode raw))) ≡ some raw =
      ap f.b64decode padded ∙ standard.b64_undone raw in
    rw read (
      rw (split_bar-first (f.isoformat stamp) (f.show_id id) (standard.iso_barless stamp))
        (rw (standard.iso_undone stamp) (rw (standard.id_undone id) refl)))

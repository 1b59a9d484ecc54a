-- ===== src/LineReader/Splits.antt =====
-- Where the first line of a text ends, and that pieces of a text end it at the same place.
use behind.Base.{
  ℕ, ◌≡◌, refl, ap, ◌∙◌, true, false, ◌||◌, Option, none, some, List, [], ◌∷◌, ◌++◌, Bytes, ◌==◌,
  if◌then◌else◌, arith, Bool-cases, inl, inr,
}
use behind.Message.{is_empty}
use behind.LineReader.{Read, File, break_behind, find_break, skip_newline}

-- A read that succeeds and brings something.
abbrev pub IsPlain : Read → Type 0
IsPlain (Read.bytes b) = is_empty b ≡ false
IsPlain Read.fails = ⊥

abbrev pub joined : List Read → Bytes
joined [] = []
joined (Read.bytes b ∷ rs) = b ++ joined rs
joined (Read.fails ∷ rs) = joined rs

-- What is left behind a byte `last`: a line feed behind a carriage return does not count.
abbrev pub unread : ℕ → Bytes → Bytes
unread last s = if last == 13 then skip_newline s else s

-- The text of a file that no line has been made of.
abbrev pub text : File → Bytes
text f = unread f.last_char (f.buffer ++ joined f.reads)

-- The first line of a text, and the text behind it.
abbrev pub split_at : Bytes → Option (Bytes × ℕ × Bytes) → Bytes × Bytes
split_at s none = (s, [])
split_at s (some (before, c, after)) = (before, unread c after)

abbrev pub first_line : Bytes → Bytes
first_line s = (split_at s (find_break s)).0

abbrev pub other_lines : Bytes → Bytes
other_lines s = (split_at s (find_break s)).1

pub is_empty-nil : (b : Bytes) → is_empty b ≡ true → b ≡ []
is_empty-nil [] h = refl
is_empty-nil (c ∷ cs) h = absurd (ground arith)

pub unread-append :
    (last : ℕ) (b t : Bytes) → is_empty b ≡ false → unread last (b ++ t) ≡ unread last b ++ t
unread-append last [] t h = absurd (ground arith)
unread-append last (c ∷ cs) t h = elim (Bool-cases (last == 13)) [
  | inl r ↦ elim (Bool-cases (c == 10)) [ inl n ↦ rw (r, n) refl | inr n ↦ rw (r, n) refl ]
  | inr r ↦ rw r refl
]

abbrev pub break_after : Bytes → Option (Bytes × ℕ × Bytes) → Option (Bytes × ℕ × Bytes)
break_after v none = none
break_after v (some (before, c, after)) = some (v ++ before, c, after)

abbrev pub break_in : Bytes → Bytes → Option (Bytes × ℕ × Bytes) → Option (Bytes × ℕ × Bytes)
break_in v t none = break_after v (find_break t)
break_in v t (some (before, c, after)) = some (before, c, after ++ t)

break_after-nil : (o : Option (Bytes × ℕ × Bytes)) → o ≡ break_after [] o
break_after-nil none = refl
break_after-nil (some (before, c, after)) = refl

break_behind-break_after :
    (c : ℕ) (v : Bytes) (o : Option (Bytes × ℕ × Bytes))
    → break_behind c (break_after v o) ≡ break_after (c ∷ v) o
break_behind-break_after c v none = refl
break_behind-break_after c v (some (before, d, after)) = refl

break_behind-break_in :
    (c : ℕ) (v t : Bytes) (o : Option (Bytes × ℕ × Bytes))
    → break_behind c (break_in v t o) ≡ break_in (c ∷ v) t (break_behind c o)
break_behind-break_in c v t none = break_behind-break_after c v (find_break t)
break_behind-break_in c v t (some (before, d, after)) = refl

pub find_break-append : (v t : Bytes) → find_break (v ++ t) ≡ break_in v t (find_break v)
unfolding find_break
find_break-append [] t = break_after-nil (find_break t)
find_break-append (c ∷ cs) t = elim (Bool-cases (c == 10 || c == 13)) [
  | inl e ↦ rw e refl
  | inr e ↦
      rw e (
        ap (break_behind c) (find_break-append cs t) ∙ break_behind-break_in c cs t (find_break cs))
]

pub split_at-break_after :
    (v t : Bytes) (o : Option (Bytes × ℕ × Bytes))
    → split_at (v ++ t) (break_after v o) ≡ (v ++ (split_at t o).0, (split_at t o).1)
split_at-break_after v t none = refl
split_at-break_after v t (some (before, c, after)) = refl

-- ===== src/LineReader/FirstLines.antt =====
-- What a line of a text is, and that `fetch_line` brings the first one of what is unread.
use behind.Base.{
  ℕ, ◌+◌, ◌≤◌, ◌≡◌, refl, sym, ap, ◌∙◌, true, false, ◌||◌, none, some, [], ◌∷◌, ◌++◌, Bytes, All,
  length, ◌==◌, arith, Bool-cases, inl, inr,
}
use mathlib.Core.Path.{subst}
use behind.Misc.{front_is}
use behind.LineReader.{
  File, find_break, skip_newline, max_line_size, max_total_size, Fetched, fetch_line,
}
use behind.LineReader.Lines.{IsLineByte}
use behind.LineReader.Splits.{IsPlain, joined, unread, text, first_line, split_at}
use behind.LineReader.Chunks.{fetch_line-IsCut}

-- A text, its first line and the rest of it. A line ends with the text, or at a line feed, or at a
-- carriage return with the line feed behind it if there is one.
pub data FirstLine (t line rest : Bytes) : Type 0 where
  last_line : All IsLineByte line → t ≡ line → rest ≡ [] → FirstLine t line rest
  line_feed : All IsLineByte line → t ≡ line ++ (10 ∷ rest) → FirstLine t line rest
  return_feed : All IsLineByte line → t ≡ line ++ (13 ∷ 10 ∷ rest) → FirstLine t line rest
  return_only :
      All IsLineByte line
      → t ≡ line ++ (13 ∷ rest)
      → front_is 10 rest ≡ false
      → FirstLine t line rest

-- The text `t` is left of the bytes `s` behind the byte `last`: a line feed that belongs to a
-- carriage return in front of it is none of it.
pub data Remains (last : ℕ) (s t : Bytes) : Type 0 where
  after_other : (last == 13) ≡ false → s ≡ t → Remains last s t
  after_return : (last == 13) ≡ true → s ≡ t → front_is 10 t ≡ false → Remains last s t
  inside_break : (last == 13) ≡ true → s ≡ 10 ∷ t → Remains last s t

-- Every text has a first line.
FirstLine-cons :
    (c : ℕ) (t line rest : Bytes)
    → IsLineByte c
    → FirstLine t line rest
    → FirstLine (c ∷ t) (c ∷ line) rest
FirstLine-cons c t line rest h (FirstLine.last_line a e r) =
    FirstLine.last_line (h, a) (ap (◌∷◌ c) e) r
FirstLine-cons c t line rest h (FirstLine.line_feed a e) = FirstLine.line_feed (h, a) (ap (◌∷◌ c) e)
FirstLine-cons c t line rest h (FirstLine.return_feed a e) =
    FirstLine.return_feed (h, a) (ap (◌∷◌ c) e)
FirstLine-cons c t line rest h (FirstLine.return_only a e r) =
    FirstLine.return_only (h, a) (ap (◌∷◌ c) e) r

FirstLine-return : (cs : Bytes) → (l : Bytes) × (r : Bytes) × FirstLine (13 ∷ cs) l r
FirstLine-return [] = ([], [], FirstLine.return_only tt refl refl)
FirstLine-return (d ∷ ds) = elim (Bool-cases (d == 10)) [
  | inl n ↦
      let is : d ≡ 10 = ground arith in
      ([], ds, FirstLine.return_feed tt (ap (λ x. 13 ∷ x ∷ ds) is))
  | inr n ↦ ([], d ∷ ds, FirstLine.return_only tt refl n)
]

pub FirstLine-exists : (t : Bytes) → (l : Bytes) × (r : Bytes) × FirstLine t l r
FirstLine-exists [] = ([], [], FirstLine.last_line tt refl refl)
FirstLine-exists (c ∷ cs) = elim (Bool-cases (c == 10)) [
  | inl n ↦ let is : c ≡ 10 = ground arith in ([], cs, FirstLine.line_feed tt (ap (λ x. x ∷ cs) is))
  | inr n ↦ elim (Bool-cases (c == 13)) [
    | inl r ↦
        let is : 13 ≡ c = ground arith in
        subst (λ x. (l : Bytes) × (r : Bytes) × FirstLine (x ∷ cs) l r) is (FirstLine-return cs)
    | inr r ↦
        let (l, rest, h) = FirstLine-exists cs in
        (c ∷ l, rest, FirstLine-cons c cs l rest (ground arith) h)
  ]
]

-- ## The text that is unread

unread-Remains : (last : ℕ) (s : Bytes) → Remains last s (unread last s)
unread-Remains last s = elim (Bool-cases (last == 13)) [
  | inr other ↦ rw other (Remains.after_other other refl)
  | inl return ↦ rw return (go s return)
]
  where
    go : (s : Bytes) → (last == 13) ≡ true → Remains last s (skip_newline s)
    go [] r = Remains.after_return r refl refl
    go (c ∷ cs) r = elim (Bool-cases (c == 10)) [
      | inl n ↦
          let is : c ≡ 10 = ground arith in rw n (Remains.inside_break r (ap (λ x. x ∷ cs) is))
      | inr n ↦ rw n (Remains.after_return r refl n)
    ]

skip_newline_none : (s : Bytes) → front_is 10 s ≡ false → skip_newline s ≡ s
skip_newline_none [] h = refl
skip_newline_none (c ∷ cs) h = rw h refl

Remains-unread : (last : ℕ) (s t : Bytes) → Remains last s t → unread last s ≡ t
Remains-unread last s t (Remains.after_other o e) = rw o e
Remains-unread last s t (Remains.after_return r e n) =
    rw r (ap skip_newline e ∙ skip_newline_none t n)
Remains-unread last s t (Remains.inside_break r e) = rw r (ap skip_newline e)

-- ## The first line

find_break-none : (l : Bytes) → All IsLineByte l → find_break l ≡ none
unfolding find_break
find_break-none [] a = refl
find_break-none (c ∷ cs) a = rw (a.0, find_break-none cs a.1) refl

find_break-at :
    (l : Bytes) (c : ℕ) (r : Bytes)
    → All IsLineByte l
    → (c == 10 || c == 13) ≡ true
    → find_break (l ++ (c ∷ r)) ≡ some (l, c, r)
unfolding find_break
find_break-at [] c r a h = rw h refl
find_break-at (d ∷ ds) c r a h = rw (a.0, find_break-at ds c r a.1 h) refl

FirstLine-split_at :
    (t line rest : Bytes) → FirstLine t line rest → split_at t (find_break t) ≡ (line, rest)
FirstLine-split_at t line rest (FirstLine.last_line a e r) =
    ap (λ t. split_at t (find_break t)) e
    ∙ ap (split_at line) (find_break-none line a)
    ∙ ap (λ x. (line, x)) (sym r)
FirstLine-split_at t line rest (FirstLine.line_feed a e) =
    ap (λ t. split_at t (find_break t)) e ∙ ap (split_at _) (find_break-at line 10 rest a refl)
FirstLine-split_at t line rest (FirstLine.return_feed a e) =
    ap (λ t. split_at t (find_break t)) e
    ∙ ap (split_at _) (find_break-at line 13 (10 ∷ rest) a refl)
FirstLine-split_at t line rest (FirstLine.return_only a e n) =
    ap (λ t. split_at t (find_break t)) e
    ∙ ap (split_at _) (find_break-at line 13 rest a refl)
    ∙ ap (λ x. (line, x)) (skip_newline_none rest n)

-- `line` is fetched, and the text `rest` is left of `size` bytes with those read before.
pub record Fetches (line rest : Bytes) (size : ℕ) (x : Fetched) : Type 0 where
  pub file : File
  pub total : ℕ
  pub is_line : x ≡ Fetched.line_is line file total
  pub left : Remains file.last_char (file.buffer ++ joined file.reads) rest
  pub plain : All IsPlain file.reads
  pub counted : total + length (joined file.reads) ≡ size

-- However the bytes of a file come from read(2), in pieces of any size, the line that is fetched is
-- the first line of the text that is unread, and the rest of that text is left unread: a line ends
-- at a line feed, at a carriage return, or at the two of them, also where a piece ends between them.
-- The reads bring at least one byte each and none fails, they stay within 64 MiB, and the line is of
-- at most 1 MiB.
pub fetch_line-Fetches :
    (f : File) (total : ℕ) (t line rest : Bytes)
    → All IsPlain f.reads
    → total + length (joined f.reads) ≤ max_total_size
    → Remains f.last_char (f.buffer ++ joined f.reads) t
    → FirstLine t line rest
    → length line ≤ max_line_size
    → Fetches line rest (total + length (joined f.reads)) (fetch_line f total)
fetch_line-Fetches f total t line rest plain some_left unread_text first small =
    let same : text f ≡ t = Remains-unread f.last_char (f.buffer ++ joined f.reads) t unread_text in
    let two : split_at (text f) (find_break (text f)) ≡ (line, rest) =
      ap (λ t. split_at t (find_break t)) same ∙ FirstLine-split_at t line rest first in
    let front : first_line (text f) ≡ line = ap (λ x. x.0) two in
    let h =
      fetch_line-IsCut f total plain some_left
        (subst (λ l. length l ≤ max_line_size) (sym front) small) in
    record {
      file = h.file;
      total = h.total;
      is_line = h.is_line ∙ ap (λ l. Fetched.line_is l h.file h.total) front;
      left =
          subst (Remains h.file.last_char (h.file.buffer ++ joined h.file.reads))
            (h.left ∙ ap (λ x. x.1) two)
            (unread-Remains h.file.last_char (h.file.buffer ++ joined h.file.reads));
      plain = h.plain;
      counted = h.counted;
    }

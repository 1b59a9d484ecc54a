-- ===== src/LineReader/Chunks.antt =====
-- How read(2) cuts a file into pieces makes no difference to its lines.
use behind.Base.{
  ℕ, ◌+◌, ◌-◌, ◌≤◌, ◌≡◌, refl, sym, ap, ◌∙◌, true, false, some, List, [], ◌∷◌, ◌++◌, append-nil,
  append_assoc, Bytes, All, length, length-append, min, ltb, ◌==◌, if◌then◌else◌, arith, Bool-cases,
  Option-cases, inl, inr,
}
use mathlib.Core.Path.{subst}
use behind.Message.{is_empty}
use behind.LineReader.{
  Read, File, find_break, Scan, scan_break, scan_buffer, max_line_size, max_total_size, Fetched,
  scanned, fetch, fetch_line,
}
use behind.LineReader.Splits.{
  IsPlain, joined, break_after, break_in, find_break-append, first_line, is_empty-nil, other_lines,
  split_at, split_at-break_after, text, unread, unread-append,
}

-- A line is fetched behind `line`, as the text `s` says.
pub record IsCut (line s : Bytes) (size : ℕ) (x : Fetched) : Type 0 where
  pub file : File
  pub total : ℕ
  pub is_line : x ≡ Fetched.line_is (line ++ first_line s) file total
  pub left : text file ≡ other_lines s
  pub plain : All IsPlain file.reads
  pub counted : total + length (joined file.reads) ≡ size

-- What a piece `v` brings, with `t` behind it.
abbrev IsSplit : Bytes → ℕ → Bytes → Bytes → Scan → Type 0
IsSplit line last v t (Scan.ends l c after) =
    (l ≡ line ++ first_line (v ++ t)) × (unread c (after ++ t) ≡ other_lines (v ++ t))
IsSplit line last v t (Scan.goes_on l last') =
    (l ≡ line ++ v)
    × (last' ≡ last)
    × (first_line (v ++ t) ≡ v ++ first_line t)
    × (other_lines (v ++ t) ≡ other_lines t)
IsSplit line last v t (Scan.too_long last' w) = ⊥

-- A piece of a line that fits has room.
not_too_long :
    (line x v : Bytes)
    → length (line ++ x) ≤ max_line_size
    → length v ≤ length x
    → ltb (max_line_size - min (length line) max_line_size) (length v) ≡ false
not_too_long line x v small le = let total = length-append line x in ground arith

scan_break-IsSplit :
    (line : Bytes) (last : ℕ) (v t : Bytes)
    → length (line ++ first_line (v ++ t)) ≤ max_line_size
    → IsSplit line last v t (scan_break line last v (find_break v))
scan_break-IsSplit line last v t small = elim (Option-cases (find_break v)) [
  | inl e ↦
      let all_of : find_break (v ++ t) ≡ break_after v (find_break t) =
        find_break-append v t ∙ ap (break_in v t) e in
      let two = ap (split_at (v ++ t)) all_of ∙ split_at-break_after v t (find_break t) in
      let first = ap (λ x. x.0) two in
      let total = ap length first ∙ length-append v (first_line t) in
      rw (e, not_too_long line (first_line (v ++ t)) v small (omega (arith, total)))
        (refl, refl, first, ap (λ x. x.1) two)
  | inr ((before, c, after), e) ↦
      let some_of : find_break (v ++ t) ≡ some (before, c, after ++ t) =
        find_break-append v t ∙ ap (break_in v t) e in
      let two = ap (split_at (v ++ t)) some_of in
      let first = ap (λ x. x.0) two in
      let total = ap length first in
      rw (e, not_too_long line (first_line (v ++ t)) before small (omega (arith, total)))
        (ap (λ x. line ++ x) (sym first), sym (ap (λ x. x.1) two))
]

abbrev after_return : ℕ → ℕ
after_return last = if last == 13 then 0 else last

scan_buffer-IsSplit :
    (line : Bytes) (last : ℕ) (b t : Bytes)
    → is_empty b ≡ false
    → length (line ++ first_line (unread last (b ++ t))) ≤ max_line_size
    → IsSplit line (after_return last) (unread last b) t (scan_buffer line last b)
unfolding scan_buffer
scan_buffer-IsSplit line last b t full small =
    scan_break-IsSplit line (after_return last) (unread last b) t
      (rw (sym (unread-append last b t full)) small)

unread-after_return : (last : ℕ) (s : Bytes) → unread (after_return last) s ≡ s
unread-after_return last s = elim (Bool-cases (last == 13)) [
  | inl r ↦ rw r refl
  | inr r ↦ rw (r, r) refl
]

scanned-IsCut :
    (f : File) (total last : ℕ) (line b : Bytes) (more : Bytes → ℕ → Fetched) (s : Scan)
    → is_empty b ≡ false
    → All IsPlain f.reads
    → IsSplit line (after_return last) (unread last b) (joined f.reads) s
    → ((l : Bytes)
        → length (l ++ first_line (joined f.reads)) ≤ max_line_size
        → IsCut l (joined f.reads) (total + length (joined f.reads)) (more l (after_return last)))
    → length (line ++ first_line (unread last (b ++ joined f.reads))) ≤ max_line_size
    → IsCut line
        (unread last (b ++ joined f.reads))
        (total + length (joined f.reads))
        (scanned f total more s)
scanned-IsCut f total last line b more (Scan.ends l c after) full plain h k small =
    let e = unread-append last b (joined f.reads) full in
    record {
      file = record f { buffer = after; last_char = c };
      total = total;
      is_line =
          ap (λ x. Fetched.line_is x (record f { buffer = after; last_char = c }) total)
            (h.0 ∙ ap (λ x. line ++ first_line x) (sym e));
      left = h.1 ∙ ap other_lines (sym e);
      plain = plain;
      counted = refl;
    }
scanned-IsCut f total last line b more (Scan.goes_on l last') full plain h k small =
    let e = unread-append last b (joined f.reads) full in
    let whole : line ++ first_line (unread last (b ++ joined f.reads))
        ≡ l ++ first_line (joined f.reads) =
      ap (λ x. line ++ first_line x) e
      ∙ ap (◌++◌ line) h.2
      ∙ sym (append_assoc line (unread last b) (first_line (joined f.reads)))
      ∙ ap (λ x. x ++ first_line (joined f.reads)) (sym h.0) in
    let ih = k l (subst (λ x. length x ≤ max_line_size) whole small) in
    record {
      file = ih.file;
      total = ih.total;
      is_line =
          ap (more l) h.1 ∙ ih.is_line ∙ ap (λ x. Fetched.line_is x ih.file ih.total) (sym whole);
      left = ih.left ∙ sym (ap other_lines e ∙ h.3);
      plain = ih.plain;
      counted = ih.counted;
    }
scanned-IsCut f total last line b more (Scan.too_long last' w) full plain h k small = absurd h

unread-nil : (last : ℕ) → unread last [] ≡ []
unread-nil last = elim (Bool-cases (last == 13)) [ inl r ↦ rw r refl | inr r ↦ rw r refl ]

end_of_file-IsCut :
    (f : File) (total last : ℕ) (line : Bytes)
    → IsCut line [] (total + 0) (fetch f [] total last line)
unfolding fetch find_break
end_of_file-IsCut f total last line = record {
  file = record f { reads = []; buffer = []; last_char = last; eof = true };
  total = total;
  is_line =
      ap
        (λ x.
          Fetched.line_is x (record f { reads = []; buffer = []; last_char = last; eof = true })
            total)
        (sym (append-nil line));
  left = unread-nil last;
  plain = tt;
  counted = refl;
}

fetch-IsCut :
    (f : File) (rs : List Read) (total last : ℕ) (line : Bytes)
    → All IsPlain rs
    → total + length (joined rs) ≤ max_total_size
    → length (line ++ first_line (unread last (joined rs))) ≤ max_line_size
    → IsCut line (unread last (joined rs)) (total + length (joined rs)) (fetch f rs total last line)
unfolding fetch
fetch-IsCut f [] total last line plain some_left small =
    subst (λ s. IsCut line s (total + 0) (fetch f [] total last line)) (sym (unread-nil last))
      (end_of_file-IsCut f total last line)
fetch-IsCut f (Read.fails ∷ rs) total last line plain some_left small = absurd plain.0
fetch-IsCut f (Read.bytes b ∷ rs) total last line plain some_left small =
    let g = record f { reads = rs } in
    let sum = length-append b (joined rs) in
    let size : total + length b + length (joined rs) ≡ total + length (b ++ joined rs) =
      omega (arith, sum) in
    let room : ltb (max_total_size - min total max_total_size) (length b) ≡ false = ground arith in
    let same = unread-after_return last (joined rs) in
    let rest = λ (l : Bytes) (k : length (l ++ first_line (joined rs)) ≤ max_line_size).
      subst
        (λ s.
          IsCut l s (total + length b + length (joined rs))
            (fetch f rs (total + length b) (after_return last) l))
        same
        (fetch-IsCut f rs (total + length b) (after_return last) l plain.1
          (omega (arith, sum, some_left))
          (subst (λ s. length (l ++ first_line s) ≤ max_line_size) (sym same) k)) in
    let h =
      scanned-IsCut g (total + length b) last line b
        (λ l last'. fetch f rs (total + length b) last' l) (scan_buffer line last b) plain.0 plain.1
        (scan_buffer-IsSplit line last b (joined rs) plain.0 small) rest small in
    rw (plain.0, room)
      (subst
        (λ n. IsCut line (unread last (b ++ joined rs)) n (
          scanned g (total + length b) (λ l last'. fetch f rs (total + length b) last' l)
            (scan_buffer line last b)))
        size h)

-- However the bytes of a file come from read(2), in pieces of any size, the line that is fetched is
-- the first line of the text that is unread, and the text behind it is left unread: a line ends at
-- a line feed, a carriage return or the two of them, also where a piece ends between them. The
-- reads bring at least one byte each and none fails, they stay within 64 MiB, and the line is of at
-- most 1 MiB.
pub fetch_line-IsCut :
    (f : File) (total : ℕ)
    → All IsPlain f.reads
    → total + length (joined f.reads) ≤ max_total_size
    → length (first_line (text f)) ≤ max_line_size
    → IsCut [] (text f) (total + length (joined f.reads)) (fetch_line f total)
unfolding fetch_line
fetch_line-IsCut f total plain some_left small = elim (Bool-cases (is_empty f.buffer)) [
  | inl e ↦
      let none_left : f.buffer ≡ [] = is_empty-nil f.buffer e in
      let same : text f ≡ unread f.last_char (joined f.reads) =
        ap (λ b. unread f.last_char (b ++ joined f.reads)) none_left in
      rw e (
        subst
          (λ s. IsCut [] s (total + length (joined f.reads)) (fetch f f.reads total f.last_char []))
          (sym same)
          (fetch-IsCut f f.reads total f.last_char [] plain some_left
            (subst (λ s. length (first_line s) ≤ max_line_size) same small)))
  | inr e ↦
      let same = unread-after_return f.last_char (joined f.reads) in
      let rest = λ (l : Bytes) (k : length (l ++ first_line (joined f.reads)) ≤ max_line_size).
        subst
          (λ s.
            IsCut l s (total + length (joined f.reads))
              (fetch f f.reads total (after_return f.last_char) l))
          same
          (fetch-IsCut f f.reads total (after_return f.last_char) l plain some_left
            (subst (λ s. length (l ++ first_line s) ≤ max_line_size) (sym same) k)) in
      rw e (
        scanned-IsCut f total f.last_char [] f.buffer (λ l last. fetch f f.reads total last l)
          (scan_buffer [] f.last_char f.buffer) e plain
          (scan_buffer-IsSplit [] f.last_char f.buffer (joined f.reads) e small) rest small)
]

-- ===== src/Misc/Lines.antt =====
-- `misc::split_lines` takes joined lines apart, for each of the line ends it knows.
use behind.Base.{
  ℕ, ◌==◌, ◌≡◌, refl, ap, ◌∙◌, sym, Bool, true, false, not, ◌&&◌, ◌||◌, List, [], ◌∷◌, ◌++◌, arith,
  Bytes, if◌then◌else◌, all, All, append-nil,
}
use behind.Misc.{cons_line, lines_from, split_lines}

-- The line ends.
pub data Ending : Type 0 where
  lf : Ending
  crlf : Ending
  cr : Ending

abbrev pub ending_bytes : Ending → Bytes
ending_bytes Ending.lf = b'\n' ∷ []
ending_bytes Ending.crlf = b'\r' ∷ b'\n' ∷ []
ending_bytes Ending.cr = b'\r' ∷ []

-- A line that holds no byte that ends it.
abbrev pub is_line_byte : ℕ → Bool
is_line_byte c = not (c == b'\n' || c == b'\r' || c == 0)

abbrev pub IsLine : Bytes → Type 0
IsLine l = all is_line_byte l ≡ true

unfoldable pub join_lines : Ending → Bytes → List Bytes → Bytes
join_lines e l [] = l
join_lines e l (m ∷ ms) = l ++ (ending_bytes e ++ join_lines e m ms)

lines_from-cons :
    (b : Bool) (c : ℕ) (cs : Bytes)
    → lines_from b (c ∷ cs) ≡ (
        if b && c == b'\n'
        then lines_from false cs
        else if c == b'\n' || c == b'\r'
        then [] ∷ lines_from (c == b'\r') cs
        else if c == 0
        then [] ∷ []
        else cons_line c (lines_from false cs))
unfolding lines_from
lines_from-cons b c cs = refl

lines-line_byte :
    (b : Bool) (c : ℕ) (cs : Bytes)
    → is_line_byte c ≡ true
    → lines_from b (c ∷ cs) ≡ cons_line c (lines_from false cs)
lines-line_byte b c cs h = ground (arith, lines_from-cons b c cs)

lines-line :
    (l rest : Bytes) (l' : Bytes) (ls : List Bytes)
    → IsLine l
    → lines_from false rest ≡ l' ∷ ls
    → lines_from false (l ++ rest) ≡ (l ++ l') ∷ ls
lines-line [] rest l' ls h k = k
lines-line (c ∷ cs) rest l' ls h k =
    lines-line_byte false c (cs ++ rest) (ground arith)
    ∙ ap (cons_line c) (lines-line cs rest l' ls (ground arith) k)

lines-nil : lines_from false [] ≡ [] ∷ []
unfolding lines_from
lines-nil = refl

-- A line feed ends a line, if no carriage return stands before it.
lines-lf : (rest : Bytes) → lines_from false (b'\n' ∷ rest) ≡ [] ∷ lines_from false rest
unfolding lines_from
lines-lf rest = refl

lines-cr : (b : Bool) (rest : Bytes) → lines_from b (b'\r' ∷ rest) ≡ [] ∷ lines_from true rest
unfolding lines_from
lines-cr true rest = refl
lines-cr false rest = refl

lines-crlf : (rest : Bytes) → lines_from false (b'\r' ∷ b'\n' ∷ rest) ≡ [] ∷ lines_from false rest
unfolding lines_from
lines-crlf rest = refl

lines-nil_cr : lines_from true [] ≡ lines_from false []
unfolding lines_from
lines-nil_cr = refl

-- Behind a carriage return, joined lines read as they do elsewhere.
lines-join_cr :
    (m : Bytes) (ms : List Bytes)
    → IsLine m
    → lines_from true (join_lines Ending.cr m ms) ≡ lines_from false (join_lines Ending.cr m ms)
unfolding join_lines
lines-join_cr [] [] h = lines-nil_cr
lines-join_cr [] (x ∷ ms) h = lines-cr true _ ∙ sym (lines-cr false _)
lines-join_cr (c ∷ cs) [] h =
    lines-line_byte true c _ (ground arith) ∙ sym (lines-line_byte false c _ (ground arith))
lines-join_cr (c ∷ cs) (x ∷ ms) h =
    lines-line_byte true c _ (ground arith) ∙ sym (lines-line_byte false c _ (ground arith))

lines-ending :
    (e : Ending) (m : Bytes) (ms : List Bytes)
    → IsLine m
    → lines_from false (ending_bytes e ++ join_lines e m ms)
      ≡ [] ∷ lines_from false (join_lines e m ms)
lines-ending Ending.lf m ms h = lines-lf _
lines-ending Ending.crlf m ms h = lines-crlf _
lines-ending Ending.cr m ms h = lines-cr false _ ∙ ap (◌∷◌ []) (lines-join_cr m ms h)

lines-join :
    (e : Ending) (l : Bytes) (ms : List Bytes)
    → All IsLine (l ∷ ms)
    → lines_from false (join_lines e l ms) ≡ l ∷ ms
unfolding join_lines
lines-join e l [] h =
    ap (lines_from false) (sym (append-nil l))
    ∙ lines-line l [] [] [] h.0 lines-nil
    ∙ ap (λ x. x ∷ []) (append-nil l)
lines-join e l (m ∷ ms) h =
    lines-line l _ [] (m ∷ ms) h.0 (lines-ending e m ms h.1.0 ∙ ap (◌∷◌ []) (lines-join e m ms h.1))
    ∙ ap (λ x. x ∷ m ∷ ms) (append-nil l)

-- Lines without line feeds, carriage returns and zero bytes, joined by any one of the three line
-- ends, are taken apart again by `split_lines`.
pub split_lines-join :
    (e : Ending) (l : Bytes) (ms : List Bytes)
    → All IsLine (l ∷ ms)
    → split_lines (join_lines e l ms) ≡ l ∷ ms
unfolding split_lines
split_lines-join e l ms h = lines-join e l ms h

-- ===== src/LineReader/Lines.antt =====
-- The lines that `internal_getline` brings, and what it does to the reader.
use behind.Base.{
  ℕ, ◌+◌, ◌-◌, ◌≤◌, ◌≡◌, refl, false, ◌||◌, Option, none, some, List, [], ◌∷◌, ◌++◌, Bytes, All,
  All-append, length, length-append, min, ltb, ◌==◌, arith, if-rule, if◌then◌else◌,
}
use behind.Message.{is_empty}
use behind.LineReader.{
  Read, File, break_behind, find_break, skip_newline, Scan, scan_break, scan_buffer, max_line_size,
  max_total_size, Fetched, scanned, fetch, fetch_line,
}

-- Neither a line feed nor a carriage return.
abbrev pub IsLineByte : ℕ → Type 0
IsLineByte c = (c == 10 || c == 13) ≡ false

-- One line of at most 1 MiB.
abbrev pub IsLine : Bytes → Type 0
IsLine line = (length line ≤ max_line_size) × All IsLineByte line

abbrev IsFound : Bytes → Option (Bytes × ℕ × Bytes) → Type 0
IsFound v none = All IsLineByte v
IsFound v (some (before, c, after)) = All IsLineByte before

break_behind-IsFound :
    (c : ℕ) (cs : Bytes) (o : Option (Bytes × ℕ × Bytes))
    → IsLineByte c
    → IsFound cs o
    → IsFound (c ∷ cs) (break_behind c o)
break_behind-IsFound c cs none h k = (h, k)
break_behind-IsFound c cs (some (before, d, after)) h k = (h, k)

find_break-IsFound : (v : Bytes) → IsFound v (find_break v)
unfolding find_break
find_break-IsFound [] = tt
find_break-IsFound (c ∷ cs) =
    if-rule (IsFound (c ∷ cs)) (c == 10 || c == 13) (λ t. tt)
      (λ f. break_behind-IsFound c cs (find_break cs) f (find_break-IsFound cs))

abbrev IsScan : Scan → Type 0
IsScan (Scan.ends line c after) = IsLine line
IsScan (Scan.goes_on line last) = IsLine line
IsScan (Scan.too_long last v) = Unit

IsLine-append :
    (line more : Bytes)
    → IsLine line
    → All IsLineByte more
    → ltb (max_line_size - min (length line) max_line_size) (length more) ≡ false
    → IsLine (line ++ more)
IsLine-append line more h k e =
    let total = length-append line more in (ground arith, All-append IsLineByte line more h.1 k)

scan_break-IsScan :
    (line : Bytes) (last : ℕ) (v : Bytes) (o : Option (Bytes × ℕ × Bytes))
    → IsLine line
    → IsFound v o
    → IsScan (scan_break line last v o)
scan_break-IsScan line last v none h k =
    if-rule IsScan (ltb (max_line_size - min (length line) max_line_size) (length v)) (λ t. tt)
      (IsLine-append line v h k)
scan_break-IsScan line last v (some (before, c, after)) h k =
    if-rule IsScan (ltb (max_line_size - min (length line) max_line_size) (length before)) (λ t. tt)
      (IsLine-append line before h k)

scan_buffer-IsScan :
    (line : Bytes) (last : ℕ) (buffer : Bytes) → IsLine line → IsScan (scan_buffer line last buffer)
unfolding scan_buffer
scan_buffer-IsScan line last buffer h =
    let v = if last == 13 then skip_newline buffer else buffer in
    scan_break-IsScan line (if last == 13 then 0 else last) v (find_break v) h
      (find_break-IsFound v)

-- What is read keeps to the file and to 64 MiB.
abbrev pub IsFetched : Bytes → Fetched → Type 0
IsFetched path (Fetched.line_is line g total) =
    IsLine line × (g.path ≡ path) × (total ≤ max_total_size)
IsFetched path (Fetched.error_is reason g total) = (g.path ≡ path) × (total ≤ max_total_size)

scanned-IsFetched :
    (f : File) (total : ℕ) (more : Bytes → ℕ → Fetched) (s : Scan)
    → total ≤ max_total_size
    → ((line : Bytes) (last : ℕ) → IsLine line → IsFetched f.path (more line last))
    → IsScan s
    → IsFetched f.path (scanned f total more s)
scanned-IsFetched f total more (Scan.ends line c after) h k l = (l, refl, h)
scanned-IsFetched f total more (Scan.goes_on line last) h k l = k line last l
scanned-IsFetched f total more (Scan.too_long last v) h k l = (refl, h)

fetch-IsFetched :
    (f : File) (rs : List Read) (total last : ℕ) (line : Bytes)
    → total ≤ max_total_size
    → IsLine line
    → IsFetched f.path (fetch f rs total last line)
unfolding fetch
fetch-IsFetched f [] total last line h l = (l, refl, h)
fetch-IsFetched f (Read.fails ∷ rs) total last line h l = (refl, h)
fetch-IsFetched f (Read.bytes b ∷ rs) total last line h l =
    if-rule (IsFetched f.path) (is_empty b) (λ t. (l, refl, h))
      λ some_read.
        if-rule (IsFetched f.path) (ltb (max_total_size - min total max_total_size) (length b))
          (λ t. (refl, h))
          λ small.
            let h' : total + length b ≤ max_total_size = ground arith in
            scanned-IsFetched (record f { reads = rs }) (total + length b) _
              (scan_buffer line last b) h'
              (λ l' last' k. fetch-IsFetched f rs (total + length b) last' l' h' k)
              (scan_buffer-IsScan line last b l)

pub fetch_line-IsFetched :
    (f : File) (total : ℕ) → total ≤ max_total_size → IsFetched f.path (fetch_line f total)
unfolding fetch_line
fetch_line-IsFetched f total h =
    let start : IsLine [] = (omega arith, tt) in
    if-rule (IsFetched f.path) (is_empty f.buffer)
      (λ t. fetch-IsFetched f f.reads total f.last_char [] h start)
      λ e.
        scanned-IsFetched f total _ (scan_buffer [] f.last_char f.buffer) h
          (λ line last l. fetch-IsFetched f f.reads total last line h l)
          (scan_buffer-IsScan [] f.last_char f.buffer start)

-- ===== src/Misc.antt =====
-- The text functions of src/misc.cpp, over byte strings.
pub mod Numbers
pub mod Domains
pub mod Trim
pub mod Lines
mod Tests
use behind.Base.{
  ℕ, ◌+◌, ◌-◌, ◌*◌, ◌%◌, ◌^◌, Bool, true, false, not, ◌&&◌, ◌||◌, Option, none, some, List, [], ◌∷◌,
  map, Bytes, ltb, leb, ◌==◌, if◌then◌else◌, length, drop, bytes_eq, to_lower, is_digit, is_alnum,
  is_space,
}

-- `misc::strtolower`
unfoldable pub strtolower : Bytes → Bytes
unfolding to_lower
strtolower = map to_lower

-- ## trimmed, unquote, ends_with

-- The pointer `left`, moved over leading space.
unfoldable pub skip_space : Bytes → Bytes
skip_space [] = []
skip_space (c ∷ cs) = if is_space c then skip_space cs else c ∷ cs

-- The pointer `right`, moved back over trailing space.
abbrev pub keep_byte : ℕ → Bytes → Bytes
keep_byte c [] = if is_space c then [] else c ∷ []
keep_byte c (d ∷ ds) = c ∷ d ∷ ds

unfoldable pub drop_space : Bytes → Bytes
drop_space [] = []
drop_space (c ∷ cs) = keep_byte c (drop_space cs)

unfoldable pub trimmed : Bytes → Bytes
unfolding skip_space drop_space
trimmed s = drop_space (skip_space s)

-- `s.front()` and `s.back()`, and the text without them.
abbrev pub front_is : ℕ → Bytes → Bool
front_is q [] = false
front_is q (c ∷ cs) = c == q

abbrev pub back_is : ℕ → Bytes → Bool
back_is q [] = false
back_is q (c ∷ []) = c == q
back_is q (c ∷ d ∷ cs) = back_is q (d ∷ cs)

abbrev pub tail : Bytes → Bytes
tail [] = []
tail (c ∷ cs) = cs

abbrev pub init : Bytes → Bytes
init [] = []
init (c ∷ []) = []
init (c ∷ d ∷ cs) = c ∷ init (d ∷ cs)

unfoldable pub unquote : Bytes → Bytes
unquote s = if leb 2 (length s) && front_is b'"' s && back_is b'"' s then init (tail s) else s

unfoldable pub ends_with : Bytes → Bytes → Bool
ends_with s t =
    if ltb (length s) (length t) then false else bytes_eq (drop (length s - length t) s) t

-- ## parse_int

abbrev pub int_max : ℕ
int_max = 2 ^ 31 - 1

-- The return value, and what is stored in `*out`; nothing is stored on an overflow.
unfoldable pub parse_int_loop : Bytes → ℕ → ℕ → ℕ × Option ℕ
parse_int_loop [] val i = (i, some val)
parse_int_loop (c ∷ cs) val i =
    let val' = (val * 10 + (c - b'0')) % 2 ^ 64 in
    let rest = parse_int_loop cs val' (i + 1) in
    if not (is_digit c) then (i, some val) else if ltb int_max val' then (0, none) else rest

unfoldable pub parse_int : Bytes → ℕ × Option ℕ
unfolding parse_int_loop
parse_int s = parse_int_loop s 0 0

-- ## is_valid_domain

unfoldable pub is_domain_byte : ℕ → Bool
is_domain_byte c = is_alnum c || c == b'-' || c == b'_'

-- The loop, from a label of which `label_len` bytes are read.
unfoldable pub domain_loop : ℕ → Bytes → Bool
domain_loop label_len [] = not (label_len == 0 || ltb 63 label_len)
domain_loop label_len (c ∷ cs) =
    let next = domain_loop 0 cs in
    let more = domain_loop (label_len + 1) cs in
    if c == b'.'
    then (if label_len == 0 || ltb 63 label_len then false else next)
    else if not (is_domain_byte c)
    then false
    else if label_len == 0 && c == b'-'
    then false
    else if ltb 63 (label_len + 1)
    then false
    else more

unfoldable pub is_valid_domain : Bytes → Bool
unfolding domain_loop
is_valid_domain s =
    let v = if back_is b'.' s then init s else s in
    if leb (length s) 0
    then false
    else if bytes_eq s (b'.' ∷ [])
    then true
    else if leb (length v) 0
    then false
    else if ltb 253 (length v)
    then false
    else if front_is b'.' v || back_is b'.' v
    then false
    else domain_loop 0 v

-- ## split_lines

-- The bytes of a line behind the first, put in front of it.
abbrev pub cons_line : ℕ → List Bytes → List Bytes
cons_line c [] = (c ∷ []) ∷ []
cons_line c (l ∷ ls) = (c ∷ l) ∷ ls

-- The lines from `left` on; `cr` says that the byte before `ptr` was a carriage return, which a
-- line feed belongs to. A zero byte ends the text, as its end does.
unfoldable pub lines_from : Bool → Bytes → List Bytes
lines_from cr [] = [] ∷ []
lines_from cr (c ∷ cs) =
    let skipped = lines_from false cs in
    let ended = [] ∷ lines_from (c == b'\r') cs in
    let longer = cons_line c (lines_from false cs) in
    if cr && c == b'\n'
    then skipped
    else if c == b'\n' || c == b'\r'
    then ended
    else if c == 0
    then [] ∷ []
    else longer

unfoldable pub split_lines : Bytes → List Bytes
unfolding lines_from
split_lines = lines_from false

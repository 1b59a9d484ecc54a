-- ===== src/ConfigParser.antt =====
-- src/ConfigParser.cpp: the lines of a configuration file. The lines that LineReader brings, and
-- whether it failed, are arguments; so is the function that takes an assignment.
pub mod Quoted
mod Tests
use behind.Base.{
  ℕ, suc, ◌+◌, ◌-◌, Bool, true, false, not, ◌&&◌, ◌||◌, Option, none, some, List, [], ◌∷◌, Bytes,
  all, ltb, ◌==◌, if◌then◌else◌, length, take, drop,
}
use behind.Message.{is_empty}
use behind.Misc.{trimmed, front_is, init, tail}

abbrev pub is_quote : ℕ → Bool
is_quote c = c == b'\'' || c == b'"'

abbrev pub is_comment : ℕ → Bool
is_comment c = c == b';' || c == b'#'

abbrev pub next : Option ℕ → Option ℕ
next none = none
next (some i) = some (suc i)

-- `find_comment`, in a quotation that `quote` opened (0 outside): where the comment starts, or
-- `none` for a quotation that does not end.
unfoldable pub find_comment : ℕ → Bytes → Option ℕ
find_comment quote [] = if quote == 0 then some 0 else none
find_comment quote (c ∷ cs) =
    let closed = next (find_comment 0 cs) in
    let inside = next (find_comment quote cs) in
    let opened = next (find_comment c cs) in
    if not (quote == 0)
    then (if c == quote then closed else inside)
    else if is_quote c
    then opened
    else if is_comment c
    then some 0
    else closed

-- `find_unquoted`, from the place where `text` starts.
unfoldable pub find_unquoted : ℕ → ℕ → Bytes → Option ℕ
find_unquoted wanted quote [] = none
find_unquoted wanted quote (c ∷ cs) =
    let closed = next (find_unquoted wanted 0 cs) in
    let inside = next (find_unquoted wanted quote cs) in
    let opened = next (find_unquoted wanted c cs) in
    if not (quote == 0)
    then (if c == quote then closed else inside)
    else if is_quote c
    then opened
    else if c == wanted
    then some 0
    else closed

-- Where a byte stands first, `find`.
unfoldable pub find_byte : ℕ → Bytes → Option ℕ
find_byte d [] = none
find_byte d (c ∷ cs) = if c == d then some 0 else next (find_byte d cs)

abbrev pub is_allowed : ℕ → Bool
is_allowed c = not ((ltb c 0x20 && not (c == b'\t')) || c == 0x7f)

pub data Refusal : Type 0 where
  unterminated_quote : Refusal
  control_character : Refusal
  unterminated_section : Refusal
  text_after_section : Refusal
  empty_section : Refusal
  no_assignment : Refusal
  empty_key : Refusal
  text_after_value : Refusal
  not_assigned : Refusal
  reader_failed : Refusal

-- What a line says.
pub data Line : Type 0 where
  blank : Line
  section : Bytes → Line
  assignment : Bytes → Bytes → Line
  refused : Refusal → Line

-- `[name]`; `content` starts with the bracket.
unfoldable pub parse_section : Bytes → Line
parse_section content = elim (find_unquoted b']' 0 (tail content)) [
  | none ↦ Line.refused Refusal.unterminated_section
  | some n ↦
      let name = trimmed (take n (tail content)) in
      if not (is_empty (trimmed (drop (suc (suc n)) content)))
      then Line.refused Refusal.text_after_section
      else if is_empty name
      then Line.refused Refusal.empty_section
      else Line.section name
]

abbrev pub is_quoted : Bytes → Bool
is_quoted value = front_is b'"' value || front_is b'\'' value

-- A value in quotes that ends with the first quote of the kind that opened it.
unfoldable pub parse_value : Bytes → Bytes → Line
parse_value key [] = Line.assignment key []
parse_value key (c ∷ cs) =
    if not (is_quoted (c ∷ cs)) then Line.assignment key (c ∷ cs) else elim (find_byte c cs) [
      | none ↦ Line.refused Refusal.text_after_value
      | some n ↦
          if not (suc n == length cs)
          then Line.refused Refusal.text_after_value
          else Line.assignment key (init cs)
    ]

unfoldable pub parse_assignment : Bytes → Line
parse_assignment content = elim (find_unquoted b'=' 0 content) [
  | none ↦ Line.refused Refusal.no_assignment
  | some n ↦
      let key = trimmed (take n content) in
      let value = trimmed (drop (suc n) content) in
      if is_empty key then Line.refused Refusal.empty_key else parse_value key value
]

unfoldable pub parse_content : Bytes → Line
parse_content content =
    if is_empty content
    then Line.blank
    else if not (all is_allowed content)
    then Line.refused Refusal.control_character
    else if front_is b'[' content
    then parse_section content
    else parse_assignment content

unfoldable pub parse_line : Bytes → Line
parse_line line = elim (find_comment 0 line) [
  | none ↦ Line.refused Refusal.unterminated_quote
  | some n ↦ parse_content (trimmed (take n line))
]

-- The loop of `parse`: the state of the caller (`cookie`), as its function leaves it. The function
-- returns false for a refusal or an exception.
module _ {Cookie : Type 0} (fn_assign : Cookie → Bytes → Bytes → Bytes → Cookie × Bool) where
  unfoldable pub parse_lines : Cookie → Bytes → List Bytes → Bool → Cookie × Option Refusal
  parse_lines c current [] failed = (c, if failed then some Refusal.reader_failed else none)
  parse_lines c current (l ∷ ls) failed = elim (parse_line l) [
    | Line.blank ↦ parse_lines c current ls failed
    | Line.section name ↦
        let (d, ok) = fn_assign c name [] [] in
        let rest = parse_lines d name ls failed in
        if ok then rest else (d, some Refusal.not_assigned)
    | Line.assignment key value ↦
        let (d, ok) = fn_assign c current key value in
        let rest = parse_lines d current ls failed in
        if ok then rest else (d, some Refusal.not_assigned)
    | Line.refused r ↦ (c, some r)
  ]

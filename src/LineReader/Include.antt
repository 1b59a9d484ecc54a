-- ===== src/LineReader/Include.antt =====
-- `LineReader::getline`: control characters and `include`.
use behind.Base.{
  ℕ, zero, suc, ◌+◌, Bool, true, false, not, ◌&&◌, ◌||◌, Option, none, some, List, [], ◌∷◌, ◌++◌,
  Bytes, all, codes, ltb, ◌==◌, if◌then◌else◌, length, take, drop, get_or, is_space, bytes_eq,
}
use behind.Message.{is_empty}
use behind.Misc.{trimmed, front_is, tail}
use behind.ConfigParser.{find_comment, find_byte, is_allowed, is_quote}
use behind.LineReader.{
  Reason, ReadError, File, LineReader, set_error, Opened, internal_getline, open_path,
}

abbrev pub current_path : List File → Bytes
current_path [] = []
current_path (f ∷ fs) = f.path

abbrev pub current_line : List File → ℕ
current_line [] = 0
current_line (f ∷ fs) = f.line

unfoldable pub is_include : Bytes → Bool
is_include content =
    ltb 7 (length content)
    && bytes_eq (take 7 content) (codes "include")
    && is_space (get_or content 7 0)

-- The path that an `include` names.
pub data Included : Type 0 where
  path_is : Bytes → Included
  refused_for : Reason → Included

abbrev pub path_of : Bytes → Included
path_of p = if is_empty p then Included.refused_for Reason.no_path else Included.path_is p

-- Behind the first quote.
abbrev pub quoted_path : Bytes → Option ℕ → Included
quoted_path text none = Included.refused_for Reason.open_quote
quoted_path text (some closing) =
    if not (is_empty (trimmed (drop (closing + 1) text)))
    then Included.refused_for Reason.text_after_path
    else path_of (take closing text)

abbrev pub path_without_comment : Bytes → Included
path_without_comment content =
    if is_empty content
    then Included.refused_for Reason.no_path
    else if is_quote (get_or content 0 0)
    then quoted_path (tail content) (find_byte (get_or content 0 0) (tail content))
    else path_of content

abbrev pub include_until : Bytes → Option ℕ → Included
include_until content none = Included.refused_for Reason.open_quote
include_until content (some comment) = path_without_comment (trimmed (take comment content))

unfoldable pub include_path : Bytes → Included
include_path content =
    let text = trimmed (drop 7 content) in include_until text (find_comment 0 text)

-- The directory of a file, with its slash.
unfoldable pub dir_of : Bytes → Bytes
dir_of [] = []
dir_of (c ∷ cs) = let rest = dir_of cs in if c == b'/' || not (is_empty rest) then c ∷ rest else []

unfoldable pub resolve : Bytes → Bytes → Bytes
resolve source_file path = if front_is b'/' path then path else dir_of source_file ++ path

pub data Got : Type 0 where
  got : Bytes → Got
  ended : Got
  out_of_fuel : Got

abbrev pub message_of : Option ReadError → Reason
message_of none = Reason.no_path
message_of (some e) = e.error_message

module _ (realpath : Bytes → Bytes) (open_file : Bytes → Opened) where
  -- The error of `open` becomes the detail of an error at the line that includes.
  abbrev pub noted : LineReader → Bytes → LineReader × Bool → LineReader × Bool
  noted r path (d, true) = (d, true)
  noted r path (d, false) = (
    set_error d (current_path r.files) (current_line r.files)
        (Reason.failed_to_include path (message_of d.error)),
    false,
  )

  unfoldable pub include_file : LineReader → Included → LineReader × Bool
  include_file r (Included.refused_for reason) =
      (set_error r (current_path r.files) (current_line r.files) reason, false)
  include_file r (Included.path_is path) =
      noted r path (open_path realpath open_file r (resolve (current_path r.files) path))

  -- What is done with a line: `true` for a file that is included.
  unfoldable pub take_line : LineReader → Bytes → LineReader × Option Bool
  take_line r line =
      let content = trimmed line in
      if not (all is_allowed content)
      then (set_error r (current_path r.files) (current_line r.files) Reason.control_char, none)
      else if not (is_include content)
      then (r, some false)
      else let i = include_file r (include_path content) in (i.0, if i.1 then some true else none)

  -- The next turn is taken when a file is included.
  abbrev pub next_turn :
      (LineReader → LineReader × Got) → LineReader × Option Bool → Bytes → LineReader × Got
  next_turn again (r, none) line = (r, Got.ended)
  next_turn again (r, some false) line = (r, Got.got line)
  next_turn again (r, some true) line = again r

  abbrev pub read_turn :
      (LineReader → LineReader × Got) → LineReader × Option Bytes → LineReader × Got
  read_turn again (r, none) = (r, Got.ended)
  read_turn again (r, some line) = next_turn again (take_line r line) line

  abbrev pub getline_loop : ℕ → LineReader → LineReader × Got
  getline_loop zero r = (r, Got.out_of_fuel)
  getline_loop (suc n) r = read_turn (getline_loop n) (internal_getline r)

  -- Each turn but the last opens a file, and no more than 10000 are opened.
  unfoldable pub getline : LineReader → LineReader × Got
  getline r = getline_loop 10001 r

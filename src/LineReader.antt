-- ===== src/LineReader.antt =====
-- src/LineReader.cpp: the lines of a configuration file and of the files that it includes. The
-- file system is a parameter: `realpath`, and what open(2), fstat(2) and read(2) bring for a path.
pub mod Include
pub mod Lines
pub mod Chunks
pub mod FirstLines
pub mod Splits
pub mod Valid
pub mod Getline
mod Tests
use behind.Base.{
  ℕ, zero, suc, ◌+◌, ◌-◌, Bool, true, false, not, ◌&&◌, ◌||◌, Option, none, some, List, [], ◌∷◌,
  ◌++◌, Bytes, ltb, leb, ◌==◌, if◌then◌else◌, length, min, bytes_eq,
}
use behind.Message.{is_empty}

-- What a call of read(2) brings.
pub data Read : Type 0 where
  bytes : Bytes → Read
  fails : Read

-- `buffer` is the part of the buffer from `offset` on, `length` bytes; `reads` stands for `fd`: what
-- is still to be read, after which read(2) returns 0.
pub record File : Type 0 where
  pub path : Bytes
  pub reads : List Read
  pub buffer : Bytes
  pub last_char : ℕ
  pub eof : Bool
  pub line : ℕ

-- The messages of errors.
pub data Reason : Type 0 where
  line_too_long : Reason
  failed_to_read : Reason
  input_too_large : Reason
  empty_path : Reason
  no_such_path : Reason
  too_many_files : Reason
  too_deep : Reason
  cyclic_include : Reason
  not_regular : Reason
  not_opened : Reason
  control_char : Reason
  open_quote : Reason
  no_path : Reason
  text_after_path : Reason
  failed_to_include : Bytes → Reason → Reason

pub record ReadError : Type 0 where
  pub error_file : Bytes
  pub error_line : ℕ
  pub error_message : Reason

-- The last file is the first of `files`.
pub record LineReader : Type 0 where
  pub files : List File
  pub error : Option ReadError
  pub bytes_read : ℕ
  pub files_opened : ℕ

abbrev pub set_error : LineReader → Bytes → ℕ → Reason → LineReader
set_error r file line message = record r {
  error = some (record { error_file = file; error_line = line; error_message = message });
}

-- ## internal_getline

abbrev pub max_line_size : ℕ
max_line_size = 1048576

abbrev pub max_total_size : ℕ
max_total_size = 67108864

abbrev pub break_behind : ℕ → Option (Bytes × ℕ × Bytes) → Option (Bytes × ℕ × Bytes)
break_behind c none = none
break_behind c (some (before, d, after)) = some (c ∷ before, d, after)

-- `v.find_first_of("\r\n")`: what stands in front, the byte, and the rest.
unfoldable pub find_break : Bytes → Option (Bytes × ℕ × Bytes)
find_break [] = none
find_break (c ∷ cs) =
    let rest = find_break cs in if c == 10 || c == 13 then some ([], c, cs) else break_behind c rest

-- The buffer behind a line feed that belongs to the carriage return in front of it.
abbrev pub skip_newline : Bytes → Bytes
skip_newline [] = []
skip_newline (c ∷ cs) = if c == 10 then cs else c ∷ cs

-- What the buffer brings to a line.
pub data Scan : Type 0 where
  ends : Bytes → ℕ → Bytes → Scan
  goes_on : Bytes → ℕ → Scan
  too_long : ℕ → Bytes → Scan

abbrev pub scan_break : Bytes → ℕ → Bytes → Option (Bytes × ℕ × Bytes) → Scan
scan_break line last v none =
    if ltb (max_line_size - min (length line) max_line_size) (length v)
    then Scan.too_long last v
    else Scan.goes_on (line ++ v) last
scan_break line last v (some (before, c, after)) =
    if ltb (max_line_size - min (length line) max_line_size) (length before)
    then Scan.too_long c v
    else Scan.ends (line ++ before) c after

-- The turn of the loop for a buffer of at least one byte.
unfoldable pub scan_buffer : Bytes → ℕ → Bytes → Scan
scan_buffer line last buffer =
    let v = if last == 13 then skip_newline buffer else buffer in
    scan_break line (if last == 13 then 0 else last) v (find_break v)

-- How the loop ends: a line or an error, with the file and the bytes read after it.
pub data Fetched : Type 0 where
  line_is : Bytes → File → ℕ → Fetched
  error_is : Reason → File → ℕ → Fetched

abbrev pub scanned : File → ℕ → (Bytes → ℕ → Fetched) → Scan → Fetched
scanned f total more (Scan.ends line c after) =
    Fetched.line_is line (record f { buffer = after; last_char = c }) total
scanned f total more (Scan.goes_on line last) = more line last
scanned f total more (Scan.too_long last v) =
    Fetched.error_is Reason.line_too_long (record f { buffer = v; last_char = last }) total

-- The loop from the call of read(2) on.
unfoldable pub fetch : File → List Read → ℕ → ℕ → Bytes → Fetched
fetch f [] total last line =
    Fetched.line_is line (record f { reads = []; buffer = []; last_char = last; eof = true }) total
fetch f (Read.fails ∷ rs) total last line =
    Fetched.error_is Reason.failed_to_read (record f { reads = rs; buffer = []; last_char = last })
      total
fetch f (Read.bytes b ∷ rs) total last line =
    if is_empty b
    then Fetched.line_is line (record f { reads = rs; buffer = []; last_char = last; eof = true })
        total
    else if ltb (max_total_size - min total max_total_size) (length b)
    then Fetched.error_is Reason.input_too_large
        (record f { reads = rs; buffer = []; last_char = last }) total
    else scanned (record f { reads = rs }) (total + length b)
        (λ line' last'. fetch f rs (total + length b) last' line') (scan_buffer line last b)

-- The loop on the last file.
unfoldable pub fetch_line : File → ℕ → Fetched
fetch_line f total =
    if is_empty f.buffer
    then fetch f f.reads total f.last_char []
    else scanned f total (λ line last. fetch f f.reads total last line)
        (scan_buffer [] f.last_char f.buffer)

abbrev pub fetched : LineReader → List File → Fetched → LineReader × Option Bytes
fetched r fs (Fetched.line_is line f total) =
    (record r { files = record f { line = f.line + 1 } ∷ fs; bytes_read = total }, some line)
fetched r fs (Fetched.error_is reason f total) =
    (set_error (record r { files = f ∷ fs; bytes_read = total }) f.path (f.line + 1) reason, none)

-- The loop, with `close_one` for a file that is read to its end.
unfoldable pub internal_getline_from : LineReader → List File → LineReader × Option Bytes
internal_getline_from r [] = (record r { files = [] }, none)
internal_getline_from r (f ∷ fs) =
    let closed = internal_getline_from r fs in
    if is_empty f.buffer && f.eof then closed else fetched r fs (fetch_line f r.bytes_read)

unfoldable pub internal_getline : LineReader → LineReader × Option Bytes
internal_getline r = internal_getline_from r r.files

-- ## open

-- What open(2) and fstat(2) say of a path.
pub data Opened : Type 0 where
  cannot_open : Opened
  irregular : Opened
  regular : List Read → Opened

abbrev pub max_include_depth : ℕ
max_include_depth = 16

abbrev pub max_included_files : ℕ
max_included_files = 10000

unfoldable pub is_open : Bytes → List File → Bool
is_open path [] = false
is_open path (f ∷ fs) = bytes_eq f.path path || is_open path fs

module _ (realpath : Bytes → Bytes) (open_file : Bytes → Opened) where
  abbrev pub open_regular : LineReader → Bytes → Opened → LineReader × Bool
  open_regular r abspath Opened.cannot_open = (set_error r abspath 0 Reason.not_opened, false)
  open_regular r abspath Opened.irregular = (set_error r abspath 0 Reason.not_regular, false)
  open_regular r abspath (Opened.regular reads) = (
    record r {
      files =
          record {
            path = abspath;
            reads = reads;
            buffer = [];
            last_char = 0;
            eof = false;
            line = 0;
          }
          ∷ r.files;
      files_opened = r.files_opened + 1;
    },
    true,
  )

  -- `LineReader::open`
  unfoldable pub open_path : LineReader → Bytes → LineReader × Bool
  open_path r path =
      let abspath = realpath path in
      if is_empty path
      then (set_error r path 0 Reason.empty_path, false)
      else if is_empty abspath
      then (set_error r path 0 Reason.no_such_path, false)
      else if leb max_included_files r.files_opened
      then (set_error r path 0 Reason.too_many_files, false)
      else if leb max_include_depth (length r.files)
      then (set_error r abspath 0 Reason.too_deep, false)
      else if is_open abspath r.files
      then (set_error r abspath 0 Reason.cyclic_include, false)
      else open_regular r abspath (open_file abspath)

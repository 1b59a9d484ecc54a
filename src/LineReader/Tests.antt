-- ===== src/LineReader/Tests.antt =====
-- A file that includes another, and the theorems at concrete inputs.
use behind.Base.{
  ◌≡◌, refl, false, none, some, [], ◌∷◌, ◌++◌, codes, arith, Bytes, bytes_eq, if◌then◌else◌, length,
}
use behind.Misc.{skip_space, drop_space, trimmed}
use behind.ConfigParser.{find_comment, find_byte}
use behind.LineReader.{
  Read, File, LineReader, Reason, find_break, scan_buffer, fetch, fetch_line, internal_getline,
  internal_getline_from, Opened, is_open, open_path,
}
use behind.LineReader.Include.{
  is_include, include_path, dir_of, resolve, Got, include_file, take_line, getline,
}
use behind.LineReader.FirstLines.{FirstLine, Remains, Fetches, fetch_line-Fetches}

program : Unit {0}
unfolding skip_space drop_space trimmed find_comment find_byte find_break scan_buffer fetch
    fetch_line internal_getline internal_getline_from is_open open_path is_include include_path
    dir_of resolve include_file take_line getline bytes_eq
program = tt

abbrev absolute : Bytes → Bytes
absolute path = path

-- A line feed stands in another piece than its carriage return.
abbrev two_files : Bytes → Opened
two_files path =
    if bytes_eq path (codes "/etc/a")
    then Opened.regular (
        Read.bytes (codes "x=1" ++ (13 ∷ []))
        ∷ Read.bytes ((10 ∷ []) ++ (codes "include 'b' # b" ++ (10 ∷ codes "y=2")))
        ∷ [])
    else if bytes_eq path (codes "/etc/b")
    then Opened.regular (Read.bytes (codes "include a") ∷ [])
    else Opened.cannot_open

abbrev closed : LineReader
closed = record { files = []; error = none; bytes_read = 0; files_opened = 0 }

abbrev opened_a : LineReader
opened_a = (open_path absolute two_files closed (codes "/etc/a")).0

abbrev first_got : LineReader × Got
first_got = getline absolute two_files opened_a

-- The first line of the first file; then the second file, which includes the first again.
getline_test :
    (first_got.1 ≡ Got.got (codes "x=1"))
    × ((getline absolute two_files first_got.0).1 ≡ Got.ended)
    × ((getline absolute two_files first_got.0).0.error
        ≡ some (record {
          error_file = codes "/etc/b";
          error_line = 1;
          error_message = Reason.failed_to_include (codes "a") Reason.cyclic_include;
        }))
    × (length (getline absolute two_files first_got.0).0.files ≡ 2)
unfolding program
getline_test = (refl, refl, refl, refl)

abbrev pieces : File
pieces = record {
  path = codes "/etc/a";
  reads = Read.bytes (codes "1" ++ (13 ∷ [])) ∷ Read.bytes (10 ∷ codes "y=2") ∷ [];
  buffer = codes "x=";
  last_char = 0;
  eof = false;
  line = 0;
}

fetch_line-Fetches_example : Fetches (codes "x=1") (codes "y=2") 6 (fetch_line pieces 0)
unfolding program
fetch_line-Fetches_example =
    fetch_line-Fetches pieces 0 (codes "x=1" ++ (13 ∷ 10 ∷ codes "y=2")) (codes "x=1") (codes "y=2")
      (refl, (refl, tt)) (omega arith) (Remains.after_other refl refl)
      (FirstLine.return_feed (refl, (refl, (refl, tt))) refl) (omega arith)

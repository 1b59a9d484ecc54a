-- ===== src/LineReader/Valid.antt =====
-- The limits of the reader, and that `internal_getline` and `open` keep them.
use behind.Base.{
  ℕ, ◌+◌, ◌≤◌, ◌≡◌, ◌≢◌, ◌⊎◌, refl, ap, Bool, true, false, ◌&&◌, Option, none, some, List, [], ◌∷◌,
  Bytes, length, leb, arith, ◌∙◌, if-rule, inl, inr,
}
use mathlib.Core.Path.{subst}
use behind.Message.{is_empty}
use behind.LineReader.{
  File, LineReader, Reason, ReadError, set_error, Fetched, fetch_line, fetched, internal_getline,
  internal_getline_from, max_total_size, max_include_depth, max_included_files, is_open, Opened,
  open_path, open_regular,
}
use behind.LineReader.Lines.{IsLine, IsFetched, fetch_line-IsFetched}

-- No file is open twice.
abbrev pub AreDistinct : List File → Type 0
AreDistinct [] = Unit
AreDistinct (f ∷ fs) = (is_open f.path fs ≡ false) × AreDistinct fs

-- No file includes itself, at most 16 are open at a time, at most 10000 are opened, and at most 64
-- MiB are read.
pub record IsValid (r : LineReader) : Type 0 where
  pub distinct : AreDistinct r.files
  pub depth : length r.files ≤ max_include_depth
  pub opened : r.files_opened ≤ max_included_files
  pub bytes : r.bytes_read ≤ max_total_size

-- A line, or a reason for the end: an error, or no file is left.
abbrev pub IsRead : LineReader × Option Bytes → Type 0
IsRead (r, some line) = IsLine line
IsRead (r, none) = (r.error ≢ none) ⊎ (r.files ≡ [])

pub record IsReadFrom (r : LineReader) (x : LineReader × Option Bytes) : Type 0 where
  pub valid : IsValid x.0
  pub opened : x.0.files_opened ≡ r.files_opened
  pub read : IsRead x

abbrev IsSome : Option ReadError → Type 0
IsSome none = ⊥
IsSome (some e) = Unit

pub some-ne-none : (e : ReadError) → some e ≢ none
some-ne-none e h = subst IsSome h tt

fetched-IsReadFrom :
    (r : LineReader) (f : File) (fs : List File) (x : Fetched)
    → AreDistinct (f ∷ fs)
    → length (f ∷ fs) ≤ max_include_depth
    → r.files_opened ≤ max_included_files
    → IsFetched f.path x
    → IsReadFrom r (fetched r fs x)
fetched-IsReadFrom r f fs (Fetched.line_is line g total) distinct depth opened h = record {
  valid = record {
    distinct = (ap (λ p. is_open p fs) h.1 ∙ distinct.0, distinct.1);
    depth = depth;
    opened = opened;
    bytes = h.2;
  };
  opened = refl;
  read = h.0;
}
fetched-IsReadFrom r f fs (Fetched.error_is reason g total) distinct depth opened h = record {
  valid = record {
    distinct = (ap (λ p. is_open p fs) h.0 ∙ distinct.0, distinct.1);
    depth = depth;
    opened = opened;
    bytes = h.1;
  };
  opened = refl;
  read = inl (some-ne-none _);
}

internal_getline_from-IsReadFrom :
    (r : LineReader) (fs : List File)
    → AreDistinct fs
    → length fs ≤ max_include_depth
    → r.files_opened ≤ max_included_files
    → r.bytes_read ≤ max_total_size
    → IsReadFrom r (internal_getline_from r fs)
unfolding internal_getline_from
internal_getline_from-IsReadFrom r [] distinct depth opened bytes = record {
  valid = record { distinct = tt; depth = depth; opened = opened; bytes = bytes };
  opened = refl;
  read = inr refl;
}
internal_getline_from-IsReadFrom r (f ∷ fs) distinct depth opened bytes =
    if-rule (IsReadFrom r) (is_empty f.buffer && f.eof)
      (λ t. internal_getline_from-IsReadFrom r fs distinct.1 (omega arith) opened bytes)
      λ e.
        fetched-IsReadFrom r f fs (fetch_line f r.bytes_read) distinct depth opened
          (fetch_line-IsFetched f r.bytes_read bytes)

pub internal_getline-IsReadFrom : (r : LineReader) → IsValid r → IsReadFrom r (internal_getline r)
unfolding internal_getline
internal_getline-IsReadFrom r v =
    internal_getline_from-IsReadFrom r r.files v.distinct v.depth v.opened v.bytes

-- A file is opened, or an error is noted.
abbrev pub IsOpened : LineReader → LineReader × Bool → Type 0
IsOpened r (d, true) = d.files_opened ≡ r.files_opened + 1
IsOpened r (d, false) = (d.error ≢ none) × (d.files_opened ≡ r.files_opened)

abbrev pub IsOpenedFrom : LineReader → LineReader × Bool → Type 0
IsOpenedFrom r x = IsValid x.0 × IsOpened r x

pub set_error-IsOpenedFrom :
    (r : LineReader) (file : Bytes) (line : ℕ) (reason : Reason)
    → IsValid r
    → IsOpenedFrom r (set_error r file line reason, false)
set_error-IsOpenedFrom r file line reason v = (
  record { distinct = v.distinct; depth = v.depth; opened = v.opened; bytes = v.bytes },
  (some-ne-none _, refl),
)

module _ (realpath : Bytes → Bytes) (open_file : Bytes → Opened) where
  open_regular-IsOpenedFrom :
      (r : LineReader) (abspath : Bytes) (o : Opened)
      → IsValid r
      → leb max_included_files r.files_opened ≡ false
      → leb max_include_depth (length r.files) ≡ false
      → is_open abspath r.files ≡ false
      → IsOpenedFrom r (open_regular realpath open_file r abspath o)
  open_regular-IsOpenedFrom r abspath Opened.cannot_open v few flat fresh =
      set_error-IsOpenedFrom r abspath 0 Reason.not_opened v
  open_regular-IsOpenedFrom r abspath Opened.irregular v few flat fresh =
      set_error-IsOpenedFrom r abspath 0 Reason.not_regular v
  open_regular-IsOpenedFrom r abspath (Opened.regular reads) v few flat fresh = (
    record {
      distinct = (fresh, v.distinct);
      depth = ground arith;
      opened = ground arith;
      bytes = v.bytes;
    },
    refl,
  )

  pub open_path-IsOpenedFrom :
      (r : LineReader) (path : Bytes)
      → IsValid r
      → IsOpenedFrom r (open_path realpath open_file r path)
  unfolding open_path
  open_path-IsOpenedFrom r path v =
      let abspath = realpath path in
      if-rule (IsOpenedFrom r) (is_empty path)
        (λ t. set_error-IsOpenedFrom r path 0 Reason.empty_path v)
        λ a.
          if-rule (IsOpenedFrom r) (is_empty abspath)
            (λ t. set_error-IsOpenedFrom r path 0 Reason.no_such_path v)
            λ b.
              if-rule (IsOpenedFrom r) (leb max_included_files r.files_opened)
                (λ t. set_error-IsOpenedFrom r path 0 Reason.too_many_files v)
                λ few.
                  if-rule (IsOpenedFrom r) (leb max_include_depth (length r.files))
                    (λ t. set_error-IsOpenedFrom r abspath 0 Reason.too_deep v)
                    λ flat.
                      if-rule (IsOpenedFrom r) (is_open abspath r.files)
                        (λ t. set_error-IsOpenedFrom r abspath 0 Reason.cyclic_include v)
                        λ fresh.
                          open_regular-IsOpenedFrom r abspath (open_file abspath) v few flat fresh

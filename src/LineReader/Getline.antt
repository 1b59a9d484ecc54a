-- ===== src/LineReader/Getline.antt =====
-- `getline` ends, keeps the limits of the reader, and brings lines of a configuration text.
use behind.Base.{◌+◌, ◌≡◌, ◌≢◌, ◌⊎◌, Bool, true, false, Option, none, some, [], Bytes, all}
use behind.Misc.{trimmed}
use behind.ConfigParser.{is_allowed}
use behind.LineReader.{LineReader}
use behind.LineReader.Include.{is_include, Got}
use behind.LineReader.Lines.{IsLine}
use behind.LineReader.Valid.{IsValid}

-- What is told of a reader: a line without control characters that is no `include`, or the end
-- for an error or because no file is left. It never is that the turns were too few.
abbrev pub IsTold : LineReader × Got → Type 0
IsTold (d, Got.got line) =
    IsLine line × (all is_allowed (trimmed line) ≡ true) × (is_include (trimmed line) ≡ false)
IsTold (d, Got.ended) = (d.error ≢ none) ⊎ (d.files ≡ [])
IsTold (d, Got.out_of_fuel) = ⊥

pub record IsToldFrom (x : LineReader × Got) : Type 0 where
  pub valid : IsValid x.0
  pub told : IsTold x

abbrev IsTaken : LineReader → Bytes → LineReader × Option Bool → Type 0
IsTaken r line (d, none) = IsValid d × (d.error ≢ none)
IsTaken r line (d, some false) =
    IsValid d × (all is_allowed (trimmed line) ≡ true) × (is_include (trimmed line) ≡ false)
IsTaken r line (d, some true) = IsValid d × (d.files_opened ≡ r.files_opened + 1)

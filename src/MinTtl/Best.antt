-- ===== src/MinTtl/Best.antt =====
-- An override for the name itself wins, and else the one of the longest domain above it.
use behind.Base.{
  ℕ, max, Bool, ◌&&◌, Option, none, some, List, [], ◌∷◌, Bytes, ◌==◌, if◌then◌else◌, length,
  bytes_eq,
}
use behind.MinTtl.{MinTtlOverride, is_below}

-- The time to live of the first override that passes a test.
abbrev pub first : (MinTtlOverride → Bool) → List MinTtlOverride → Option ℕ
first p [] = none
first p (o ∷ os) = if p o then some o.ttl else first p os

-- The length of the longest name of an override that the name is below.
abbrev pub longest_above : Bytes → List MinTtlOverride → ℕ
longest_above n [] = 0
longest_above n (o ∷ os) =
    if is_below n o.name then max (length o.name) (longest_above n os) else longest_above n os

abbrev pub or_else : Option ℕ → Option ℕ → Option ℕ
or_else none l = l
or_else (some k) l = some k

abbrev pub is_same : Bytes → MinTtlOverride → Bool
is_same n o = bytes_eq n o.name

abbrev pub is_above : Bytes → ℕ → MinTtlOverride → Bool
is_above n k o = is_below n o.name && length o.name == k

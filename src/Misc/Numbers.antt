-- ===== src/Misc/Numbers.antt =====
-- `misc::parse_int` reads the decimal digits in front of a text.
use behind.Base.{
  ℕ, ◌+◌, ◌-◌, ◌*◌, ◌≤◌, ◌≡◌, ◌∙◌, Option, none, some, [], ◌∷◌, arith, Bytes, leb, if◌then◌else◌,
  length, is_digit,
}
use behind.Misc.{int_max, parse_int_loop, parse_int}

-- The longest run of digits in front.
unfoldable pub digit_prefix : Bytes → Bytes
digit_prefix [] = []
digit_prefix (c ∷ cs) = if is_digit c then c ∷ digit_prefix cs else []

-- The value of digits behind a number.
unfoldable pub decimal_from : ℕ → Bytes → ℕ
decimal_from v [] = v
decimal_from v (c ∷ cs) = decimal_from (v * 10 + (c - b'0')) cs

le-decimal_from : (v : ℕ) (ds : Bytes) → v ≤ decimal_from v ds
unfolding decimal_from
le-decimal_from v [] = omega arith
le-decimal_from v (c ∷ cs) = omega (arith, le-decimal_from (v * 10 + (c - b'0')) cs)

-- What `parse_int` returns and stores for a value of `n` digits.
abbrev pub in_range : ℕ → ℕ → ℕ × Option ℕ
in_range n v = if leb v int_max then (n, some v) else (0, none)

loop_lem :
    (s : Bytes) (val i : ℕ)
    → val ≤ int_max
    → parse_int_loop s val i
      ≡ in_range (i + length (digit_prefix s)) (decimal_from val (digit_prefix s))
unfolding parse_int_loop digit_prefix decimal_from
loop_lem [] val i h = ground arith
loop_lem (c ∷ cs) val i h = ground (
  arith,
  loop_lem cs (val * 10 + (c - b'0')) (i + 1),
  le-decimal_from (val * 10 + (c - b'0')) (digit_prefix cs),
)

-- `parse_int` returns the number of digits in front of the text and stores their value, if that
-- is within `int`; otherwise it returns 0 and stores nothing.
pub parse_int_lem :
    (s : Bytes) → parse_int s ≡ in_range (length (digit_prefix s)) (decimal_from 0 (digit_prefix s))
unfolding parse_int
parse_int_lem s = loop_lem s 0 0 (omega arith) ∙ ground arith

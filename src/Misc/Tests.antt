-- ===== src/Misc/Tests.antt =====
-- The text functions on examples, and the theorems at concrete inputs.
use behind.Base.{◌≡◌, refl, none, [], ◌∷◌, codes, length, bytes_eq, true, false, ◌&&◌, ◌||◌, leb}
use behind.Name.{split_dots}
use behind.Misc.{
  parse_int, trimmed, unquote, ends_with, is_valid_domain, is_domain_byte, split_lines,
}
use behind.Misc.Numbers.{digit_prefix, decimal_from, in_range, parse_int_lem}
use behind.Misc.Domains.{without_dot, are_domain_labels, is_valid_domain-labels}
use behind.Misc.Lines.{Ending, join_lines, split_lines-join}

program : Unit {0}
unfolding parse_int trimmed unquote ends_with is_valid_domain split_lines bytes_eq digit_prefix
    decimal_from join_lines
program = tt

unquote_test : unquote (codes "\"a b\"") ≡ codes "a b"
unfolding program
unquote_test = refl

ends_with_test : ends_with (codes "ns.example") (codes ".example") ≡ true
unfolding program
ends_with_test = refl

trimmed_test : trimmed (codes "  a b ") ≡ codes "a b"
unfolding program
trimmed_test = refl

parse_int_test : parse_int (codes "2147483648") ≡ (0, none)
unfolding program
parse_int_test = refl

is_valid_domain_test : is_valid_domain (codes "-a.example") ≡ false
unfolding program is_domain_byte
is_valid_domain_test = refl

split_lines_test : split_lines (codes "a\r\n\r\nb") ≡ codes "a" ∷ [] ∷ codes "b" ∷ []
unfolding program
split_lines_test = refl

parse_int_lem_example :
    parse_int (codes "5353 ")
    ≡ in_range
        (length (digit_prefix (codes "5353 ")))
        (decimal_from 0 (digit_prefix (codes "5353 ")))
parse_int_lem_example = parse_int_lem (codes "5353 ")

is_valid_domain-labels_example : is_valid_domain (codes "a_b.lan.") ≡ (
    bytes_eq (codes "a_b.lan.") (b'.' ∷ [])
    || (leb (length (without_dot (codes "a_b.lan."))) 253
        && are_domain_labels 0 (split_dots (without_dot (codes "a_b.lan.")))))
is_valid_domain-labels_example = is_valid_domain-labels (codes "a_b.lan.")

split_lines-join_example :
    split_lines (join_lines Ending.crlf (codes "a") ([] ∷ codes "b" ∷ []))
    ≡ codes "a" ∷ [] ∷ codes "b" ∷ []
split_lines-join_example =
    split_lines-join Ending.crlf (codes "a") ([] ∷ codes "b" ∷ []) (refl, (refl, (refl, tt)))

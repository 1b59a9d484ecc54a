-- ===== src/DomainFilter/Tests.antt =====
-- The filter on examples, and the theorems at concrete inputs. The regular expressions of the
-- examples are plain texts, which match themselves.
use behind.Base.{
  Bytes, Bool, Option, some, ◌≡◌, refl, [], ◌∷◌, codes, ◌↔◌, ◌≤◌, length, arith, false, bytes_eq,
  to_lower, inr,
}
use behind.Name.{split_dots, cons_first}
use behind.Misc.{strtolower, is_valid_domain, domain_loop, is_domain_byte}
use behind.DomainFilter.{
  DomainFilter, Kind, is_normal, no_rules, find, c_str, strncmp_eq, strstr, last_parts,
  known_suffix, domain_suffix_key, from_dot, to_dot, domain_prefix_key, bucket, push_item,
  first_match, suffix_matches, prefix_matches, middle_matches, first_regex, suffix_rules,
  find_suffix, find_star, prefix_rules, find_prefix,
}
use behind.DomainFilter.Entry.{
  Added, add_entry, add_form, add_regex, add_middle, add_prefix, add_suffix,
}
use behind.DomainFilter.Limits.{IsValid, no_rules-IsValid, add_entry-IsValid}
use behind.DomainFilter.Kinds.{HasKindOrKept}
use behind.DomainFilter.Suffix.{Under}
use behind.DomainFilter.Forms.{find-Under}
use behind.DomainFilter.Searches.{find-middle, find-regex, find-prefix}
use behind.DomainFilter.Only.{find_iff_Under}

program : Unit {0}
unfolding find c_str strncmp_eq strstr last_parts known_suffix domain_suffix_key from_dot to_dot
    domain_prefix_key bucket push_item first_match suffix_matches prefix_matches middle_matches
    first_regex suffix_rules find_suffix find_star prefix_rules find_prefix add_entry add_form
    add_regex add_middle add_prefix add_suffix strtolower is_valid_domain domain_loop is_domain_byte
    bytes_eq to_lower split_dots cons_first
program = tt

abbrev compile : Bytes → Option Bytes
compile pattern = some pattern

same_text : Bytes → Bytes → Option Bool
same_text e name = some (bytes_eq e name)

abbrev rule : Bytes
rule = codes "Ads.Example"

abbrev blocking : DomainFilter Bytes
blocking = record {
  suffix_map =
      (codes "ads.example", record { name = codes "ads.example"; kind = Kind.nxdomain } ∷ []) ∷ [];
  prefix_map = [];
  middle_map = [];
  regex_list = [];
  entry_count = 1;
  regex_count = 0;
}

add_rule : add_entry compile no_rules rule Kind.nxdomain ≡ Added.added blocking
unfolding program
add_rule = refl

two_labels : 2 ≤ length (split_dots (strtolower rule))
unfolding program
two_labels = omega arith

blocking-IsValid : IsValid blocking
blocking-IsValid =
    add_entry-IsValid compile no_rules blocking rule Kind.nxdomain no_rules-IsValid refl add_rule

lan_test : find same_text blocking (codes "example") ≡ Kind.normal
unfolding program same_text
lan_test = refl

abbrev blocking_com : DomainFilter Bytes
blocking_com = record no_rules {
  suffix_map = (codes "*.com", record { name = codes "com"; kind = Kind.nodata } ∷ []) ∷ [];
  entry_count = 1;
}

add_com : add_entry compile no_rules (codes "com") Kind.nodata ≡ Added.added blocking_com
unfolding program
add_com = refl

-- A rule of a single label blocks one label below it and no further.
com_test :
    (find same_text blocking_com (codes "a.com") ≡ Kind.nodata)
    × (find same_text blocking_com (codes "b.a.com") ≡ Kind.normal)
unfolding program same_text
com_test = (refl, refl)

abbrev blocking_middle : DomainFilter Bytes
blocking_middle = record no_rules {
  middle_map = record { name = codes "track"; kind = Kind.nodata } ∷ [];
  entry_count = 1;
}

add_middle_rule :
    add_entry compile no_rules (codes "*Track*") Kind.nodata ≡ Added.added blocking_middle
unfolding program
add_middle_rule = refl

abbrev blocking_prefix : DomainFilter Bytes
blocking_prefix = record no_rules {
  prefix_map = (codes "ads.", record { name = codes "ads"; kind = Kind.nxdomain } ∷ []) ∷ [];
  entry_count = 1;
}

add_prefix_rule :
    add_entry compile no_rules (codes "ads.*") Kind.nxdomain ≡ Added.added blocking_prefix
unfolding program
add_prefix_rule = refl

abbrev blocking_regex : DomainFilter Bytes
blocking_regex = record no_rules {
  regex_list = record { expression = codes "ads"; kind = Kind.nxdomain } ∷ [];
  entry_count = 1;
  regex_count = 1;
}

add_regex_rule :
    add_entry compile no_rules (codes "/ads/") Kind.nxdomain ≡ Added.added blocking_regex
unfolding program
add_regex_rule = refl

find-middle_example :
    HasKindOrKept same_text no_rules blocking_middle (codes "a.track1.x") Kind.nodata
unfolding program
find-middle_example =
    find-middle compile same_text no_rules blocking_middle (codes "*Track*") (codes "a.track1.x")
      Kind.nodata no_rules-IsValid refl add_middle_rule (codes "a.") (codes "1.x") refl refl refl
      refl

find-prefix_example :
    HasKindOrKept same_text no_rules blocking_prefix (codes "ads.x.y") Kind.nxdomain
unfolding program
find-prefix_example =
    find-prefix compile same_text no_rules blocking_prefix (codes "ads.*") (codes "ads.x.y")
      Kind.nxdomain no_rules-IsValid refl add_prefix_rule (codes "ads") (codes "x.y") refl refl refl
      refl refl refl refl

find-regex_example : HasKindOrKept same_text no_rules blocking_regex (codes "ADS") Kind.nxdomain
unfolding program same_text
find-regex_example =
    find-regex compile same_text no_rules blocking_regex (codes "/ads/") (codes "ADS") Kind.nxdomain
      no_rules-IsValid refl add_regex_rule (codes "ads") refl refl (inr refl)

find_iff_Under_example :
    (is_normal (find same_text blocking (codes "x.ads.EXAMPLE")) ≡ false)
    ↔ Under (strtolower rule) (strtolower (codes "x.ads.EXAMPLE"))
unfolding program
find_iff_Under_example =
    find_iff_Under compile same_text blocking rule (codes "x.ads.EXAMPLE") Kind.nxdomain refl refl
      refl refl two_labels add_rule

add_entry-IsValid_example : IsValid blocking
add_entry-IsValid_example =
    add_entry-IsValid compile no_rules blocking rule Kind.nxdomain no_rules-IsValid refl add_rule

find-Under_example : HasKindOrKept same_text no_rules blocking (codes "x.ads.EXAMPLE") Kind.nxdomain
unfolding program
find-Under_example =
    find-Under compile same_text no_rules blocking rule (codes "x.ads.EXAMPLE") Kind.nxdomain
      no_rules-IsValid refl refl refl refl two_labels add_rule (inr (codes "x", refl))

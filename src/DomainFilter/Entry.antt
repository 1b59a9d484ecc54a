-- ===== src/DomainFilter/Entry.antt =====
-- `DomainFilter::add_entry` of src/DomainFilter.cpp: a rule is checked, put in its form and stored.
use behind.Base.{
  ℕ, ◌+◌, ◌-◌, Bool, not, ◌&&◌, ◌||◌, Option, none, some, [], ◌∷◌, ◌++◌, Bytes, codes, ltb, leb,
  ◌==◌, if◌then◌else◌, length, drop, take, get_or, bytes_eq,
}
use behind.Message.{is_empty}
use behind.Misc.{strtolower, is_valid_domain, front_is, back_is, init, tail}
use behind.DomainFilter.{Kind, DomainFilter, domain_prefix_key, domain_suffix_key, push_item}

-- The messages of a refusal.
pub data EntryRefusal : Type 0 where
  empty_value : EntryRefusal
  too_many_rules : EntryRefusal
  too_long : EntryRefusal
  empty_regex : EntryRefusal
  too_many_regexes : EntryRefusal
  invalid_regex : EntryRefusal
  empty_middle : EntryRefusal
  invalid_prefix : EntryRefusal
  invalid_pattern : EntryRefusal
  invalid_domain : EntryRefusal

pub data Added (Regex : Type 0) : Type 0 where
  refused : EntryRefusal → Added Regex
  added : DomainFilter Regex → Added Regex

-- Enclosed in a byte at both ends, which is more than one byte.
abbrev pub is_enclosed : ℕ → Bytes → Bool
is_enclosed q s = leb 2 (length s) && front_is q s && back_is q s

abbrev pub inner : Bytes → Bytes
inner s = init (tail s)

abbrev pub starts_with_star : Bytes → Bool
starts_with_star s = leb 2 (length s) && get_or s 0 0 == b'*' && get_or s 1 0 == b'.'

abbrev pub ends_with_star : Bytes → Bool
ends_with_star s = ltb 2 (length s) && bytes_eq (drop (length s - 2) s) (codes ".*")

module _ {Regex : Type 0} (compile : Bytes → Option Regex) where
  unfoldable pub add_regex : DomainFilter Regex → Bytes → Kind → Added Regex
  add_regex f pattern kind =
      if is_empty pattern
      then Added.refused EntryRefusal.empty_regex
      else if leb 256 f.regex_count
      then Added.refused EntryRefusal.too_many_regexes
      else elim (compile pattern) [
        | none ↦ Added.refused EntryRefusal.invalid_regex
        | some e ↦ Added.added (record f {
          regex_list = f.regex_list ++ (record { expression = e; kind = kind } ∷ []);
          regex_count = f.regex_count + 1;
          entry_count = f.entry_count + 1;
        })
      ]

unfoldable pub add_middle : {Regex : Type 0} → DomainFilter Regex → Bytes → Kind → Added Regex
add_middle f needle kind =
    if is_empty needle
    then Added.refused EntryRefusal.empty_middle
    else Added.added (record f {
      middle_map = f.middle_map ++ (record { name = needle; kind = kind } ∷ []);
      entry_count = f.entry_count + 1;
    })

unfoldable pub add_prefix : {Regex : Type 0} → DomainFilter Regex → Bytes → Kind → Added Regex
add_prefix f loname kind =
    let prefix = take (length loname - 2) loname in
    let key = domain_prefix_key loname in
    if not (is_valid_domain prefix) || is_empty key
    then Added.refused EntryRefusal.invalid_prefix
    else Added.added (record f {
      prefix_map = push_item key (record { name = prefix; kind = kind }) f.prefix_map;
      entry_count = f.entry_count + 1;
    })

unfoldable pub add_suffix : {Regex : Type 0} → DomainFilter Regex → Bytes → Kind → Added Regex
add_suffix f loname kind =
    let name = if starts_with_star loname then drop 2 loname else loname in
    let key = domain_suffix_key loname in
    if not (is_valid_domain name)
    then Added.refused EntryRefusal.invalid_pattern
    else if is_empty key
    then Added.refused EntryRefusal.invalid_domain
    else Added.added (record f {
      suffix_map = push_item key (record { name = name; kind = kind }) f.suffix_map;
      entry_count = f.entry_count + 1;
    })

module _ {Regex : Type 0} (compile : Bytes → Option Regex) where
  -- The form of a rule, by what stands at its ends.
  unfoldable pub add_form : DomainFilter Regex → Bytes → Bytes → Kind → Added Regex
  add_form f name loname kind =
      if is_enclosed b'/' name
      then add_regex compile f (inner name) kind
      else if is_enclosed b'*' loname
      then add_middle f (inner loname) kind
      else if ends_with_star loname
      then add_prefix f loname kind
      else add_suffix f loname kind

  unfoldable pub add_entry : DomainFilter Regex → Bytes → Kind → Added Regex
  add_entry f name kind =
      if is_empty name
      then Added.refused EntryRefusal.empty_value
      else if leb 100_000 f.entry_count
      then Added.refused EntryRefusal.too_many_rules
      else if ltb 4096 (length name)
      then Added.refused EntryRefusal.too_long
      else add_form f name (strtolower name) kind

-- ===== src/DomainFilter.antt =====
-- `DomainFilter` of src/DomainFilter.cpp: the rules that block names, and the look-up of a name.
-- std::regex is a parameter: `compile` is its constructor, where `none` is a std::regex_error,
-- and `matches` is std::regex_match, where `none` is one again.
pub mod Entry
pub mod Keys
pub mod Maps
pub mod Blocks
pub mod Kinds
pub mod Rules
pub mod Limits
pub mod Suffix
pub mod Forms
pub mod Searches
pub mod Only
mod Tests
use behind.Base.{
  ℕ, zero, suc, ◌+◌, ◌-◌, Bool, true, false, not, ◌&&◌, ◌||◌, Option, none, some, List, [], ◌∷◌,
  ◌++◌, Bytes, codes, ltb, leb, ◌==◌, if◌then◌else◌, length, drop, take, get_or, bytes_eq,
}
use behind.Message.{is_empty}
use behind.Misc.{strtolower, is_valid_domain, front_is, back_is, init, tail}
use behind.Name.{split_dots}

pub data Kind : Type 0 where
  normal : Kind
  nxdomain : Kind
  nodata : Kind
  nodata_aaaa : Kind

abbrev pub is_normal : Kind → Bool
is_normal Kind.normal = true
is_normal _ = false

pub record Item : Type 0 where
  pub name : Bytes
  pub kind : Kind

pub record RegexItem (Regex : Type 0) : Type 0 where
  pub expression : Regex
  pub kind : Kind

-- A map from keys to the rules that share them.
abbrev pub Buckets : Type 0
Buckets = List (Bytes × List Item)

pub record DomainFilter (Regex : Type 0) : Type 0 where
  pub suffix_map : Buckets
  pub prefix_map : Buckets
  pub middle_map : List Item
  pub regex_list : List (RegexItem Regex)
  pub entry_count : ℕ
  pub regex_count : ℕ

abbrev pub no_rules : {Regex : Type 0} → DomainFilter Regex
no_rules = record {
  suffix_map = [];
  prefix_map = [];
  middle_map = [];
  regex_list = [];
  entry_count = 0;
  regex_count = 0;
}

-- ## C strings

-- The bytes in front of the first zero byte.
unfoldable pub c_str : Bytes → Bytes
c_str [] = []
c_str (c ∷ cs) = if c == 0 then [] else c ∷ c_str cs

-- `strncmp(a, b, n) == 0`, of two C strings.
unfoldable pub strncmp_eq : ℕ → Bytes → Bytes → Bool
strncmp_eq zero a b = true
strncmp_eq (suc n) [] [] = true
strncmp_eq (suc n) [] (y ∷ b) = false
strncmp_eq (suc n) (x ∷ a) [] = false
strncmp_eq (suc n) (x ∷ a) (y ∷ b) = x == y && strncmp_eq n a b

-- `strstr(s, t) != nullptr`, of two C strings.
unfoldable pub strstr : Bytes → Bytes → Bool
strstr [] t = strncmp_eq (length t) [] t
strstr (c ∷ cs) t = strncmp_eq (length t) (c ∷ cs) t || strstr cs t

-- ## Keys

-- The key of the last two parts; `parts` is never empty.
unfoldable pub last_parts : List Bytes → Bytes
last_parts [] = []
last_parts (a ∷ []) = a
last_parts (a ∷ b ∷ []) = if is_empty b then a else a ++ (b'.' ∷ b)
last_parts (a ∷ b ∷ c ∷ ps) = last_parts (b ∷ c ∷ ps)

-- A single part has `*` put in front of it.
abbrev pub two_parts : List Bytes → List Bytes
two_parts [] = []
two_parts (a ∷ []) = codes "*" ∷ a ∷ []
two_parts (a ∷ b ∷ ps) = a ∷ b ∷ ps

abbrev pub known_suffixes : List Bytes
known_suffixes = codes "lan" ∷ codes "local" ∷ []

-- The loop over the known suffixes.
unfoldable pub known_suffix : Bytes → List Bytes → Bytes
known_suffix key [] = key
known_suffix key (s ∷ ss) =
    if ltb (length s) (length key)
      && bytes_eq (drop (length key - length s) key) s
      && get_or key (length key - length s - 1) 0 == b'.'
    then drop (length key - length s) key
    else known_suffix key ss

unfoldable pub domain_suffix_key : Bytes → Bytes
domain_suffix_key name =
    known_suffix (last_parts (two_parts (split_dots (c_str name)))) known_suffixes

-- The C string from its first dot on.
unfoldable pub from_dot : Bytes → Option Bytes
from_dot [] = none
from_dot (c ∷ cs) = if c == b'.' then some (c ∷ cs) else from_dot cs

-- The C string up to its first dot.
unfoldable pub to_dot : Bytes → Option Bytes
to_dot [] = none
to_dot (c ∷ cs) =
    if c == b'.' then some (c ∷ []) else elim (to_dot cs) [ none ↦ none | some p ↦ some (c ∷ p) ]

abbrev pub or_empty : Option Bytes → Bytes
or_empty none = []
or_empty (some p) = p

unfoldable pub domain_prefix_key : Bytes → Bytes
domain_prefix_key name = or_empty (to_dot (c_str name))

-- ## The maps

unfoldable pub bucket : Bytes → Buckets → List Item
bucket k [] = []
bucket k ((j, is) ∷ m) = if bytes_eq j k then is else bucket k m

-- The item at the end of its bucket, which is made when it is missing.
unfoldable pub push_item : Bytes → Item → Buckets → Buckets
push_item k i [] = (k, i ∷ []) ∷ []
push_item k i ((j, is) ∷ m) =
    if bytes_eq j k then (j, is ++ (i ∷ [])) ∷ m else (j, is) ∷ push_item k i m

-- ## find

-- The kind of the first item that passes a test.
unfoldable pub first_match : (Item → Bool) → List Item → Option Kind
first_match p [] = none
first_match p (i ∷ is) = if p i then some i.kind else first_match p is

unfoldable pub suffix_matches : Bytes → Item → Bool
suffix_matches name i =
    let n = length i.name in
    bytes_eq i.name name
    || (ltb n (length name)
        && bytes_eq (drop (length name - n) name) i.name
        && get_or name (length name - n - 1) 0 == b'.')

unfoldable pub prefix_matches : Bytes → Item → Bool
prefix_matches name i =
    let c = get_or (c_str name) (length i.name) 0 in
    strncmp_eq (length i.name) (c_str name) i.name && (c == 0 || c == b'.')

unfoldable pub middle_matches : Bytes → Item → Bool
middle_matches name i = strstr (c_str name) (c_str i.name)

-- A suffix match of kind `NORMAL` does not end the search.
abbrev pub if_blocked : Option Kind → Option Kind
if_blocked none = none
if_blocked (some k) = if is_normal k then none else some k

abbrev pub or_else : Option Kind → Option Kind → Option Kind
or_else none l = l
or_else (some k) l = some k

abbrev pub or_normal : Option Kind → Kind
or_normal none = Kind.normal
or_normal (some k) = k

module _ {Regex : Type 0} where
  -- The rules that a suffix match of `name` looks at.
  unfoldable pub suffix_rules : DomainFilter Regex → Bytes → List Item
  suffix_rules f name =
      let key = domain_suffix_key name in if is_empty key then [] else bucket key f.suffix_map

  unfoldable pub find_suffix : DomainFilter Regex → Bytes → Option Kind
  find_suffix f name = if_blocked (first_match (suffix_matches name) (suffix_rules f name))

  -- The name with `*` in place of its first label.
  unfoldable pub find_star : DomainFilter Regex → Bytes → Option Kind
  find_star f name = elim (from_dot (c_str name)) [
    | none ↦ none
    | some p ↦ find_suffix f (b'*' ∷ p)
  ]

  unfoldable pub prefix_rules : DomainFilter Regex → Bytes → List Item
  prefix_rules f name =
      let key = domain_prefix_key name in if is_empty key then [] else bucket key f.prefix_map

  unfoldable pub find_prefix : DomainFilter Regex → Bytes → Option Kind
  find_prefix f name = first_match (prefix_matches name) (prefix_rules f name)

module _ {Regex : Type 0} (matches : Regex → Bytes → Option Bool) where
  -- A regular expression that cannot be evaluated counts as one that matches.
  abbrev pub regex_matches : Bytes → RegexItem Regex → Bool
  regex_matches name r = elim (matches r.expression name) [ none ↦ true | some b ↦ b ]

  unfoldable pub first_regex : Bytes → List (RegexItem Regex) → Option Kind
  first_regex name [] = none
  first_regex name (r ∷ rs) = if regex_matches name r then some r.kind else first_regex name rs

  unfoldable pub find : DomainFilter Regex → Bytes → Kind
  find f name =
      let loname = strtolower name in
      or_normal (
        or_else (find_suffix f loname) (
          or_else (find_star f loname) (
            or_else (find_prefix f loname) (
              or_else (first_match (middle_matches loname) f.middle_map)
                (first_regex loname f.regex_list)))))

-- ===== src/DomainFilter/Blocks.antt =====
-- Which names a filter blocks, as one test over its rules.
use behind.Base.{
  ◌≡◌, refl, Bool, true, false, not, ◌||◌, Option, none, some, List, [], ◌∷◌, Bytes, All,
  if◌then◌else◌,
}
use behind.Message.{is_empty}
use behind.Misc.{strtolower}
use behind.DomainFilter.{
  DomainFilter, is_normal, from_dot, c_str, suffix_rules, suffix_matches, prefix_rules,
  prefix_matches, middle_matches, regex_matches, find_suffix, find_star, find_prefix, find,
  domain_suffix_key, domain_prefix_key, Item,
}
use behind.DomainFilter.Maps.{
  AreSet, AreSetIn, Hit, Hit-or_else, Hit-if_blocked, Hit-or_normal, Hit-first_match,
  Hit-first_regex, bucket-AreSet, any,
}

-- No rule has the kind `NORMAL`.
pub record HasKinds {Regex : Type 0} (f : DomainFilter Regex) : Type 0 where
  pub suffixes : AreSetIn f.suffix_map
  pub prefixes : AreSetIn f.prefix_map
  pub middles : AreSet f.middle_map
  pub regexes : All (λ r. is_normal r.kind ≡ false) f.regex_list

module _ {Regex : Type 0} (f : DomainFilter Regex) where
  abbrev pub suffix_blocks : Bytes → Bool
  suffix_blocks name = any (suffix_matches name) (suffix_rules f name)

  abbrev pub star_blocks : Bytes → Bool
  star_blocks name = elim (from_dot (c_str name)) [
    | none ↦ false
    | some p ↦ suffix_blocks (b'*' ∷ p)
  ]

  abbrev pub prefix_blocks : Bytes → Bool
  prefix_blocks name = any (prefix_matches name) (prefix_rules f name)

  abbrev pub middle_blocks : Bytes → Bool
  middle_blocks name = any (middle_matches name) f.middle_map

  abbrev pub regex_blocks : (Regex → Bytes → Option Bool) → Bytes → Bool
  regex_blocks matches name = any (regex_matches matches name) f.regex_list

-- A rule of one of the five searches matches the lower-case name.
unfoldable pub blocks :
    {Regex : Type 0} → (Regex → Bytes → Option Bool) → DomainFilter Regex → Bytes → Bool
blocks matches f name =
    let loname = strtolower name in
    suffix_blocks f loname
    || (star_blocks f loname
        || (prefix_blocks f loname || (middle_blocks f loname || regex_blocks f matches loname)))

module _ {Regex : Type 0} (f : DomainFilter Regex) (k : HasKinds f) where
  rules-AreSet : (empty : Bool) (is : List Item) → AreSet is → AreSet (if empty then [] else is)
  rules-AreSet true is h = tt
  rules-AreSet false is h = h

  Hit-find_suffix : (name : Bytes) → Hit (find_suffix f name) (suffix_blocks f name)
  unfolding find_suffix suffix_rules
  Hit-find_suffix name = Hit-if_blocked _ _ (
      Hit-first_match (suffix_matches name) (suffix_rules f name) (
        rules-AreSet (is_empty (domain_suffix_key name)) _
          (bucket-AreSet (domain_suffix_key name) f.suffix_map k.suffixes)))

  Hit-star :
      (o : Option Bytes)
      → Hit
          (elim o [ none ↦ none | some p ↦ find_suffix f (b'*' ∷ p) ])
          (elim o [ none ↦ false | some p ↦ suffix_blocks f (b'*' ∷ p) ])
  Hit-star none = refl
  Hit-star (some p) = Hit-find_suffix (b'*' ∷ p)

  Hit-find_star : (name : Bytes) → Hit (find_star f name) (star_blocks f name)
  unfolding find_star
  Hit-find_star name = Hit-star (from_dot (c_str name))

  Hit-find_prefix : (name : Bytes) → Hit (find_prefix f name) (prefix_blocks f name)
  unfolding find_prefix prefix_rules
  Hit-find_prefix name = Hit-first_match (prefix_matches name) (prefix_rules f name) (
      rules-AreSet (is_empty (domain_prefix_key name)) _
        (bucket-AreSet (domain_prefix_key name) f.prefix_map k.prefixes))

  -- `find` returns `NORMAL` exactly for the names that no rule matches.
  pub find-blocks :
      (matches : Regex → Bytes → Option Bool) (name : Bytes)
      → is_normal (find matches f name) ≡ not (blocks matches f name)
  unfolding find blocks
  find-blocks matches name =
      let lo = strtolower name in
      Hit-or_normal _ _ (
        Hit-or_else _ _ _ _ (Hit-find_suffix lo) (
          Hit-or_else _ _ _ _ (Hit-find_star lo) (
            Hit-or_else _ _ _ _ (Hit-find_prefix lo) (
              Hit-or_else _ _ _ _ (Hit-first_match (middle_matches lo) f.middle_map k.middles)
                (Hit-first_regex matches lo f.regex_list k.regexes)))))

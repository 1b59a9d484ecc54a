-- ===== src/DomainFilter/Limits.antt =====
-- The limits and counters of the filter, through every addition.
use behind.Base.{
  ◌+◌, ◌≤◌, ◌<◌, ◌≡◌, refl, sym, false, Option, [], ◌∷◌, arith, Bytes, length, All-append,
  length-append,
}
use mathlib.Core.Path.{subst}
use behind.Misc.{strtolower}
use behind.DomainFilter.{DomainFilter, Kind, is_normal, no_rules}
use behind.DomainFilter.Entry.{Added, add_entry}
use behind.DomainFilter.Maps.{push_item-AreSetIn, total, total-push_item}
use behind.DomainFilter.Blocks.{HasKinds}
use behind.DomainFilter.Rules.{
  with_regex, with_middle, with_prefix, with_suffix, Grown, add_entry-added, add_form-Grown,
}

-- ## The invariant

pub record IsValid {Regex : Type 0} (f : DomainFilter Regex) : Type 0 where
  pub kinds : HasKinds f
  pub counted :
      f.entry_count
      ≡ total f.suffix_map + total f.prefix_map + length f.middle_map + length f.regex_list
  pub regexes_counted : f.regex_count ≡ length f.regex_list
  pub entries_le : f.entry_count ≤ 100_000
  pub regexes_le : f.regex_count ≤ 256

pub no_rules-IsValid : {Regex : Type 0} → IsValid (no_rules {Regex = Regex})
no_rules-IsValid = record {
  kinds = record { suffixes = tt; prefixes = tt; middles = tt; regexes = tt };
  counted = refl;
  regexes_counted = refl;
  entries_le = omega arith;
  regexes_le = omega arith;
}

module _ {Regex : Type 0} (f : DomainFilter Regex) (kind : Kind) (v : IsValid f)
    (room : f.entry_count < 100_000) (set : is_normal kind ≡ false) where
  with_regex-IsValid : (e : Regex) → f.regex_count < 256 → IsValid (with_regex f e kind)
  with_regex-IsValid e few =
      let len = length-append {0} f.regex_list (record { expression = e; kind = kind } ∷ []) in
      record {
        kinds = record {
          suffixes = v.kinds.suffixes;
          prefixes = v.kinds.prefixes;
          middles = v.kinds.middles;
          regexes = All-append _ f.regex_list _ v.kinds.regexes (set, tt);
        };
        counted = omega (arith, v.counted, len);
        regexes_counted = omega (arith, v.regexes_counted, len);
        entries_le = omega arith;
        regexes_le = omega arith;
      }

  with_middle-IsValid : (needle : Bytes) → IsValid (with_middle f needle kind)
  with_middle-IsValid needle =
      let len = length-append {0} f.middle_map (record { name = needle; kind = kind } ∷ []) in
      record {
        kinds = record {
          suffixes = v.kinds.suffixes;
          prefixes = v.kinds.prefixes;
          middles = All-append _ f.middle_map _ v.kinds.middles (set, tt);
          regexes = v.kinds.regexes;
        };
        counted = omega (arith, v.counted, len);
        regexes_counted = v.regexes_counted;
        entries_le = omega arith;
        regexes_le = v.regexes_le;
      }

  with_prefix-IsValid : (key name : Bytes) → IsValid (with_prefix f key name kind)
  with_prefix-IsValid key name = record {
    kinds = record {
      suffixes = v.kinds.suffixes;
      prefixes = push_item-AreSetIn key _ f.prefix_map set v.kinds.prefixes;
      middles = v.kinds.middles;
      regexes = v.kinds.regexes;
    };
    counted =
        omega (
          arith,
          v.counted,
          total-push_item key (record { name = name; kind = kind }) f.prefix_map,
        );
    regexes_counted = v.regexes_counted;
    entries_le = omega arith;
    regexes_le = v.regexes_le;
  }

  with_suffix-IsValid : (key name : Bytes) → IsValid (with_suffix f key name kind)
  with_suffix-IsValid key name = record {
    kinds = record {
      suffixes = push_item-AreSetIn key _ f.suffix_map set v.kinds.suffixes;
      prefixes = v.kinds.prefixes;
      middles = v.kinds.middles;
      regexes = v.kinds.regexes;
    };
    counted =
        omega (
          arith,
          v.counted,
          total-push_item key (record { name = name; kind = kind }) f.suffix_map,
        );
    regexes_counted = v.regexes_counted;
    entries_le = omega arith;
    regexes_le = v.regexes_le;
  }

  Grown-IsValid : (g : DomainFilter Regex) → Grown f g kind → IsValid g
  Grown-IsValid g (Grown.by_regex e few h) = subst IsValid (sym h) (with_regex-IsValid e few)
  Grown-IsValid g (Grown.by_middle n h) = subst IsValid (sym h) (with_middle-IsValid n)
  Grown-IsValid g (Grown.by_prefix k n h) = subst IsValid (sym h) (with_prefix-IsValid k n)
  Grown-IsValid g (Grown.by_suffix k n h) = subst IsValid (sym h) (with_suffix-IsValid k n)

-- An accepted rule keeps the filter within its limits, of 100,000 rules and 256 regular
-- expressions; the counters count what is stored, and every stored kind blocks.
pub add_entry-IsValid :
    {Regex : Type 0} (compile : Bytes → Option Regex) (f g : DomainFilter Regex) (name : Bytes)
    (kind : Kind)
    → IsValid f
    → is_normal kind ≡ false
    → add_entry compile f name kind ≡ Added.added g
    → IsValid g
add_entry-IsValid compile f g name kind v set h =
    let a = add_entry-added compile f g name kind h in
    Grown-IsValid f kind v a.0 set g (add_form-Grown compile f g name (strtolower name) kind a.1)

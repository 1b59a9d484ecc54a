-- ===== src/DomainFilter/Maps.antt =====
-- The buckets of the filter, and the first rule that matches in one.
use behind.Base.{
  ℕ, ◌+◌, ◌≡◌, refl, sym, ap, ◌∙◌, ◌⊎◌, inl, inr, Bool, true, false, not, ◌||◌, Option, none, some,
  List, [], ◌∷◌, ◌++◌, arith, Bytes, All, length, bytes_eq, bytes_eq_iff, Bool-cases, All-append,
  length-append,
}
use behind.DomainFilter.{
  Kind, Item, RegexItem, Buckets, is_normal, bucket, push_item, first_match, if_blocked, or_else,
  or_normal, first_regex, regex_matches,
}

module _ {A : Type 0} where
  abbrev pub any : (A → Bool) → List A → Bool
  any p [] = false
  any p (x ∷ xs) = p x || any p xs

  pub any-append : (p : A → Bool) (xs ys : List A) → any p (xs ++ ys) ≡ (any p xs || any p ys)
  any-append p [] ys = refl
  any-append p (x ∷ xs) ys = ground (arith, any-append p xs ys)

-- ## Kinds

abbrev pub AreSet : List Item → Type 0
AreSet is = All (λ i. is_normal i.kind ≡ false) is

abbrev pub AreSetIn : Buckets → Type 0
AreSetIn m = All (λ b. AreSet b.1) m

-- A search that ends with a kind other than `NORMAL` exactly when `b` says so.
abbrev pub Hit : Option Kind → Bool → Type 0
Hit none b = b ≡ false
Hit (some k) b = (is_normal k ≡ false) × (b ≡ true)

pub Hit-or_else : (o l : Option Kind) (b c : Bool) → Hit o b → Hit l c → Hit (or_else o l) (b || c)
Hit-or_else none none b c h k = ground arith
Hit-or_else none (some y) b c h k = (k.0, ground arith)
Hit-or_else (some x) l b c h k = (h.0, ground arith)

pub Hit-if_blocked : (o : Option Kind) (b : Bool) → Hit o b → Hit (if_blocked o) b
Hit-if_blocked none b h = h
Hit-if_blocked (some k) b h = rw h.0 h

pub Hit-or_normal : (o : Option Kind) (b : Bool) → Hit o b → is_normal (or_normal o) ≡ not b
Hit-or_normal none b h = ground arith
Hit-or_normal (some k) b h = ground arith

pub Hit-first_match :
    (p : Item → Bool) (is : List Item) → AreSet is → Hit (first_match p is) (any p is)
unfolding first_match
Hit-first_match p [] h = refl
Hit-first_match p (i ∷ is) h = elim (Bool-cases (p i)) [
  | inl hit ↦ rw hit (h.0, refl)
  | inr miss ↦ rw miss (Hit-first_match p is h.1)
]

pub Hit-first_regex :
    {Regex : Type 0} (matches : Regex → Bytes → Option Bool) (name : Bytes)
    (rs : List (RegexItem Regex))
    → All (λ r. is_normal r.kind ≡ false) rs
    → Hit (first_regex matches name rs) (any (regex_matches matches name) rs)
unfolding first_regex
Hit-first_regex matches name [] h = refl
Hit-first_regex matches name (r ∷ rs) h = elim (Bool-cases (regex_matches matches name r)) [
  | inl hit ↦ rw hit (h.0, refl)
  | inr miss ↦ rw miss (Hit-first_regex matches name rs h.1)
]

-- ## Buckets

pub bucket-AreSet : (k : Bytes) (m : Buckets) → AreSetIn m → AreSet (bucket k m)
unfolding bucket
bucket-AreSet k [] h = tt
bucket-AreSet k ((j, is) ∷ m) h = elim (Bool-cases (bytes_eq j k)) [
  | inl hit ↦ rw hit h.0
  | inr miss ↦ rw miss (bucket-AreSet k m h.1)
]

pub bucket-push_item :
    (k : Bytes) (i : Item) (m : Buckets) → bucket k (push_item k i m) ≡ bucket k m ++ (i ∷ [])
unfolding bucket push_item
bucket-push_item k i [] = ground (arith, bytes_eq_iff k k)
bucket-push_item k i ((j, is) ∷ m) = ground (arith, bucket-push_item k i m)

bucket-push_item_other :
    (k l : Bytes) (i : Item) (m : Buckets)
    → bytes_eq k l ≡ false
    → bucket l (push_item k i m) ≡ bucket l m
unfolding bucket push_item
bucket-push_item_other k l i [] h = rw h refl
bucket-push_item_other k l i ((j, is) ∷ m) h =
    ground (
      arith,
      bucket-push_item_other k l i m h,
      bytes_eq_iff j k,
      bytes_eq_iff j l,
      bytes_eq_iff k l,
    )

-- A bucket that is not pushed to stays as it is.
pub bucket-push_item_cases :
    (k l : Bytes) (i : Item) (m : Buckets)
    → (bucket l (push_item k i m) ≡ bucket l m)
      ⊎ (bucket l (push_item k i m) ≡ bucket l m ++ (i ∷ []))
bucket-push_item_cases k l i m = elim (Bool-cases (bytes_eq k l)) [
  | inl same ↦
      let e = (bytes_eq_iff k l).0 same in
      inr (
        ap (λ x. bucket x (push_item k i m)) (sym e)
        ∙ bucket-push_item k i m
        ∙ ap (λ x. bucket x m ++ (i ∷ [])) e)
  | inr other ↦ inl (bucket-push_item_other k l i m other)
]

pub push_item-AreSetIn :
    (k : Bytes) (i : Item) (m : Buckets)
    → is_normal i.kind ≡ false
    → AreSetIn m
    → AreSetIn (push_item k i m)
unfolding push_item
push_item-AreSetIn k i [] h s = ((h, tt), tt)
push_item-AreSetIn k i ((j, is) ∷ m) h s = elim (Bool-cases (bytes_eq j k)) [
  | inl hit ↦ rw hit (All-append _ is (i ∷ []) s.0 (h, tt), s.1)
  | inr miss ↦ rw miss (s.0, push_item-AreSetIn k i m h s.1)
]

-- How many rules the buckets hold.
abbrev pub total : Buckets → ℕ
total [] = 0
total (b ∷ m) = length b.1 + total m

pub total-push_item : (k : Bytes) (i : Item) (m : Buckets) → total (push_item k i m) ≡ total m + 1
unfolding push_item
total-push_item k i [] = refl
total-push_item k i ((j, is) ∷ m) =
    ground (arith, total-push_item k i m, length-append {0} is (i ∷ []))

-- ===== src/Forwarder/Zones.antt =====
-- Which zones hold a name.
use behind.Base.{
  ℕ, zero, suc, ◌+◌, ◌-◌, ◌≤◌, ◌<◌, ◌≡◌, ◌↔◌, inl, inr, refl, sym, ap, ◌∙◌, true, [], ◌∷◌, ◌++◌,
  arith, Bytes, map, length, take, drop, get_or, length-append, length-drop, take-append-drop,
  to_lower, ◌==◌, Bool-cases, ==_iff,
}
use mathlib.Core.List.{map-append}
use behind.DomainFilter.Suffix.{Under, drop-get_or, drop-append-suc, get_or-append}
use behind.Forwarder.{Forwarder, same_letters, zone_matches}
use behind.Forwarder.Longest.{is_match}

abbrev lower : Bytes → Bytes
lower = map to_lower

-- The zone, without the dot at its end.
abbrev pub zone_name : Bytes → Bytes
zone_name zone = take (length zone - 1) zone

-- A forwarder that is set, whose zone is not the root and, in any case of the letters, is the name
-- or a domain above it.
abbrev pub Holds : Bytes → Forwarder → Type 0
Holds name f =
    (f.is_set ≡ true)
    × (1 < length f.zone)
    × Under (map to_lower (zone_name f.zone)) (map to_lower name)

length-lower : (s : Bytes) → length (lower s) ≡ length s
length-lower [] = refl
length-lower (c ∷ cs) = ap suc (length-lower cs)

drop-lower : (k : ℕ) (s : Bytes) → drop k (lower s) ≡ lower (drop k s)
drop-lower zero s = refl
drop-lower (suc k) [] = refl
drop-lower (suc k) (c ∷ cs) = drop-lower k cs

get_or-lower : (k : ℕ) (s : Bytes) → k < length s → get_or (lower s) k 0 ≡ to_lower (get_or s k 0)
get_or-lower k [] h = absurd (omega arith)
get_or-lower zero (c ∷ cs) h = refl
get_or-lower (suc k) (c ∷ cs) h = get_or-lower k cs (omega arith)

lower_dot : (c : ℕ) → to_lower c ≡ b'.' → c ≡ b'.'
unfolding to_lower
lower_dot c h = ground arith

length-zone_name : (zone : Bytes) → length (zone_name zone) ≡ length zone - 1
length-zone_name zone = length-take (length zone - 1) zone (omega arith)
  where
    length-take : (k : ℕ) (s : Bytes) → k ≤ length s → length (take k s) ≡ k
    length-take zero s h = refl
    length-take (suc k) [] h = absurd (omega arith)
    length-take (suc k) (c ∷ cs) h = ap suc (length-take k cs (omega arith))

same_letters-lower :
    (n : ℕ) (a b : Bytes)
    → length a ≡ n
    → n ≤ length b
    → same_letters n a b ≡ true
    → lower a ≡ lower (take n b)
unfolding same_letters
same_letters-lower zero [] b la lb h = refl
same_letters-lower zero (x ∷ a) b la lb h = absurd (omega arith)
same_letters-lower (suc n) [] b la lb h = absurd (omega arith)
same_letters-lower (suc n) (x ∷ a) [] la lb h = absurd (omega arith)
same_letters-lower (suc n) (x ∷ a) (y ∷ b) la lb h =
    let first : to_lower x ≡ to_lower y = ground arith in
    let rest = same_letters-lower n a b (omega arith) (omega arith) (ground arith) in
    λ i. first i ∷ rest i

lower-same_letters :
    (n : ℕ) (a b : Bytes)
    → length a ≡ n
    → n ≤ length b
    → lower a ≡ lower (take n b)
    → same_letters n a b ≡ true
unfolding same_letters
lower-same_letters zero a b la lb h = refl
lower-same_letters (suc n) [] b la lb h = absurd (omega arith)
lower-same_letters (suc n) (x ∷ a) [] la lb h = absurd (omega arith)
lower-same_letters (suc n) (x ∷ a) (y ∷ b) la lb h =
    let first : to_lower x ≡ to_lower y = ap (λ s. get_or s 0 0) h in
    let rest = lower-same_letters n a b (omega arith) (omega arith) (ap (drop 1) h) in
    ground (arith, ==_iff (to_lower x) (to_lower y))

zone_matches-Under :
    (name zone : Bytes)
    → zone_matches name zone ≡ true
    → Under (lower (zone_name zone)) (lower name)
unfolding zone_matches
zone_matches-Under name zone h =
    let n = length zone - 1 in
    let i = length name - n in
    let fits : n ≤ length name = ground arith in
    let left : length (drop i name) ≡ n = length-drop i name ∙ omega arith in
    let same : lower (drop i name) ≡ lower (zone_name zone) =
      same_letters-lower n (drop i name) zone left (omega arith) (ground arith) in
    elim (Bool-cases (i == 0)) [
      | inl start ↦
          let zero_is : i ≡ 0 = ground arith in
          inl (ap (λ k. lower (drop k name)) (sym zero_is) ∙ same)
      | inr later ↦
          let dot : get_or name (i - 1) 0 ≡ b'.' = ground arith in
          let next : suc (i - 1) ≡ i = ground arith in
          let whole : name ≡ take (i - 1) name ++ (b'.' ∷ drop i name) =
            sym (take-append-drop (i - 1) name)
            ∙ ap (λ x. take (i - 1) name ++ x) (drop-get_or (i - 1) name (ground arith))
            ∙ ap (λ c. take (i - 1) name ++ (c ∷ drop (suc (i - 1)) name)) dot
            ∙ ap (λ k. take (i - 1) name ++ (b'.' ∷ drop k name)) next in
          inr (
            lower (take (i - 1) name),
            ap lower whole
                ∙ map-append to_lower (take (i - 1) name) (b'.' ∷ drop i name)
                ∙ ap (λ x. lower (take (i - 1) name) ++ (to_lower b'.' ∷ x)) same
                ∙ ap (λ c. lower (take (i - 1) name) ++ (c ∷ lower (zone_name zone))) dot_lower,
          )
    ]
  where
    dot_lower : to_lower b'.' ≡ b'.'
    dot_lower = unfold to_lower in refl

Under-zone_matches :
    (name zone : Bytes)
    → Under (lower (zone_name zone)) (lower name)
    → zone_matches name zone ≡ true
unfolding zone_matches
Under-zone_matches name zone (inl e) =
    let len : length name ≡ length zone - 1 =
      sym (length-lower name)
      ∙ ap length e
      ∙ length-lower (zone_name zone)
      ∙ length-zone_name zone in
    let start : length name - (length zone - 1) ≡ 0 = omega arith in
    let same =
      lower-same_letters (length zone - 1) (drop (length name - (length zone - 1)) name) zone
        (ap (λ k. length (drop k name)) start ∙ len) (omega arith)
        (ap (λ k. lower (drop k name)) start ∙ e) in
    ground arith
Under-zone_matches name zone (inr (x, e)) =
    let n = length zone - 1 in
    let zlen : length (lower (zone_name zone)) ≡ n =
      length-lower (zone_name zone) ∙ length-zone_name zone in
    let len : length name ≡ length x + suc n =
      sym (length-lower name)
      ∙ ap length e
      ∙ length-append x (b'.' ∷ lower (zone_name zone))
      ∙ omega (arith, zlen) in
    let at : length name - n ≡ suc (length x) = omega arith in
    let before : length name - n - 1 ≡ length x = omega arith in
    let dot : get_or name (length name - n - 1) 0 ≡ b'.' = lower_dot _ (
      sym (get_or-lower (length name - n - 1) name (omega arith))
      ∙ ap (λ k. get_or (lower name) k 0) before
      ∙ ap (λ s. get_or s (length x) 0) e
      ∙ get_or-append x (lower (zone_name zone)) b'.') in
    let same =
      lower-same_letters n (drop (length name - n) name) zone
        (length-drop (length name - n) name ∙ omega arith) (omega arith)
        (sym (drop-lower (length name - n) name)
          ∙ ap (λ k. drop k (lower name)) at
          ∙ ap (drop (suc (length x))) e
          ∙ drop-append-suc x (lower (zone_name zone)) b'.') in
    ground arith

-- The test of the code is that relation.
pub is_match-Holds : (name : Bytes) (f : Forwarder) → (is_match name f ≡ true) ↔ Holds name f
is_match-Holds name f = (
  λ h. (ground arith, ground arith, zone_matches-Under name f.zone (ground arith)),
  λ h.
      let set = h.0 in
      let long = h.1 in let inside = Under-zone_matches name f.zone h.2 in ground arith,
)

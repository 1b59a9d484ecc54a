-- ===== src/Forwarder.antt =====
-- `Behind::choose_forwarder` of src/Behind.cpp: the forwarders whose zone matches a name best, and
-- some of them at random.
pub mod Longest
pub mod Zones
pub mod Choose
mod Tests
use behind.Base.{
  ℕ, zero, suc, ◌+◌, ◌-◌, ◌%◌, ◌^◌, min, Bool, true, false, not, ◌&&◌, ◌||◌, List, [], ◌∷◌, ◌++◌,
  Bytes, ltb, leb, ◌==◌, if◌then◌else◌, length, drop, get_or, to_lower,
}
use behind.Message.{is_empty}

-- `is_set` is the conversion of a Forwarder to bool.
pub record Forwarder : Type 0 where
  pub zone : Bytes
  pub endpoint : Bytes
  pub is_set : Bool

-- The loop `Compare`, over the rest of the name: at most `n` bytes, in any case of the letters.
-- A byte behind the end of the name is the zero byte.
unfoldable pub same_letters : ℕ → Bytes → Bytes → Bool
same_letters zero a b = true
same_letters (suc n) [] [] = same_letters n [] []
same_letters (suc n) [] (y ∷ b) = to_lower 0 == to_lower y && same_letters n [] b
same_letters (suc n) (x ∷ a) [] = to_lower x == to_lower 0 && same_letters n a []
same_letters (suc n) (x ∷ a) (y ∷ b) = to_lower x == to_lower y && same_letters n a b

-- The zone, without its last dot, is the name or ends it behind a dot.
unfoldable pub zone_matches : Bytes → Bytes → Bool
zone_matches name zone =
    let n = length zone - 1 in
    let i = length name - n in
    leb n (length name)
    && (i == 0 || get_or name (i - 1) 0 == b'.')
    && same_letters n (drop i name) zone

pub record Candidates : Type 0 where
  pub default_forwarders : List Forwarder
  pub matched_forwarders : List Forwarder
  pub best_zone_length : ℕ

-- One turn of the loop.
unfoldable pub consider : Bytes → Candidates → Forwarder → Candidates
consider name c f =
    let n = length f.zone in
    if not f.is_set
    then c
    else if n == 1
    then record c { default_forwarders = c.default_forwarders ++ (f ∷ []) }
    else if not (ltb 1 n)
    then c
    else if ltb n c.best_zone_length
    then c
    else if not (zone_matches name f.zone)
    then c
    else if ltb c.best_zone_length n
    then record c { matched_forwarders = f ∷ []; best_zone_length = n }
    else record c { matched_forwarders = c.matched_forwarders ++ (f ∷ []) }

unfoldable pub consider_all : Bytes → Candidates → List Forwarder → Candidates
consider_all name c [] = c
consider_all name c (f ∷ fs) = consider_all name (consider name c f) fs

-- The forwarders that the query may go to, before they are shuffled.
unfoldable pub candidates : Bytes → List Forwarder → List Forwarder
candidates name fs =
    let c =
      consider_all name
        (record { default_forwarders = []; matched_forwarders = []; best_zone_length = 0 }) fs in
    if is_empty c.matched_forwarders then c.default_forwarders else c.matched_forwarders

-- `std::swap` of the first element with the one `j` behind it.
abbrev pub swap_in {ℓ} : {A : Type ℓ} → ℕ → A → List A → A × List A
swap_in j x [] = (x, [])
swap_in zero x (y ∷ ys) = (y, x ∷ ys)
swap_in (suc j) x (y ∷ ys) = let r = swap_in j x ys in (r.0, y ∷ r.1)

abbrev pub swap_first {ℓ} : {A : Type ℓ} → ℕ → A → List A → A × List A
swap_first zero x xs = (x, xs)
swap_first (suc j) x xs = swap_in j x xs

-- The loop from the place `i` on, with the elements from there on: each turn draws a number. What is
-- behind the last turn is cut off by `resize`.
abbrev pub shuffle {ℓ} : {A : Type ℓ} → (ℕ → ℕ) → ℕ → ℕ → List A → List A
shuffle draw i zero xs = []
shuffle draw i (suc count) [] = []
shuffle draw i (suc count) (x ∷ xs) =
    let s = swap_first (draw i % 2 ^ 32 % (length (x ∷ xs) % 2 ^ 32)) x xs in
    s.0 ∷ shuffle draw (i + 1) count s.1

-- `draw` brings the numbers of the random number generator.
unfoldable pub choose_forwarder : (ℕ → ℕ) → Bytes → List Forwarder → ℕ → List Forwarder
choose_forwarder draw name fs most =
    let forwarders = candidates name fs in shuffle draw 0 (min most (length forwarders)) forwarders

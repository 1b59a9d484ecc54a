-- ===== src/Forwarder/Tests.antt =====
-- The choice of forwarders on an example.
use behind.Base.{ℕ, ◌+◌, ◌≡◌, refl, [], ◌∷◌, codes, true, to_lower, List}
use behind.Forwarder.{
  Forwarder, same_letters, zone_matches, consider, consider_all, candidates, shuffle,
  choose_forwarder,
}
use behind.Forwarder.Choose.{Chosen, choose_forwarder-Chosen}

program : Unit {0}
unfolding same_letters zone_matches consider consider_all candidates choose_forwarder to_lower
program = tt

abbrev root : Forwarder
root = record { zone = codes "."; endpoint = 8 ∷ []; is_set = true }

abbrev example : Forwarder
example = record { zone = codes "example.com."; endpoint = 9 ∷ []; is_set = true }

abbrev sub : Forwarder
sub = record { zone = codes "sub.example.com."; endpoint = 10 ∷ []; is_set = true }

abbrev forwarders : List Forwarder
forwarders = root ∷ example ∷ sub ∷ []

candidates_test :
    (candidates (codes "host.SUB.example.com") forwarders ≡ sub ∷ [])
    × (candidates (codes "x.example.com") forwarders ≡ example ∷ [])
    × (candidates (codes "badexample.com") forwarders ≡ root ∷ [])
unfolding program
candidates_test = (refl, refl, refl)

-- Two of three, by the numbers that are drawn.
shuffle_test :
    (shuffle {A = ℕ} (λ i. 4 + i) 0 2 (1 ∷ 2 ∷ 3 ∷ []) ≡ 2 ∷ 3 ∷ [])
    × (choose_forwarder (λ i. 7) (codes "x.example.com") forwarders 3 ≡ example ∷ [])
unfolding program
shuffle_test = (refl, refl)

choose_forwarder-Chosen_example :
    Chosen
      (codes "host.SUB.example.com")
      forwarders
      3
      (choose_forwarder (λ i. 7) (codes "host.SUB.example.com") forwarders 3)
choose_forwarder-Chosen_example =
    choose_forwarder-Chosen (λ i. 7) (codes "host.SUB.example.com") forwarders 3

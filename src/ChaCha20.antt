-- ===== src/ChaCha20.antt =====
-- The random numbers of src/ChaCha20.cpp. An array is the list of its words, of 32 bits each; the
-- seed that the system brings is an argument.
pub mod Stream
mod Tests
use behind.Base.{
  ℕ, zero, suc, ◌+◌, ◌-◌, ◌*◌, ◌/◌, ◌%◌, ◌^◌, List, [], ◌∷◌, ◌++◌, Bytes, ◌==◌, if◌then◌else◌,
  get_or,
}

abbrev pub set_at : ℕ → ℕ → List ℕ → List ℕ
set_at i v [] = []
set_at zero v (x ∷ xs) = v ∷ xs
set_at (suc i) v (x ∷ xs) = x ∷ set_at i v xs

-- `a ^ b`, of the low `w` bits.
unfoldable pub xor : ℕ → ℕ → ℕ → ℕ
xor zero a b = 0
xor (suc w) a b = (if a % 2 == b % 2 then 0 else 1) + 2 * xor w (a / 2) (b / 2)

abbrev pub add : ℕ → ℕ → ℕ
add a b = (a + b) % 2 ^ 32

-- The two halves of `rotl` share no bit, so that `|` is the sum.
unfoldable pub rotl : ℕ → ℕ → ℕ
rotl v n = v * 2 ^ n % 2 ^ 32 + v / 2 ^ (32 - n)

-- `x[i] += x[j]`
unfoldable pub add_to : ℕ → ℕ → List ℕ → List ℕ
add_to i j x = set_at i (add (get_or x i 0) (get_or x j 0)) x

-- `x[i] ^= x[j]; x[i] = rotl(x[i], n)`
unfoldable pub mix_to : ℕ → ℕ → ℕ → List ℕ → List ℕ
mix_to i j n x = set_at i (rotl (xor 32 (get_or x i 0) (get_or x j 0)) n) x

unfoldable pub quarter_round : ℕ → ℕ → ℕ → ℕ → List ℕ → List ℕ
quarter_round a b c d x = mix_to b c 7 (
    add_to c d
      (mix_to d a 8 (add_to a b (mix_to b c 12 (add_to c d (mix_to d a 16 (add_to a b x)))))))

-- The body of the loop: four columns and four diagonals.
unfoldable pub double_round : List ℕ → List ℕ
double_round x =
    let columns =
      quarter_round 3 7 11 15
        (quarter_round 2 6 10 14 (quarter_round 1 5 9 13 (quarter_round 0 4 8 12 x))) in
    quarter_round 3 4 9 14
      (quarter_round 2 7 8 13 (quarter_round 1 6 11 12 (quarter_round 0 5 10 15 columns)))

unfoldable pub rounds : ℕ → List ℕ → List ℕ
rounds zero x = x
rounds (suc n) x = rounds n (double_round x)

unfoldable pub add_words : List ℕ → List ℕ → List ℕ
add_words [] ys = []
add_words (x ∷ xs) [] = []
add_words (x ∷ xs) (y ∷ ys) = add x y ∷ add_words xs ys

unfoldable pub chacha20_block : List ℕ → List ℕ
chacha20_block input = add_words (rounds 10 input) input

-- Words of four bytes, the lowest first.
unfoldable pub words : Bytes → List ℕ
words (a ∷ b ∷ c ∷ d ∷ bs) = (a + b * 2 ^ 8 + c * 2 ^ 16 + d * 2 ^ 24) ∷ words bs
words _ = []

-- For a key of 32 bytes and an initial vector of 12.
unfoldable pub chacha20_init_state : Bytes → Bytes → ℕ → List ℕ
chacha20_init_state key iv counter =
    (0x61707865 ∷ 0x3320646e ∷ 0x79622d32 ∷ 0x6b206574 ∷ []) ++ (words key ++ (counter ∷ words iv))

abbrev pub buffer_size : ℕ
buffer_size = 16

pub record ChaCha20 : Type 0 where
  pub state : List ℕ
  pub buffer : List ℕ
  pub index : ℕ

-- The constructor, with the seed. What the buffer holds at first is never read.
unfoldable pub seeded : Bytes → Bytes → ChaCha20
seeded key nonce = record { state = chacha20_init_state key nonce 0; buffer = []; index = 0 }

unfoldable pub refill : ChaCha20 → ChaCha20
refill r =
    if r.index == 0
    then record r {
      buffer = chacha20_block r.state;
      state = set_at 12 (add (get_or r.state 12 0) 1) r.state;
    }
    else r

unfoldable pub next_u32 : ChaCha20 → ℕ × ChaCha20
next_u32 r =
    let filled = refill r in
    (
      get_or filled.buffer filled.index 0,
      record filled { index = (filled.index + 1) % buffer_size },
    )

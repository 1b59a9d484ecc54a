-- ===== src/Packet.antt =====
-- DNS packets: reading a message from its bytes and writing it to them, of src/Behind.cpp. This
-- file has what both share: numbers in network order (`ntohs_p`, `ntohl_p`, `write_us`,
-- `write_ul`) and the loops that check the framing of RDATA, which `parse_dns_message` and
-- `write_dns_answer_rr` both hold.
pub mod Parse
pub mod Make
pub mod Pieces
pub mod Written
pub mod Records
pub mod Rdata
pub mod ReadBack
pub mod ReadRecord
pub mod Sections
pub mod ReadMessage
pub mod Encodable
pub mod Laid
pub mod Alike
pub mod Cut
pub mod Shorter
pub mod RoundTrip
pub mod Truncated
pub mod Accepted
mod Tests
use behind.Base.{
  ℕ, zero, suc, ◌+◌, ◌*◌, ◌/◌, ◌%◌, ◌^◌, Bool, true, false, not, ◌&&◌, [], ◌∷◌, ◌++◌, Bytes, ltb,
  leb, if◌then◌else◌, length, drop,
}

-- ## Numbers in network order

-- `ntohs_p` at the front of the bytes that are left, of which there are enough.
unfoldable pub u16_of : Bytes → ℕ
u16_of (a ∷ b ∷ rest) = a * 256 + b
u16_of _ = 0

unfoldable pub u32_of : Bytes → ℕ
u32_of (a ∷ b ∷ c ∷ d ∷ rest) = ((a * 256 + b) * 256 + c) * 256 + d
u32_of _ = 0

abbrev pub u32_bytes : ℕ → Bytes
u32_bytes v = v / 2 ^ 24 % 256 ∷ v / 2 ^ 16 % 256 ∷ v / 256 % 256 ∷ v % 256 ∷ []

-- ## Frames in RDATA

-- The character strings of TXT: each is a byte with its length and so many bytes. A round takes
-- a byte at least.
unfoldable pub are_strings : ℕ → Bytes → Bool
are_strings fuel [] = true
are_strings zero (n ∷ rest) = false
are_strings (suc fuel) (n ∷ rest) =
    let later = are_strings fuel (drop n rest) in if ltb (length rest) n then false else later

-- The options of OPT: a code and a length, two bytes each, and so many bytes.
unfoldable pub are_options : ℕ → Bytes → Bool
are_options fuel [] = true
are_options zero (c ∷ rest) = false
are_options (suc fuel) (c ∷ rest) =
    let body = drop 4 (c ∷ rest) in
    let n = u16_of (drop 2 (c ∷ rest)) in
    let later = are_options fuel (drop n body) in
    if ltb (length (c ∷ rest)) 4 then false else if ltb (length body) n then false else later

-- The parameters of HTTPS: as options, with keys that rise.
unfoldable pub are_params : ℕ → Bool → ℕ → Bytes → Bool
are_params fuel first previous_key [] = true
are_params zero first previous_key (c ∷ rest) = false
are_params (suc fuel) first previous_key (c ∷ rest) =
    let body = drop 4 (c ∷ rest) in
    let key = u16_of (c ∷ rest) in
    let n = u16_of (drop 2 (c ∷ rest)) in
    let later = are_params fuel false key (drop n body) in
    if ltb (length (c ∷ rest)) 4
    then false
    else if not first && leb key previous_key
    then false
    else if ltb (length body) n
    then false
    else later

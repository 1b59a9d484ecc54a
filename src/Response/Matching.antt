-- ===== src/Response/Matching.antt =====
-- Which responses are taken for the answer to a query.
use behind.Base.{
  ◌/◌, ◌%◌, ◌^◌, ◌≡◌, ◌≢◌, Bool-cases, ◌↔◌, ◌⊎◌, inl, inr, refl, true, List, [], ◌∷◌, arith, ◌==◌,
  bytes_eq_iff, All, all,
}
use behind.Message.{Question, Message, Record, rcode}
use behind.Message.DnsType
use behind.Udp.{UdpQuery}
use behind.Response.{
  is_question, is_matching_udp_response, is_cacheable_udp_response, is_cacheable_record,
}

abbrev pub asked : UdpQuery → Question
asked q = record { name = q.forward_name; type = q.type; clas = q.clas }

-- A response to the query: of its id and its question, letter case included, with QR and with
-- opcode 0.
abbrev pub Answers : UdpQuery → Message → Type 0
Answers q m =
    (m.header.id ≡ q.upstream_id)
    × (m.header.flags / 2 ^ 15 % 2 ≡ 1)
    × (m.header.flags / 2 ^ 11 % 16 ≡ 0)
    × (m.questions ≡ asked q ∷ [])

is_question_iff :
    (q : Question) (qs : List Question)
    → (is_question q.name q.type q.clas qs ≡ true) ↔ (qs ≡ q ∷ [])
unfolding is_question
is_question_iff q [] = ground arith
is_question_iff q (r ∷ []) = ground (arith, bytes_eq_iff r.name q.name)
is_question_iff q (r ∷ s ∷ qs) = ground arith

-- A response is taken for the answer to a query over UDP exactly when it has the query's id and,
-- as its only question, the question that was sent, letter case included, and says that it is a
-- response with opcode 0.
pub is_matching_udp_response_iff :
    (q : UdpQuery) (m : Message) → (is_matching_udp_response q m ≡ true) ↔ Answers q m
unfolding is_matching_udp_response
is_matching_udp_response_iff q m = ground (arith, is_question_iff (asked q) m.questions)

-- ## Caching

-- A record that the cache may keep.
abbrev pub IsKept : Record → Type 0
IsKept r = (r.cacheable ≡ true) × (r.type ≢ DnsType.opt)

all_iff_All : (rs : List Record) → (all is_cacheable_record rs ≡ true) ↔ All IsKept rs
all_iff_All [] = (λ h. tt, λ h. refl)
all_iff_All (r ∷ rs) =
    let ih = all_iff_All rs in
    (
      λ h. ((ground arith, ground arith), ih.0 (ground arith)),
      λ h. ground (arith, h.0.0, h.0.1, ih.1 h.1),
    )

-- A response over UDP may be cached exactly when it answers the query, is not truncated, says that
-- the name exists or does not, and none of its answers and authorities is an OPT record or one
-- that cannot be copied.
pub is_cacheable_udp_response_iff :
    (q : UdpQuery) (m : Message)
    → (is_cacheable_udp_response q m ≡ true) ↔ (
        Answers q m
        × (m.header.flags / 2 ^ 9 % 2 ≡ 0)
        × ((rcode m ≡ 0) ⊎ (rcode m ≡ 3))
        × All IsKept m.answers
        × All IsKept m.authorities)
unfolding is_cacheable_udp_response
is_cacheable_udp_response_iff q m =
    let answers = all_iff_All m.answers in
    let authorities = all_iff_All m.authorities in
    let matching = is_matching_udp_response_iff q m in
    (
      λ h. (
        matching.0 (ground arith),
        ground arith,
        elim (Bool-cases (rcode m == 0)) [
          | inl z ↦ inl (ground arith)
          | inr z ↦ inr (ground arith)
        ],
        answers.0 (ground arith),
        authorities.0 (ground arith),
      ),
      λ h. ground (arith, matching.1 h.0, h.1, h.2, answers.1 h.3, authorities.1 h.4),
    )

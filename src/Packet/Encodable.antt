-- ===== src/Packet/Encodable.antt =====
-- What is asked of a message that is to be sent, and that it holds of the part that is sent.
use behind.Base.{
  ℕ, zero, suc, ◌≤◌, ◌<◌, ◌≡◌, refl, sym, ap, List, [], ◌∷◌, arith, Bytes, length, take, Bool, true,
  false, not, ◌==◌, if◌then◌else◌, All, all, Bool-cases, inl, inr, min,
}
use behind.Message.DnsType
use behind.Message.{Header, Record, Message}
use behind.Packet.Make.{additional_name, owner_name, first_question, counted}
use behind.Packet.ReadRecord.{IsWords, may_opts}
use behind.Packet.Sections.{IsQuestion}
use behind.Packet.ReadMessage.{Sections, IsCounted, AreEncodable}

module _ {ℓ} {A : Type ℓ} where
  pub All-take {κ} : (P : A → Type κ) (n : ℕ) (xs : List A) → All P xs → All P (take n xs)
  All-take P zero xs h = tt
  All-take P (suc n) [] h = tt
  All-take P (suc n) (x ∷ xs) h = (h.0, All-take P n xs h.1)

  pub length-take_of_le : (n : ℕ) (xs : List A) → n ≤ length xs → length (take n xs) ≡ n
  length-take_of_le zero xs h = refl
  length-take_of_le (suc n) [] h = absurd (omega arith)
  length-take_of_le (suc n) (x ∷ xs) h = ap suc (length-take_of_le n xs (omega arith))

-- ## OPT records

abbrev pub is_not_opt : Record → Bool
is_not_opt r = not (r.type == DnsType.opt)

abbrev pub opt_count : List Record → ℕ
opt_count [] = 0
opt_count (r ∷ rs) = if r.type == DnsType.opt then suc (opt_count rs) else opt_count rs

pub opt_count-take : (n : ℕ) (rs : List Record) → opt_count (take n rs) ≤ opt_count rs
opt_count-take zero rs = omega arith
opt_count-take (suc n) [] = omega arith
opt_count-take (suc n) (r ∷ rs) = ground (arith, opt_count-take n rs)

may_opts-none :
    (owner : Record → Bytes) (n : ℕ) (rs : List Record)
    → all is_not_opt rs ≡ true
    → may_opts false false owner (take n rs) ≡ true
may_opts-none owner zero rs h = refl
may_opts-none owner (suc n) [] h = refl
may_opts-none owner (suc n) (r ∷ rs) h =
    let e : (r.type == DnsType.opt) ≡ false = ground arith in
    rw e (may_opts-none owner n rs (ground arith))

abbrev opts_left : Bool → ℕ
opts_left seen = if seen then 0 else 1

may_opts-one :
    (question : Bytes) (seen : Bool) (rs : List Record)
    → opt_count rs ≤ opts_left seen
    → may_opts true seen (additional_name question) rs ≡ true
unfolding additional_name
may_opts-one question seen [] h = refl
may_opts-one question true (r ∷ rs) h = ground (arith, may_opts-one question true rs)
may_opts-one question false (r ∷ rs) h = elim (Bool-cases (r.type == DnsType.opt)) [
  | inl e ↦ ground (arith, may_opts-one question true rs)
  | inr e ↦ ground (arith, may_opts-one question false rs)
]

-- ## Messages

-- The values are within their types, the names asked for fit, and there is one OPT record at
-- most, among the additional records.
pub record IsMessage (msg : Message) : Type 0 where
  pub id_fits : msg.header.id < 65536
  pub flags_fits : msg.header.flags < 65536
  pub few_questions : length msg.questions ≤ 100
  pub questions : All IsQuestion msg.questions
  pub answers : All IsWords msg.answers
  pub authorities : All IsWords msg.authorities
  pub additionals : All IsWords msg.additionals
  pub answers_opt : all is_not_opt msg.answers ≡ true
  pub authorities_opt : all is_not_opt msg.authorities ≡ true
  pub additionals_opt : opt_count msg.additionals ≤ 1

-- What is sent of a message under a header: all questions, and the first records.
abbrev pub sent : Header → Message → Sections
sent h msg = record {
  header = h;
  question = (first_question msg.questions).name;
  questions = msg.questions;
  answers = take h.ancount msg.answers;
  authorities = take h.nscount msg.authorities;
  additionals = take h.arcount msg.additionals;
}

pub sent-AreEncodable : (h : Header) (msg : Message) → IsMessage msg → AreEncodable (sent h msg)
sent-AreEncodable h msg v =
    let question = (first_question msg.questions).name in
    record {
      questions = v.questions;
      answers = All-take IsWords h.ancount msg.answers v.answers;
      authorities = All-take IsWords h.nscount msg.authorities v.authorities;
      additionals = All-take IsWords h.arcount msg.additionals v.additionals;
      answers_opt = may_opts-none (owner_name question) h.ancount msg.answers v.answers_opt;
      authorities_opt =
          may_opts-none (owner_name question) h.nscount msg.authorities v.authorities_opt;
      additionals_opt =
          may_opts-one question false (take h.arcount msg.additionals)
            (omega (arith, v.additionals_opt, opt_count-take h.arcount msg.additionals));
    }

-- The header of a packet counts what is sent.
pub record IsHeaderOf (h : Header) (msg : Message) : Type 0 where
  pub id_fits : h.id < 65536
  pub flags_fits : h.flags < 65536
  pub qdcount_is : h.qdcount ≡ length msg.questions
  pub few_questions : length msg.questions ≤ 100
  pub ancount_in : h.ancount ≤ min (length msg.answers) 100
  pub nscount_in : h.nscount ≤ min (length msg.authorities) 100
  pub arcount_in : h.arcount ≤ min (length msg.additionals) 100

pub sent-IsCounted : (h : Header) (msg : Message) → IsHeaderOf h msg → IsCounted (sent h msg)
sent-IsCounted h msg v =
    let a = length-take_of_le h.ancount msg.answers (omega (arith, v.ancount_in)) in
    let n = length-take_of_le h.nscount msg.authorities (omega (arith, v.nscount_in)) in
    let r = length-take_of_le h.arcount msg.additionals (omega (arith, v.arcount_in)) in
    record {
      id_fits = v.id_fits;
      flags_fits = v.flags_fits;
      qdcount_is = v.qdcount_is;
      ancount_is = sym a;
      nscount_is = sym n;
      arcount_is = sym r;
      few_questions = v.few_questions;
      few_answers = omega (arith, a, v.ancount_in);
      few_authorities = omega (arith, n, v.nscount_in);
      few_additionals = omega (arith, r, v.arcount_in);
    }

pub counted-IsHeaderOf : (msg : Message) → IsMessage msg → IsHeaderOf (counted msg) msg
unfolding counted
counted-IsHeaderOf msg v = record {
  id_fits = v.id_fits;
  flags_fits = v.flags_fits;
  qdcount_is = omega (arith, v.few_questions);
  few_questions = v.few_questions;
  ancount_in = omega arith;
  nscount_in = omega arith;
  arcount_in = omega arith;
}

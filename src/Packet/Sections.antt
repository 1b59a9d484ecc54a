-- ===== src/Packet/Sections.antt =====
-- What the sections of `make_dns_packet` leave in the packet: the questions and the records, one
-- behind the other.
use behind.Base.{
  ℕ, ◌+◌, ◌-◌, ◌<◌, ◌≡◌, refl, sym, ap, ◌∙◌, some, List, [], ◌∷◌, ◌++◌, append_assoc, append-nil,
  arith, Bytes, length, drop, Option-cases, inl, inr, false, ltb, All,
}
use mathlib.Core.Path.{subst}
use behind.Message.{Question, Record}
use behind.Name.{NameMap, u16_bytes, write_name}
use behind.Name.RoundTrip.{IsTable, IsEncodable, write_name-IsEncodable_iff}
use behind.Packet.{u16_of}
use behind.Packet.Make.{Output, write_question, write_questions, write_dns_answer_rr, write_records}
use behind.Packet.Parse.{read_name, parse_question_section, parse_questions}
use behind.Packet.Pieces.{Piece, raw, dname, write_pieces, Sits, Sits-append}
use behind.Packet.Written.{write_pieces-Put, IsTable-append}
use behind.Packet.Records.{RecordAt, RecordAt-append, write_dns_answer_rr-Recorded}
use behind.Packet.ReadBack.{u16_of-bytes}
use behind.Packet.ReadRecord.{RecordsAt}

-- The output goes on behind `packet`, and what is added is as `P` says, from its start to its
-- end.
pub record Extends (header packet : Bytes) (P : Bytes → ℕ → ℕ → Type 0) (o : Output) : Type 0 where
  pub more : Bytes
  pub map : NameMap
  pub result_is : o ≡ (header ++ (packet ++ more), some map)
  pub holds : P (packet ++ more) (length packet) (length (packet ++ more))
  pub is_table : IsTable header (packet ++ more) map

-- What is written stays when more is written behind it.
abbrev pub IsStable : (Bytes → ℕ → ℕ → Type 0) → Type 0
IsStable P = (packet more : Bytes) (at end : ℕ) → P packet at end → P (packet ++ more) at end

abbrev pub Then : (Bytes → ℕ → ℕ → Type 0) → (Bytes → ℕ → ℕ → Type 0) → Bytes → ℕ → ℕ → Type 0
Then P Q packet at end = (next : ℕ) × P packet at next × Q packet next end

pub Extends-Then :
    (header packet : Bytes) (P Q : Bytes → ℕ → ℕ → Type 0) {o p : Output}
    → IsStable P
    → (e : Extends header packet P o) → Extends header (packet ++ e.more) Q p
    → Extends header packet (Then P Q) p
Extends-Then header packet P Q stable e f =
    let whole = append_assoc packet e.more f.more in
    record {
      more = e.more ++ f.more;
      map = f.map;
      result_is = f.result_is ∙ ap (λ x. (header ++ x, some f.map)) whole;
      holds =
          subst (λ x. Then P Q x (length packet) (length x)) whole
            (
              length (packet ++ e.more),
              stable (packet ++ e.more) f.more (length packet) (length (packet ++ e.more)) e.holds,
              f.holds,
            );
      is_table = subst (λ x. IsTable header x f.map) whole f.is_table;
    }

pub Extends-nil :
    (header packet : Bytes) (m : NameMap)
    → IsTable header packet m
    → Extends header packet (λ p at end. at ≡ end) (header ++ packet, some m)
Extends-nil header packet m t = record {
  more = [];
  map = m;
  result_is = ap (λ x. (header ++ x, some m)) (sym (append-nil packet));
  holds = ap length (sym (append-nil packet));
  is_table = IsTable-append header packet [] m t;
}

-- ## Questions

abbrev pub question_pieces : Question → List Piece
question_pieces q = dname q.name ∷ raw (u16_bytes q.type ++ u16_bytes q.clas) ∷ []

abbrev pub QuestionsAt : List Question → Bytes → ℕ → ℕ → Type 0
QuestionsAt [] packet at end = at ≡ end
QuestionsAt (q ∷ qs) packet at end =
    Then (λ p a e. Sits p a (question_pieces q) e) (QuestionsAt qs) packet at end

pub QuestionsAt-append : (qs : List Question) → IsStable (QuestionsAt qs)
QuestionsAt-append [] packet more at end h = h
QuestionsAt-append (q ∷ qs) packet more at end (next, here, later) = (
  next,
  Sits-append packet more at next (question_pieces q) here,
  QuestionsAt-append qs packet more next end later,
)

pub record IsQuestion (q : Question) : Type 0 where
  pub encodable : IsEncodable q.name
  pub type_fits : q.type < 65536
  pub clas_fits : q.clas < 65536

write_question-pieces :
    (o : Output) (q : Question)
    → IsEncodable q.name
    → write_pieces o (question_pieces q) ≡ some (write_question o q)
unfolding write_pieces write_question
write_question-pieces o q h =
    let written = (write_name-IsEncodable_iff o.0 o.1 q.name).1 h in
    elim (Option-cases (write_name o.0 o.1 q.name)) [
      | inl failed ↦ absurd (written failed)
      | inr (p, e) ↦ rw (e, write_pieces, write_question) refl
    ]

pub write_questions-Extends :
    (header packet : Bytes) (m : NameMap) (qs : List Question)
    → IsTable header packet m
    → All IsQuestion qs
    → Extends header packet (QuestionsAt qs) (write_questions (header ++ packet, some m) qs)
unfolding write_questions
write_questions-Extends header packet m [] t h = Extends-nil header packet m t
write_questions-Extends header packet m (q ∷ qs) t h =
    let o = write_question (header ++ packet, some m) q in
    let w =
      write_pieces-Put header packet m (question_pieces q) o t
        (write_question-pieces (header ++ packet, some m) q h.0.encodable) in
    let first : Extends header packet (λ p a e. Sits p a (question_pieces q) e) o = record {
      more = w.more;
      map = w.map;
      result_is = w.result_is;
      holds = w.sits;
      is_table = w.is_table;
    } in
    let rest = write_questions-Extends header (packet ++ w.more) w.map qs w.is_table h.1 in
    Extends-Then header packet _ (QuestionsAt qs)
      (λ p more a e. Sits-append p more a e (question_pieces q)) first
      (subst (λ x. Extends header (packet ++ w.more) (QuestionsAt qs) (write_questions x qs))
        (sym w.result_is) rest)

-- The reader finds the questions again.
parse_question_section-read :
    (packet : Bytes) (q : Question) (at end : ℕ)
    → IsQuestion q
    → Sits packet at (question_pieces q) end
    → parse_question_section packet at ≡ some (q, end)
unfolding parse_question_section read_name
parse_question_section-read packet q at end w (k, read, (here, fits, (ends, inside))) =
    let d = drop (at + k) packet in
    let type_is : u16_of d ≡ q.type = ap u16_of here ∙ u16_of-bytes q.type _ w.type_fits in
    let clas_is : u16_of (drop 2 d) ≡ q.clas =
      ap (λ x. u16_of (drop 2 x)) here ∙ u16_of-bytes q.clas _ w.clas_fits in
    let name_is : read_name packet at ≡ some (q.name, at + k) = ground (arith, read) in
    let room : ltb (length packet - (at + k)) 4 ≡ false = ground arith in
    rw (name_is, parse_question_section, room)
      λ i. some (record { name = q.name; type = type_is i; clas = clas_is i }, ends i)

pub parse_questions-read :
    (packet : Bytes) (qs : List Question) (at end : ℕ)
    → All IsQuestion qs
    → QuestionsAt qs packet at end
    → parse_questions packet (length qs) at ≡ some (qs, end)
unfolding parse_questions
parse_questions-read packet [] at end w h = ap (λ x. some ([], x)) h
parse_questions-read packet (q ∷ qs) at end w (next, here, later) =
    let first = parse_question_section-read packet q at next w.0 here in
    let rest = parse_questions-read packet qs next end w.1 later in
    rw (first, parse_questions, rest) refl

-- ## Records

pub write_records-Extends :
    (header packet : Bytes) (m : NameMap) (owner : Record → Bytes) (rs : List Record) (o : Output)
    (ends : List ℕ)
    → IsTable header packet m
    → write_records owner (header ++ packet, some m) rs ≡ some (o, ends)
    → Extends header packet (λ p a e. RecordsAt p owner a rs e) o
unfolding write_records
write_records-Extends header packet m owner [] o ends t h =
    let e : (header ++ packet, some m) ≡ o = cc in
    subst (Extends header packet (λ p a z. a ≡ z)) e (Extends-nil header packet m t)
write_records-Extends header packet m owner (r ∷ rs) o ends t h =
    elim (Option-cases (write_dns_answer_rr (header ++ packet, some m) (owner r) r)) [
      | inl failed ↦ absurd (ground arith)
      | inr (p, e) ↦ elim (Option-cases (write_records owner p rs)) [
        | inl failed ↦ absurd (ground arith)
        | inr (q, e') ↦
            let w = write_dns_answer_rr-Recorded header packet (owner r) m r p t e in
            let first : Extends header packet (λ x a z. RecordAt x a (owner r) r z) p = record {
              more = w.more;
              map = w.map;
              result_is = w.result_is;
              holds = w.stands;
              is_table = w.is_table;
            } in
            let rest =
              write_records-Extends header (packet ++ w.more) w.map owner rs q.0 q.1 w.is_table
                (subst (λ x. write_records owner x rs ≡ some q) w.result_is e') in
            let same : q.0 ≡ o = ground arith in
            Extends-Then header packet _ (λ x a z. RecordsAt x owner a rs z)
              (λ x more a z v. RecordAt-append x more v) first
              (subst (Extends header (packet ++ w.more) (λ x a z. RecordsAt x owner a rs z)) same
                rest)
      ]
    ]

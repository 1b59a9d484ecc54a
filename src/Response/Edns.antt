-- ===== src/Response/Edns.antt =====
-- The OPT record that `set_edns0` writes, as `client_edns_payload` reads it.
use behind.Base.{
  ℕ, ◌≡◌, refl, ap, ◌∙◌, min, max, List, [], ◌∷◌, ◌++◌, arith, ◌==◌, if◌then◌else◌, sym, append-nil,
  Bool-cases, inl, inr,
}
use behind.Message.{Message, Record}
use behind.Response.{without_opt, opt_record, set_edns0, edns_payload, client_edns_payload}

payload-without_opt :
    (rs qs : List Record) → edns_payload 0 (without_opt rs ++ qs) ≡ edns_payload 0 qs
unfolding edns_payload without_opt
payload-without_opt [] qs = refl
payload-without_opt (r ∷ rs) qs = ground (arith, payload-without_opt rs qs)

payload-opt_record : (n code : ℕ) → edns_payload 0 (opt_record n code ∷ []) ≡ max 512 n
unfolding edns_payload
payload-opt_record n code = ground arith

payload-nil : edns_payload 0 [] ≡ 0
unfolding edns_payload
payload-nil = refl

-- The size that is read from a message is the one that was written: within 512 and the buffer
-- size, however many OPT records the message had before; without a size there is none.
pub client_edns_payload-set_edns0 :
    (buffer_size payload_size code : ℕ) (m : Message)
    → client_edns_payload buffer_size (set_edns0 buffer_size m payload_size code)
      ≡ (if payload_size == 0 then 0 else min (max 512 (min payload_size buffer_size)) buffer_size)
unfolding client_edns_payload set_edns0
client_edns_payload-set_edns0 buffer_size payload_size code m =
    let size = max 512 (min payload_size buffer_size) in
    let none =
      ap (edns_payload 0) (sym (append-nil (without_opt m.additionals)))
      ∙ payload-without_opt m.additionals []
      ∙ payload-nil in
    let one =
      payload-without_opt m.additionals (opt_record size code ∷ [])
      ∙ payload-opt_record size code in
    elim (Bool-cases (payload_size == 0)) [
      | inl zero_is ↦ rw zero_is (ap (λ n. if n == 0 then 0 else min n buffer_size) none)
      | inr pos ↦ rw pos (ap (λ n. if n == 0 then 0 else min n buffer_size) one ∙ ground arith)
    ]

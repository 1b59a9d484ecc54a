-- ===== src/Packet/Accepted/Values.antt =====
-- What `parse_dns_message` accepts as RDATA.
use behind.Base.{
  ℕ, zero, suc, ◌+◌, ◌-◌, ◌^◌, ◌<◌, ◌≡◌, refl, Option, none, some, [], ◌∷◌, arith, Bytes, length,
  take, drop, Option-cases, ◌⊎◌, inl, inr, All, ltb, true, false, Bool, ◌&&◌, ◌||◌, not,
  if◌then◌else◌, ◌==◌,
}
use mathlib.Core.Path.{subst}
use behind.Message.DnsType
use behind.Message.{Record, Rdata, cname, ptr, ns, is_empty}
use behind.Name.{NameResult, name_ok, name_bad, out_of_fuel, decode_name}
use behind.Name.Wire.{Wire-IsLabel}
use behind.Name.Exact.{decode_name-Stands_iff}
use behind.Name.RoundTrip.{IsEncodable}
use behind.Packet.{u16_of, u32_of, are_params, are_strings, are_options}
use behind.Packet.Parse.{
  decode_rdata_name, last_name, has_pointer, parse_mx, parse_soa, parse_https, set_sp, set_name,
  parse_rdata,
}
use behind.Packet.ReadBack.{
  AreWords, cname_words, ptr_words, ns_words, mx_words, soa_words, https_words,
}
use behind.Packet.ReadRecord.{IsWords}

abbrev pub IsByte : ℕ → Type 0
IsByte b = b < 256

pub All-drop : (n : ℕ) (bs : Bytes) → All IsByte bs → All IsByte (drop n bs)
All-drop zero bs h = h
All-drop (suc n) [] h = tt
All-drop (suc n) (b ∷ bs) h = All-drop n bs h.1

pub u16_of-lt : (bs : Bytes) → All IsByte bs → u16_of bs < 65536
unfolding u16_of
u16_of-lt [] h = omega arith
u16_of-lt (a ∷ []) h = omega arith
u16_of-lt (a ∷ b ∷ bs) h = omega (arith, h.0, h.1.0)

u32_of-lt : (bs : Bytes) → All IsByte bs → u32_of bs < 2 ^ 32
unfolding u32_of
u32_of-lt [] h = omega arith
u32_of-lt (a ∷ []) h = omega arith
u32_of-lt (a ∷ b ∷ []) h = omega arith
u32_of-lt (a ∷ b ∷ c ∷ []) h = omega arith
u32_of-lt (a ∷ b ∷ c ∷ d ∷ bs) h = omega (arith, h.0, h.1.0, h.1.1.0, h.1.1.1.0)

-- A property of the result, if there is one.
pub data OnSome {ℓ κ} {A : Type ℓ} (P : A → Type κ) : Option A → Type (ℓ ⊔ κ) where
  nothing : OnSome P none
  just : {v : A} → P v → OnSome P (some v)

pub OnSome-if {ℓ κ} :
    {A : Type ℓ} {P : A → Type κ} {x y : Option A} (b : Bool)
    → (b ≡ true → OnSome P x)
    → (b ≡ false → OnSome P y)
    → OnSome P (if b then x else y)
OnSome-if true f g = f refl
OnSome-if false f g = g refl

OnSome-just {ℓ κ} : {A : Type ℓ} {P : A → Type κ} {v : A} → OnSome P (some v) → P v
OnSome-just (just p) = p

pub OnSome-some {ℓ κ} :
    {A : Type ℓ} {P : A → Type κ} {x : Option A} {v : A} → x ≡ some v → OnSome P x → P v
OnSome-some {P = P} e h = OnSome-just (subst (OnSome P) e h)

pub NameResult-cases :
    (r : NameResult)
    → ((n : Bytes) × (k : ℕ) × (r ≡ name_ok n k)) ⊎ ((r ≡ name_bad) ⊎ (r ≡ out_of_fuel))
NameResult-cases (name_ok n k) = inl (n, k, refl)
NameResult-cases name_bad = inr (inl refl)
NameResult-cases out_of_fuel = inr (inr refl)

pub decode_name-IsEncodable :
    (packet : Bytes) (at : ℕ) {n : Bytes} {k : ℕ}
    → decode_name packet at ≡ name_ok n k
    → IsEncodable n
decode_name-IsEncodable packet at {n} {k} h =
    let s = (decode_name-Stands_iff packet at n k).0 h in
    record {
      labels = s.labels;
      are_labels = Wire-IsLabel s.wire;
      name_is = s.name_is;
      room = s.room;
    }

-- Its numbers are within their types, and it is an OPT record only where one may be.
abbrev pub IsAccepted : ℕ → Bool → Bool → Record → Type 0
IsAccepted t add seen r =
    IsWords r × (r.type ≡ t) × ((not (t == DnsType.opt) || add && not seen) ≡ true)

module _ (packet : Bytes) (bytes : All IsByte packet) where
  pub u16-at : (at : ℕ) → u16_of (drop at packet) < 65536
  u16-at at = u16_of-lt (drop at packet) (All-drop at packet bytes)

  pub u16-later : (n at : ℕ) → u16_of (drop n (drop at packet)) < 65536
  u16-later n at =
      u16_of-lt (drop n (drop at packet)) (All-drop n (drop at packet) (All-drop at packet bytes))

  u32-at : (at : ℕ) → u32_of (drop at packet) < 2 ^ 32
  u32-at at = u32_of-lt (drop at packet) (All-drop at packet bytes)

  pub u32-later : (n at : ℕ) → u32_of (drop n (drop at packet)) < 2 ^ 32
  u32-later n at =
      u32_of-lt (drop n (drop at packet)) (All-drop n (drop at packet) (All-drop at packet bytes))

  -- ## RDATA

  parse_mx-AreWords : (at rdlen : ℕ) → OnSome AreWords (parse_mx packet at rdlen)
  unfolding parse_mx
  parse_mx-AreWords at rdlen =
      OnSome-if (ltb rdlen 3) (λ _. nothing)
        λ _. elim (Option-cases (last_name packet (at + rdlen) (at + 2))) [
          | inl e ↦ rw e nothing
          | inr (n, e) ↦ rw e (just (mx_words (u16-at at)))
        ]

  parse_soa-AreWords : (at rdlen : ℕ) → OnSome AreWords (parse_soa packet at rdlen)
  unfolding parse_soa
  parse_soa-AreWords at rdlen = elim (Option-cases (decode_rdata_name packet (at + rdlen) at)) [
    | inl e ↦ rw (e, parse_soa) nothing
    | inr (p, e) ↦ elim (Option-cases (decode_rdata_name packet (at + rdlen) p.1)) [
      | inl e' ↦ rw (e, parse_soa, e') nothing
      | inr (q, e') ↦
          rw (e, parse_soa, e')
            (OnSome-if (not (at + rdlen - q.1 == 20)) (λ _. nothing)
              λ _. just (
                soa_words (u32-at q.1) (u32-later 4 q.1) (u32-later 8 q.1) (u32-later 12 q.1)
                  (u32-later 16 q.1)))
    ]
  ]

  parse_https-AreWords : (at rdlen : ℕ) → OnSome AreWords (parse_https packet at rdlen)
  unfolding parse_https
  parse_https-AreWords at rdlen =
      OnSome-if (ltb rdlen 3) (λ _. nothing)
        λ _. elim (Option-cases (decode_rdata_name packet (at + rdlen) (at + 2))) [
          | inl e ↦ rw e nothing
          | inr (p, e) ↦
              let params = take (at + rdlen - p.1) (drop p.1 packet) in
              rw e (
                OnSome-if (are_params (length params) true 0 params)
                  (λ _. just (https_words (u16-at at))) (λ _. nothing))
        ]

  set_sp-IsAccepted :
      (t : ℕ) (add seen : Bool) (r : Record) (v : Option Rdata)
      → IsAccepted t add seen r
      → OnSome AreWords v
      → OnSome (IsAccepted t add seen) (set_sp r v)
  unfolding set_sp
  set_sp-IsAccepted t add seen r none h w = nothing
  set_sp-IsAccepted t add seen r (some v) (words, same, opt) (just w) = just (
    record {
      type_fits = words.type_fits;
      clas_fits = words.clas_fits;
      ttl_fits = words.ttl_fits;
      rdata_fits = w;
    },
    same,
    opt,
  )

  set_name-IsAccepted :
      (t : ℕ) (add seen : Bool) (r : Record) (kind : Bytes → Rdata) (n : Option Bytes)
      → IsAccepted t add seen r
      → ((m : Bytes) → AreWords (kind m))
      → OnSome (IsAccepted t add seen) (set_name r kind n)
  unfolding set_name
  set_name-IsAccepted t add seen r kind none h w = nothing
  set_name-IsAccepted t add seen r kind (some n) (words, same, opt) w = just (
    record {
      type_fits = words.type_fits;
      clas_fits = words.clas_fits;
      ttl_fits = words.ttl_fits;
      rdata_fits = w n;
    },
    same,
    opt,
  )

  copied :
      (t : ℕ) (add seen : Bool) (r : Record) (bs : Bytes) (c : Bool)
      → IsAccepted t add seen r
      → IsAccepted t add seen (record r { bin = bs; cacheable = c })
  copied t add seen r bs c (words, same, opt) = (
    record {
      type_fits = words.type_fits;
      clas_fits = words.clas_fits;
      ttl_fits = words.ttl_fits;
      rdata_fits = words.rdata_fits;
    },
    same,
    opt,
  )

  pub parse_rdata-IsAccepted :
      (at rdlen : ℕ) (add seen : Bool) (r : Record)
      → IsWords r
      → OnSome (IsAccepted r.type add seen) (parse_rdata packet at rdlen add seen r)
  unfolding parse_rdata
  parse_rdata-IsAccepted at rdlen add seen r w =
      let raw = take rdlen (drop at packet) in
      let copy = copied r.type add seen r raw in
      let named = set_name-IsAccepted r.type add seen r in
      let numbered = set_sp-IsAccepted r.type add seen r in
      OnSome-if (r.type == DnsType.a)
        (λ t.
          OnSome-if (not (rdlen == 4)) (λ _. nothing)
            (λ _. just (copy r.cacheable (w, refl, ground arith))))
        λ f0.
          OnSome-if (r.type == DnsType.aaaa)
            (λ t.
              OnSome-if (not (rdlen == 16)) (λ _. nothing)
                (λ _. just (copy r.cacheable (w, refl, ground arith))))
            λ f1.
              OnSome-if (r.type == DnsType.cname)
                (λ t. named cname _ (w, refl, ground arith) (λ m. cname_words))
                λ f2.
                  OnSome-if (r.type == DnsType.ptr)
                    (λ t. named ptr _ (w, refl, ground arith) (λ m. ptr_words))
                    λ f3.
                      OnSome-if (r.type == DnsType.ns)
                        (λ t. named ns _ (w, refl, ground arith) (λ m. ns_words))
                        λ f4.
                          OnSome-if (r.type == DnsType.mx)
                            (λ t. numbered _ (w, refl, ground arith) (parse_mx-AreWords at rdlen))
                            λ f5.
                              OnSome-if (r.type == DnsType.soa)
                                (λ t.
                                  numbered _ (w, refl, ground arith) (parse_soa-AreWords at rdlen))
                                λ f6.
                                  OnSome-if (r.type == DnsType.https)
                                    (λ t.
                                      numbered _ (w, refl, ground arith)
                                        (parse_https-AreWords at rdlen))
                                    λ f7.
                                      OnSome-if (r.type == DnsType.txt)
                                        (λ t.
                                          OnSome-if (rdlen == 0) (λ _. nothing)
                                            λ _.
                                              OnSome-if (are_strings (length raw) raw)
                                                (λ _.
                                                  just (copy r.cacheable (w, refl, ground arith)))
                                                (λ _. nothing))
                                        λ f8.
                                          OnSome-if (r.type == DnsType.opt)
                                            (λ t.
                                              OnSome-if (not add || not (is_empty r.name) || seen)
                                                (λ _. nothing)
                                                λ k.
                                                  OnSome-if (are_options (length raw) raw)
                                                    (λ _.
                                                      just
                                                        (copy r.cacheable (w, refl, ground arith)))
                                                    (λ _. nothing))
                                            λ f9. just (
                                              copy (not (has_pointer at raw))
                                                (w, refl, ground arith))

-- ===== src/Local/Passes.antt =====
-- What is asked of the cache and of the forwarders, and what the answers have in common.
use behind.Base.{
  ℕ, ◌≡◌, ◌⊎◌, inl, inr, refl, Bool, true, false, not, ◌||◌, Option, none, some, [], ◌∷◌, Bytes,
  ◌==◌, if-rule, arith, codes,
}
use behind.Message.{Question, Message, class_in, is_empty}
use behind.Message.DnsType
use behind.Misc.{strtolower, ends_with}
use behind.Response.{set_edns0, client_edns_payload}
use behind.Cache.{Cache, find as cache_find}
use behind.DomainFilter.{Kind, find as filter_find}
use behind.Local.{
  Addr, find_host, find_host_name_by_addr, parse_ptr_query_addr, accept_dns_type, has_cache, Known,
}
use behind.Local.Query.{
  LocalAnswer, sent, negative, addresses, block_reverse, answer_addr, answer_ptr, answer_host,
  answer_kind, cached_answer, reply_from_cache, first_known, process_local_query,
}

abbrev pub IsReply : Message → Question → Message → Type 0
IsReply received q m = (m.header.id ≡ received.header.id) × (m.questions ≡ q ∷ [])

abbrev pub blocks : Kind → ℕ → Bool
blocks Kind.nxdomain t = true
blocks Kind.nodata t = true
blocks Kind.nodata_aaaa t = t == DnsType.aaaa
blocks Kind.normal t = false

abbrev AreReplies : Message → Question → Option Message → Type 0
AreReplies received q none = Unit
AreReplies received q (some m) = IsReply received q m

module _ {Regex : Type 0} (matches : Regex → Bytes → Option Bool) (o : Known Regex) where
  -- Neither the hosts nor the filter have an answer, and the type is served.
  pub record Passes (q : Question) : Type 0 where
    pub accepted : accept_dns_type q.type ≡ true
    pub no_host : find_host o.hosts q.name ≡ none
    pub not_blocked : blocks (filter_find matches o.domain_filter q.name) q.type ≡ false

  abbrev pub PassesUnlessForeign : Question → Type 0
  PassesUnlessForeign q = ((not (q.clas == class_in) || is_empty q.name) ≡ true) ⊎ Passes q

  abbrev pub IsLocal : Message → Question → LocalAnswer → Type 0
  IsLocal received q (LocalAnswer.known m) = IsReply received q m
  IsLocal received q (LocalAnswer.from_cache m) = Passes q × IsReply received q m
  IsLocal received q LocalAnswer.not_local = PassesUnlessForeign q

  sent-IsReply :
      (received : Message) (q : Question) (m : Message)
      → IsReply received q m
      → IsReply received q (sent matches o received m)
  unfolding set_edns0
  sent-IsReply received q m h =
      if-rule (IsReply received q) (client_edns_payload o.edns0_buffer_size received == 0) (λ e. h)
        (λ e. h)

  negative-IsReply :
      (received : Message) (q : Question) (code : ℕ)
      → IsReply received q (negative matches o received q code)
  negative-IsReply received q code = sent-IsReply received q _ (refl, refl)

  answer_host-AreReplies :
      (received : Message) (q : Question) (a : Option Addr)
      → AreReplies received q (answer_host matches o received q a)
  answer_host-AreReplies received q none = tt
  answer_host-AreReplies received q (some addr) =
      if-rule (IsReply received q) _ {x = addresses matches o received q addr}
        {y = negative matches o received q 0} (λ e. sent-IsReply received q _ (refl, refl))
        (λ e. negative-IsReply received q 0)

  answer_host-none :
      (received : Message) (q : Question) (a : Option Addr)
      → answer_host matches o received q a ≡ none
      → a ≡ none
  answer_host-none received q none e = refl
  answer_host-none received q (some addr) e = absurd (ground arith)

  answer_kind-AreReplies :
      (received : Message) (q : Question) (k : Kind)
      → AreReplies received q (answer_kind matches o received q k)
  answer_kind-AreReplies received q Kind.nxdomain = negative-IsReply received q 3
  answer_kind-AreReplies received q Kind.nodata = negative-IsReply received q 0
  answer_kind-AreReplies received q Kind.nodata_aaaa =
      if-rule (AreReplies received q) (q.type == DnsType.aaaa) (λ e. negative-IsReply received q 0)
        (λ e. tt)
  answer_kind-AreReplies received q Kind.normal = tt

  answer_kind-none :
      (received : Message) (q : Question) (k : Kind)
      → answer_kind matches o received q k ≡ none
      → blocks k q.type ≡ false
  answer_kind-none received q Kind.nxdomain e = absurd (ground arith)
  answer_kind-none received q Kind.nodata e = absurd (ground arith)
  answer_kind-none received q Kind.nodata_aaaa e = ground arith
  answer_kind-none received q Kind.normal e = refl

  block_reverse-AreReplies :
      (received : Message) (q : Question)
      → AreReplies received q (block_reverse matches o received q)
  block_reverse-AreReplies received q =
      if-rule (AreReplies received q) (ends_with (strtolower q.name) (codes ".f.ip6.arpa"))
        (λ e. negative-IsReply received q 3) (λ e. tt)

  answer_addr-AreReplies :
      (received : Message) (q : Question) (a : Option Addr)
      → AreReplies received q (answer_addr matches o received q a)
  answer_addr-AreReplies received q none = block_reverse-AreReplies received q
  answer_addr-AreReplies received q (some addr) =
      if-rule (AreReplies received q) (is_empty (find_host_name_by_addr o.hosts addr))
        (λ e. block_reverse-AreReplies received q) (λ e. sent-IsReply received q _ (refl, refl))

  answer_ptr-AreReplies :
      (received : Message) (q : Question) → AreReplies received q (answer_ptr matches o received q)
  unfolding answer_ptr
  answer_ptr-AreReplies received q =
      if-rule (AreReplies received q) (q.type == DnsType.ptr)
        (λ e. answer_addr-AreReplies received q (parse_ptr_query_addr q.name)) (λ e. tt)

  cached_answer-IsLocal :
      (received : Message) (q : Question) (x : Cache × Option Message)
      → Passes q
      → IsLocal received q (cached_answer matches o received q x).1
  cached_answer-IsLocal received q (c, none) p = inr p
  cached_answer-IsLocal received q (c, some item) p = (p, sent-IsReply received q _ (refl, refl))

  reply_from_cache-IsLocal :
      (c : Cache) (now : ℕ) (received : Message) (q : Question)
      → Passes q
      → IsLocal received q (reply_from_cache matches o c now received q).1
  unfolding reply_from_cache
  reply_from_cache-IsLocal c now received q p =
      if-rule {A = Cache × LocalAnswer} (λ x. IsLocal received q x.1) (has_cache q.type)
        (λ e. cached_answer-IsLocal received q (cache_find c now q.name q.type q.clas) p)
        (λ e. inr p)

  first_known-IsLocal :
      (c : Cache) (received : Message) (q : Question) (name host kind : Option Message)
      (rest : Cache × LocalAnswer)
      → AreReplies received q name
      → AreReplies received q host
      → AreReplies received q kind
      → (host ≡ none → kind ≡ none → IsLocal received q rest.1)
      → IsLocal received q (first_known matches o c name host kind rest).1
  first_known-IsLocal c received q (some m) host kind rest n h k r = n
  first_known-IsLocal c received q none (some m) kind rest n h k r = h
  first_known-IsLocal c received q none none (some m) rest n h k r = k
  first_known-IsLocal c received q none none none rest n h k r = r refl refl

  -- An answer that is sent has the id and the question of the query. The cache and the forwarders
  -- are asked only for names that are in no host table and that the filter does not block for the
  -- type, which is one that is served; or, the forwarders, for another class or the root.
  pub process_local_query-IsLocal :
      (c : Cache) (now : ℕ) (received : Message) (q : Question)
      → IsLocal received q (process_local_query matches o c now received q).1
  unfolding process_local_query
  process_local_query-IsLocal c now received q =
      if-rule {A = Cache × LocalAnswer} (λ x. IsLocal received q x.1)
        (not (q.clas == class_in) || is_empty q.name) (λ e. inl e)
        λ e.
          if-rule {A = Cache × LocalAnswer} (λ x. IsLocal received q x.1)
            (not (accept_dns_type q.type)) (λ t. negative-IsReply received q 0)
            λ served.
              first_known-IsLocal c received q _ _ _ _ (answer_ptr-AreReplies received q)
                (answer_host-AreReplies received q (find_host o.hosts q.name))
                (answer_kind-AreReplies received q (filter_find matches o.domain_filter q.name))
                (λ h k. reply_from_cache-IsLocal c now received q (record {
                  accepted = ground arith;
                  no_host = answer_host-none received q (find_host o.hosts q.name) h;
                  not_blocked =
                      answer_kind-none received q (filter_find matches o.domain_filter q.name) k;
                }))

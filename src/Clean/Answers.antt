-- ===== src/Clean/Answers.antt =====
-- The cleaning ends what is out of time and loses no one who waits.
use behind.Base.{
  ℕ, ◌≡◌, ◌≢◌, ◌⊎◌, inl, inr, refl, sym, ap, ◌∙◌, Bool, true, false, ◌||◌, ◌==◌, if◌then◌else◌,
  some, List, [], ◌∷◌, ◌++◌, map, append_assoc, append-nil, arith, Bytes, All, All-mono, All-zip,
  Bool-cases, bytes_eq, bytes_eq_iff, ==_iff,
}
use mathlib.Core.Path.{subst}
use behind.Response.{set_edns0}
use behind.Udp.{
  Udp, UdpQuery, Waiter, count, has_entry, pending_find, is_udp_query_active,
  finish_udp_transaction,
}
use behind.Udp.Index.{All-has_entry}
use behind.Udp.Valid.{IsEntry, IsValid, transaction_of}
use behind.Udp.Finish.{finish_udp_transaction-Finished}
use behind.Udp.Linked.{AreLinked, finish_udp_transaction-Ended}
use behind.Clean.{
  is_out_of_time, expired_udp_queries, failure_of, Reply, reply_to, Cleaned, expire_udp_query,
  expire_udp_queries, clean_expired_udp,
}

All-pending_find :
    (P : Bytes × ℕ → Type 0) (k : Bytes) (p : ℕ) (es : List (Bytes × ℕ))
    → All P es
    → pending_find k es ≡ some p
    → P (k, p)
unfolding pending_find
All-pending_find P k p [] h e = absurd (ground arith)
All-pending_find P k p ((j, r) ∷ es) h e = elim (Bool-cases (bytes_eq j k)) [
  | inl t ↦
      let same : j ≡ k = (bytes_eq_iff j k).0 t in
      let object : r ≡ p = ground arith in subst P (λ i. (same i, object i)) h.0
  | inr f ↦ All-pending_find P k p es h.1 (ground arith)
]

-- A client that waits for a query is sent SERVFAIL, with its own id and the name as it asked, for
-- the type and the class of the query, and with no answers and no authorities.
pub record IsFailure (query : UdpQuery) (w : Waiter) (r : Reply) : Type 0 where
  pub to : r.0 ≡ w
  pub id : r.1.header.id ≡ w.requester_id
  pub flags : r.1.header.flags ≡ 0x8182
  pub question :
      r.1.questions ≡ record { name = w.request_name; type = query.type; clas = query.clas } ∷ []
  pub answers : r.1.answers ≡ []
  pub authorities : r.1.authorities ≡ []

-- One of them for each, in their order.
abbrev pub AreFailures : UdpQuery → List Waiter → List Reply → Type 0
AreFailures query [] [] = Unit
AreFailures query (w ∷ ws) (r ∷ rs) = IsFailure query w r × AreFailures query ws rs
AreFailures query _ _ = ⊥

-- Everyone who waits in the entry `p` is sent the failure of a query that the entry waits for.
pub record AreAnswered (queries : ℕ → UdpQuery) (p : ℕ) (ws : List Waiter) (replies : List Reply)
    : Type 0 where
  pub query : ℕ
  pub waited_for : (queries query).pending ≡ p
  pub before : List Reply
  pub told : List Reply
  pub after : List Reply
  pub replies_are : replies ≡ before ++ (told ++ after)
  pub failures : AreFailures (queries query) ws told

AreAnswered-append :
    {queries : ℕ → UdpQuery} {p : ℕ} {ws : List Waiter} (rs more : List Reply)
    → AreAnswered queries p ws rs
    → AreAnswered queries p ws (rs ++ more)
AreAnswered-append rs more h = record {
  query = h.query;
  waited_for = h.waited_for;
  before = h.before;
  told = h.told;
  after = h.after ++ more;
  replies_are =
      ap (λ x. x ++ more) h.replies_are
      ∙ append_assoc h.before (h.told ++ h.after) more
      ∙ ap (◌++◌ h.before) (append_assoc h.told h.after more);
  failures = h.failures;
}

reply_to-IsFailure :
    (b : ℕ) (query : UdpQuery) (w : Waiter) → IsFailure query w (reply_to b (failure_of query) w)
unfolding reply_to set_edns0
reply_to-IsFailure b query w = elim (Bool-cases (w.udp_payload == 0)) [
  | inl e ↦ rw e (record {
    to = refl;
    id = refl;
    flags = refl;
    question = refl;
    answers = refl;
    authorities = refl;
  })
  | inr e ↦ rw e (record {
    to = refl;
    id = refl;
    flags = refl;
    question = refl;
    answers = refl;
    authorities = refl;
  })
]

map-AreFailures :
    (b : ℕ) (query : UdpQuery) (ws : List Waiter)
    → AreFailures query ws (map (reply_to b (failure_of query)) ws)
map-AreFailures b query [] = tt
map-AreFailures b query (w ∷ ws) = (reply_to-IsFailure b query w, map-AreFailures b query ws)

-- From one state to another, whoever waits goes on waiting or is answered.
abbrev pub AreServed : Udp → Cleaned → Type 0
AreServed s d =
    (k : Bytes) (p : ℕ)
    → pending_find k s.pending_udp ≡ some p
    → (pending_find k d.udp.pending_udp ≡ some p)
      ⊎ AreAnswered s.queries p (s.pendings p).waiters d.replies

-- Queries that are still to be looked at.
abbrev is_among : ℕ → List ℕ → Bool
is_among q [] = false
is_among q (r ∷ rs) = r == q || is_among q rs

abbrev IsDue : ℕ → Udp → List ℕ → ℕ × ℕ → Type 0
IsDue now s qs e = (is_out_of_time now (s.queries e.1) ≡ false) ⊎ (is_among e.1 qs ≡ true)

-- What a round does.
record Pass (b : ℕ) (c d : Cleaned) (q : ℕ) : Type 1 where
  valid : IsValid d.udp
  links : AreLinked d.udp
  pendings_same : d.udp.pendings ≡ c.udp.pendings
  queries_same : d.udp.queries ≡ c.udp.queries
  more : List Reply
  replies_are : d.replies ≡ c.replies ++ more
  served : AreServed c.udp d
  entries : (P : ℕ × ℕ → Type 0) → All P c.udp.by_local_txid → All P d.udp.by_local_txid
  gone : All (λ e. e.1 ≢ q) d.udp.by_local_txid

not_entry :
    (t q : ℕ) (es : List (ℕ × ℕ)) → has_entry t q es ≡ false → All (λ e. e.0 ≡ t → e.1 ≢ q) es
unfolding has_entry
not_entry t q [] h = tt
not_entry t q ((j, r) ∷ es) h = (λ e f. ground arith, not_entry t q es (ground arith))

none_of : (t : ℕ) (es : List (ℕ × ℕ)) → count t es ≡ 0 → All (λ e. e.0 ≢ t) es
unfolding count
none_of t [] h = tt
none_of t ((j, r) ∷ es) h = (λ e. ground arith, none_of t es (ground arith))

module _ (b : ℕ) (c : Cleaned) (q : ℕ) (v : IsValid c.udp) (links : AreLinked c.udp) where
  abbrev own : ℕ
  own = (c.udp.queries q).local_transaction_id

  Pass-idle : is_udp_query_active c.udp q ≡ false → Pass b c c q
  unfolding is_udp_query_active
  Pass-idle idle = record {
    valid = v;
    links = links;
    pendings_same = refl;
    queries_same = refl;
    more = [];
    replies_are = sym (append-nil c.replies);
    served = λ k p found. inl found;
    entries = λ P h. h;
    gone =
        All-mono _ _ c.udp.by_local_txid
          (λ e h f. h.1 (sym h.0.own_id ∙ ap (λ x. (c.udp.queries x).local_transaction_id) f) f)
          (All-zip _ _ c.udp.by_local_txid v.entries (not_entry own q c.udp.by_local_txid idle));
  }

  Pass-active : is_udp_query_active c.udp q ≡ true → Pass b c (expire_udp_query b c q) q
  unfolding is_udp_query_active expire_udp_query
  Pass-active active =
      let f = finish_udp_transaction-Finished c.udp own v in
      let e = finish_udp_transaction-Ended c.udp own v links in
      let query = c.udp.queries q in
      let here : (own == own) ≡ true = (==_iff own own).1 refl in
      let nothing : (if own == own then 0 else count own c.udp.by_local_txid) ≡ 0 = rw here refl in
      let told = map (reply_to b (failure_of query)) (c.udp.pendings query.pending).waiters in
      let own_entry = All-has_entry (IsEntry c.udp) own q c.udp.by_local_txid v.entries active in
      rw (active, expire_udp_query)
        (record {
          valid = f.valid;
          links = e.links;
          pendings_same = e.pendings_same;
          queries_same = e.queries_same;
          more = told;
          replies_are = refl;
          served = λ k p found. elim (Bool-cases (transaction_of c.udp p == own)) [
            | inr other ↦ inl (e.keeps k p found (λ same. ground arith))
            | inl t ↦
                let same : transaction_of c.udp p ≡ own = ground arith in
                let is : query.pending ≡ p =
                  All-pending_find _ k p c.udp.pending_udp own_entry.owner found same in
                inr (record {
                  query = q;
                  waited_for = is;
                  before = c.replies;
                  told = told;
                  after = [];
                  replies_are = ap (◌++◌ c.replies) (sym (append-nil _));
                  failures =
                      subst (λ x. AreFailures query (c.udp.pendings x).waiters told) is
                        (map-AreFailures b query (c.udp.pendings query.pending).waiters);
                })
          ];
          entries = e.entries;
          gone =
              All-mono _ _ (finish_udp_transaction c.udp own).by_local_txid
                (λ x h g. h.1 (
                  sym h.0.own_id
                  ∙ ap (λ y. ((finish_udp_transaction c.udp own).queries y).local_transaction_id) g
                  ∙ ap (λ y. (y q).local_transaction_id) e.queries_same))
                (All-zip _ _ (finish_udp_transaction c.udp own).by_local_txid f.valid.entries (
                  none_of own (finish_udp_transaction c.udp own).by_local_txid
                    (f.counts own ∙ nothing)));
        })

expire_udp_query-Pass :
    (b : ℕ) (c : Cleaned) (q : ℕ)
    → IsValid c.udp
    → AreLinked c.udp
    → Pass b c (expire_udp_query b c q) q
unfolding expire_udp_query
expire_udp_query-Pass b c q v links = elim (Bool-cases (is_udp_query_active c.udp q)) [
  | inl active ↦ Pass-active b c q v links active
  | inr idle ↦ rw (idle, expire_udp_query) (Pass-idle b c q v links idle)
]

-- What the rounds over a list of queries do.
record Passes (b now : ℕ) (c d : Cleaned) : Type 0 where
  valid : IsValid d.udp
  links : AreLinked d.udp
  more : List Reply
  replies_are : d.replies ≡ c.replies ++ more
  served : AreServed c.udp d
  done : All (λ e. is_out_of_time now (d.udp.queries e.1) ≡ false) d.udp.by_local_txid

expire_udp_queries-Passes :
    (b now : ℕ) (qs : List ℕ) (c : Cleaned)
    → IsValid c.udp
    → AreLinked c.udp
    → All (IsDue now c.udp qs) c.udp.by_local_txid
    → Passes b now c (expire_udp_queries b c qs)
expire_udp_queries-Passes b now [] c v links due = record {
  valid = v;
  links = links;
  more = [];
  replies_are = sym (append-nil c.replies);
  served = λ k p found. inl found;
  done =
      All-mono _ _ c.udp.by_local_txid (λ e h. elim h [ inl x ↦ x | inr y ↦ absurd (ground arith) ])
        due;
}
expire_udp_queries-Passes b now (q ∷ qs) c v links due =
    let d = expire_udp_query b c q in
    let r = expire_udp_query-Pass b c q v links in
    let left = r.entries (IsDue now c.udp (q ∷ qs)) due in
    let due' : All (IsDue now d.udp qs) d.udp.by_local_txid =
      All-mono _ _ d.udp.by_local_txid
        (λ e h. elim h.0 [
          | inl x ↦ inl (ap (λ y. is_out_of_time now (y e.1)) r.queries_same ∙ x)
          | inr y ↦ inr (let n = h.1 in ground arith)
        ])
        (All-zip _ _ d.udp.by_local_txid left r.gone) in
    let ih = expire_udp_queries-Passes b now qs d r.valid r.links due' in
    record {
      valid = ih.valid;
      links = ih.links;
      more = r.more ++ ih.more;
      replies_are =
          ih.replies_are
          ∙ ap (λ x. x ++ ih.more) r.replies_are
          ∙ append_assoc c.replies r.more ih.more;
      served = λ k p found. elim (r.served k p found) [
        | inl stays ↦ elim (ih.served k p stays) [
          | inl x ↦ inl x
          | inr y ↦ inr (
              subst
                (λ x.
                  AreAnswered x p (c.udp.pendings p).waiters (expire_udp_queries b d qs).replies)
                r.queries_same
                (subst
                  (λ h.
                    AreAnswered d.udp.queries p (h p).waiters (expire_udp_queries b d qs).replies)
                  r.pendings_same y))
        ]
        | inr told ↦ inr (
            subst (AreAnswered c.udp.queries p (c.udp.pendings p).waiters) (sym ih.replies_are)
              (AreAnswered-append d.replies ih.more told))
      ];
      done = ih.done;
    }

expired_udp_queries-IsDue :
    (now : ℕ) (s : Udp) (es : List (ℕ × ℕ))
    → All (IsDue now s (expired_udp_queries now s.queries es)) es
unfolding expired_udp_queries
expired_udp_queries-IsDue now s [] = tt
expired_udp_queries-IsDue now s ((k, q) ∷ es) =
    let ih = expired_udp_queries-IsDue now s es in
    let rest = expired_udp_queries now s.queries es in
    elim (Bool-cases (is_out_of_time now (s.queries q))) [
      | inr f ↦
          let e : expired_udp_queries now s.queries ((k, q) ∷ es) ≡ rest =
            rw (f, expired_udp_queries) refl in
          subst (λ l. All (IsDue now s l) ((k, q) ∷ es)) (sym e) (inl f, ih)
      | inl t ↦
          let e : expired_udp_queries now s.queries ((k, q) ∷ es) ≡ q ∷ rest =
            rw (t, expired_udp_queries) refl in
          subst (λ l. All (IsDue now s l) ((k, q) ∷ es)) (sym e)
            (
              inr (ground (arith, ==_iff q q)),
              All-mono _ _ es (λ x h. elim h [ inl a ↦ inl a | inr c ↦ inr (ground arith) ]) ih,
            )
    ]

-- What the cleaning leaves.
pub record IsCleaned (now : ℕ) (s : Udp) (d : Cleaned) : Type 0 where
  pub valid : IsValid d.udp
  pub links : AreLinked d.udp
  pub done : All (λ e. is_out_of_time now (d.udp.queries e.1) ≡ false) d.udp.by_local_txid
  pub served : AreServed s d

-- The cleaning of a valid state keeps the invariants and leaves no query in flight that is out of
-- time; and whoever waited either goes on waiting under the same key or is sent SERVFAIL to its own
-- question, with all who waited beside it.
pub clean_expired_udp-IsCleaned :
    (buffer_size now : ℕ) (s : Udp)
    → IsValid s
    → AreLinked s
    → IsCleaned now s (clean_expired_udp buffer_size now s)
unfolding clean_expired_udp
clean_expired_udp-IsCleaned b now s v links =
    let r =
      expire_udp_queries-Passes b now (expired_udp_queries now s.queries s.by_local_txid)
        (record { udp = s; failures = []; replies = [] }) v links
        (expired_udp_queries-IsDue now s s.by_local_txid) in
    record { valid = r.valid; links = r.links; done = r.done; served = r.served }

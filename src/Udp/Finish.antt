-- ===== src/Udp/Finish.antt =====
-- The end of queries: `finish_udp_query` and `finish_udp_transaction`.
use behind.Base.{
  ℕ, ◌<◌, ◌≡◌, ◌≢◌, ◌⊎◌, inl, inr, refl, sym, ap, ◌∙◌, Bool, true, false, ◌&&◌, ◌==◌, if◌then◌else◌,
  Option, none, some, List, [], ◌∷◌, arith, Bytes, All, All-mono, All-zip, Bool-cases, bytes_eq,
  bytes_eq_iff, length,
}
use mathlib.Core.Path.{subst}
use behind.Udp.{
  Udp, count, siblings, pending_find, pending_erase, erase_entry, has_entry, is_orphan,
  finish_udp_query, finish_udp_transaction, finish_all, release_txid, remove_txid, leave_channel,
  udp_socket_txid_key, is_udp_query_active,
}
use behind.Udp.Index.{
  All-erase_entry, All-has_entry, All-pending_erase, count-erase_entry, pending_find-erase,
  siblings-cons, siblings-count,
}
use behind.Udp.Valid.{IsEntry, IsWaiting, IsValid, transaction_of}

last_case :
    {p : ℕ} (o : Option ℕ) (n pending : ℕ)
    → o ≡ some p
    → (n == 0 && elim o [ none ↦ false | some r ↦ r == pending ]) ≡ false
    → pending ≡ p
    → 0 < n
last_case none n pending e h k = absurd (cc)
last_case (some r) n pending e h k = ground arith

module _ (s : Udp) (q : ℕ) (v : IsValid s) (active : is_udp_query_active s q ≡ true) where
  abbrev t : ℕ
  t = (s.queries q).local_transaction_id

  abbrev key : Bytes
  key = (s.pendings (s.queries q).pending).key

  abbrev left : List (ℕ × ℕ)
  left = erase_entry t q s.by_local_txid

  entry : IsEntry s (t, q)
  unfolding is_udp_query_active
  entry = All-has_entry (IsEntry s) t q s.by_local_txid v.entries active

  -- Whoever waits for this transaction waits under the key that is looked up.
  own :
      (w : Bytes × ℕ)
      → IsWaiting none s w
      → (transaction_of s w.1 ≡ t → (s.queries q).pending ≡ w.1)
      → (transaction_of s w.1 ≢ t)
        ⊎ ((transaction_of s w.1 ≡ t) × ((s.queries q).pending ≡ w.1) × (key ≡ w.0))
  own w h o = elim (Bool-cases (transaction_of s w.1 == t)) [
    | inl same ↦
        let e : transaction_of s w.1 ≡ t = ground arith in
        let p = o e in inr (e, p, ap (λ p. (s.pendings p).key) p ∙ h.own_key)
    | inr other ↦ inl (λ e. ground arith)
  ]

  -- The state behind the end of the query, by whether the waiting entry goes too.
  abbrev after : Bool → Udp
  after b = record s {
    channels = leave_channel (s.queries q).channel_fd s.channels;
    by_local_txid = left;
    by_socket_txid =
        erase_entry (udp_socket_txid_key (s.queries q).channel_fd (s.queries q).upstream_id) q
          s.by_socket_txid;
    pending_udp = if b then pending_erase key s.pending_udp else s.pending_udp;
    active_txids = remove_txid (s.queries q).forwarder (s.queries q).upstream_id s.active_txids;
  }

  abbrev orphan : Bool
  orphan = is_orphan left s.pending_udp (s.queries q) key

  pub finish_udp_query-after : finish_udp_query s q ≡ after orphan
  unfolding finish_udp_query release_txid
  finish_udp_query-after = refl

  kept-IsEntry : (e : ℕ × ℕ) → IsEntry s e → IsEntry (after false) e
  kept-IsEntry e h = record { own_id = h.own_id; old = h.old; before = h.before; owner = h.owner }

  dropped-IsEntry : (e : ℕ × ℕ) → IsEntry s e → IsEntry (after true) e
  dropped-IsEntry e h = record {
    own_id = h.own_id;
    old = h.old;
    before = h.before;
    owner =
        All-mono _ _ (pending_erase key s.pending_udp) (λ w x. x.1)
          (All-pending_erase _ key s.pending_udp h.owner);
  }

  pending_kept :
      (w : Bytes × ℕ)
      → orphan ≡ false
      → pending_find key s.pending_udp ≡ some w.1
      → (s.queries q).pending ≡ w.1
      → 0 < count t left
  pending_kept w o found same =
      last_case (pending_find key s.pending_udp) (count t left) (s.queries q).pending found o same

  kept-IsWaiting :
      orphan ≡ false
      → (w : Bytes × ℕ)
      → IsWaiting none s w × (transaction_of s w.1 ≡ t → (s.queries q).pending ≡ w.1)
      → IsWaiting none (after false) w
  kept-IsWaiting o w (h, owner) = record {
    own_key = h.own_key;
    found = h.found;
    old = h.old;
    before = h.before;
    live = inr (elim (own w h owner) [
      | inl other ↦
          omega (arith, count-erase_entry t q (transaction_of s w.1) s.by_local_txid other, live)
      | inr mine ↦
          let here : pending_find key s.pending_udp ≡ some w.1 =
            ap (λ k. pending_find k s.pending_udp) mine.2 ∙ h.found in
          let others : 0 < count t left = pending_kept w o here mine.1 in
          subst (λ n. 0 < count n left) (sym mine.0) others
    ]);
  }
    where
      live : 0 < count (transaction_of s w.1) s.by_local_txid
      live = elim h.live [ inl e ↦ absurd (cc) | inr l ↦ l ]

  dropped-IsWaiting :
      orphan ≡ true
      → (w : Bytes × ℕ)
      → (bytes_eq w.0 key ≡ false)
        × (IsWaiting none s w × (transaction_of s w.1 ≡ t → (s.queries q).pending ≡ w.1))
      → IsWaiting none (after true) w
  dropped-IsWaiting o w (far, (h, owner)) = record {
    own_key = h.own_key;
    found = pending_find-erase key w.0 s.pending_udp far ∙ h.found;
    old = h.old;
    before = h.before;
    live = inr (elim (own w h owner) [
      | inl other ↦
          omega (arith, count-erase_entry t q (transaction_of s w.1) s.by_local_txid other, live)
      | inr mine ↦ absurd (ground (arith, mine.2, bytes_eq_iff w.0 key))
    ]);
  }
    where
      live : 0 < count (transaction_of s w.1) s.by_local_txid
      live = elim h.live [ inl e ↦ absurd (cc) | inr l ↦ l ]

  facts :
      All
        (λ w. IsWaiting none s w × (transaction_of s w.1 ≡ t → (s.queries q).pending ≡ w.1))
        s.pending_udp
  facts = All-zip _ _ s.pending_udp v.waiting entry.owner

  -- Ending a query in flight keeps the invariant.
  pub finish_udp_query-IsValid : IsValid (finish_udp_query s q)
  finish_udp_query-IsValid = subst IsValid (sym finish_udp_query-after) (elim (Bool-cases orphan) [
    | inl last ↦
        subst (λ b. IsValid (after b)) (sym last)
          (record {
            entries =
                All-mono _ _ left dropped-IsEntry (All-erase_entry _ t q s.by_local_txid v.entries);
            waiting =
                All-mono _ _ (pending_erase key s.pending_udp) (dropped-IsWaiting last)
                  (All-pending_erase _ key s.pending_udp facts);
          })
    | inr more ↦
        subst (λ b. IsValid (after b)) (sym more)
          (record {
            entries =
                All-mono _ _ left kept-IsEntry (All-erase_entry _ t q s.by_local_txid v.entries);
            waiting = All-mono _ _ s.pending_udp (kept-IsWaiting more) facts;
          })
  ])

-- What is left behind the end of a transaction: nothing of it, and all of the others.
pub record Finished (id : ℕ) (s d : Udp) : Type 0 where
  pub valid : IsValid d
  pub unwaited : All (λ w. transaction_of d w.1 ≢ id) d.pending_udp
  pub counts : (t : ℕ) → count t d.by_local_txid ≡ (if t == id then 0 else count t s.by_local_txid)

-- Without queries in flight, no one waits.
unwaited_of :
    (id : ℕ) (s : Udp)
    → IsValid s
    → siblings id s.by_local_txid ≡ []
    → All (λ w. transaction_of s w.1 ≢ id) s.pending_udp
unwaited_of id s v h = All-mono _ _ s.pending_udp idle v.waiting
  where
    nobody : count id s.by_local_txid ≡ 0
    nobody = sym (siblings-count id s.by_local_txid) ∙ ap length h

    idle : (w : Bytes × ℕ) → IsWaiting none s w → transaction_of s w.1 ≢ id
    idle w h = λ e. elim h.live [
      | inl f ↦ absurd (cc)
      | inr l ↦ absurd (omega (arith, nobody, ap (λ t. count t s.by_local_txid) e, l))
    ]

counts_of :
    (id : ℕ) (es : List (ℕ × ℕ))
    → siblings id es ≡ []
    → (t : ℕ) → count t es ≡ (if t == id then 0 else count t es)
counts_of id es h t = elim (Bool-cases (t == id)) [
  | inl same ↦
      let t_is : t ≡ id = ground arith in
      rw same (ap (λ t. count t es) t_is ∙ sym (siblings-count id es) ∙ ap length h)
  | inr other ↦ rw other refl
]

finish_all-Finished :
    (id : ℕ) (qs : List ℕ) (s : Udp)
    → IsValid s
    → siblings id s.by_local_txid ≡ qs
    → Finished id s (finish_all s qs)
finish_all-Finished id [] s v h = record {
  valid = v;
  unwaited = unwaited_of id s v h;
  counts = counts_of id s.by_local_txid h;
}
finish_all-Finished id (q ∷ qs) s v h =
    let (here, rest) = siblings-cons id q qs s.by_local_txid h in
    let own = (All-has_entry (IsEntry s) id q s.by_local_txid v.entries here).own_id in
    let active : is_udp_query_active s q ≡ true =
      unfold is_udp_query_active in ap (λ t. has_entry t q s.by_local_txid) own ∙ here in
    let is = finish_udp_query-after s q v active in
    let entries : (finish_udp_query s q).by_local_txid ≡ erase_entry id q s.by_local_txid =
      ap (λ s. s.by_local_txid) is ∙ ap (λ t. erase_entry t q s.by_local_txid) own in
    let ih =
      finish_all-Finished id qs (finish_udp_query s q) (finish_udp_query-IsValid s q v active)
        (ap (siblings id) entries ∙ rest) in
    record {
      valid = ih.valid;
      unwaited = ih.unwaited;
      counts =
          λ t. ih.counts t ∙ ap (λ n. if t == id then 0 else n) (ap (count t) entries) ∙ without t;
    }
  where
    without :
        (t : ℕ)
        → (if t == id then 0 else count t (erase_entry id q s.by_local_txid))
          ≡ (if t == id then 0 else count t s.by_local_txid)
    without t = elim (Bool-cases (t == id)) [
      | inl same ↦ rw same refl
      | inr other ↦ rw other (count-erase_entry id q t s.by_local_txid (λ e. ground arith))
    ]

-- Ending a transaction keeps the invariant, takes all of its queries out of the index and none of
-- another transaction, and leaves no one waiting for it.
pub finish_udp_transaction-Finished :
    (s : Udp) (id : ℕ) → IsValid s → Finished id s (finish_udp_transaction s id)
unfolding finish_udp_transaction
finish_udp_transaction-Finished s id v = finish_all-Finished id _ s v refl

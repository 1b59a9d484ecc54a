-- ===== src/Udp/Process.antt =====
-- `process_query_udp` keeps the invariant of the queries in flight.
use behind.Base.{
  ℕ, ◌+◌, ◌%◌, ◌^◌, ◌<◌, ◌≡◌, ◌⊎◌, inl, inr, refl, sym, ap, ◌∙◌, ◌==◌, if◌then◌else◌, none, some,
  List, [], ◌∷◌, arith, Bytes, All-mono, All-zip, Bool-cases, bytes_eq, bytes_eq_iff,
}
use mathlib.Core.Path.{subst}
use behind.Udp.{Udp, Waiter, count, pending_find, pending_erase, set}
use behind.Udp.Ask.{add_waiter}
use behind.Udp.Index.{All-pending_erase, pending_find-erase}
use behind.Udp.Valid.{IsEntry, IsWaiting, IsValid, IsValidBut, transaction_of}
use behind.Udp.Start.{IsOnly, set-same, set-before}

pub pending_find-first :
    (k : Bytes) (p : ℕ) (es : List (Bytes × ℕ)) → pending_find k ((k, p) ∷ es) ≡ some p
unfolding pending_find
pending_find-first k p es = ground (arith, bytes_eq_iff k k)

pending_find-behind :
    (k l : Bytes) (p : ℕ) (es : List (Bytes × ℕ)) (r : ℕ)
    → pending_find k es ≡ none
    → pending_find l es ≡ some r
    → pending_find l ((k, p) ∷ es) ≡ some r
unfolding pending_find
pending_find-behind k l p es r h g = elim (Bool-cases (bytes_eq k l)) [
  | inl same ↦
      absurd (ground (arith, ap (λ x. pending_find x es) ((bytes_eq_iff k l).0 same), h, g))
  | inr other ↦ ground (arith, other, g)
]

live_of :
    (s : Udp) (x : Bytes × ℕ)
    → IsWaiting none s x
    → 0 < count (transaction_of s x.1) s.by_local_txid
live_of s x h = elim h.live [ inl e ↦ absurd (cc) | inr l ↦ l ]

some_injective : {A : Type 0} {x y : A} → some x ≡ some y → x ≡ y
some_injective h = cc

-- A further waiter of an object that waits.
module _ (s : Udp) (p : ℕ) (w : Waiter) (v : IsValid s) where
  abbrev pub joined : Udp
  joined = record s { pendings = set s.pendings p (add_waiter (s.pendings p) w) }

  joined-transaction : (i : ℕ) → transaction_of joined i ≡ transaction_of s i
  joined-transaction i = elim (Bool-cases (i == p)) [
    | inl same ↦
        ap (λ b. (if b then add_waiter (s.pendings p) w else s.pendings i).transaction_id) same
        ∙ ap (λ i. (s.pendings i).transaction_id) (ground arith)
    | inr other ↦
        ap (λ b. (if b then add_waiter (s.pendings p) w else s.pendings i).transaction_id) other
  ]

  joined-key : (i : ℕ) → (joined.pendings i).key ≡ (s.pendings i).key
  joined-key i = elim (Bool-cases (i == p)) [
    | inl same ↦
        ap (λ b. (if b then add_waiter (s.pendings p) w else s.pendings i).key) same
        ∙ ap (λ i. (s.pendings i).key) (ground arith)
    | inr other ↦ ap (λ b. (if b then add_waiter (s.pendings p) w else s.pendings i).key) other
  ]

  pub joined-IsValid : IsValid joined
  joined-IsValid = record {
    entries =
        All-mono _ _ s.by_local_txid
          (λ e h. record {
            own_id = h.own_id;
            old = h.old;
            before = h.before;
            owner =
                All-mono _ _ s.pending_udp (λ x f k. f (sym (joined-transaction x.1) ∙ k)) h.owner;
          })
          v.entries;
    waiting =
        All-mono _ _ s.pending_udp
          (λ x h. record {
            own_key = joined-key x.1 ∙ h.own_key;
            found = h.found;
            old = h.old;
            before =
                subst (λ n. n < s.local_transaction_id) (sym (joined-transaction x.1)) h.before;
            live =
                subst (λ n. (none ≡ some n) ⊎ (0 < count n s.by_local_txid))
                  (sym (joined-transaction x.1)) h.live;
          })
          v.waiting;
  }

-- A new transaction, before any query of it is sent.
module _ (s : Udp) (key : Bytes) (w : Waiter) (v : IsValid s)
    (missing : pending_find key s.pending_udp ≡ none)
    (more : s.local_transaction_id + 1 < 2 ^ 32) where
  abbrev pub opened : Udp
  opened = record s {
    local_transaction_id = (s.local_transaction_id + 1) % 2 ^ 32;
    pendings =
        set s.pendings s.next_pending
          (record { key = key; transaction_id = s.local_transaction_id; waiters = w ∷ [] });
    next_pending = s.next_pending + 1;
    pending_udp = (key, s.next_pending) ∷ s.pending_udp;
  }

  pub new_pending :
      opened.pendings s.next_pending
      ≡ record { key = key; transaction_id = s.local_transaction_id; waiters = w ∷ [] }
  new_pending = set-same s.pendings s.next_pending _

  old_pending : (i : ℕ) → i < s.next_pending → opened.pendings i ≡ s.pendings i
  old_pending i h = set-before s.pendings s.next_pending i _ h

  old_transaction : (i : ℕ) → i < s.next_pending → transaction_of opened i ≡ transaction_of s i
  old_transaction i h = ap (λ x. x.transaction_id) (old_pending i h)

  pub opened-counter : opened.local_transaction_id ≡ s.local_transaction_id + 1
  opened-counter = omega arith

  pub opened-IsValidBut : IsValidBut (some s.local_transaction_id) opened
  opened-IsValidBut = record {
    entries = All-mono _ _ s.by_local_txid entry_kept v.entries;
    waiting = (first, All-mono _ _ s.pending_udp waiting_kept v.waiting);
  }
    where
      entry_kept : (e : ℕ × ℕ) → IsEntry s e → IsEntry opened e
      entry_kept e h = record {
        own_id = h.own_id;
        old = h.old;
        before = omega (arith, h.before, opened-counter);
        owner = (
          λ k. absurd (omega (arith, h.before, ap (λ x. x.transaction_id) new_pending, k)),
          All-mono _ _ s.pending_udp (λ x f k. f.1 (sym (old_transaction x.1 f.0.old) ∙ k))
              (All-zip _ _ s.pending_udp v.waiting h.owner),
        );
      }

      first : IsWaiting (some s.local_transaction_id) opened (key, s.next_pending)
      first = record {
        own_key = ap (λ x. x.key) new_pending;
        found = pending_find-first key s.next_pending s.pending_udp;
        old = omega arith;
        before = omega (arith, ap (λ x. x.transaction_id) new_pending, opened-counter);
        live = inl (ap (λ x. some x.transaction_id) (sym new_pending));
      }

      waiting_kept :
          (x : Bytes × ℕ) → IsWaiting none s x → IsWaiting (some s.local_transaction_id) opened x
      waiting_kept x h = record {
        own_key = ap (λ y. y.key) (old_pending x.1 h.old) ∙ h.own_key;
        found = pending_find-behind key x.0 s.next_pending s.pending_udp x.1 missing h.found;
        old = omega (arith, h.old);
        before = omega (arith, h.before, old_transaction x.1 h.old, opened-counter);
        live =
            subst (λ n. (some s.local_transaction_id ≡ some n) ⊎ (0 < count n s.by_local_txid))
              (sym (old_transaction x.1 h.old)) (inr (live_of s x h));
      }

  pub opened-IsOnly : IsOnly s.local_transaction_id s.next_pending opened
  opened-IsOnly = (
    λ e. refl,
    All-mono _ _ s.pending_udp
        (λ x h k. absurd (omega (arith, h.before, old_transaction x.1 h.old, k))) v.waiting,
  )

-- What is left when no query was sent: without the new entry.
module _ (d : Udp) (id p : ℕ) (key : Bytes) (v : IsValidBut (some id) d) (only : IsOnly id p d)
    (own : (d.pendings p).key ≡ key) where
  abbrev dropped : Udp
  dropped = record d { pending_udp = pending_erase key d.pending_udp }

  pub dropped-IsValid : IsValid dropped
  dropped-IsValid = record {
    entries =
        All-mono _ _ d.by_local_txid
          (λ e h. record {
            own_id = h.own_id;
            old = h.old;
            before = h.before;
            owner =
                All-mono _ _ (pending_erase key d.pending_udp) (λ w x. x.1)
                  (All-pending_erase _ key d.pending_udp h.owner);
          })
          v.entries;
    waiting =
        All-mono _ _ (pending_erase key d.pending_udp)
          (λ w x. record {
            own_key = x.1.0.own_key;
            found = pending_find-erase key w.0 d.pending_udp x.0 ∙ x.1.0.found;
            old = x.1.0.old;
            before = x.1.0.before;
            live = elim x.1.0.live [
              | inr l ↦ inr l
              | inl e ↦
                  let same : p ≡ w.1 = x.1.1 (some_injective (sym e)) in
                  let k : key ≡ w.0 = sym own ∙ ap (λ p. (d.pendings p).key) same ∙ x.1.0.own_key in
                  absurd (ground (arith, x.0, k, bytes_eq_iff w.0 key))
            ];
          })
          (All-pending_erase _ key d.pending_udp (All-zip _ _ d.pending_udp v.waiting only));
  }

pub sent-IsValid :
    (d : Udp) (id : ℕ) → IsValidBut (some id) d → 0 < count id d.by_local_txid → IsValid d
sent-IsValid d id v some_left = record {
  entries =
      All-mono _ _ d.by_local_txid
        (λ e h. record { own_id = h.own_id; old = h.old; before = h.before; owner = h.owner })
        v.entries;
  waiting =
      All-mono _ _ d.pending_udp
        (λ w h. record {
          own_key = h.own_key;
          found = h.found;
          old = h.old;
          before = h.before;
          live = inr (elim h.live [
            | inr l ↦ l
            | inl e ↦ subst (λ n. 0 < count n d.by_local_txid) (some_injective e) some_left
          ]);
        })
        v.waiting;
}

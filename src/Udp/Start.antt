-- ===== src/Udp/Start.antt =====
-- The start of queries: `forward_udp`.
use behind.Base.{
  ℕ, ◌<◌, ◌≡◌, inl, inr, refl, sym, ap, ◌∙◌, some, List, [], ◌∷◌, arith, Bytes, All, All-mono,
  Bool-cases, Option-cases, leb,
}
use mathlib.Core.Path.{subst}
use behind.Message.{Question}
use behind.Udp.{Udp, UdpQuery, count, set, draw_txid}
use behind.Udp.Ask.{
  Attempt, Options, register, note_txid, with_channel, forward_over, forward_udp, forward_all,
  active_task_count,
}
use behind.Udp.Valid.{IsEntry, IsWaiting, IsValidBut, transaction_of}

-- All that waits for transaction `id` is the object `p`.
abbrev pub IsOnly : ℕ → ℕ → Udp → Type 0
IsOnly id p s = All (λ w. transaction_of s w.1 ≡ id → p ≡ w.1) s.pending_udp

pub set-same : {A : Type 0} (h : ℕ → A) (i : ℕ) (a : A) → set h i a i ≡ a
set-same h i a = ground arith

pub set-before : {A : Type 0} (h : ℕ → A) (i j : ℕ) (a : A) → j < i → set h i a j ≡ h j
set-before h i j a lt = ground arith

count-cons : (t k q : ℕ) (es : List (ℕ × ℕ)) → 0 < count t es → 0 < count t ((k, q) ∷ es)
unfolding count
count-cons t k q es h = ground arith

-- What an attempt keeps.
pub record Kept (id p : ℕ) (s d : Udp) : Type 0 where
  pub valid : IsValidBut (some id) d
  pub only : IsOnly id p d
  pub pendings_same : d.pendings ≡ s.pendings
  pub pending_udp_same : d.pending_udp ≡ s.pending_udp
  pub counter_same : d.local_transaction_id ≡ s.local_transaction_id

module _ (s : Udp) (query : UdpQuery) (v : IsValidBut (some query.local_transaction_id) s)
    (only : IsOnly query.local_transaction_id query.pending s)
    (before : query.local_transaction_id < s.local_transaction_id) where
  register-Kept : Kept query.local_transaction_id query.pending s (register s query)
  unfolding register
  register-Kept = record {
    valid = record {
      entries = (fresh, All-mono _ _ s.by_local_txid older v.entries);
      waiting = All-mono _ _ s.pending_udp waits v.waiting;
    };
    only = only;
    pendings_same = refl;
    pending_udp_same = refl;
    counter_same = refl;
  }
    where
      fresh : IsEntry (register s query) (query.local_transaction_id, s.next_query)
      fresh = record {
        own_id = ap (λ x. x.local_transaction_id) (set-same s.queries s.next_query query);
        old = omega arith;
        before = before;
        owner =
            All-mono _ _ s.pending_udp
              (λ w o e. ap (λ x. x.pending) (set-same s.queries s.next_query query) ∙ o e) only;
      }

      older : (e : ℕ × ℕ) → IsEntry s e → IsEntry (register s query) e
      older e h =
          let old = set-before s.queries s.next_query e.1 query h.old in
          record {
            own_id = ap (λ x. x.local_transaction_id) old ∙ h.own_id;
            old = omega (arith, h.old);
            before = h.before;
            owner = All-mono _ _ s.pending_udp (λ w o k. ap (λ x. x.pending) old ∙ o k) h.owner;
          }

      waits :
          (w : Bytes × ℕ)
          → IsWaiting (some query.local_transaction_id) s w
          → IsWaiting (some query.local_transaction_id) (register s query) w
      waits w h = record {
        own_key = h.own_key;
        found = h.found;
        old = h.old;
        before = h.before;
        live = elim h.live [ inl e ↦ inl e | inr l ↦ inr (count-cons _ _ _ s.by_local_txid l) ];
      }

module _ (id p : ℕ) (s : Udp) (v : IsValidBut (some id) s) (only : IsOnly id p s) where
  Kept-same : Kept id p s s
  Kept-same = record {
    valid = v;
    only = only;
    pendings_same = refl;
    pending_udp_same = refl;
    counter_same = refl;
  }

  Kept-note_txid : (addr : Bytes) (txid now : ℕ) → Kept id p s (note_txid s addr txid now)
  unfolding note_txid
  Kept-note_txid addr txid now = record {
    valid = record {
      entries =
          All-mono _ _ s.by_local_txid
            (λ e h. record { own_id = h.own_id; old = h.old; before = h.before; owner = h.owner })
            v.entries;
      waiting =
          All-mono _ _ s.pending_udp
            (λ w h. record {
              own_key = h.own_key;
              found = h.found;
              old = h.old;
              before = h.before;
              live = h.live;
            })
            v.waiting;
    };
    only = only;
    pendings_same = refl;
    pending_udp_same = refl;
    counter_same = refl;
  }

  Kept-with_channel : (fd : ℕ) → Kept id p s (with_channel s fd)
  unfolding with_channel
  Kept-with_channel fd = record {
    valid = record {
      entries =
          All-mono _ _ s.by_local_txid
            (λ e h. record { own_id = h.own_id; old = h.old; before = h.before; owner = h.owner })
            v.entries;
      waiting =
          All-mono _ _ s.pending_udp
            (λ w h. record {
              own_key = h.own_key;
              found = h.found;
              old = h.old;
              before = h.before;
              live = h.live;
            })
            v.waiting;
    };
    only = only;
    pendings_same = refl;
    pending_udp_same = refl;
    counter_same = refl;
  }

Kept-trans : (id p : ℕ) (s d e : Udp) → Kept id p s d → Kept id p d e → Kept id p s e
Kept-trans id p s d e h k = record {
  valid = k.valid;
  only = k.only;
  pendings_same = k.pendings_same ∙ h.pendings_same;
  pending_udp_same = k.pending_udp_same ∙ h.pending_udp_same;
  counter_same = k.counter_same ∙ h.counter_same;
}

module _ (o : Options) (question : Question) (id p : ℕ) where
  forward_over-Kept :
      (s : Udp) (a : Attempt) (fd : ℕ)
      → IsValidBut (some id) s
      → IsOnly id p s
      → id < s.local_transaction_id
      → Kept id p s (forward_over o s question id p a fd)
  unfolding forward_over
  forward_over-Kept s a fd v only before =
      elim (Option-cases (draw_txid a.forwarder s.active_txids a.draws)) [
        | inl f ↦ rw (f, forward_over) (Kept-same id p s v only)
        | inr (txid, f) ↦
            let t = note_txid s a.forwarder txid a.now in
            let noted = Kept-note_txid id p s v only a.forwarder txid a.now in
            elim (Bool-cases a.sent) [
              | inr unsent ↦ rw (f, forward_over) (rw unsent noted)
              | inl sent ↦
                  rw (f, forward_over)
                    (rw sent (
                      Kept-trans id p s t _ noted (
                        register-Kept t _ noted.valid noted.only
                          (subst (λ n. id < n) (sym noted.counter_same) before))))
            ]
      ]

  forward_udp-Kept :
      (s : Udp) (a : Attempt)
      → IsValidBut (some id) s
      → IsOnly id p s
      → id < s.local_transaction_id
      → Kept id p s (forward_udp o s question id p a)
  unfolding forward_udp
  forward_udp-Kept s a v only before = elim (Bool-cases (leb o.max_tasks (active_task_count s))) [
    | inl full ↦ rw (forward_udp, full) (Kept-same id p s v only)
    | inr room ↦ elim (Option-cases a.channel) [
      | inl e ↦ rw (forward_udp, room) (rw e (Kept-same id p s v only))
      | inr (fd, e) ↦
          let opened = Kept-with_channel id p s v only fd in
          rw (forward_udp, room)
            (rw e (
              Kept-trans id p s (with_channel s fd) _ opened (
                forward_over-Kept (with_channel s fd) a fd opened.valid opened.only
                  (subst (λ n. id < n) (sym opened.counter_same) before))))
    ]
  ]

  pub forward_all-Kept :
      (as' : List Attempt) (s : Udp)
      → IsValidBut (some id) s
      → IsOnly id p s
      → id < s.local_transaction_id
      → Kept id p s (forward_all o s question id p as')
  forward_all-Kept [] s v only before = Kept-same id p s v only
  forward_all-Kept (a ∷ rest) s v only before =
      let h = forward_udp-Kept s a v only before in
      Kept-trans id p s (forward_udp o s question id p a) _ h (
        forward_all-Kept rest (forward_udp o s question id p a) h.valid h.only
          (subst (λ n. id < n) (sym h.counter_same) before))

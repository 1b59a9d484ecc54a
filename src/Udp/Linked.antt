-- ===== src/Udp/Linked.antt =====
-- A query in flight belongs to the waiting entry of its own transaction, and the end of one
-- transaction leaves those alone who wait for another.
use behind.Base.{
  ℕ, ◌+◌, ◌%◌, ◌^◌, ◌<◌, ◌≡◌, ◌≢◌, inl, inr, refl, sym, ap, ◌∙◌, true, false, ◌&&◌, ◌==◌, Option,
  none, some, List, [], ◌∷◌, arith, Bytes, All, All-mono, Bool-cases, Option-cases, leb, not,
  bytes_eq, bytes_eq_iff, length,
}
use mathlib.Core.Path.{subst}
use behind.Message.{Question}
use behind.Udp.{
  Udp, UdpQuery, Waiter, count, set, siblings, pending_find, erase_entry, has_entry, draw_txid,
  is_orphan, is_udp_query_active, finish_udp_query, finish_udp_transaction, finish_all,
  release_txid,
}
use behind.Udp.Ask.{
  Attempt, Options, add_waiter, register, note_txid, with_channel, forward_over, forward_udp,
  forward_all, active_task_count, process_under_key, pending_query_key, process_query_udp,
}
use behind.Udp.Index.{All-erase_entry, All-has_entry, pending_find-erase, siblings-cons}
use behind.Udp.Valid.{IsEntry, IsValid, transaction_of}
use behind.Udp.Start.{set-same, set-before}
use behind.Udp.Finish.{finish_udp_query-after, finish_udp_query-IsValid}

pub record IsLinked (s : Udp) (e : ℕ × ℕ) : Type 0 where
  pub old : e.1 < s.next_query
  pub known : (s.queries e.1).pending < s.next_pending
  pub linked : transaction_of s (s.queries e.1).pending ≡ e.0

abbrev pub AreLinked : Udp → Type 0
AreLinked s = All (IsLinked s) s.by_local_txid

-- ## Starts

-- What an attempt to ask a forwarder keeps.
record Asked (s d : Udp) : Type 0 where
  links : AreLinked d
  pendings_same : d.pendings ≡ s.pendings
  next_same : d.next_pending ≡ s.next_pending

register-AreLinked :
    (s : Udp) (q : UdpQuery)
    → AreLinked s
    → q.pending < s.next_pending
    → transaction_of s q.pending ≡ q.local_transaction_id
    → AreLinked (register s q)
unfolding register
register-AreLinked s q v known linked =
    let same = set-same s.queries s.next_query q in
    (
      record {
        old = omega arith;
        known = subst (λ x. x.pending < s.next_pending) (sym same) known;
        linked = subst (λ x. transaction_of s x.pending ≡ q.local_transaction_id) (sym same) linked;
      },
      All-mono (IsLinked s) (IsLinked (register s q)) s.by_local_txid kept v,
    )
  where
    kept : (e : ℕ × ℕ) → IsLinked s e → IsLinked (register s q) e
    kept e h =
        let same = set-before s.queries s.next_query e.1 q h.old in
        record {
          old = omega (arith, h.old);
          known = subst (λ x. x.pending < s.next_pending) (sym same) h.known;
          linked = subst (λ x. transaction_of s x.pending ≡ e.0) (sym same) h.linked;
        }

note_txid-AreLinked :
    (s : Udp) (addr : Bytes) (txid now : ℕ) → AreLinked s → AreLinked (note_txid s addr txid now)
unfolding note_txid
note_txid-AreLinked s addr txid now v =
    All-mono _ _ s.by_local_txid (λ e h. record { old = h.old; known = h.known; linked = h.linked })
      v

with_channel-AreLinked : (s : Udp) (fd : ℕ) → AreLinked s → AreLinked (with_channel s fd)
unfolding with_channel
with_channel-AreLinked s fd v =
    All-mono _ _ s.by_local_txid (λ e h. record { old = h.old; known = h.known; linked = h.linked })
      v

forward_over-Asked :
    (o : Options) (s : Udp) (question : Question) (id p : ℕ) (a : Attempt) (fd : ℕ)
    → AreLinked s
    → p < s.next_pending
    → transaction_of s p ≡ id
    → Asked s (forward_over o s question id p a fd)
unfolding forward_over register note_txid
forward_over-Asked o s question id p a fd v known linked =
    elim (Option-cases (draw_txid a.forwarder s.active_txids a.draws)) [
      | inl e' ↦
          rw (forward_over, e') (record { links = v; pendings_same = refl; next_same = refl })
      | inr (x, e') ↦
          let t = note_txid s a.forwarder x a.now in
          let w = note_txid-AreLinked s a.forwarder x a.now v in
          elim (Bool-cases (not a.sent)) [
            | inl k ↦
                rw (forward_over, e', k)
                  (record { links = w; pendings_same = refl; next_same = refl })
            | inr k ↦
                rw (forward_over, e', k)
                  (record {
                    links = register-AreLinked t _ w known linked;
                    pendings_same = refl;
                    next_same = refl;
                  })
          ]
    ]

forward_udp-Asked :
    (o : Options) (s : Udp) (question : Question) (id p : ℕ) (a : Attempt)
    → AreLinked s
    → p < s.next_pending
    → transaction_of s p ≡ id
    → Asked s (forward_udp o s question id p a)
unfolding forward_udp with_channel
forward_udp-Asked o s question id p a v known linked =
    let still : Asked s s = record { links = v; pendings_same = refl; next_same = refl } in
    elim (Bool-cases (leb o.max_tasks (active_task_count s))) [
      | inl full ↦ rw (full, forward_udp) still
      | inr room ↦ elim (Option-cases a.channel) [
        | inl e ↦ rw (room, forward_udp, e) still
        | inr (fd, e) ↦
            let k =
              forward_over-Asked o (with_channel s fd) question id p a fd
                (with_channel-AreLinked s fd v) known linked in
            rw (room, forward_udp, e)
              (record { links = k.links; pendings_same = k.pendings_same; next_same = k.next_same })
      ]
    ]

forward_all-AreLinked :
    (o : Options) (question : Question) (id p : ℕ) (as' : List Attempt) (s : Udp)
    → AreLinked s
    → p < s.next_pending
    → transaction_of s p ≡ id
    → AreLinked (forward_all o s question id p as')
forward_all-AreLinked o question id p [] s v known linked = v
forward_all-AreLinked o question id p (a ∷ rest) s v known linked =
    let k = forward_udp-Asked o s question id p a v known linked in
    forward_all-AreLinked o question id p rest (forward_udp o s question id p a) k.links
      (subst (λ n. p < n) (sym k.next_same) known)
      (ap (λ h. (h p).transaction_id) k.pendings_same ∙ linked)

abbrev opened : Udp → Bytes → Waiter → Udp
opened s key w = record s {
  local_transaction_id = (s.local_transaction_id + 1) % 2 ^ 32;
  pendings =
      set s.pendings s.next_pending
        (record { key = key; transaction_id = s.local_transaction_id; waiters = w ∷ [] });
  next_pending = s.next_pending + 1;
  pending_udp = (key, s.next_pending) ∷ s.pending_udp;
}

opened-AreLinked : (s : Udp) (key : Bytes) (w : Waiter) → AreLinked s → AreLinked (opened s key w)
opened-AreLinked s key w v =
    All-mono _ _ s.by_local_txid
      (λ x h. record {
        old = h.old;
        known = omega (arith, h.known);
        linked =
            ap (λ y. y.transaction_id)
              (set-before s.pendings s.next_pending (s.queries x.1).pending _ h.known)
            ∙ h.linked;
      })
      v

joined-AreLinked :
    (s : Udp) (p : ℕ) (w : Waiter)
    → AreLinked s
    → AreLinked (record s { pendings = set s.pendings p (add_waiter (s.pendings p) w) })
joined-AreLinked s p w v =
    All-mono _ _ s.by_local_txid
      (λ x h. record {
        old = h.old;
        known = h.known;
        linked = same (s.queries x.1).pending ∙ h.linked;
      })
      v
  where
    same :
        (i : ℕ)
        → (set s.pendings p (add_waiter (s.pendings p) w) i).transaction_id
          ≡ (s.pendings i).transaction_id
    same i = elim (Bool-cases (i == p)) [
      | inl t ↦
          let e : i ≡ p = ground arith in rw t (ap (λ j. (s.pendings j).transaction_id) (sym e))
      | inr f ↦ rw f refl
    ]

process_under_key-AreLinked :
    (o : Options) (s : Udp) (question : Question) (key : Bytes) (w : Waiter) (as' : List Attempt)
    → AreLinked s
    → AreLinked (process_under_key o s question key w as').0
unfolding process_under_key
process_under_key-AreLinked o s question key w [] v = v
process_under_key-AreLinked o s question key w (a ∷ rest) v =
    elim (Option-cases (pending_find key s.pending_udp)) [
      | inr (p, e) ↦ elim (Bool-cases (leb 200 (length (s.pendings p).waiters))) [
        | inl full ↦ rw (e, process_under_key) (rw full v)
        | inr room ↦ rw (e, process_under_key) (rw room (joined-AreLinked s p w v))
      ]
      | inl e ↦
          let t =
            forward_all o (opened s key w) question s.local_transaction_id s.next_pending
              (a ∷ rest) in
          let k =
            forward_all-AreLinked o question s.local_transaction_id s.next_pending (a ∷ rest)
              (opened s key w) (opened-AreLinked s key w v) (omega arith)
              (ap (λ x. x.transaction_id) (set-same s.pendings s.next_pending _)) in
          elim (Bool-cases (count s.local_transaction_id t.by_local_txid == 0)) [
            | inl unsent ↦
                rw (e, process_under_key)
                  (rw unsent (
                    All-mono _ _ t.by_local_txid
                      (λ x h. record { old = h.old; known = h.known; linked = h.linked }) k))
            | inr sent ↦ rw (e, process_under_key) (rw sent k)
          ]
    ]

pub process_query_udp-AreLinked :
    (o : Options) (s : Udp) (question : Question) (w : Waiter) (as' : List Attempt)
    → AreLinked s
    → AreLinked (process_query_udp o s question w as').0
unfolding process_query_udp
process_query_udp-AreLinked o s question w as' v =
    process_under_key-AreLinked o s question (pending_query_key question) w as' v

-- ## Ends

module _ (s : Udp) (q : ℕ) (v : IsValid s) (active : is_udp_query_active s q ≡ true)
    (links : AreLinked s) where
  abbrev own : ℕ
  own = (s.queries q).local_transaction_id

  pub finish_udp_query-AreLinked : AreLinked (finish_udp_query s q)
  finish_udp_query-AreLinked = subst AreLinked (sym (finish_udp_query-after s q v active)) (
      All-mono _ _ (erase_entry own q s.by_local_txid)
        (λ x h. record { old = h.old; known = h.known; linked = h.linked })
        (All-erase_entry _ own q s.by_local_txid links))

  -- An entry that waits for another transaction goes on waiting.
  finish_udp_query-keeps :
      (k : Bytes) (p : ℕ)
      → pending_find k s.pending_udp ≡ some p
      → transaction_of s p ≢ own
      → pending_find k (finish_udp_query s q).pending_udp ≡ some p
  unfolding finish_udp_query release_txid is_udp_query_active
  finish_udp_query-keeps k p found other =
      let mine = (All-has_entry (IsLinked s) own q s.by_local_txid links active).linked in
      let key = (s.pendings (s.queries q).pending).key in
      let left = erase_entry own q s.by_local_txid in
      elim (Bool-cases (is_orphan left s.pending_udp (s.queries q) key)) [
        | inr more ↦ rw more found
        | inl last ↦
            let differ : bytes_eq k key ≡ false = elim (Bool-cases (bytes_eq k key)) [
              | inr f ↦ f
              | inl t ↦
                  let same : k ≡ key = (bytes_eq_iff k key).0 t in
                  let here : pending_find key s.pending_udp ≡ some p =
                    ap (λ x. pending_find x s.pending_udp) (sym same) ∙ found in
                  let p_is : p ≡ (s.queries q).pending =
                    found_pending (pending_find key s.pending_udp) (count own left)
                      (s.queries q).pending here last in
                  absurd (other (ap (transaction_of s) p_is ∙ mine))
            ] in
            rw last (pending_find-erase key k s.pending_udp differ ∙ found)
      ]
    where
      found_pending :
          (o : Option ℕ) (n pending : ℕ)
          → o ≡ some p
          → (n == 0 && elim o [ none ↦ false | some r ↦ r == pending ]) ≡ true
          → p ≡ pending
      found_pending none n pending e h = absurd (cc)
      found_pending (some r) n pending e h = ground arith

-- What the end of transaction `id` keeps of the others.
pub record Ended (id : ℕ) (s d : Udp) : Type 1 where
  pub links : AreLinked d
  pub pendings_same : d.pendings ≡ s.pendings
  pub queries_same : d.queries ≡ s.queries
  pub entries : (P : ℕ × ℕ → Type 0) → All P s.by_local_txid → All P d.by_local_txid
  pub keeps :
      (k : Bytes) (p : ℕ)
      → pending_find k s.pending_udp ≡ some p
      → transaction_of s p ≢ id
      → pending_find k d.pending_udp ≡ some p

finish_all-Ended :
    (id : ℕ) (qs : List ℕ) (s : Udp)
    → IsValid s
    → AreLinked s
    → siblings id s.by_local_txid ≡ qs
    → Ended id s (finish_all s qs)
unfolding finish_udp_query release_txid
finish_all-Ended id [] s v links h = record {
  links = links;
  pendings_same = refl;
  queries_same = refl;
  entries = λ P h. h;
  keeps = λ k p found other. found;
}
finish_all-Ended id (q ∷ qs) s v links h =
    let (here, rest) = siblings-cons id q qs s.by_local_txid h in
    let own = (All-has_entry (IsEntry s) id q s.by_local_txid v.entries here).own_id in
    let active : is_udp_query_active s q ≡ true =
      unfold is_udp_query_active in ap (λ t. has_entry t q s.by_local_txid) own ∙ here in
    let left : (finish_udp_query s q).by_local_txid ≡ erase_entry id q s.by_local_txid =
      ap (λ t. erase_entry t q s.by_local_txid) own in
    let ih =
      finish_all-Ended id qs (finish_udp_query s q) (finish_udp_query-IsValid s q v active)
        (finish_udp_query-AreLinked s q v active links) (ap (siblings id) left ∙ rest) in
    record {
      links = ih.links;
      pendings_same = ih.pendings_same;
      queries_same = ih.queries_same;
      entries = λ P h. ih.entries P (All-erase_entry P _ q s.by_local_txid h);
      keeps = λ k p found other.
          ih.keeps k p (finish_udp_query-keeps s q v active links k p found (λ e. other (e ∙ own)))
            other;
    }

-- The end of a transaction leaves every entry that waits for another one, and the objects.
pub finish_udp_transaction-Ended :
    (s : Udp) (id : ℕ) → IsValid s → AreLinked s → Ended id s (finish_udp_transaction s id)
unfolding finish_udp_transaction
finish_udp_transaction-Ended s id v links = finish_all-Ended id _ s v links refl

-- ===== src/Udp/Handle.antt =====
-- What `process_query_udp` leaves: a client that is not refused waits for a query in flight.
use behind.Base.{
  ℕ, ◌+◌, ◌^◌, ◌<◌, ◌≡◌, refl, ap, ◌∙◌, ◌==◌, if◌then◌else◌, none, some, List, [], ◌∷◌, ◌++◌, arith,
  Bytes, Bool-cases, Option-cases, ◌⊎◌, inl, inr, leb, length,
}
use behind.Message.{Question}
use behind.Udp.{Udp, Waiter, count, pending_find, pending_erase}
use behind.Udp.Ask.{
  Attempt, Options, Outcome, pending_query_key, process_under_key, process_query_udp, forward_all,
  add_waiter,
}
use behind.Udp.Valid.{IsValid}
use behind.Udp.Start.{Kept, forward_all-Kept, set-same}
use behind.Udp.Process.{
  joined, joined-IsValid, opened, opened-counter, opened-IsValidBut, opened-IsOnly, new_pending,
  dropped-IsValid, sent-IsValid, pending_find-first,
}

-- The client stands last among those who wait under the key.
abbrev pub Waits : Udp → Bytes → Waiter → Type 0
Waits d key w =
    (p : ℕ) × (ws : List Waiter) × (pending_find key d.pending_udp ≡ some p)
    × ((d.pendings p).waiters ≡ ws ++ (w ∷ []))

pub record Handled (key : Bytes) (w : Waiter) (r : Udp × Outcome) : Type 0 where
  pub valid : IsValid r.0
  pub waits : (r.1 ≡ Outcome.fails) ⊎ Waits r.0 key w

module _ (o : Options) (s : Udp) (question : Question) (key : Bytes) (w : Waiter) (a : Attempt)
    (rest : List Attempt) (v : IsValid s) where
  Handled-join :
      (p : ℕ)
      → pending_find key s.pending_udp ≡ some p
      → Handled key w (joined s p w v, Outcome.waits)
  Handled-join p e = record {
    valid = joined-IsValid s p w v;
    waits = inr (
      p,
      (s.pendings p).waiters,
      e,
      ap (λ x. x.waiters) (set-same s.pendings p (add_waiter (s.pendings p) w)),
    );
  }

  module _ (missing : pending_find key s.pending_udp ≡ none)
      (more : s.local_transaction_id + 1 < 2 ^ 32) where
    abbrev forwarded : Udp
    forwarded =
        forward_all o (opened s key w v missing more) question s.local_transaction_id s.next_pending
          (a ∷ rest)

    kept : Kept s.local_transaction_id s.next_pending (opened s key w v missing more) forwarded
    kept =
        forward_all-Kept o question s.local_transaction_id s.next_pending (a ∷ rest)
          (opened s key w v missing more) (opened-IsValidBut s key w v missing more)
          (opened-IsOnly s key w v missing more)
          (omega (arith, opened-counter s key w v missing more))

    object :
        forwarded.pendings s.next_pending
        ≡ record { key = key; transaction_id = s.local_transaction_id; waiters = w ∷ [] }
    object = ap (λ h. h s.next_pending) kept.pendings_same ∙ new_pending s key w v missing more

    Handled-new : Handled key w (
        if count s.local_transaction_id forwarded.by_local_txid == 0
        then (
          record forwarded { pending_udp = pending_erase key forwarded.pending_udp },
          Outcome.fails,
        )
        else (forwarded, Outcome.waits))
    Handled-new = elim (Bool-cases (count s.local_transaction_id forwarded.by_local_txid == 0)) [
      | inl unsent ↦ rw unsent (record {
        valid =
            dropped-IsValid forwarded s.local_transaction_id s.next_pending key kept.valid kept.only
              (ap (λ x. x.key) object);
        waits = inl refl;
      })
      | inr sent ↦ rw sent (record {
        valid = sent-IsValid forwarded s.local_transaction_id kept.valid (ground arith);
        waits = inr (
          s.next_pending,
          [],
          ap (pending_find key) kept.pending_udp_same
              ∙ pending_find-first key s.next_pending s.pending_udp,
          ap (λ x. x.waiters) object,
        );
      })
    ]

process_under_key-Handled :
    (o : Options) (s : Udp) (question : Question) (key : Bytes) (w : Waiter) (as' : List Attempt)
    → IsValid s
    → s.local_transaction_id + 1 < 2 ^ 32
    → Handled key w (process_under_key o s question key w as')
unfolding process_under_key
process_under_key-Handled o s question key w [] v more = record { valid = v; waits = inl refl }
process_under_key-Handled o s question key w (a ∷ rest) v more =
    elim (Option-cases (pending_find key s.pending_udp)) [
      | inl e ↦ rw (e, process_under_key) (Handled-new o s question key w a rest v e more)
      | inr (p, e) ↦ elim (Bool-cases (leb 200 (length (s.pendings p).waiters))) [
        | inl full ↦ rw (e, process_under_key) (rw full (record { valid = v; waits = inl refl }))
        | inr room ↦
            rw (e, process_under_key) (rw room (Handled-join o s question key w a rest v p e))
      ]
    ]

-- While the counter of transactions, of 32 bits, does not wrap, `process_query_udp` keeps the
-- invariant, by which a query is in flight for whoever waits, and a client that is not refused at
-- once stands last among those who wait for its question.
pub process_query_udp-Handled :
    (o : Options) (s : Udp) (question : Question) (w : Waiter) (as' : List Attempt)
    → IsValid s
    → s.local_transaction_id + 1 < 2 ^ 32
    → Handled (pending_query_key question) w (process_query_udp o s question w as')
unfolding process_query_udp
process_query_udp-Handled o s question w as' v more =
    process_under_key-Handled o s question (pending_query_key question) w as' v more

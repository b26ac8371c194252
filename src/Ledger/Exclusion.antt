-- ===== src/Ledger/Exclusion.antt =====
-- `Claim` and `Complete` of the ledger in memory, over sequences of calls.
use planning_poker.Base.{
  ℕ, ◌+◌, ◌≤◌, ◌<◌, String, ◌≡◌, ◌∙◌, ◌≢◌, inl, inr, true, false, some, List, [], ◌∷◌, arith, ltb,
  if◌then◌else◌, All, str_eq, eq_iff, Bool-cases, Option-cases,
}
use planning_poker.Base.Maps.{lookup, insert, delete, lookup-insert, lookup-delete}
use planning_poker.Ledger.{
  Entry, Ledger, acquired, completed, in_progress, reserve, claim, complete, Call, claims,
  completes, step, steps,
}

-- The key has an entry that lasts until the time, at least.
record Holds (until : ℕ) (key : String) (l : Ledger) : Type 0 where
  entry : Entry
  found : lookup key l.entries ≡ some entry
  lasts : until ≤ entry.expires_at

-- A call in the time from `start` to `until`.
abbrev pub IsBetween : ℕ → ℕ → ℕ × Call → Type 0
IsBetween start until (now, _) = (start ≤ now) × (now < until)

reserve-Holds :
    (now : ℕ) (key : String) (l : Ledger) → Holds (now + l.pending_ttl) key (reserve now key l).0
unfolding reserve
reserve-Holds now key l = record {
  entry = record { pending = true; payload = ""; expires_at = now + l.pending_ttl };
  found = ground (
    arith,
    eq_iff key key,
    lookup-insert key key
        (record { pending = true; payload = ""; expires_at = now + l.pending_ttl }) l.entries,
  );
  lasts = omega arith;
}

claim-Holds :
    (now until : ℕ) (key j : String) (l : Ledger)
    → now < until
    → Holds until key l
    → Holds until key (claim now j l).0
unfolding claim reserve
claim-Holds now until key j l n h = record {
  entry = h.entry;
  found = ground (
    arith,
    eq_iff j key,
    h.found,
    h.lasts,
    lookup-insert j key (record { pending = true; payload = ""; expires_at = now + l.pending_ttl })
        l.entries,
    lookup-insert j key (record { pending = true; payload = ""; expires_at = now + l.pending_ttl })
        (delete j l.entries),
    lookup-delete j key l.entries,
  );
  lasts = h.lasts;
}

complete-Holds :
    (now until : ℕ) (key j outcome : String) (l : Ledger)
    → until ≤ now + l.result_ttl
    → Holds until key l
    → Holds until key (complete now j outcome l)
unfolding complete
complete-Holds now until key j outcome l n h =
    let new : Entry = record {
      pending = false;
      payload = outcome;
      expires_at = now + l.result_ttl;
    } in
    record {
      entry = if str_eq j key then new else h.entry;
      found = ground (arith, lookup-insert j key new l.entries, h.found);
      lasts = ground (arith, h.lasts);
    }

ttl-step :
    (now : ℕ) (c : Call) (l : Ledger)
    → ((step now c l).pending_ttl ≡ l.pending_ttl) × ((step now c l).result_ttl ≡ l.result_ttl)
unfolding step claim complete reserve
ttl-step now (claims key) l = ground arith
ttl-step now (completes key outcome) l = ground arith

step-Holds :
    (now until : ℕ) (key : String) (c : Call) (l : Ledger)
    → now < until
    → until ≤ now + l.result_ttl
    → Holds until key l
    → Holds until key (step now c l)
unfolding step
step-Holds now until key (claims j) l a b h = claim-Holds now until key j l a h
step-Holds now until key (completes j outcome) l a b h =
    complete-Holds now until key j outcome l b h

steps-Holds :
    (start until : ℕ) (key : String) (cs : List (ℕ × Call)) (l : Ledger)
    → until ≤ start + l.result_ttl
    → All (IsBetween start until) cs
    → Holds until key l
    → Holds until key (steps l cs)
unfolding steps
steps-Holds start until key [] l b w h = h
steps-Holds start until key ((now, c) ∷ cs) l b ((s, e), w) h =
    steps-Holds start until key cs (step now c l) (omega (arith, (ttl-step now c l).1)) w
      (step-Holds now until key c l e (omega arith) h)

answers_differ : (v : String) → (in_progress ≢ acquired) × (completed v ≢ acquired)
answers_differ v = (λ e. cc, λ e. cc)

claim-acquired :
    (now : ℕ) (key : String) (l : Ledger)
    → (claim now key l).1 ≡ acquired
    → Holds (now + l.pending_ttl) key (claim now key l).0
unfolding claim
claim-acquired now key l a = elim (Option-cases (lookup key l.entries)) [
  | inl e ↦ rw (claim, e) (reserve-Holds now key l)
  | inr (c, e) ↦ elim (Bool-cases (ltb now c.expires_at)) [
    | inl x ↦ absurd (ground (arith, answers_differ c.payload))
    | inr x ↦ rw (claim, e, x) (reserve-Holds now key (record l { entries = delete key l.entries }))
  ]
]

ttl-claim : (now : ℕ) (key : String) (l : Ledger) → (claim now key l).0.result_ttl ≡ l.result_ttl
unfolding claim reserve
ttl-claim now key l = ground arith

claim_held :
    (now until : ℕ) (key : String) (l : Ledger)
    → now < until
    → Holds until key l
    → (claim now key l).1 ≢ acquired
unfolding claim reserve
claim_held now until key l n h e = ground (arith, h.found, h.lasts, answers_differ h.entry.payload)

-- Once a command is reserved, no claim of it is granted before the reservation runs out, whatever
-- calls come between, if an outcome is kept at least as long as a reservation.
pub claim_once :
    (start now : ℕ) (key : String) (l : Ledger) (cs : List (ℕ × Call))
    → (claim start key l).1 ≡ acquired
    → l.pending_ttl ≤ l.result_ttl
    → All (IsBetween start (start + l.pending_ttl)) cs
    → now < start + l.pending_ttl
    → (claim now key (steps (claim start key l).0 cs)).1 ≢ acquired
claim_once start now key l cs a b w n =
    let until = start + l.pending_ttl in
    claim_held now until key (steps (claim start key l).0 cs) n (
      steps-Holds start until key cs (claim start key l).0 (omega (arith, ttl-claim start key l)) w
        (claim-acquired start key l a))

-- A command that is done is answered with its outcome until the outcome expires.
pub claim-complete :
    (done now : ℕ) (key outcome : String) (l : Ledger)
    → now < done + l.result_ttl
    → claim now key (complete done key outcome l) ≡ (complete done key outcome l, completed outcome)
unfolding claim complete
claim-complete done now key outcome l n =
    let new : Entry = record {
      pending = false;
      payload = outcome;
      expires_at = done + l.result_ttl;
    } in
    let found : lookup key (insert key new l.entries) ≡ some new =
      lookup-insert key key new l.entries ∙ ground (arith, eq_iff key key) in
    rw (claim, found) (ground arith)

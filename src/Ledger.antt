-- ===== src/Ledger.antt =====
-- internal/infra/boundaries/commandledger/inmemory/ledger.go, and its contract in
-- internal/infra/bus/ledger.go: the commands that are running or done, so that a retry is answered
-- without a second run. The mutex makes each call one step; `now` is what the clock reads in it.
pub mod Exclusion
pub mod Tests
use Prim.Native.String.{◌++◌ as concat}
use planning_poker.Base.{
  ℕ, ◌+◌, String, Bool, true, false, not, Option, none, some, List, [], ◌∷◌, ltb, if◌then◌else◌,
}
use planning_poker.Base.Maps.{StringMap, lookup, insert, delete}

pub record Entry : Type 0 where
  pub pending : Bool
  pub payload : String
  pub expires_at : ℕ

pub record Ledger : Type 0 where
  pub entries : StringMap Entry
  pub pending_ttl : ℕ
  pub result_ttl : ℕ

unfoldable pub new_ledger : ℕ → ℕ → Ledger
new_ledger pending_ttl result_ttl = record {
  entries = [];
  pending_ttl = pending_ttl;
  result_ttl = result_ttl;
}

-- The three answers of `Claim`.
pub data Answer : Type 0 where
  acquired : Answer
  completed : String → Answer
  in_progress : Answer

unfoldable pub entry_key : String → String → String → String
entry_key room_id client_id command_id =
    concat room_id (concat ":" (concat client_id (concat ":" command_id)))

-- The reservation of a key that has no entry, or an entry that has expired.
unfoldable pub reserve : ℕ → String → Ledger → Ledger × Answer
reserve now key l = (
  record l {
    entries =
        insert key (record { pending = true; payload = ""; expires_at = now + l.pending_ttl })
          l.entries;
  },
  acquired,
)

unfoldable pub claim : ℕ → String → Ledger → Ledger × Answer
claim now key l = elim (lookup key l.entries) [
  | none ↦ reserve now key l
  | some current ↦
      if not (ltb now current.expires_at)
      then reserve now key (record l { entries = delete key l.entries })
      else if current.pending
      then (l, in_progress)
      else (l, completed current.payload)
]

unfoldable pub complete : ℕ → String → String → Ledger → Ledger
complete now key outcome l = record l {
  entries =
      insert key (record { pending = false; payload = outcome; expires_at = now + l.result_ttl })
        l.entries;
}

-- A call of the ledger, and a sequence of them with the times at which they are made.
pub data Call : Type 0 where
  claims : String → Call
  completes : String → String → Call

unfoldable pub step : ℕ → Call → Ledger → Ledger
unfolding claim complete
step now (claims key) l = (claim now key l).0
step now (completes key outcome) l = complete now key outcome l

unfoldable pub steps : Ledger → List (ℕ × Call) → Ledger
unfolding step
steps l [] = l
steps l ((now, c) ∷ cs) = steps (step now c l) cs

-- ===== src/Ledger/Tests.antt =====
-- The ledger's theorems at fixed inputs.
use planning_poker.Base.{ℕ, ◌≡◌, ◌≢◌, refl, List, [], ◌∷◌, arith}
use planning_poker.Ledger.{
  Ledger, acquired, completed, claim, complete, reserve, Call, claims, completes, steps,
}
use planning_poker.Base.Maps.{lookup}
use planning_poker.Ledger.Exclusion.{claim_once, claim-complete}

abbrev empty_ledger : Ledger
empty_ledger = record { entries = []; pending_ttl = 30; result_ttl = 300 }

abbrev between : List (ℕ × Call)
between = (110, claims "k") ∷ (115, completes "j" "ok") ∷ []

claim_once_example : (claim 120 "k" (steps (claim 100 "k" empty_ledger).0 between)).1 ≢ acquired
claim_once_example =
    claim_once 100 120 "k" empty_ledger between (unfold claim reserve lookup in refl) (omega arith)
      ((omega arith, omega arith), ((omega arith, omega arith), tt)) (omega arith)

claim-complete_example :
    claim 200 "k" (complete 120 "k" "ok" empty_ledger)
    ≡ (complete 120 "k" "ok" empty_ledger, completed "ok")
claim-complete_example = claim-complete 120 200 "k" "ok" empty_ledger (omega arith)

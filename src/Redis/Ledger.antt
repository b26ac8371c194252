-- ===== src/Redis/Ledger.antt =====
-- internal/infra/boundaries/commandledger/redis/ledger.go: the ledger that the instances of the
-- program share. Each call of the server is a step of its own; what the clock and the others do
-- between two of them is `pause`.
use Prim.Native.String.{◌++◌ as concat}
use planning_poker.Base.{
  ℕ, String, ◌≡◌, ◌≢◌, ◌⊎◌, inl, inr, refl, ◌∙◌, Bool, true, false, Option, none, some, [], str_eq,
  eq_iff, arith, if◌then◌else◌, Bool-cases,
}
use planning_poker.DomainError.{Error, wrap, plain}
use planning_poker.Ledger.{acquired, completed, in_progress}
use planning_poker.Redis.Serialization.{Result, ok, err}
use planning_poker.Bus.{Claim, answers, fails, CommandLedger}

-- SET with NX and a time to live, GET (none is `redis.Nil`), and SET with a time to live.
pub record CommandStore (S : Type 0) : Type 0 where
  pub set_nx : String → String → ℕ → S → S × Result Bool
  pub get : String → S → Result (Option String)
  pub set : String → String → ℕ → S → S × Option Error
  pub pause : S → S

pub record IsCommandStore {S : Type 0} (cs : CommandStore S) : Type 0 where
  pub nx_sets :
      (k v : String) (ttl : ℕ) (s : S)
      → (cs.set_nx k v ttl s).1 ≡ ok true
      → (cs.get k s ≡ ok none) × (cs.get k (cs.set_nx k v ttl s).0 ≡ ok (some v))

unfoldable pub command_key : String → String → String → String
command_key room_id client_id command_id =
    concat "planning-poker:command:"
      (concat room_id (concat ":" (concat client_id (concat ":" command_id))))

unfoldable pub claim_failed : Error → Claim
claim_failed e = fails (wrap "claim command outcome: %w" [] e)

unfoldable pub claim_of : String → Claim
claim_of value = if str_eq value "pending" then answers in_progress else answers (completed value)

module _ {S : Type 0} (cs : CommandStore S) where
  -- The second `Get`.
  unfoldable pub get_again : String → S → Claim
  get_again key s = elim (cs.get key s) [
    | err e ↦ claim_failed e
    | ok v ↦ elim v [ none ↦ claim_failed (plain "redis: nil" []) | some value ↦ claim_of value ]
  ]

  -- The second `SetNX`, after a reservation that ran out in between.
  unfoldable pub claim_again : ℕ → String → S → S × Claim
  claim_again ttl key s =
      let (t, r) = cs.set_nx key "pending" ttl s in
      elim r [
        | err e ↦ (t, claim_failed e)
        | ok won ↦ if won then (t, answers acquired) else (cs.pause t, get_again key (cs.pause t))
      ]

  unfoldable pub read_claim : ℕ → String → S → S × Claim
  read_claim ttl key s = elim (cs.get key s) [
    | err e ↦ (s, claim_failed e)
    | ok v ↦ elim v [ none ↦ claim_again ttl key (cs.pause s) | some value ↦ (s, claim_of value) ]
  ]

  unfoldable pub claim_command : ℕ → String → S → S × Claim
  claim_command ttl key s =
      let (t, r) = cs.set_nx key "pending" ttl s in
      elim r [
        | err e ↦ (t, claim_failed e)
        | ok won ↦ if won then (t, answers acquired) else read_claim ttl key (cs.pause t)
      ]

  unfoldable pub complete_command : ℕ → String → String → S → S × Option Error
  complete_command ttl key outcome s =
      let (t, r) = cs.set key outcome ttl s in
      elim r [ none ↦ (t, none) | some e ↦ (t, some (wrap "complete command outcome: %w" [] e)) ]

-- The ledger for the bus; the server has the clock.
unfoldable pub redis_ledger : {S : Type 0} → CommandStore S → ℕ → ℕ → CommandLedger S
redis_ledger cs pending_ttl result_ttl = record {
  claim = λ now room client id s. claim_command cs pending_ttl (command_key room client id) s;
  complete = λ now room client id outcome s.
      complete_command cs result_ttl (command_key room client id) outcome s;
}

Result-cases : {A : Type 0} (x : Result A) → ((e : Error) × (x ≡ err e)) ⊎ ((a : A) × (x ≡ ok a))
Result-cases (ok a) = inr (a, refl)
Result-cases (err e) = inl (e, refl)

module _ {S : Type 0} (cs : CommandStore S) (law : IsCommandStore cs) (ttl : ℕ) (key : String) where
  -- The server after the reservation of the command was tried, and after what happens then.
  abbrev tried : S → S
  tried s = cs.pause ((cs.set_nx key "pending" ttl s).0)

  -- The server refuses the reservation, as a value is there.
  abbrev IsRefused : S → Type 0
  IsRefused s = (cs.set_nx key "pending" ttl s).1 ≡ ok false

  -- The command is reserved by this very call: its first reservation, or the one after a refusal, was
  -- made on a server that held nothing for it, and nothing happened since.
  abbrev IsReserved : S → S → Type 0
  IsReserved s t =
      (u : S) × ((u ≡ s) ⊎ (IsRefused s × (u ≡ cs.pause (tried s))))
      × (cs.get key u ≡ ok none)
      × (t ≡ (cs.set_nx key "pending" ttl u).0)
      × (cs.get key t ≡ ok (some "pending"))

  -- No reservation of this call was accepted: the first was refused, and so was the second, if there
  -- was one.
  abbrev IsOthers : S → S → Type 0
  IsOthers s t =
      IsRefused s
      × ((t ≡ tried s) ⊎ (IsRefused (cs.pause (tried s)) × (t ≡ tried (cs.pause (tried s)))))

  -- What an answer says of the call and of the server at its end.
  abbrev pub IsTrue : S → S × Claim → Type 0
  IsTrue s (t, fails e) = Unit
  IsTrue s (t, answers acquired) = IsReserved s t
  IsTrue s (t, answers in_progress) = IsOthers s t × (cs.get key t ≡ ok (some "pending"))
  IsTrue s (t, answers (completed value)) =
      IsOthers s t × (cs.get key t ≡ ok (some value)) × (value ≢ "pending")

  claim_of-IsTrue :
      (s t : S) (value : String)
      → IsOthers s t
      → cs.get key t ≡ ok (some value)
      → IsTrue s (t, claim_of value)
  unfolding claim_of
  claim_of-IsTrue s t value o e = elim (Bool-cases (str_eq value "pending")) [
    | inl p ↦ rw (claim_of, p) (o, e ∙ ground (arith, eq_iff value "pending"))
    | inr p ↦ rw (claim_of, p) (o, e, ground (arith, eq_iff value "pending"))
  ]

  get_again-IsTrue : (s t : S) → IsOthers s t → IsTrue s (t, get_again cs key t)
  unfolding get_again claim_failed
  get_again-IsTrue s t o = elim (Result-cases (cs.get key t)) [
    | inl (e, x) ↦ rw (get_again, x) tt
    | inr (none, x) ↦ rw (get_again, x) tt
    | inr (some value, x) ↦ rw (get_again, x) (claim_of-IsTrue s t value o x)
  ]

  claim_again-IsTrue :
      (s : S) → IsRefused s → IsTrue s (claim_again cs ttl key (cs.pause (tried s)))
  unfolding claim_again claim_failed
  claim_again-IsTrue s o =
      let u = cs.pause (tried s) in
      elim (Result-cases (cs.set_nx key "pending" ttl u).1) [
        | inl (e, x) ↦ rw (claim_again, x) tt
        | inr (true, x) ↦
            let (free, held) = law.nx_sets key "pending" ttl u x in
            rw (claim_again, x) (u, inr (o, refl), free, refl, held)
        | inr (false, x) ↦ rw (claim_again, x) (get_again-IsTrue s (tried u) (o, inr (x, refl)))
      ]

  read_claim-IsTrue : (s : S) → IsRefused s → IsTrue s (read_claim cs ttl key (tried s))
  unfolding read_claim claim_failed
  read_claim-IsTrue s o = elim (Result-cases (cs.get key (tried s))) [
    | inl (e, x) ↦ rw (read_claim, x) tt
    | inr (none, x) ↦ rw (read_claim, x) (claim_again-IsTrue s o)
    | inr (some value, x) ↦ rw (read_claim, x) (claim_of-IsTrue s (tried s) value (o, inl refl) x)
  ]

  -- The answer to a claim in Redis is true, with the retry and whatever happens between its steps. A
  -- command is granted only if a reservation of this call was made on a server that held nothing for
  -- it, and it then stands there as pending. It is answered to be in progress, or with an outcome,
  -- only if every reservation that the call tried was refused, and then the server holds the mark of
  -- a pending command, or that outcome, which is not the mark, at the end of the call.
  pub claim_command-IsTrue : (s : S) → IsTrue s (claim_command cs ttl key s)
  unfolding claim_command claim_failed
  claim_command-IsTrue s = elim (Result-cases (cs.set_nx key "pending" ttl s).1) [
    | inl (e, x) ↦ rw (claim_command, x) tt
    | inr (true, x) ↦
        let (free, held) = law.nx_sets key "pending" ttl s x in
        rw (claim_command, x) (s, inl refl, free, refl, held)
    | inr (false, x) ↦ rw (claim_command, x) (read_claim-IsTrue s x)
  ]

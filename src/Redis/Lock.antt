-- ===== src/Redis/Lock.antt =====
-- internal/infra/lock/redis.go: the lock of a key that the instances of the program share. A holder
-- has a token; its lock goes when it is released or when its time runs out.
use Prim.Native.String.{◌++◌ as concat}
use planning_poker.Base.{
  ℕ, zero, suc, String, ◌≡◌, inl, inr, refl, Bool, true, false, Option, none, some, [], ◌∷◌, str_eq,
  eq_iff, arith, if◌then◌else◌, Option-cases,
}
use planning_poker.Base.Int.{pos}
use planning_poker.DomainError.{Error, wrap, plain, text, int}
use planning_poker.Redis.Serialization.{Result, ok, err}

-- SET with NX and the time of the lock, GET and DEL; `fails` is the error of the next script,
-- `cancelled` that of the context, and `pause` what the others do and what runs out while an attempt
-- waits for the next.
pub record LockStore (S : Type 0) : Type 0 where
  pub set_nx : String → String → S → S × Result Bool
  pub get : String → S → Option String
  pub del : String → S → S
  pub fails : S → Option Error
  pub cancelled : S → Option Error
  pub pause : S → S

pub record IsLockStore {S : Type 0} (ls : LockStore S) : Type 0 where
  pub nx_free :
      (k v : String) (s : S)
      → ls.get k s ≡ none
      → ((ls.set_nx k v s).1 ≡ ok true) × (ls.get k (ls.set_nx k v s).0 ≡ some v)
  pub nx_held : (k v w : String) (s : S) → ls.get k s ≡ some w → ls.set_nx k v s ≡ (s, ok false)
  pub get_del : (k : String) (s : S) → ls.get k (ls.del k s) ≡ none

unfoldable pub lock_key : String → String
lock_key key = concat "planning-poker:lock:" key

module _ {S : Type 0} (ls : LockStore S) where
  -- The loop of `acquireLock`, with the attempts that are left; it gives the token.
  unfoldable pub acquire_in : ℕ → Error → String → String → S → S × Result String
  acquire_in zero spent key token s = (s, err spent)
  acquire_in (suc n) spent key token s =
      let (t, r) = ls.set_nx key token s in
      let next = acquire_in n spent key token (ls.pause t) in
      elim r [
        | err e ↦ (t, err (wrap "failed to acquire lock: %w" [] e))
        | ok won ↦
            if won
            then (t, ok token)
            else elim (ls.cancelled t) [ some e ↦ (t, err e) | none ↦ next ]
      ]

  unfoldable pub acquire_lock : ℕ → String → String → S → S × Result String
  acquire_lock max_retries key token s =
      acquire_in max_retries
        (plain "failed to acquire lock for key '%s' after %d retries"
          (text key ∷ int (pos max_retries) ∷ []))
        (lock_key key) token s

  -- The script deletes the lock of its own token only.
  unfoldable pub release_lock : String → String → S → S × Option Error
  release_lock key token s = elim (ls.fails s) [
    | some e ↦ (s, some (wrap "failed to release lock: %w" [] e))
    | none ↦ elim (ls.get (lock_key key) s) [
      | none ↦ (s, none)
      | some held ↦ ((if str_eq held token then ls.del (lock_key key) s else s), none)
    ]
  ]

  -- `ExecuteWithLock`; a failure to release is only logged.
  unfoldable pub execute_with_lock :
      ℕ → String → String → (S → S × Option Error) → S → S × Option Error
  execute_with_lock max_retries key token fn s =
      let (t, r) = acquire_lock max_retries key token s in
      elim r [
        | err e ↦ (t, some e)
        | ok held ↦ let (u, e) = fn t in ((release_lock key held u).0, e)
      ]

module _ {S : Type 0} (ls : LockStore S) (law : IsLockStore ls) (key token : String) where
  -- While another token holds the lock, the attempts come to an end without it.
  acquire_in_held :
      (n : ℕ) (spent : Error) (k other : String) (s : S)
      → ((u : S) → ls.get k u ≡ some other → ls.get k (ls.pause u) ≡ some other)
      → ls.get k s ≡ some other
      → ((e : Error) × ((acquire_in ls n spent k token s).1 ≡ err e))
        × (ls.get k (acquire_in ls n spent k token s).0 ≡ some other)
  unfolding acquire_in
  acquire_in_held zero spent k other s keeps h = ((spent, refl), h)
  acquire_in_held (suc n) spent k other s keeps h =
      let held = law.nx_held k token other s h in
      elim (Option-cases (ls.cancelled s)) [
        | inr (e, c) ↦ rw (acquire_in, held, held, c, held) ((e, refl), h)
        | inl c ↦
            rw (acquire_in, held, held, c, held)
              (acquire_in_held n spent k other (ls.pause s) keeps (keeps s h))
      ]

  -- A lock that another token holds, and that does not run out between two attempts: after at most
  -- the given number of attempts the call fails without a run of its function, whatever that is, and
  -- the other still holds the lock.
  pub execute_with_lock-excluded :
      (n : ℕ) (fn : S → S × Option Error) (s : S) (other : String)
      → ((u : S)
          → ls.get (lock_key key) u ≡ some other
          → ls.get (lock_key key) (ls.pause u) ≡ some other)
      → ls.get (lock_key key) s ≡ some other
      → (e : Error) × (execute_with_lock ls n key token fn s
          ≡ ((acquire_lock ls n key token s).0, some e))
        × (ls.get (lock_key key) (execute_with_lock ls n key token fn s).0 ≡ some other)
  unfolding execute_with_lock acquire_lock
  execute_with_lock-excluded n fn s other keeps h =
      let spent : Error =
        plain "failed to acquire lock for key '%s' after %d retries"
          (text key ∷ int (pos n) ∷ []) in
      let ((e, x), kept) = acquire_in_held n spent (lock_key key) other s keeps h in
      (e, rw (execute_with_lock, x) refl, rw (execute_with_lock, x) kept)

  acquire_lock-free :
      (n : ℕ) (s : S)
      → ls.get (lock_key key) s ≡ none
      → acquire_lock ls (suc n) key token s ≡ ((ls.set_nx (lock_key key) token s).0, ok token)
  unfolding acquire_lock acquire_in
  acquire_lock-free n s f =
      rw (acquire_lock, acquire_in, (law.nx_free (lock_key key) token s f).0) refl

  -- A lock that is free: the function runs at once, its error is the answer, and the lock is free
  -- afterwards, if the function leaves the lock alone and the script can be run.
  pub execute_with_lock-free :
      (n : ℕ) (fn : S → S × Option Error) (s : S)
      → let t = (ls.set_nx (lock_key key) token s).0 in
        ls.get (lock_key key) s ≡ none
        → ls.get (lock_key key) (fn t).0 ≡ ls.get (lock_key key) t
        → ls.fails (fn t).0 ≡ none
        → ((execute_with_lock ls (suc n) key token fn s).1 ≡ (fn t).1)
          × (ls.get (lock_key key) (execute_with_lock ls (suc n) key token fn s).0 ≡ none)
  unfolding execute_with_lock release_lock
  execute_with_lock-free n fn s f calm up =
      let mine = (law.nx_free (lock_key key) token s f).1 in
      let won = acquire_lock-free n s f in
      let same : str_eq token token ≡ true = ground (arith, eq_iff token token) in
      rw (execute_with_lock, won, won, release_lock, up, won, calm, mine, same)
        (refl, law.get_del (lock_key key) _)

-- ===== src/Protocolgen/Results.antt =====
-- Predicates on the results of calls, and what they say of one call behind another.
use planning_poker.DomainError.{Error, Result, ok, err, ◌>>=◌}
use planning_poker.Protocolgen.Asyncapi.{wrapped}

-- What a call gives satisfies a predicate.
abbrev pub Gives {ℓ κ} : {A : Type ℓ} → (A → Type κ) → Result A → Type κ
Gives P (ok a) = P a
Gives P (err e) = Unit

pub bind-Gives {ℓ κ λ' μ} :
    {A : Type ℓ} {B : Type κ} (P : A → Type λ') (Q : B → Type μ) (r : Result A) (f : A → Result B)
    → Gives P r
    → ((a : A) → P a → Gives Q (f a))
    → Gives Q (r >>= f)
bind-Gives P Q (ok a) f h hs = hs a h
bind-Gives P Q (err e) f h hs = tt

pub weaken-Gives {ℓ κ μ} :
    {A : Type ℓ} (P : A → Type κ) (Q : A → Type μ) (r : Result A)
    → ((a : A) → P a → Q a)
    → Gives P r
    → Gives Q r
weaken-Gives P Q (ok a) more h = more a h
weaken-Gives P Q (err e) more h = tt

pub anything {ℓ} : {A : Type ℓ} (r : Result A) → Gives (λ a. Unit {0}) r
anything (ok a) = tt
anything (err e) = tt

abbrev pub Succeeds {ℓ} : {A : Type ℓ} → Result A → Type 0
Succeeds (ok a) = Unit
Succeeds (err e) = ⊥

-- Where one call succeeds, so does the other.
abbrev pub Follows {ℓ κ} : {A : Type ℓ} {B : Type κ} → Result A → Result B → Type 0
Follows r q = Succeeds r → Succeeds q

pub first-Succeeds {ℓ κ} :
    {A : Type ℓ} {B : Type κ} (r : Result A) (f : A → Result B) → Succeeds (r >>= f) → Succeeds r
first-Succeeds (ok a) f h = tt
first-Succeeds (err e) f h = h

pub then_ok {ℓ κ} :
    {A : Type ℓ} {B : Type κ} (r : Result A) (f : A → B)
    → Succeeds r
    → Succeeds (r >>= λ a. ok (f a))
then_ok (ok a) f h = tt
then_ok (err e) f h = h

pub then_Succeeds {ℓ κ} :
    {A : Type ℓ} {B : Type κ} (r : Result A) (f : A → Result B)
    → Succeeds r
    → ((a : A) → Succeeds (f a))
    → Succeeds (r >>= f)
then_Succeeds (ok a) f h hs = hs a
then_Succeeds (err e) f h hs = h

pub second-Succeeds {ℓ κ} :
    {A : Type ℓ} {B : Type κ} (r : Result A) (f : A → Result B)
    → Succeeds (r >>= f)
    → (a : A) × Succeeds (f a)
second-Succeeds (ok a) f h = (a, h)
second-Succeeds (err e) f h = elim h [ ]

pub bind-Follows {ℓ κ μ ν} :
    {A : Type ℓ} {B : Type κ} {C : Type μ} {D : Type ν} (r : Result A) (f : A → Result B)
    (q : Result C) (g : C → Result D)
    → Follows r q
    → ((a : A) (c : C) → Follows (f a) (g c))
    → Follows (r >>= f) (q >>= g)
bind-Follows (ok a) f (ok c) g h hs s = hs a c s
bind-Follows (ok a) f (err e) g h hs s = h tt
bind-Follows (err e) f q g h hs s = elim s [ ]

pub wrapped-Follows {ℓ κ} :
    {A : Type ℓ} {B : Type κ} (around other : Error → Error) (r : Result A) (q : Result B)
    → Follows r q
    → Follows (wrapped around r) (wrapped other q)
unfolding wrapped
wrapped-Follows around other (ok a) (ok b) h s = tt
wrapped-Follows around other (ok a) (err e) h s = h tt
wrapped-Follows around other (err e) q h s = elim s [ ]

-- ===== src/Ecdsa/Jacobian/Results.antt =====
-- What holds of every result of a computation with random words.
use aex_cpp_sdk.Base.{◌≡◌, refl, ap, ℕ, List, Bool, true, false, Option, none, some, if◌then◌else◌}
use aex_cpp_sdk.Ecdsa.Jacobian.{Random, ◌>>=◌, pure}

-- The result, if there is one, has the property.
abbrev pub Result : {A : Type 0} → (A → Type 0) → Option (A × List ℕ) → Type 0
Result P none = Unit
Result P (some (a, rest)) = P a

pub record Always {A : Type 0} (P : A → Type 0) (m : Random A) : Type 0 where
  pub holds : (words : List ℕ) → Result P (m words)

pub pure-Always : {A : Type 0} {P : A → Type 0} {a : A} → P a → Always P (pure a)
pure-Always p = record { holds = λ words. p }

-- Of a result of the first part, and of what the second part makes of it.
pub bind-Always :
    {A B : Type 0} {P : A → Type 0} {Q : B → Type 0} {m : Random A} {f : A → Random B}
    → Always P m
    → ((a : A) → P a → Always Q (f a))
    → Always Q (m >>= f)
bind-Always {A} {B} {P} {Q} {m} {f} p q = record {
  holds = λ words. after (m words) (p.holds words);
}
  where
    after :
        (o : Option (A × List ℕ))
        → Result P o
        → Result Q (elim o [ none ↦ none | some (a, rest) ↦ f a rest ])
    after none h = tt
    after (some (a, rest)) h = (q a h).holds rest

pub if-Always :
    {A : Type 0} {P : A → Type 0} {m n : Random A} (c : Bool)
    → Always P m
    → Always P n
    → Always P (if c then m else n)
if-Always true p q = p
if-Always false p q = q

-- What holds of everything.
pub all-Always : {A : Type 0} {P : A → Type 0} (m : Random A) → ((a : A) → P a) → Always P m
all-Always {A} {P} m h = record { holds = λ words. any (m words) }
  where
    any : (o : Option (A × List ℕ)) → Result P o
    any none = tt
    any (some (a, rest)) = h a

-- A result of two parts comes from a result of the first.
pub bind-some :
    {A B : Type 0} (m : Random A) (f : A → Random B) {words : List ℕ} {r : B × List ℕ}
    → (m >>= f) words ≡ some r
    → ((p : A × List ℕ) × (m words ≡ some p) × (f p.0 p.1 ≡ some r))
bind-some {A} {B} m f {words} {r} h = after (m words) refl h
  where
    after :
        (o : Option (A × List ℕ))
        → m words ≡ o
        → (elim o as (λ _. Option (B × List ℕ)) [ none ↦ none | some (a, rest) ↦ f a rest ])
          ≡ some r
        → ((p : A × List ℕ) × (m words ≡ some p) × (f p.0 p.1 ≡ some r))
    after none e h = absurd (cc)
    after (some (a, rest)) e h = ((a, rest), e, h)

-- The second part goes on from a result of the first.
pub some-bind :
    {A B : Type 0} (m : Random A) (f : A → Random B) {words rest : List ℕ} {a : A}
    → m words ≡ some (a, rest)
    → (m >>= f) words ≡ f a rest
some-bind {A} {B} m f h = ap after h
  where
    after : Option (A × List ℕ) → Option (B × List ℕ)
    after none = none
    after (some (a, rest)) = f a rest

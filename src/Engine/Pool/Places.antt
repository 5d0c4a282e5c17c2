-- ===== src/Engine/Pool/Places.antt =====
-- connection.rs: the semaphores that the map and the tasks refer to.
use Prim.Native.String.{String}
use ai_model_downloader.Base.{
  lookup, insert, nat_eq, string_eq, ℕ, ◌<◌, ◌≡◌, refl, inl, inr, some, List, [], ◌∷◌, ◌++◌, arith,
  ltb, Bool-cases, some-eq, length, set, length-append, length-set, All,
}
use ai_model_downloader.Engine.Pool.{available, in_use}
use ai_model_downloader.Engine.Pool.Counts.{uses, Known}

pub unknown_uses : (s : ℕ) (xs : List (String × ℕ)) → All (λ x. x.1 < s) xs → uses s xs ≡ 0
unknown_uses s [] a = refl
unknown_uses s ((host, t) ∷ xs) (h, a) = ground (arith, unknown_uses s xs a)

pub Known-longer :
    (permits : List ℕ) (v : ℕ) (xs : List (String × ℕ))
    → All (Known permits) xs
    → All (Known (permits ++ (v ∷ []))) xs
Known-longer permits v [] a = tt
Known-longer permits v (x ∷ xs) (h, a) =
    (omega (arith, length-append permits (v ∷ [])), Known-longer permits v xs a)

pub Known-set :
    (permits : List ℕ) (i v : ℕ) (xs : List (String × ℕ))
    → All (Known permits) xs
    → All (Known (set permits i v)) xs
Known-set permits i v [] a = tt
Known-set permits i v (x ∷ xs) (h, a) =
    (omega (arith, length-set permits i v), Known-set permits i v xs a)

pub insert-Known :
    (permits : List ℕ) (host : String) (s : ℕ) (hosts : List (String × ℕ))
    → s < length permits
    → All (Known permits) hosts
    → All (Known permits) (insert host s hosts)
unfolding insert
insert-Known permits host s [] h a = (h, tt)
insert-Known permits host s ((j, w) ∷ hosts) h (k, a) = elim (Bool-cases (string_eq.beq j host)) [
  | inl e ↦ rw e (h, a)
  | inr e ↦ rw e (k, insert-Known permits host s hosts h a)
]

pub lookup-Known :
    (permits : List ℕ) (host : String) (hosts : List (String × ℕ)) (s : ℕ)
    → All (Known permits) hosts
    → lookup host hosts ≡ some s
    → s < length permits
unfolding lookup
lookup-Known permits host [] s a h = let e : ⊥ = cc in absurd e
lookup-Known permits host ((j, w) ∷ hosts) s (k, a) h = elim (Bool-cases (string_eq.beq j host)) [
  | inl e ↦ omega (arith, some-eq (rw e at h))
  | inr e ↦ lookup-Known permits host hosts s a (rw e at h)
]

pub in_use-Known :
    (limit : ℕ) (permits : List ℕ) (hosts : List (String × ℕ))
    → All (Known permits) hosts
    → All (Known permits) (in_use limit permits hosts)
unfolding in_use
in_use-Known limit permits [] a = tt
in_use-Known limit permits ((host, s) ∷ hosts) (h, a) =
    elim (Bool-cases (ltb (available permits s) limit)) [
      | inl e ↦ rw e (h, in_use-Known limit permits hosts a)
      | inr e ↦ rw e (in_use-Known limit permits hosts a)
    ]

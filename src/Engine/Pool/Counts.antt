-- ===== src/Engine/Pool/Counts.antt =====
-- connection.rs: the tasks with a permit, and how many there are.
use Prim.Native.String.{String}
use ai_model_downloader.Base.{
  nat_eq, string_eq, ℕ, zero, suc, ◌+◌, ◌<◌, ◌≡◌, refl, ap, subst, Option, none, some, List, [],
  ◌∷◌, ◌++◌, arith, ◌==◌, if◌then◌else◌, some-eq, length, get_elem?, set, length-set, All,
}
use ai_model_downloader.Engine.Pool.{available, onto, pull, remove_at, Stage, counted, freed}

-- How many permits of a semaphore a list of connections holds.
abbrev pub uses : ℕ → List (String × ℕ) → ℕ
uses s [] = 0
uses s ((host, t) ∷ rest) = (if t == s then 1 else 0) + uses s rest

-- An element that is pulled out, and the others, make up the list.
pub record Pulled (x : String × ℕ) (rest xs : List (String × ℕ)) : Type 1 where
  pub size : length xs ≡ suc (length rest)
  pub counts : (s : ℕ) → uses s xs ≡ (if x.1 == s then 1 else 0) + uses s rest
  pub keeps : (P : String × ℕ → Type 0) → All P xs → P x × All P rest

Pulled-later :
    (x y : String × ℕ) (rest xs : List (String × ℕ))
    → Pulled y rest xs
    → Pulled y (x ∷ rest) (x ∷ xs)
Pulled-later x y rest xs p = record {
  size = omega (arith, p.size);
  counts = λ s. omega (arith, p.counts s);
  keeps = λ P a. let (q, b) = p.keeps P a.1 in (q, (a.0, b));
}

pub pull-Pulled :
    (i : ℕ) (xs : List (String × ℕ)) (x : String × ℕ) (rest : List (String × ℕ))
    → pull i xs ≡ some (x, rest)
    → Pulled x rest xs
pull-Pulled i [] x rest h = let e : ⊥ = cc in absurd e
pull-Pulled zero (y ∷ ys) x rest h =
    subst (λ (r : (String × ℕ) × List (String × ℕ)). Pulled r.0 r.1 (y ∷ ys)) (some-eq h)
      (record { size = refl; counts = λ s. refl; keeps = λ P a. a })
pull-Pulled (suc i) (y ∷ ys) x rest h = by_tail (pull i ys) (pull-Pulled i ys) h
  where
    by_tail :
        (o : Option ((String × ℕ) × List (String × ℕ)))
        → ((z : String × ℕ) (r : List (String × ℕ)) → o ≡ some (z, r) → Pulled z r ys)
        → onto y o ≡ some (x, rest)
        → Pulled x rest (y ∷ ys)
    by_tail none later e = let f : ⊥ = cc in absurd f
    by_tail (some (z, r)) later e =
        subst (λ (q : (String × ℕ) × List (String × ℕ)). Pulled q.0 q.1 (y ∷ ys)) (some-eq e)
          (Pulled-later y z r ys (later z r refl))

pub get-set :
    (xs : List ℕ) (i j v : ℕ)
    → i < length xs
    → available (set xs i v) j ≡ (if i == j then v else available xs j)
get-set [] i j v h = absurd (omega arith)
get-set (x ∷ xs) zero zero v h = refl
get-set (x ∷ xs) zero (suc j) v h = ground arith
get-set (x ∷ xs) (suc i) zero v h = ground arith
get-set (x ∷ xs) (suc i) (suc j) v h = ground (arith, get-set xs i j v)

pub get-append :
    (xs : List ℕ) (v j : ℕ)
    → available (xs ++ (v ∷ [])) j ≡ (if length xs == j then v else available xs j)
get-append [] v zero = refl
get-append [] v (suc j) = ground arith
get-append (x ∷ xs) v zero = ground arith
get-append (x ∷ xs) v (suc j) = ground (arith, get-append xs v j)

-- A semaphore that exists.
abbrev pub Known : List ℕ → String × ℕ → Type 0
Known permits x = x.1 < length permits

-- The connections that are counted, and those that have given their global permit back.
abbrev pub is_counted : Stage → ℕ
is_counted counted = 1
is_counted _ = 0

abbrev pub is_freed : Stage → ℕ
is_freed freed = 1
is_freed _ = 0

abbrev pub how_many : (Stage → ℕ) → List Stage → ℕ
how_many w [] = 0
how_many w (x ∷ xs) = w x + how_many w xs

pub how_many-set :
    (w : Stage → ℕ) (xs : List Stage) (i : ℕ) (a b : Stage)
    → get_elem? xs i ≡ some a
    → how_many w (set xs i b) + w a ≡ how_many w xs + w b
how_many-set w [] i a b h = cc
how_many-set w (x ∷ xs) zero a b h = omega (arith, ap w (some-eq h))
how_many-set w (x ∷ xs) (suc i) a b h = omega (arith, how_many-set w xs i a b h)

pub how_many-remove_at :
    (w : Stage → ℕ) (xs : List Stage) (i : ℕ) (a : Stage)
    → get_elem? xs i ≡ some a
    → how_many w (remove_at i xs) + w a ≡ how_many w xs
how_many-remove_at w [] i a h = cc
how_many-remove_at w (x ∷ xs) zero a h = omega (arith, ap w (some-eq h))
how_many-remove_at w (x ∷ xs) (suc i) a h = omega (arith, how_many-remove_at w xs i a h)

pub length-remove_at :
    (xs : List Stage) (i : ℕ) (a : Stage)
    → get_elem? xs i ≡ some a
    → length xs ≡ suc (length (remove_at i xs))
length-remove_at [] i a h = cc
length-remove_at (x ∷ xs) zero a h = refl
length-remove_at (x ∷ xs) (suc i) a h = omega (arith, length-remove_at xs i a h)

pub length-set_stage : (xs : List Stage) (i : ℕ) (b : Stage) → length (set xs i b) ≡ length xs
length-set_stage xs i b = length-set xs i b

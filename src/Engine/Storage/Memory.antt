-- ===== src/Engine/Storage/Memory.antt =====
-- A storage in memory whose writes may be short: at most `most` bytes each. It has the laws that the
-- engine relies on.
use ai_model_downloader.Base.{
  nat_eq, string_eq, ℕ, zero, suc, ◌+◌, ◌-◌, ◌≤◌, ◌≡◌, refl, sym, ap, ◌∙◌, subst, List, [], ◌∷◌,
  arith, ◌==◌, if◌then◌else◌, ==_iff, ne→==, length, take,
}
use ai_model_downloader.Core.Error.{ok}
use ai_model_downloader.Engine.Storage.{Holds, Outside, AsyncStorage}

abbrev pub put : (ℕ → ℕ) → ℕ → List ℕ → ℕ → ℕ
put file pos [] i = file i
put file pos (b ∷ bs) i = if i == pos then b else put file (pos + 1) bs i

pub put-Outside :
    (file : ℕ → ℕ) (pos : ℕ) (bytes : List ℕ) (count : ℕ)
    → length bytes ≤ count
    → Outside file (put file pos bytes) pos count
put-Outside file pos [] count l i h = refl
put-Outside file pos (b ∷ bs) count l i h =
    rw (ne→== i pos (omega (arith, h)))
      (put-Outside file (pos + 1) bs (count - 1) (omega arith) i (omega (arith, h)))

Holds-from :
    (f g : ℕ → ℕ) (pos : ℕ) (bytes : List ℕ)
    → ((i : ℕ) → pos ≤ i → g i ≡ f i)
    → Holds f pos bytes
    → Holds g pos bytes
Holds-from f g pos [] same h = tt
Holds-from f g pos (b ∷ bs) same (h, t) =
    (same pos (omega arith) ∙ h, Holds-from f g (pos + 1) bs (λ i l. same i (omega arith)) t)

pub put-Holds : (file : ℕ → ℕ) (pos : ℕ) (bytes : List ℕ) → Holds (put file pos bytes) pos bytes
put-Holds file pos [] = tt
put-Holds file pos (b ∷ bs) = (
  ground (arith, ==_iff pos pos),
  Holds-from (put file (pos + 1) bs) (put file pos (b ∷ bs)) (pos + 1) bs
      (λ i l. rw (ne→== i pos (omega arith)) refl) (put-Holds file (pos + 1) bs),
)

pub length-take-le : (n : ℕ) (bytes : List ℕ) → length (take n bytes) ≤ length bytes
length-take-le zero bytes = omega arith
length-take-le (suc n) [] = omega arith
length-take-le (suc n) (b ∷ bs) = omega (arith, length-take-le n bs)

pub take-length-take : (n : ℕ) (bytes : List ℕ) → take (length (take n bytes)) bytes ≡ take n bytes
take-length-take zero bytes = refl
take-length-take (suc n) [] = refl
take-length-take (suc n) (b ∷ bs) = ap (◌∷◌ b) (take-length-take n bs)

pub take-length : (bytes : List ℕ) → take (length bytes) bytes ≡ bytes
take-length [] = refl
take-length (b ∷ bs) = ap (◌∷◌ b) (take-length bs)

pub accepted : {m n : ℕ} → ok m ≡ ok n → m ≡ n
accepted h = cc

abbrev pub memory_of : ℕ → AsyncStorage
memory_of most = record {
  State = ℕ → ℕ;
  byte = λ s. s;
  write_at = λ s pos bytes. (put s pos (take most bytes), ok (length (take most bytes)));
  dropped = λ s pos bytes. put s pos (take 1 bytes);
  write_at_length =
      λ s pos bytes n h. subst (λ m. m ≤ length bytes) (accepted h) (length-take-le most bytes);
  write_at_Holds = λ s pos bytes n h.
      subst (λ m. Holds (put s pos (take most bytes)) pos (take m bytes)) (accepted h)
        (subst (Holds (put s pos (take most bytes)) pos) (sym (take-length-take most bytes))
          (put-Holds s pos (take most bytes)));
  write_at_Outside =
      λ s pos bytes. put-Outside s pos (take most bytes) _ (length-take-le most bytes);
  dropped_Outside = λ s pos bytes. put-Outside s pos (take 1 bytes) _ (length-take-le 1 bytes);
}

abbrev pub memory : AsyncStorage
memory = memory_of 3

-- A storage that takes every chunk whole.
abbrev pub whole_memory : AsyncStorage
whole_memory = record {
  State = ℕ → ℕ;
  byte = λ s. s;
  write_at = λ s pos bytes. (put s pos bytes, ok (length bytes));
  dropped = λ s pos bytes. s;
  write_at_length = λ s pos bytes n h. omega (arith, accepted h);
  write_at_Holds = λ s pos bytes n h.
      subst (λ m. Holds (put s pos bytes) pos (take m bytes)) (accepted h)
        (subst (Holds (put s pos bytes) pos) (sym (take-length bytes)) (put-Holds s pos bytes));
  write_at_Outside = λ s pos bytes. put-Outside s pos bytes _ (omega arith);
  dropped_Outside = λ s pos bytes i h. refl;
}

-- ===== src/Base/Lists.antt =====
-- Lists measured and searched by native numbers, and memory as a function of the index.
use Prim.Native.Nat.{ℕ, zero, suc, ◌+◌, ◌<◌, ◌≤◌}
use mathlib.Core.Path.{◌≡◌, refl, ap}
use mathlib.Core.Bool.{Bool, true, false, ◌||◌}
use mathlib.Core.List.{List, [], ◌∷◌, ◌++◌}
use native.Mathlib.Omega.{arith}
use mathlib.Core.Logic.{inl, inr}
use nandfs.Base.Tests.{◌==◌, if◌then◌else◌, Bool-cases, ==_iff}

module _ {ℓ} {A : Type ℓ} where
  abbrev pub length : List A → ℕ
  length [] = 0
  length (x ∷ xs) = suc (length xs)

  pub length-append : (xs ys : List A) → length (xs ++ ys) ≡ length xs + length ys
  length-append [] ys = omega arith
  length-append (x ∷ xs) ys = omega (arith, length-append xs ys)

  -- An array of the program is a function of the index; `update` is an assignment to one element.
  unfoldable pub update : (ℕ → A) → ℕ → A → ℕ → A
  update f i v j = if j == i then v else f j

  pub update_self : (f : ℕ → A) (i : ℕ) (v : A) → update f i v i ≡ v
  unfolding update
  update_self f i v = ground arith

  pub update_ne : (f : ℕ → A) (i : ℕ) (v : A) (j : ℕ) → (j == i) ≡ false → update f i v j ≡ f j
  unfolding update
  update_ne f i v j e = rw e refl

-- Whether `a` is an element.
abbrev pub has : ℕ → List ℕ → Bool
has a [] = false
has a (x ∷ xs) = (a == x) || has a xs

pub has-append : (a : ℕ) (xs ys : List ℕ) → has a (xs ++ ys) ≡ (has a xs || has a ys)
has-append a [] ys = refl
has-append a (x ∷ xs) ys = ground (arith, has-append a xs ys)

-- A member differs from what is no member.
pub has-ne : (a b : ℕ) (xs : List ℕ) → has a xs ≡ true → has b xs ≡ false → (a == b) ≡ false
has-ne a b xs h k = elim (Bool-cases (a == b)) [
  | inr e ↦ e
  | inl e ↦ let same : a ≡ b = (==_iff a b).0 e in cc (ap (λ (x : ℕ). has x xs) same)
]

pub ne-has : (a b : ℕ) (xs : List ℕ) → has a xs ≡ false → has b xs ≡ true → (a == b) ≡ false
ne-has a b xs h k = ground (arith, has-ne b a xs k h)

pub not-has-append :
    (a b : ℕ) (xs ys : List ℕ)
    → has a (xs ++ (b ∷ ys)) ≡ false
    → (has a xs ≡ false) × ((a == b) ≡ false) × (has a ys ≡ false)
not-has-append a b xs ys h = ground (arith, has-append a xs (b ∷ ys))

-- No element occurs twice.
abbrev pub Distinct : List ℕ → Type 0
Distinct [] = Unit
Distinct (x ∷ xs) = (has x xs ≡ false) × Distinct xs

-- Every element is less than `n`.
abbrev pub Below : ℕ → List ℕ → Type 0
Below n [] = Unit
Below n (x ∷ xs) = (x < n) × Below n xs

-- The list without the first occurrence of `a`.
unfoldable pub erase : ℕ → List ℕ → List ℕ
erase a [] = []
erase a (x ∷ xs) = if x == a then xs else x ∷ erase a xs

-- A member of a list splits it at its first occurrence.
pub has-split :
    (a : ℕ) (xs : List ℕ)
    → has a xs ≡ true
    → (pre : List ℕ) × (post : List ℕ) × (xs ≡ pre ++ (a ∷ post)) × (erase a xs ≡ pre ++ post)
unfolding erase
has-split a [] h = absurd (cc)
has-split a (x ∷ xs) h = elim (Bool-cases (x == a)) [
  | inl e ↦ ([], xs, ap (λ y. y ∷ xs) ((==_iff x a).0 e), rw e)
  | inr e ↦
      let (pre, post, s, t) = has-split a xs (ground arith) in
      (x ∷ pre, post, ap (λ l. x ∷ l) s, rw e (ap (λ l. x ∷ l) t))
]

pub erase_of_not-has : (a : ℕ) (xs : List ℕ) → has a xs ≡ false → erase a xs ≡ xs
unfolding erase
erase_of_not-has a [] h = refl
erase_of_not-has a (x ∷ xs) h = ground (arith, erase_of_not-has a xs)

pub has-erase_ne : (a b : ℕ) (xs : List ℕ) → (a == b) ≡ false → has a (erase b xs) ≡ has a xs
unfolding erase
has-erase_ne a b [] h = refl
has-erase_ne a b (x ∷ xs) h = ground (arith, has-erase_ne a b xs h)

pub not-has-erase : (a : ℕ) (xs : List ℕ) → Distinct xs → has a (erase a xs) ≡ false
unfolding erase
not-has-erase a [] d = refl
not-has-erase a (x ∷ xs) d = ground (arith, not-has-erase a xs d.1)

pub erase-Distinct : (a : ℕ) (xs : List ℕ) → Distinct xs → Distinct (erase a xs)
unfolding erase
erase-Distinct a [] d = tt
erase-Distinct a (x ∷ xs) d = ground (arith, erase-Distinct a xs d.1, has-erase_ne x a xs)

pub erase-Below : (n a : ℕ) (xs : List ℕ) → Below n xs → Below n (erase a xs)
unfolding erase
erase-Below n a [] h = h
erase-Below n a (x ∷ xs) h = ground (arith, erase-Below n a xs h.1)

length-erase : (a : ℕ) (xs : List ℕ) → has a xs ≡ true → length xs ≡ suc (length (erase a xs))
unfolding erase
length-erase a [] h = absurd (cc)
length-erase a (x ∷ xs) h = ground (arith, length-erase a xs)

Below-pred : (n : ℕ) (xs : List ℕ) → has n xs ≡ false → Below (suc n) xs → Below n xs
Below-pred n [] out h = tt
Below-pred n (x ∷ xs) out h = (ground arith, Below-pred n xs (ground arith) h.1)

-- Distinct numbers below `n` are at most `n` many.
pub length-le : (n : ℕ) (xs : List ℕ) → Distinct xs → Below n xs → length xs ≤ n
length-le zero [] d h = omega arith
length-le zero (x ∷ xs) d h = absurd (omega arith)
length-le (suc n) xs d h = elim (Bool-cases (has n xs)) [
  | inl e ↦
      let few =
        length-le n (erase n xs) (erase-Distinct n xs d)
          (Below-pred n (erase n xs) (not-has-erase n xs d) (erase-Below (suc n) n xs h)) in
      omega (arith, length-erase n xs e)
  | inr e ↦ omega (arith, length-le n xs d (Below-pred n xs e h))
]

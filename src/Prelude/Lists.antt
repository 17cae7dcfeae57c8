-- ===== src/Prelude/Lists.antt =====
-- Lists measured by native numbers, under the library's names, and predicates on all elements.
use Prim.Native.Nat.{ℕ, zero, suc, ◌+◌, ◌-◌, ◌<◌}
use mathlib.Core.Path.{◌≡◌, refl, subst, sym, ap, ◌∙◌}
use mathlib.Core.Logic.{◌⊎◌, inl, inr}
use symposium.Prelude.Tests.{Bool-cases}
use mathlib.Core.Bool.{Bool, true, false, ◌||◌}
use mathlib.Core.List.{List, [], ◌∷◌, ◌++◌}
use mathlib.Core.Option.{Option, none, some}
use native.Mathlib.Nat.{zero-add, add-zero, add-suc, suc-add}
use native.Mathlib.Omega.{arith}

module _ {ℓ} {A : Type ℓ} where
  abbrev pub length : List A → ℕ
  length [] = 0
  length (x ∷ xs) = suc (length xs)

  abbrev pub drop : ℕ → List A → List A
  drop zero xs = xs
  drop (suc n) [] = []
  drop (suc n) (x ∷ xs) = drop n xs

  abbrev pub take : ℕ → List A → List A
  take zero xs = []
  take (suc n) [] = []
  take (suc n) (x ∷ xs) = x ∷ take n xs

  abbrev pub any : (A → Bool) → List A → Bool
  any p [] = false
  any p (x ∷ xs) = p x || any p xs

  abbrev pub keep : (A → Bool) → List A → List A
  keep p [] = []
  keep p (x ∷ xs) = elim (p x) [ true ↦ x ∷ keep p xs | false ↦ keep p xs ]

  -- `Iterator::find`
  abbrev pub find : (A → Bool) → List A → Option A
  find p [] = none
  find p (x ∷ xs) = elim (p x) [ true ↦ some x | false ↦ find p xs ]

  -- `slice::last`
  abbrev pub last : List A → Option A
  last [] = none
  last (x ∷ []) = some x
  last (x ∷ y ∷ xs) = last (y ∷ xs)

  -- `slice::get`
  abbrev pub get_elem? : List A → ℕ → Option A
  get_elem? [] n = none
  get_elem? (x ∷ xs) zero = some x
  get_elem? (x ∷ xs) (suc n) = get_elem? xs n

  abbrev pub All {κ} : (A → Type κ) → List A → Type κ
  All P [] = Unit
  All P (x ∷ xs) = P x × All P xs

  pub length-append : (xs ys : List A) → length (xs ++ ys) ≡ length xs + length ys
  length-append [] ys = omega arith
  length-append (x ∷ xs) ys = omega (arith, length-append xs ys)

  pub drop-drop : (m k : ℕ) (xs : List A) → drop k (drop m xs) ≡ drop (m + k) xs
  drop-drop zero k xs = rw zero-add
  drop-drop (suc m) zero [] = rw add-zero
  drop-drop (suc m) (suc k) [] = rw add-suc
  drop-drop (suc m) k (x ∷ xs) = rw suc-add (drop-drop m k xs)

  pub length-drop : (n : ℕ) (xs : List A) → length (drop n xs) ≡ length xs - n
  length-drop zero xs = omega arith
  length-drop (suc n) [] = omega arith
  length-drop (suc n) (x ∷ xs) = omega (arith, length-drop n xs)

  take_nil : (n : ℕ) → take n [] ≡ []
  take_nil zero = refl
  take_nil (suc n) = refl

  pub take_add : (m n : ℕ) (xs : List A) → take (m + n) xs ≡ take m xs ++ take n (drop m xs)
  take_add zero n xs = rw zero-add
  take_add (suc m) n [] = take_nil (suc m + n) ∙ sym (take_nil n)
  take_add (suc m) n (x ∷ xs) = rw suc-add (ap (λ t. x ∷ t) (take_add m n xs))

  pub last-append : (xs : List A) (y : A) (ys : List A) → last (xs ++ y ∷ ys) ≡ last (y ∷ ys)
  last-append [] y ys = refl
  last-append (x ∷ []) y ys = refl
  last-append (x ∷ z ∷ xs) y ys = last-append (z ∷ xs) y ys

  pub length_pos : (xs : List A) → 0 < length xs → (x : A) × (ys : List A) × (xs ≡ x ∷ ys)
  length_pos [] h = elim h [ ]
  length_pos (x ∷ xs) h = (x, xs, refl)

module _ {ℓ} {A : Type ℓ} where
  -- `a` is an element, at a place that is kept.
  pub data Elem (a : A) : List A → Type ℓ where
    here : {xs : List A} → Elem a (a ∷ xs)
    there : {x : A} {xs : List A} → Elem a xs → Elem a (x ∷ xs)

  pub Elem-cons : {a x : A} {xs : List A} → Elem a (x ∷ xs) → (a ≡ x) ⊎ Elem a xs
  Elem-cons here = inl refl
  Elem-cons (there h) = inr h

  pub Elem-left : {a : A} (xs ys : List A) → Elem a xs → Elem a (xs ++ ys)
  Elem-left xs ys here = here
  Elem-left (x ∷ xs) ys (there h) = there (Elem-left xs ys h)

  pub Elem-right : {a : A} (xs ys : List A) → Elem a ys → Elem a (xs ++ ys)
  Elem-right [] ys h = h
  Elem-right (x ∷ xs) ys h = there (Elem-right xs ys h)

  pub Elem-append : {a : A} (xs ys : List A) → Elem a (xs ++ ys) → Elem a xs ⊎ Elem a ys
  Elem-append [] ys h = inr h
  Elem-append (x ∷ xs) ys here = inl here
  Elem-append (x ∷ xs) ys (there h) = elim (Elem-append xs ys h) [
    | inl h' ↦ inl (there h')
    | inr h' ↦ inr h'
  ]

  pub All-mono {κ κ'} :
      {P : A → Type κ} {Q : A → Type κ'} (xs : List A) → ((x : A) → P x → Q x) → All P xs → All Q xs
  All-mono [] f h = tt
  All-mono (x ∷ xs) f h = (f x h.0, All-mono xs f h.1)

  pub All-append {κ} : (P : A → Type κ) (xs ys : List A) → All P xs → All P ys → All P (xs ++ ys)
  All-append P [] ys h h' = h'
  All-append P (x ∷ xs) ys h h' = (h.0, All-append P xs ys h.1 h')

  pub All-Elem : (xs : List A) → All (λ x. Elem x xs) xs
  All-Elem [] = tt
  All-Elem (x ∷ xs) = (here, All-mono xs (λ y. there) (All-Elem xs))

  pub All-keep {κ} :
      (P : A → Type κ) (p : A → Bool) (xs : List A)
      → All P xs
      → All (λ x. P x × (p x ≡ true)) (keep p xs)
  All-keep P p [] h = tt
  All-keep P p (x ∷ xs) h = elim (Bool-cases (p x)) [
    | inl t ↦ rw (t, keep) ((h.0, t), All-keep P p xs h.1)
    | inr f ↦ rw (f, keep) (All-keep P p xs h.1)
  ]

  -- What holds of all that is kept holds of every element that passes.
  pub keep-All {κ} :
      (P : A → Type κ) (p : A → Bool) (xs : List A)
      → All P (keep p xs)
      → All (λ x. p x ≡ true → P x) xs
  keep-All P p [] h = tt
  keep-All P p (x ∷ xs) h = elim (Bool-cases (p x)) [
    | inl t ↦ let h' = rw (t, keep) at h in (λ _. h'.0, keep-All P p xs h'.1)
    | inr f ↦ (λ t. cc, keep-All P p xs (rw (f, keep) at h))
  ]

  pub last-All {κ} : (P : A → Type κ) (xs : List A) {v : A} → All P xs → last xs ≡ some v → P v
  last-All P [] h e = cc
  last-All P (x ∷ []) h e = subst P (cc) h.0
  last-All P (x ∷ y ∷ xs) h e = last-All P (y ∷ xs) h.1 e

  pub last-none : (xs : List A) → last xs ≡ none → xs ≡ []
  last-none [] e = refl
  last-none (x ∷ []) e = cc
  last-none (x ∷ y ∷ xs) e = cc (last-none (y ∷ xs) e)

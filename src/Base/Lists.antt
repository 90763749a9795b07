-- ===== src/Base/Lists.antt =====
-- Lists measured, cut and searched by native numbers, under the library's names.
use Prim.Native.Nat.{ℕ, zero, suc, ◌+◌, ◌-◌, ◌<◌, ◌≤◌, min}
use mathlib.Core.Path.{◌≡◌, refl}
use mathlib.Core.Bool.{Bool, true, false, ◌||◌, ◌&&◌}
use mathlib.Core.List.{List, [], ◌∷◌, ◌++◌}
use native.Mathlib.Omega.{arith}
use mathlib.Core.Logic.{◌≢◌, ◌⊎◌, inl, inr}
use mathlib.Core.Option
use mathlib.Core.Option.{Option, none, some}
use theynix.Base.Tests.{if◌then◌else◌, ◌==◌, ltb, leb}

module _ {ℓ} {A : Type ℓ} where
  abbrev pub length : List A → ℕ
  length [] = 0
  length (x ∷ xs) = suc (length xs)

  abbrev pub take : ℕ → List A → List A
  take zero xs = []
  take (suc n) [] = []
  take (suc n) (x ∷ xs) = x ∷ take n xs

  abbrev pub drop : ℕ → List A → List A
  drop zero xs = xs
  drop (suc n) [] = []
  drop (suc n) (x ∷ xs) = drop n xs

  abbrev pub get_or : List A → ℕ → A → A
  get_or [] i d = d
  get_or (x ∷ xs) zero d = x
  get_or (x ∷ xs) (suc i) d = get_or xs i d

  abbrev pub is_empty : List A → Bool
  is_empty [] = true
  is_empty (x ∷ xs) = false

  -- The last of a list that has a first.
  abbrev pub last_of : A → List A → A
  last_of x [] = x
  last_of x (y ∷ ys) = last_of y ys

module _ {ℓ} {A : Type ℓ} where
  pub length-append : (xs ys : List A) → length (xs ++ ys) ≡ length xs + length ys
  length-append [] ys = omega arith
  length-append (x ∷ xs) ys = omega (arith, length-append xs ys)

  pub length-take : (n : ℕ) (xs : List A) → length (take n xs) ≡ min n (length xs)
  length-take zero xs = omega arith
  length-take (suc n) [] = omega arith
  length-take (suc n) (x ∷ xs) = omega (arith, length-take n xs)

  pub length-drop : (n : ℕ) (xs : List A) → length (drop n xs) ≡ length xs - n
  length-drop zero xs = omega arith
  length-drop (suc n) [] = omega arith
  length-drop (suc n) (x ∷ xs) = omega (arith, length-drop n xs)

  pub take-append-drop : (n : ℕ) (xs : List A) → take n xs ++ drop n xs ≡ xs
  take-append-drop zero xs = refl
  take-append-drop (suc n) [] = refl
  take-append-drop (suc n) (x ∷ xs) = rw (take-append-drop n xs)

  pub last_of-append : (x y : A) (xs : List A) → last_of x (xs ++ (y ∷ [])) ≡ y
  last_of-append x y [] = refl
  last_of-append x y (z ∷ zs) = last_of-append z y zs

-- Membership of numbers, as a test.
abbrev pub has : ℕ → List ℕ → Bool
has a [] = false
has a (x ∷ xs) = (a == x) || has a xs

-- No number stands twice.
abbrev pub IsDistinct : List ℕ → Type 0
IsDistinct [] = Unit
IsDistinct (x ∷ xs) = (has x xs ≡ false) × IsDistinct xs

abbrev pub AllBelow : ℕ → List ℕ → Type 0
AllBelow n [] = Unit
AllBelow n (x ∷ xs) = (x < n) × AllBelow n xs

-- `count` numbers from `start` up.
abbrev pub range_from : ℕ → ℕ → List ℕ
range_from start zero = []
range_from start (suc count) = start ∷ range_from (start + 1) count

pub has-append : (a : ℕ) (xs ys : List ℕ) → has a (xs ++ ys) ≡ (has a xs || has a ys)
has-append a [] ys = refl
has-append a (x ∷ xs) ys = ground (arith, has-append a xs ys)

pub has-last_of : (x : ℕ) (xs : List ℕ) → has (last_of x xs) (x ∷ xs) ≡ true
has-last_of x [] = ground arith
has-last_of x (y ∷ ys) = ground (arith, has-last_of y ys)

pub IsDistinct-append_one :
    (y : ℕ) (xs : List ℕ) → IsDistinct xs → has y xs ≡ false → IsDistinct (xs ++ (y ∷ []))
IsDistinct-append_one y [] d h = (refl, tt)
IsDistinct-append_one y (x ∷ xs) d h =
    (ground (arith, has-append x xs (y ∷ [])), IsDistinct-append_one y xs d.1 (ground arith))

pub AllBelow-append_one :
    (n y : ℕ) (xs : List ℕ) → AllBelow n xs → y < n → AllBelow n (xs ++ (y ∷ []))
AllBelow-append_one n y [] b h = (h, tt)
AllBelow-append_one n y (x ∷ xs) b h = (b.0, AllBelow-append_one n y xs b.1 h)

pub has-range_from :
    (a start count : ℕ) → has a (range_from start count) ≡ true → (start ≤ a) × (a < start + count)
has-range_from a start zero h = cc
has-range_from a start (suc count) h = ground (arith, has-range_from a (start + 1) count)

-- Where all of a list is below a bound, what is not below it does not occur.
pub AllBelow-has : (n a : ℕ) (xs : List ℕ) → AllBelow n xs → n ≤ a → has a xs ≡ false
AllBelow-has n a [] b h = refl
AllBelow-has n a (x ∷ xs) b h = ground (arith, AllBelow-has n a xs b.1)

pub AllBelow-mono : (n k : ℕ) (xs : List ℕ) → n ≤ k → AllBelow n xs → AllBelow k xs
AllBelow-mono n k [] h b = tt
AllBelow-mono n k (x ∷ xs) h b = (omega arith, AllBelow-mono n k xs h b.1)

pub AllBelow-append :
    (n : ℕ) (xs ys : List ℕ) → AllBelow n xs → AllBelow n ys → AllBelow n (xs ++ ys)
AllBelow-append n [] ys a b = b
AllBelow-append n (x ∷ xs) ys a b = (a.0, AllBelow-append n xs ys a.1 b)

pub AllBelow-range_from :
    (n start count : ℕ) → start + count ≤ n → AllBelow n (range_from start count)
AllBelow-range_from n start zero h = tt
AllBelow-range_from n start (suc count) h =
    (omega arith, AllBelow-range_from n (start + 1) count (omega arith))

pub has-range_from-eq :
    (a start count : ℕ) → has a (range_from start count) ≡ (leb start a && ltb a (start + count))
has-range_from-eq a start zero = ground arith
has-range_from-eq a start (suc count) = ground (arith, has-range_from-eq a (start + 1) count)

pub IsDistinct-front : (xs ys : List ℕ) → IsDistinct (xs ++ ys) → IsDistinct xs
IsDistinct-front [] ys d = tt
IsDistinct-front (x ∷ xs) ys d = (ground (arith, has-append x xs ys), IsDistinct-front xs ys d.1)

pub AllBelow-front : (n : ℕ) (xs ys : List ℕ) → AllBelow n (xs ++ ys) → AllBelow n xs
AllBelow-front n [] ys b = tt
AllBelow-front n (x ∷ xs) ys b = (b.0, AllBelow-front n xs ys b.1)

-- The first element whose key is `i`, as the List API finds it by id.
module _ {ℓ} {A : Type ℓ} (key : A → ℕ) where
  abbrev pub find_by : ℕ → List A → Option A
  find_by i [] = none
  find_by i (x ∷ xs) = if key x == i then some x else find_by i xs

  abbrev pub remove_by : ℕ → List A → List A
  remove_by i [] = []
  remove_by i (x ∷ xs) = if key x == i then xs else x ∷ remove_by i xs

  -- The list after the first element with key `i` was changed in place.
  abbrev pub change_by : ℕ → (A → A) → List A → List A
  change_by i f [] = []
  change_by i f (x ∷ xs) = if key x == i then f x ∷ xs else x ∷ change_by i f xs

module _ {ℓ} {A : Type ℓ} (key : A → ℕ) where
  pub find_by-key : (i : ℕ) (xs : List A) (a : A) → find_by key i xs ≡ some a → key a ≡ i
  find_by-key i [] a e = cc
  find_by-key i (x ∷ xs) a e = ground (arith, find_by-key i xs a)

  pub find_by-change :
      (i j : ℕ) (f : A → A) (xs : List A)
      → ((a : A) → key (f a) ≡ key a)
      → find_by key j (change_by key i f xs)
        ≡ (if i == j then Option.map f (find_by key j xs) else find_by key j xs)
  find_by-change i j f [] same = ground arith
  find_by-change i j f (x ∷ xs) same = ground (arith, same x, find_by-change i j f xs same)

  pub find_by-append_one :
      (i : ℕ) (y : A) (xs : List A)
      → find_by key i xs ≡ none
      → find_by key i (xs ++ (y ∷ [])) ≡ (if key y == i then some y else none)
  find_by-append_one i y [] e = refl
  find_by-append_one i y (x ∷ xs) e = ground (arith, find_by-append_one i y xs)

  pub find_by-append_some :
      (i : ℕ) (y a : A) (xs : List A)
      → find_by key i xs ≡ some a
      → find_by key i (xs ++ (y ∷ [])) ≡ some a
  find_by-append_some i y a [] e = cc
  find_by-append_some i y a (x ∷ xs) e = ground (arith, find_by-append_some i y a xs)

  pub find_by-remove_ne :
      (i j : ℕ) (xs : List A) → i ≢ j → find_by key j (remove_by key i xs) ≡ find_by key j xs
  find_by-remove_ne i j [] h = refl
  find_by-remove_ne i j (x ∷ xs) h = ground (arith, find_by-remove_ne i j xs)

-- Numbers are their own keys.
abbrev pub remove : ℕ → List ℕ → List ℕ
remove = remove_by (λ x. x)

pub has-remove :
    (i j : ℕ) (xs : List ℕ)
    → IsDistinct xs
    → has j (remove i xs) ≡ (if i == j then false else has j xs)
has-remove i j [] d = ground arith
has-remove i j (x ∷ xs) d = ground (arith, has-remove i j xs d.1)

pub IsDistinct-remove : (i : ℕ) (xs : List ℕ) → IsDistinct xs → IsDistinct (remove i xs)
IsDistinct-remove i [] d = tt
IsDistinct-remove i (x ∷ xs) d = ground (arith, has-remove i x xs, IsDistinct-remove i xs d.1)

module _ {ℓ} {A : Type ℓ} (key : A → ℕ) where
  pub find_by-put :
      (i : ℕ) (v a : A) (xs : List A)
      → find_by key i xs ≡ some a
      → key v ≡ i
      → find_by key i (change_by key i (λ _. v) xs) ≡ some v
  find_by-put i v a [] e h = cc
  find_by-put i v a (x ∷ xs) e h = ground (arith, find_by-put i v a xs)

  pub find_by-put_ne :
      (i j : ℕ) (v : A) (xs : List A)
      → i ≢ j
      → key v ≡ i
      → find_by key j (change_by key i (λ _. v) xs) ≡ find_by key j xs
  find_by-put_ne i j v [] ne h = refl
  find_by-put_ne i j v (x ∷ xs) ne h = ground (arith, find_by-put_ne i j v xs)

pub List-cases {ℓ} :
    {A : Type ℓ} (xs : List A) → (xs ≡ []) ⊎ ((x : A) × (rest : List A) × (xs ≡ x ∷ rest))
List-cases [] = inl refl
List-cases (x ∷ rest) = inr (x, rest, refl)

pub length-remove : (x : ℕ) (xs : List ℕ) → has x xs ≡ true → length (remove x xs) + 1 ≡ length xs
length-remove x [] h = cc
length-remove x (y ∷ ys) h = ground (arith, length-remove x ys)

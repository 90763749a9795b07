-- ===== src/LinkedList/Chain.antt =====
-- The links of a list, forward by `next` and backward by `prev`.
use theynix.Base.{
  ℕ, ◌≡◌, ◌≢◌, refl, true, false, List, [], ◌∷◌, ◌++◌, arith, update, IsDistinct, has, has-last_of,
  last_of,
}
use theynix.LinkedList.{Memory}

-- From `p` the `next` pointers lead through the nodes `ns`, none of them freed, to `stop`.
abbrev pub Forward : Memory → (stop p : ℕ) → List ℕ → Type 0
Forward m stop p [] = p ≡ stop
Forward m stop p (a ∷ ns) = (p ≡ a) × (m.live a ≡ true) × Forward m stop (m.next a) ns

-- Each node of `ns` points back to the one before it, the first one to `before`.
abbrev pub Back : Memory → (before : ℕ) → List ℕ → Type 0
Back m before [] = Unit
Back m before (a ∷ ns) = (m.prev a ≡ before) × Back m a ns

abbrev pub BackAll : Memory → List ℕ → Type 0
BackAll m [] = Unit
BackAll m (a ∷ ns) = Back m a ns

abbrev pub first_or : ℕ → List ℕ → ℕ
first_or e [] = e
first_or e (a ∷ ns) = a

pub Forward-first : (m : Memory) (e p : ℕ) (ns : List ℕ) → Forward m e p ns → p ≡ first_or e ns
Forward-first m e p [] f = f
Forward-first m e p (a ∷ ns) f = f.0

pub Forward-live :
    (m : Memory) (e p a : ℕ) (ns : List ℕ) → Forward m e p ns → has a ns ≡ true → m.live a ≡ true
Forward-live m e p a [] f h = cc
Forward-live m e p a (b ∷ ns) f h = ground (arith, Forward-live m e (m.next b) a ns f.2)

pub Forward-live_first :
    (m : Memory) (e p : ℕ) (ns : List ℕ) → m.live e ≡ true → Forward m e p ns → m.live p ≡ true
Forward-live_first m e p [] v f = rw f v
Forward-live_first m e p (a ∷ ns) v f = rw (f.0) (f.1)

pub Forward-frame :
    (m m' : Memory) (e p : ℕ) (ns : List ℕ)
    → ((a : ℕ) → has a ns ≡ true → (m'.next a ≡ m.next a) × (m'.live a ≡ m.live a))
    → Forward m e p ns
    → Forward m' e p ns
Forward-frame m m' e p [] same f = f
Forward-frame m m' e p (a ∷ ns) same f = (
  f.0,
  ground (arith, same a),
  rw ((same a (ground arith)).0)
      (Forward-frame m m' e (m.next a) ns (λ b h. same b (ground arith)) f.2),
)

pub Forward-append :
    (m : Memory) (mid e p : ℕ) (xs ys : List ℕ)
    → Forward m mid p xs
    → Forward m e mid ys
    → Forward m e p (xs ++ ys)
Forward-append m mid e p [] ys f g = rw f g
Forward-append m mid e p (x ∷ xs) ys f g = (f.0, f.1, Forward-append m mid e (m.next x) xs ys f.2 g)

pub Forward-split :
    (m : Memory) (e p : ℕ) (xs ys : List ℕ)
    → Forward m e p (xs ++ ys)
    → Forward m (first_or e ys) p xs × Forward m e (first_or e ys) ys
Forward-split m e p [] ys f = let first = Forward-first m e p ys f in (first, rw (← first) f)
Forward-split m e p (x ∷ xs) ys f =
    let (a, b) = Forward-split m e (m.next x) xs ys f.2 in ((f.0, f.1, a), b)

-- The last node is made to point elsewhere.
pub Forward-relink :
    (m : Memory) (e t p x : ℕ) (xs : List ℕ)
    → IsDistinct (x ∷ xs)
    → Forward m e p (x ∷ xs)
    → Forward (record m { next = update m.next (last_of x xs) t }) t p (x ∷ xs)
Forward-relink m e t p x [] d f = (f.0, f.1, ground arith)
Forward-relink m e t p x (y ∷ ys) d f =
    let same : update m.next (last_of y ys) t x ≡ m.next x = ground (arith, has-last_of y ys) in
    (f.0, f.1, rw same (Forward-relink m e t (m.next x) y ys d.1 f.2))

pub Back-frame :
    (m m' : Memory) (before : ℕ) (ns : List ℕ)
    → ((a : ℕ) → has a ns ≡ true → m'.prev a ≡ m.prev a)
    → Back m before ns
    → Back m' before ns
Back-frame m m' before [] same b = tt
Back-frame m m' before (a ∷ ns) same b =
    (ground (arith, same a), Back-frame m m' a ns (λ c h. same c (ground arith)) b.1)

pub Back-append :
    (m : Memory) (before : ℕ) (xs ys : List ℕ)
    → Back m before xs
    → Back m (last_of before xs) ys
    → Back m before (xs ++ ys)
Back-append m before [] ys b c = c
Back-append m before (x ∷ xs) ys b c = (b.0, Back-append m x xs ys b.1 c)

pub Back-split :
    (m : Memory) (before : ℕ) (xs ys : List ℕ)
    → Back m before (xs ++ ys)
    → Back m before xs × Back m (last_of before xs) ys
Back-split m before [] ys b = (tt, b)
Back-split m before (x ∷ xs) ys b = let (c, d) = Back-split m x xs ys b.1 in ((b.0, c), d)

pub BackAll-frame :
    (m m' : Memory) (ns : List ℕ)
    → ((a : ℕ) → has a ns ≡ true → m'.prev a ≡ m.prev a)
    → BackAll m ns
    → BackAll m' ns
BackAll-frame m m' [] same b = tt
BackAll-frame m m' (a ∷ ns) same b = Back-frame m m' a ns (λ c h. same c (ground arith)) b

-- The first node is made to point elsewhere.
pub Back-relink :
    (m : Memory) (e p q : ℕ) (ns : List ℕ)
    → IsDistinct ns
    → Back m p ns
    → Back (record m { prev = update m.prev (first_or e ns) q }) q ns
Back-relink m e p q [] d b = tt
Back-relink m e p q (a ∷ ns) d b = (
  ground arith,
  Back-frame m (record m { prev = update m.prev a q }) a ns (λ c h. ground (arith, d.0)) (b.1),
)

pub first_or-append_one : (e s : ℕ) (ns : List ℕ) → first_or e (ns ++ (s ∷ [])) ≡ first_or s ns
first_or-append_one e s [] = refl
first_or-append_one e s (a ∷ ns) = refl

pub has-first_or : (s c : ℕ) (ns : List ℕ) → has c ns ≡ false → c ≢ s → c ≢ first_or s ns
has-first_or s c [] out ne = ne
has-first_or s c (a ∷ ns) out ne = ground arith

-- ===== src/StreamStat/Arrivals.antt =====
-- Windows that are numbered by their sample time and arrive out of order, as lists of numbers.
use mathlib.Core.Path.{subst}
use sceptre_pipeline.Prelude.{
  ℕ, zero, suc, ◌+◌, ◌≤◌, ◌<◌, ◌≡◌, ◌≢◌, refl, sym, ap, Bool-cases, List, [], ◌∷◌, ◌++◌, ◌⊎◌, inl,
  inr, arith, length, ltb, ltb→lt, ltb_false→le, if◌then◌else◌,
}

abbrev pub Among : ℕ → List ℕ → Type 0
Among i [] = ⊥
Among i (x ∷ xs) = (i ≡ x) ⊎ Among i xs

-- strictly increasing
abbrev pub Increasing : List ℕ → Type 0
Increasing [] = Unit
Increasing (x ∷ xs) = ((i : ℕ) → Among i xs → x < i) × Increasing xs

-- without a repetition
abbrev pub Distinct : List ℕ → Type 0
Distinct [] = Unit
Distinct (x ∷ xs) = (Among x xs → ⊥) × Distinct xs

unfoldable pub insert : ℕ → List ℕ → List ℕ
insert x [] = x ∷ []
insert x (y ∷ ys) = let rest = insert x ys in if ltb x y then x ∷ y ∷ ys else y ∷ rest

-- `k` numbers from `c`
abbrev pub count_from : ℕ → ℕ → List ℕ
count_from c zero = []
count_from c (suc k) = c ∷ count_from (suc c) k

pub Among-append : (i : ℕ) (xs ys : List ℕ) → Among i xs → Among i (xs ++ ys)
Among-append i [] ys m = absurd m
Among-append i (x ∷ xs) ys (inl e) = inl e
Among-append i (x ∷ xs) ys (inr m) = inr (Among-append i xs ys m)

pub Among-last : (i : ℕ) (xs ys : List ℕ) → Among i (xs ++ i ∷ ys)
Among-last i [] ys = inl refl
Among-last i (x ∷ xs) ys = inr (Among-last i xs ys)

pub Among-snoc : (i x : ℕ) (xs : List ℕ) → Among i (xs ++ x ∷ []) → Among i xs ⊎ (i ≡ x)
Among-snoc i x [] (inl e) = inr e
Among-snoc i x [] (inr m) = absurd m
Among-snoc i x (y ∷ xs) (inl e) = inl (inl e)
Among-snoc i x (y ∷ xs) (inr m) = elim (Among-snoc i x xs m) [
  | inl here ↦ inl (inr here)
  | inr e ↦ inr e
]

pub Distinct-new : (x : ℕ) (xs ys : List ℕ) → Distinct (xs ++ x ∷ ys) → Among x xs → ⊥
Distinct-new x [] ys d m = absurd m
Distinct-new x (y ∷ xs) ys (new, d) (inl e) = new (rw (sym e) (Among-last x xs ys))
Distinct-new x (y ∷ xs) ys (new, d) (inr m) = Distinct-new x xs ys d m

pub length-insert : (x : ℕ) (ys : List ℕ) → length (insert x ys) ≡ length ys + 1
unfolding insert
length-insert x [] = refl
length-insert x (y ∷ ys) = ground (arith, length-insert x ys)

pub insert-Among : (x i : ℕ) (ys : List ℕ) → (i ≡ x) ⊎ Among i ys → Among i (insert x ys)
unfolding insert
insert-Among x i [] (inl e) = inl e
insert-Among x i [] (inr m) = absurd m
insert-Among x i (y ∷ ys) m = elim (Bool-cases (ltb x y)) [
  | inl first ↦ rw first m
  | inr later ↦ rw later (elim m [
    | inl e ↦ inr (insert-Among x i ys (inl e))
    | inr (inl e) ↦ inl e
    | inr (inr there) ↦ inr (insert-Among x i ys (inr there))
  ])
]

behind :
    (x i y : ℕ) (ys : List ℕ)
    → Among i (y ∷ insert x ys)
    → (Among i (insert x ys) → (i ≡ x) ⊎ Among i ys)
    → (i ≡ x) ⊎ Among i (y ∷ ys)
behind x i y ys (inl e) f = inr (inl e)
behind x i y ys (inr m) f = elim (f m) [ inl e ↦ inl e | inr k ↦ inr (inr k) ]

pub Among-insert : (x i : ℕ) (ys : List ℕ) → Among i (insert x ys) → (i ≡ x) ⊎ Among i ys
unfolding insert
Among-insert x i [] m = m
Among-insert x i (y ∷ ys) m = elim (Bool-cases (ltb x y)) [
  | inl first ↦ subst (λ b. Among i (if b then x ∷ y ∷ ys else y ∷ insert x ys)) first m
  | inr later ↦
      behind x i y ys (subst (λ b. Among i (if b then x ∷ y ∷ ys else y ∷ insert x ys)) later m)
        (λ k. Among-insert x i ys k)
]

not_before : (x y : ℕ) → y ≤ x → x ≢ y → y < x
not_before x y h ne = omega (arith, ne)

above_cons :
    (x y : ℕ) (ys : List ℕ)
    → x < y
    → ((i : ℕ) → Among i ys → y < i)
    → (i : ℕ) → Among i (y ∷ ys)
    → x < i
above_cons x y ys h above i (inl e) = omega arith
above_cons x y ys h above i (inr m) = omega (arith, above i m)

above_insert :
    (x y : ℕ) (ys : List ℕ)
    → y < x
    → ((i : ℕ) → Among i ys → y < i)
    → (i : ℕ) → Among i (insert x ys)
    → y < i
above_insert x y ys h above i m = elim (Among-insert x i ys m) [
  | inl e ↦ omega arith
  | inr k ↦ above i k
]

pub insert-Increasing :
    (x : ℕ) (ys : List ℕ) → (Among x ys → ⊥) → Increasing ys → Increasing (insert x ys)
unfolding insert
insert-Increasing x [] new sorted = ((λ i m. absurd m), tt)
insert-Increasing x (y ∷ ys) new (above, sorted) = elim (Bool-cases (ltb x y)) [
  | inl first ↦ rw first (above_cons x y ys (ltb→lt x y first) above, (above, sorted))
  | inr later ↦ rw later (
    above_insert x y ys (not_before x y (ltb_false→le x y later) (λ e. new (inl e))) above,
    insert-Increasing x ys (λ m. new (inr m)) sorted,
  )
]

-- The least of increasing numbers from `c` on is `c` if that is among them.
pub head_least :
    (c h : ℕ) (t : List ℕ)
    → Increasing (h ∷ t)
    → ((i : ℕ) → Among i (h ∷ t) → c ≤ i)
    → Among c (h ∷ t)
    → h ≡ c
head_least c h t sorted low (inl e) = sym e
head_least c h t (above, sorted) low (inr m) = omega (arith, above c m, low h (inl refl))

length-Increasing :
    (xs : List ℕ) (c m : ℕ)
    → c ≤ m
    → Increasing xs
    → ((i : ℕ) → Among i xs → c ≤ i)
    → ((i : ℕ) → Among i xs → i < m)
    → c + length xs ≤ m
length-Increasing [] c m h sorted low high = omega arith
length-Increasing (x ∷ xs) c m h (above, sorted) low high = omega (
  arith,
  low x (inl refl),
  length-Increasing xs (suc x) m (high x (inl refl)) sorted above (λ i k. high i (inr k)),
)

-- Increasing numbers that have just room between two bounds are all that lie there.
pub Increasing-full :
    (xs : List ℕ) (c : ℕ)
    → Increasing xs
    → ((i : ℕ) → Among i xs → c ≤ i)
    → ((i : ℕ) → Among i xs → i < c + length xs)
    → xs ≡ count_from c (length xs)
Increasing-full [] c sorted low high = refl
Increasing-full (x ∷ xs) c (above, sorted) low high =
    let bound =
      length-Increasing xs (suc x) (c + suc (length xs)) (high x (inl refl)) sorted above
        (λ i k. high i (inr k)) in
    let head : x ≡ c = omega (arith, bound, low x (inl refl)) in
    rw head (
      ap (c ∷◌) (
        Increasing-full xs (suc c) sorted (λ i k. omega (arith, head, above i k))
          (λ i k. omega (arith, high i (inr k)))))

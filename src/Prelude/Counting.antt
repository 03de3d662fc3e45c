-- ===== src/Prelude/Counting.antt =====
-- How often strings stand in lists of strings.
use Prim.Native.Nat.{ℕ, suc, ◌+◌, ◌≤◌, ◌<◌}
use mathlib.Core.Path.{◌≡◌, subst, ap, sym, ◌∙◌, refl}
use mathlib.Core.Logic.{inl, inr}
use mathlib.Core.Bool.{true, false}
use mathlib.Core.List.{List, [], ◌∷◌, ◌++◌}
use native.Mathlib.Omega.{arith}
use crosscodex.Prelude.Tests.{if◌then◌else◌, ltb, Bool-cases}
use crosscodex.Prelude.Lists.{length, In, here, there, All}
use crosscodex.Prelude.Str.{Str, eqs, eqs_iff, eqs_refl}
use crosscodex.Prelude.Sort.{sort, insert_sorted}
use crosscodex.Prelude.Sets.{has}

abbrev pub count : Str → List Str → ℕ
count s [] = 0
count s (x ∷ xs) = let rest = count s xs in if eqs x s then suc rest else rest

-- How often the elements of the first list stand in the second.
abbrev pub hits : List Str → List Str → ℕ
hits [] xs = 0
hits (d ∷ ds) xs = count d xs + hits ds xs

pub count-append : (s : Str) (xs ys : List Str) → count s (xs ++ ys) ≡ count s xs + count s ys
count-append s [] ys = omega arith
count-append s (x ∷ xs) ys = ground (arith, count-append s xs ys)

count-insert_sorted : (s x : Str) (xs : List Str) → count s (insert_sorted x xs) ≡ count s (x ∷ xs)
unfolding insert_sorted
count-insert_sorted s x [] = refl
count-insert_sorted s x (y ∷ ys) = ground (arith, count-insert_sorted s x ys)

pub count-sort : (s : Str) (xs : List Str) → count s (sort xs) ≡ count s xs
unfolding sort
count-sort s [] = refl
count-sort s (x ∷ xs) = ground (arith, count-insert_sorted s x (sort xs), count-sort s xs)

pub hits-nil : (ds : List Str) → hits ds [] ≡ 0
hits-nil [] = refl
hits-nil (d ∷ ds) = omega (arith, hits-nil ds)

pub hits-cons :
    (ds : List Str) (x : Str) (xs : List Str) → hits ds (x ∷ xs) ≡ count x ds + hits ds xs
hits-cons [] x xs = omega arith
hits-cons (d ∷ ds) x xs = ground (arith, hits-cons ds x xs, eqs_iff x d, eqs_iff d x)

pub hits-append : (ds xs ys : List Str) → hits ds (xs ++ ys) ≡ hits ds xs + hits ds ys
hits-append [] xs ys = omega arith
hits-append (d ∷ ds) xs ys = omega (arith, hits-append ds xs ys, count-append d xs ys)

-- Double counting.
pub hits-swap : (ds xs : List Str) → hits ds xs ≡ hits xs ds
hits-swap ds [] = hits-nil ds
hits-swap ds (x ∷ xs) = omega (arith, hits-cons ds x xs, hits-swap ds xs)

pub hits_at_most : (ds xs : List Str) → ((s : Str) → count s xs ≤ 1) → hits ds xs ≤ length ds
hits_at_most [] xs h = omega arith
hits_at_most (d ∷ ds) xs h = omega (arith, hits_at_most ds xs h, h d)

pub has-count : (s : Str) (xs : List Str) → has xs s ≡ ltb 0 (count s xs)
unfolding has
has-count s [] = refl
has-count s (x ∷ xs) = ground (arith, has-count s xs)

pub In-count : {s : Str} {xs : List Str} → In s xs → 1 ≤ count s xs
In-count {s} (here {x} e) = ground (arith, eqs_iff x s)
In-count {s} (there {x} i) = ground (arith, In-count i)

pub count-In : (s : Str) (xs : List Str) → 1 ≤ count s xs → In s xs
count-In s [] h = ground arith
count-In s (x ∷ xs) h = elim (Bool-cases (eqs x s)) [
  | inl e ↦ here ((eqs_iff x s).0 e)
  | inr e ↦ there (count-In s xs (ground arith))
]

pub All_counted {κ} :
    (P : Str → Type κ) (xs : List Str) → ((s : Str) → 1 ≤ count s xs → P s) → All P xs
All_counted P [] f = tt
All_counted P (x ∷ xs) f =
    (f x (ground (arith, eqs_refl x)), All_counted P xs (λ s h. f s (ground arith)))

-- Where all of a list of names are hit, each is there.
pub hits_full :
    (ds xs : List Str)
    → ((s : Str) → count s xs ≤ 1)
    → hits ds xs ≡ length ds
    → All (λ d. has xs d ≡ true) ds
hits_full [] xs h e = tt
hits_full (d ∷ ds) xs h e = (
  ground (arith, has-count d xs, hits_at_most ds xs h, h d),
  hits_full ds xs h (omega (arith, hits_at_most ds xs h, h d)),
)

pub hits_at_least : (us vs : List Str) → All (λ x. has vs x ≡ true) us → length us ≤ hits us vs
hits_at_least [] vs b = omega arith
hits_at_least (u ∷ us) vs b = ground (arith, hits_at_least us vs b.1, has-count u vs)

-- Where not all are hit, one is not there.
pub hits_missing :
    (ds xs : List Str) → hits ds xs < length ds → (d : Str) × (has ds d ≡ true) × (has xs d ≡ false)
unfolding has
hits_missing [] xs h = let no : ⊥ = omega arith in elim no [ ]
hits_missing (d ∷ ds) xs h = elim (Bool-cases (has xs d)) [
  | inr b ↦ (d, ground (arith, eqs_refl d), b)
  | inl b ↦
      let (e, i, n) = hits_missing ds xs (ground (arith, has-count d xs)) in (e, ground arith, n)
]

pub All-has {κ} : (P : Str → Type κ) (xs : List Str) (x : Str) → All P xs → has xs x ≡ true → P x
unfolding has
All-has P [] x a h = cc
All-has P (y ∷ ys) x a h = elim (Bool-cases (eqs y x)) [
  | inl b ↦ subst P ((eqs_iff y x).0 b) a.0
  | inr b ↦ All-has P ys x a.1 (rw b at h)
]

pub has-sort : (s : Str) (xs : List Str) → has (sort xs) s ≡ has xs s
has-sort s xs = has-count s (sort xs) ∙ ap (ltb 0) (count-sort s xs) ∙ sym (has-count s xs)

-- ===== src/GraphDb/MemDriver/Walk/Complete.antt =====
-- The length of the paths that walk of pkg/graphdb/memdriver/client.go finds, and its fuel.
use crosscodex.Prelude.{
  ℕ, zero, suc, ◌+◌, ◌-◌, ◌<◌, ◌≤◌, ◌≡◌, refl, ap, subst, ◌↔◌, false, ◌||◌, List, [], ◌∷◌, ◌++◌,
  some, ◌==◌, if◌then◌else◌, length, arith, In, here, there, All, All-append, Bool-cases, inl, inr,
}
use crosscodex.GraphDb.Types.{TraversalQuery}
use crosscodex.GraphDb.MemDriver.Props.{Formats}
use crosscodex.GraphDb.MemDriver.Graph.{MemEdge}
use crosscodex.GraphDb.MemDriver.Walk.{uses, onward, placed, Trace, walk}
use crosscodex.GraphDb.MemDriver.Walk.Trails.{
  Trail, stay, go, IsTrail, walk-IsTrail, extensions-In, walk-In,
}

-- No place stands twice.
abbrev Fresh : List ℕ → Type 0
Fresh [] = Unit {0}
Fresh (j ∷ js) = (uses js j ≡ false) × Fresh js

abbrev Below : ℕ → List ℕ → Type 0
Below n = All (λ i. i < n)

abbrev without : ℕ → List ℕ → List ℕ
without n [] = []
without n (j ∷ js) = let rest = without n js in if j == n then rest else j ∷ rest

uses-append : (js : List ℕ) (k i : ℕ) → uses (js ++ k ∷ []) i ≡ (uses js i || k == i)
unfolding uses
uses-append [] k i = ground arith
uses-append (j ∷ js) k i = ground (arith, uses-append js k i)

Fresh-append : (js : List ℕ) (k : ℕ) → Fresh js → uses js k ≡ false → Fresh (js ++ k ∷ [])
unfolding uses
Fresh-append [] k f h = (refl, tt)
Fresh-append (j ∷ js) k f h =
    (ground (arith, uses-append js k j), Fresh-append js k f.1 (ground arith))

uses-without : (n i : ℕ) (js : List ℕ) → uses js i ≡ false → uses (without n js) i ≡ false
unfolding uses
uses-without n i [] h = refl
uses-without n i (j ∷ js) h = ground (arith, uses-without n i js)

without-Fresh : (n : ℕ) (js : List ℕ) → Fresh js → Fresh (without n js)
without-Fresh n [] f = tt
without-Fresh n (j ∷ js) f = elim (Bool-cases (j == n)) [
  | inl e ↦ rw e (without-Fresh n js f.1)
  | inr e ↦ rw e (uses-without n j js f.0, without-Fresh n js f.1)
]

without-Below : (n : ℕ) (js : List ℕ) → Below (suc n) js → Below n (without n js)
without-Below n [] b = tt
without-Below n (j ∷ js) b = elim (Bool-cases (j == n)) [
  | inl e ↦ rw e (without-Below n js b.1)
  | inr e ↦ rw e (ground (arith, b.0), without-Below n js b.1)
]

length-without_absent :
    (n : ℕ) (js : List ℕ) → uses js n ≡ false → length (without n js) ≡ length js
unfolding uses
length-without_absent n [] h = refl
length-without_absent n (j ∷ js) h = ground (arith, length-without_absent n js)

length-without : (n : ℕ) (js : List ℕ) → Fresh js → length js ≤ suc (length (without n js))
length-without n [] f = omega arith
length-without n (j ∷ js) f = elim (Bool-cases (j == n)) [
  | inl e ↦
      let same : j ≡ n = ground arith in
      rw e (omega (arith, length-without_absent n js (subst (λ x. uses js x ≡ false) same f.0)))
  | inr e ↦ rw e (omega (arith, length-without n js f.1))
]

-- Distinct numbers below `n` are at most `n`.
length-Fresh : (n : ℕ) (js : List ℕ) → Below n js → Fresh js → length js ≤ n
length-Fresh n [] b f = omega arith
length-Fresh zero (j ∷ js) b f = absurd (omega (arith, b.0))
length-Fresh (suc n) (j ∷ js) b f =
    let shorter =
      length-Fresh n (without n (j ∷ js)) (without-Below n (j ∷ js) b)
        (without-Fresh n (j ∷ js) f) in
    omega (arith, length-without n (j ∷ js) f, shorter)

module _ (fmt : Formats) (q : TraversalQuery) (es : List (MemEdge fmt)) (start : ℕ) where
  placed-lt :
      {x : ℕ × MemEdge fmt} (k : ℕ) (xs : List (MemEdge fmt))
      → In x (placed fmt k xs)
      → x.0 < k + length xs
  placed-lt k [] h = elim h [ ]
  placed-lt k (e ∷ xs) (here same) = omega (arith, ap (λ x. x.0) same)
  placed-lt k (e ∷ xs) (there j) = omega (arith, placed-lt (suc k) xs j)

  onward-unused :
      (c : ℕ) (us : List ℕ) (i n : ℕ) (e : MemEdge fmt)
      → onward fmt q c us i e ≡ some n
      → uses us i ≡ false
  unfolding onward
  onward-unused c us i n e h = ground arith

  record Bounded (us : List ℕ) : Type 0 where
    fresh : Fresh us
    below : Below (length es) us

  Trail-Bounded : {c : ℕ} {ns us : List ℕ} → Trail fmt q es start c ns us → Bounded us
  Trail-Bounded stay = record { fresh = tt; below = tt }
  Trail-Bounded (go {current = c} {nodes = ns} {used = us} {i = i} {n = n} {e = e} w d j f) =
      let b = Trail-Bounded w in
      record {
        fresh = Fresh-append us i b.fresh (onward-unused c us i n e f);
        below =
            All-append (λ k. k < length es) us (i ∷ []) b.below
              (omega (arith, placed-lt 0 es j), tt);
      }

  Trail-In :
      {c : ℕ} {ns us : List ℕ}
      → Trail fmt q es start c ns us
      → 0 < length us
      → In (ns, us) (walk fmt (suc (length es)) q es start (start ∷ []) [])
  unfolding walk
  Trail-In stay h = absurd (omega arith)
  Trail-In (go {current = c} {nodes = ns} {used = us} {i = i} {n = n} {e = e} w d j f) h =
      let b = Trail-Bounded w in
      let short = length-Fresh (length es) us b.below b.fresh in
      let k = length es - length us in
      let step : In (ns ++ n ∷ [], us ++ i ∷ []) (walk fmt (suc k) q es c ns us) = rw d (
        extensions-In fmt q es start (walk fmt k q es) c ns us (placed fmt 0 es) j f _
          (here refl)) in
      let fuel : length us + suc k ≡ suc (length es) = omega (arith, short) in
      subst (λ m. In (ns ++ n ∷ [], us ++ i ∷ []) (walk fmt m q es start (start ∷ []) [])) fuel
        (walk-In fmt q es start w (suc k) _ step)

  -- With fuel for one more step than there are edges, the walk from a node records exactly the
  -- trails from it that have an edge: the paths of allowed edges, none repeated, each leading on in
  -- the direction of the query, up to its depth.
  pub walk_iff :
      (t : Trace)
      → In t (walk fmt (suc (length es)) q es start (start ∷ []) []) ↔ IsTrail fmt q es start t
  walk_iff t = (
    λ h. walk-IsTrail fmt q es start (suc (length es)) start (start ∷ []) [] stay t h,
    λ h. Trail-In h.1 h.2,
  )

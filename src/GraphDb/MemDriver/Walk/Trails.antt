-- ===== src/GraphDb/MemDriver/Walk/Trails.antt =====
-- The paths that walk of pkg/graphdb/memdriver/client.go finds, against a description of them.
use crosscodex.Prelude.{
  ℕ, zero, suc, ◌+◌, ◌<◌, ◌≡◌, refl, sym, ap, subst, false, List, [], ◌∷◌, ◌++◌, some, length,
  length-append, arith, Bool-cases, Option-cases, inl, inr, In, here, there, In-append_left,
  In-append_right, In-append_split,
}
use crosscodex.GraphDb.Types.{TraversalQuery}
use crosscodex.GraphDb.MemDriver.Props.{Formats}
use crosscodex.GraphDb.MemDriver.Graph.{MemEdge}
use crosscodex.GraphDb.MemDriver.Walk.{onward, placed, Trace, extensions, deep, walk}

module _ (fmt : Formats) (q : TraversalQuery) (es : List (MemEdge fmt)) (start : ℕ) where
  -- A path from `start` that goes on, edge by edge, only with edges of an allowed label, unused so
  -- far, that lead on in the direction of the query, while it is shorter than the depth of the query.
  pub data Trail : ℕ → List ℕ → List ℕ → Type 0 where
    stay : Trail start (start ∷ []) []
    go :
        {current : ℕ} {nodes used : List ℕ} {i n : ℕ} {e : MemEdge fmt}
        → Trail current nodes used
        → deep fmt q used ≡ false
        → In (i, e) (placed fmt 0 es)
        → onward fmt q current used i e ≡ some n
        → Trail n (nodes ++ n ∷ []) (used ++ i ∷ [])

  abbrev pub IsTrail : Trace → Type 0
  IsTrail t = (current : ℕ) × Trail current t.0 t.1 × (0 < length t.1)

  extensions-IsTrail :
      (deeper : ℕ → List ℕ → List ℕ → List Trace)
      → ((c : ℕ) (ns us : List ℕ) → Trail c ns us → (t : Trace) → In t (deeper c ns us) → IsTrail t)
      → (c : ℕ) (ns us : List ℕ) → Trail c ns us
      → deep fmt q us ≡ false
      → (xs : List (ℕ × MemEdge fmt)) → ((x : ℕ × MemEdge fmt) → In x xs → In x (placed fmt 0 es))
      → (t : Trace) → In t (extensions fmt q deeper c ns us xs)
      → IsTrail t
  unfolding extensions
  extensions-IsTrail deeper ih c ns us w shallow [] sub t h = elim h [ ]
  extensions-IsTrail deeper ih c ns us w shallow ((i, e) ∷ xs) sub t h =
      let later = extensions-IsTrail deeper ih c ns us w shallow xs (λ x j. sub x (there j)) t in
      elim (Option-cases (onward fmt q c us i e)) [
        | inl f ↦ later (rw (f, extensions) at h)
        | inr (n, f) ↦
            let longer = go w shallow (sub (i, e) (here refl)) f in
            of n longer later (rw (f, extensions) at h)
      ]
    where
      of :
          (n : ℕ)
          → Trail n (ns ++ n ∷ []) (us ++ i ∷ [])
          → (In t (extensions fmt q deeper c ns us xs) → IsTrail t)
          → In t (
              (ns ++ n ∷ [], us ++ i ∷ [])
              ∷ (deeper n (ns ++ n ∷ []) (us ++ i ∷ []) ++ extensions fmt q deeper c ns us xs))
          → IsTrail t
      of n longer later (here same) =
          subst IsTrail same (n, longer, omega (arith, length-append us (i ∷ [])))
      of n longer later (there j) =
          elim (In-append_split (deeper n (ns ++ n ∷ []) (us ++ i ∷ [])) j) [
            | inl k ↦ ih n (ns ++ n ∷ []) (us ++ i ∷ []) longer t k
            | inr k ↦ later k
          ]

  pub walk-IsTrail :
      (fuel c : ℕ) (ns us : List ℕ)
      → Trail c ns us
      → (t : Trace) → In t (walk fmt fuel q es c ns us)
      → IsTrail t
  unfolding walk
  walk-IsTrail zero c ns us w t h = elim h [ ]
  walk-IsTrail (suc fuel) c ns us w t h = elim (Bool-cases (deep fmt q us)) [
    | inl d ↦ none_in (rw d at h)
    | inr d ↦
        extensions-IsTrail (walk fmt fuel q es)
          (λ c' ns' us' w' t' h'. walk-IsTrail fuel c' ns' us' w' t' h') c ns us w d
          (placed fmt 0 es) (λ x j. j) t (rw d at h)
  ]
    where
      none_in : {A : Type 0} → In t [] → A
      none_in i = elim i [ ]

  -- The loop meets every edge that leads on: it records the step, and all that is found behind it.
  pub extensions-In :
      (deeper : ℕ → List ℕ → List ℕ → List Trace) (c : ℕ) (ns us : List ℕ) {i n : ℕ}
      {e : MemEdge fmt} (xs : List (ℕ × MemEdge fmt))
      → In (i, e) xs
      → onward fmt q c us i e ≡ some n
      → (t : Trace) → In t ((ns ++ n ∷ [], us ++ i ∷ []) ∷ deeper n (ns ++ n ∷ []) (us ++ i ∷ []))
      → In t (extensions fmt q deeper c ns us xs)
  unfolding extensions
  extensions-In deeper c ns us [] j f t h = elim j [ ]
  extensions-In deeper c ns us {i} {n} {e} ((i', e') ∷ xs) (here same) f t h =
      let g : onward fmt q c us i' e' ≡ some n =
        subst (λ (x : ℕ × MemEdge fmt). onward fmt q c us x.0 x.1 ≡ some n) (sym same) f in
      let k : i' ≡ i = ap (λ x. x.0) same in
      rw (g, extensions) (rw k (In-append_left (extensions fmt q deeper c ns us xs) h))
  extensions-In deeper c ns us {i} {n} {e} ((i', e') ∷ xs) (there j) f t h =
      let later = extensions-In deeper c ns us xs j f t h in
      elim (Option-cases (onward fmt q c us i' e')) [
        | inl g ↦ rw (g, extensions) later
        | inr (m, g) ↦
            rw (g, extensions)
              (there (In-append_right (deeper m (ns ++ m ∷ []) (us ++ i' ∷ [])) later))
      ]

  pub walk-In :
      {c : ℕ} {ns us : List ℕ}
      → Trail c ns us
      → (fuel : ℕ) (t : Trace) → In t (walk fmt fuel q es c ns us)
      → In t (walk fmt (length us + fuel) q es start (start ∷ []) [])
  unfolding walk
  walk-In stay fuel t h =
      let same : fuel ≡ 0 + fuel = omega arith in
      subst (λ k. In t (walk fmt k q es start (start ∷ []) [])) same h
  walk-In (go {current = c} {nodes = ns} {used = us} {i = i} {n = n} {e = e} w d j f) fuel t h =
      let step : In t (walk fmt (suc fuel) q es c ns us) =
        rw d (extensions-In (walk fmt fuel q es) c ns us (placed fmt 0 es) j f t (there h)) in
      let more : length us + suc fuel ≡ length (us ++ i ∷ []) + fuel =
        omega (arith, length-append us (i ∷ [])) in
      subst (λ k. In t (walk fmt k q es start (start ∷ []) [])) more (walk-In w (suc fuel) t step)

-- ===== src/Prelude/Sort.antt =====
-- sort.Strings: Go compares strings byte by byte. Insertion sort stands for it, since equal strings
-- are the same string.
use crosscodex.Prelude.Tests.{ltb, ◌==◌, if◌then◌else◌, Bool-cases}
use crosscodex.Prelude.Lists.{In, here, there}
use crosscodex.Prelude.Str.{Str}
use mathlib.Core.Path.{◌≡◌}
use mathlib.Core.Logic.{◌⊎◌, inl, inr}
use mathlib.Core.Bool.{Bool, true, false, ◌&&◌, ◌||◌}
use mathlib.Core.List.{List, [], ◌∷◌, Perm}
use mathlib.Core.List.Perm

-- s <= t
unfoldable pub les : Str → Str → Bool
les [] t = true
les (a ∷ s) [] = false
les (a ∷ s) (b ∷ t) = ltb a b || (a == b && les s t)

unfoldable pub insert_sorted : Str → List Str → List Str
insert_sorted s [] = s ∷ []
insert_sorted s (t ∷ ts) = if les s t then s ∷ t ∷ ts else t ∷ insert_sorted s ts

unfoldable pub sort : List Str → List Str
unfolding les insert_sorted
sort [] = []
sort (s ∷ ss) = insert_sorted s (sort ss)

insert_sorted-perm : (s : Str) (ts : List Str) → Perm (insert_sorted s ts) (s ∷ ts)
unfolding insert_sorted
insert_sorted-perm s [] = Perm.refl (s ∷ [])
insert_sorted-perm s (t ∷ ts) = elim (Bool-cases (les s t)) [
  | inl e ↦ rw e (Perm.refl (s ∷ t ∷ ts))
  | inr e ↦ rw e (Perm.trans (Perm.cons t (insert_sorted-perm s ts)) (Perm.swap s t ts))
]

pub sort-perm : (ss : List Str) → Perm (sort ss) ss
unfolding sort
sort-perm [] = Perm.refl []
sort-perm (s ∷ ss) = Perm.trans (insert_sorted-perm s (sort ss)) (Perm.cons s (sort-perm ss))

pub In-insert_sorted :
    {x : Str} (s : Str) (ts : List Str) → In x (insert_sorted s ts) → In x (s ∷ ts)
unfolding insert_sorted
In-insert_sorted s [] i = i
In-insert_sorted {x} s (t ∷ ts) i = elim (Bool-cases (les s t)) [
  | inl e ↦ rw e at i
  | inr e ↦ elim (In-uncons (rw e at i)) [
    | inl h ↦ there (here h)
    | inr h ↦ elim (In-uncons (In-insert_sorted s ts h)) [
      | inl k ↦ here k
      | inr k ↦ there (there k)
    ]
  ]
]
  where
    In-uncons : {y : Str} {us : List Str} {u : Str} → In y (u ∷ us) → (u ≡ y) ⊎ In y us
    In-uncons (here h) = inl h
    In-uncons (there h) = inr h

pub In-sort : {x : Str} (ss : List Str) → In x (sort ss) → In x ss
unfolding sort
In-sort [] i = i
In-sort (s ∷ ss) i = elim (In-insert_sorted s (sort ss) i) [
  | here h ↦ here h
  | there h ↦ there (In-sort ss h)
]

insert_sorted-In : {x : Str} (s : Str) (ts : List Str) → In x (s ∷ ts) → In x (insert_sorted s ts)
unfolding insert_sorted
insert_sorted-In s [] i = i
insert_sorted-In s (t ∷ ts) i = elim (Bool-cases (les s t)) [
  | inl e ↦ rw e i
  | inr e ↦ rw e (elim i [
    | here h ↦ there (insert_sorted-In s ts (here h))
    | there (here h) ↦ here h
    | there (there h) ↦ there (insert_sorted-In s ts (there h))
  ])
]

pub sort-In : {x : Str} (ss : List Str) → In x ss → In x (sort ss)
unfolding sort
sort-In [] i = elim i [ ]
sort-In (s ∷ ss) (here h) = insert_sorted-In s (sort ss) (here h)
sort-In (s ∷ ss) (there h) = insert_sorted-In s (sort ss) (there (sort-In ss h))

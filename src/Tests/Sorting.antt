-- ===== src/Tests/Sorting.antt =====
-- An insertion sort that meets what the packer asks of `qsort`.
use mathlib.Core.List.{Perm}
use mathlib.Core.List.Perm.{rfl, nil, cons, swap, trans}
use hbf.Base.{
  ◌≡◌, refl, Bool, true, false, Bool-cases, inl, inr, List, [], ◌∷◌, Bytes, if◌then◌else◌, arith,
}
use hbf.Packer.{FileEntry, path_le, IsOrdered, Qsort}

unfoldable pub insert : FileEntry → List FileEntry → List FileEntry
unfolding path_le
insert e [] = e ∷ []
insert e (f ∷ fs) = let rest = insert e fs in if path_le e.path f.path then e ∷ f ∷ fs else f ∷ rest

unfoldable pub insertion_sort : List FileEntry → List FileEntry
unfolding insert
insertion_sort [] = []
insertion_sort (e ∷ es) = insert e (insertion_sort es)

Perm_if :
    (b : Bool) {l l₁ l₂ : List FileEntry} → Perm l₁ l → Perm l₂ l → Perm (if b then l₁ else l₂) l
Perm_if true p q = p
Perm_if false p q = q

insert-perm : (e : FileEntry) (es : List FileEntry) → Perm (insert e es) (e ∷ es)
unfolding insert
insert-perm e [] = rfl
insert-perm e (f ∷ fs) =
    Perm_if (path_le e.path f.path) rfl (trans (cons f (insert-perm e fs)) (swap e f fs))

pub insertion_sort-perm : (es : List FileEntry) → Perm (insertion_sort es) es
unfolding insertion_sort
insertion_sort-perm [] = nil
insertion_sort-perm (e ∷ es) =
    trans (insert-perm e (insertion_sort es)) (cons e (insertion_sort-perm es))

path_le_total : (p q : Bytes) → path_le p q ≡ false → path_le q p ≡ true
unfolding path_le
path_le_total [] q h = absurd cc
path_le_total (a ∷ p) [] h = refl
path_le_total (a ∷ p) (b ∷ q) h = ground (arith, path_le_total p q)

-- What stands first after an insertion.
abbrev IsAfter : Bytes → List FileEntry → Type 0
IsAfter p [] = Unit {0}
IsAfter p (e ∷ es) = path_le p e.path ≡ true

IsOrdered-cons :
    (e : FileEntry) (es : List FileEntry) → IsAfter e.path es → IsOrdered es → IsOrdered (e ∷ es)
IsOrdered-cons e [] a h = tt
IsOrdered-cons e (f ∷ fs) a h = (a, h)

insert-IsAfter :
    (p : Bytes) (e : FileEntry) (es : List FileEntry)
    → path_le p e.path ≡ true
    → IsAfter p es
    → IsAfter p (insert e es)
unfolding insert
insert-IsAfter p e [] h a = h
insert-IsAfter p e (f ∷ fs) h a = elim (Bool-cases (path_le e.path f.path)) [
  | inl yes_before ↦ rw yes_before h
  | inr after ↦ rw after a
]

insert-IsOrdered : (e : FileEntry) (es : List FileEntry) → IsOrdered es → IsOrdered (insert e es)
unfolding insert
insert-IsOrdered e [] h = tt
insert-IsOrdered e (f ∷ []) h = elim (Bool-cases (path_le e.path f.path)) [
  | inl yes_before ↦ rw yes_before (yes_before, tt)
  | inr after ↦ rw after (path_le_total e.path f.path after, tt)
]
insert-IsOrdered e (f ∷ g ∷ es) (a, h) =
    let ih = insert-IsOrdered e (g ∷ es) h in
    elim (Bool-cases (path_le e.path f.path)) [
      | inl yes_before ↦ rw yes_before (yes_before, (a, h))
      | inr after ↦ rw after (
          IsOrdered-cons f (insert e (g ∷ es))
            (insert-IsAfter f.path e (g ∷ es) (path_le_total e.path f.path after) a) ih)
    ]

pub insertion_sort-IsOrdered : (es : List FileEntry) → IsOrdered (insertion_sort es)
unfolding insertion_sort
insertion_sort-IsOrdered [] = tt
insertion_sort-IsOrdered (e ∷ es) =
    insert-IsOrdered e (insertion_sort es) (insertion_sort-IsOrdered es)

abbrev pub insertion_qsort : Qsort
insertion_qsort = record {
  sort = insertion_sort;
  sort-perm = insertion_sort-perm;
  sort-IsOrdered = insertion_sort-IsOrdered;
}

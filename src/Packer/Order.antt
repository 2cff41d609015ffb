-- ===== src/Packer/Order.antt =====
-- The order of the packer's entries: `strcmp` on the paths, and why a bundle has one ordered list.
use mathlib.Core.List.{Mem, Perm, mem-cons, mem-cons_self, not-mem-nil}
use mathlib.Core.List.Perm
use mathlib.Core.Logic.Or
use hbf.Base.{
  ap, not, none, some, ◌++◌, length, ◌≡◌, refl, ap₂, Bool, true, List, [], ◌∷◌, Bytes,
  if◌then◌else◌, arith,
}
use hbf.Packer.Words.{u32, put_u32}
use hbf.Packer.{Qsort, Bundle, bundle_pack, pack_entries, total_size, FileEntry, path_le, IsOrdered}

path_le_refl : (p : Bytes) → path_le p p ≡ true
unfolding path_le
path_le_refl [] = refl
path_le_refl (a ∷ p) = ground (arith, path_le_refl p)

path_le_trans : (p q r : Bytes) → path_le p q ≡ true → path_le q r ≡ true → path_le p r ≡ true
unfolding path_le
path_le_trans [] q r h k = refl
path_le_trans (a ∷ p) [] r h k = absurd cc
path_le_trans (a ∷ p) (b ∷ q) [] h k = absurd cc
path_le_trans (a ∷ p) (b ∷ q) (c ∷ r) h k = ground (arith, path_le_trans p q r)

path_le_antisym : (p q : Bytes) → path_le p q ≡ true → path_le q p ≡ true → p ≡ q
unfolding path_le
path_le_antisym [] [] h k = refl
path_le_antisym [] (b ∷ q) h k = absurd cc
path_le_antisym (a ∷ p) [] h k = absurd cc
path_le_antisym (a ∷ p) (b ∷ q) h k = ground (arith, path_le_antisym p q)

abbrev IsBelow : FileEntry → List FileEntry → Type 0
IsBelow e es = (x : FileEntry) → Mem x es → path_le e.path x.path ≡ true

-- Ordered neighbours are enough: the first entry is below all others.
IsOrdered-IsBelow : (e : FileEntry) (es : List FileEntry) → IsOrdered (e ∷ es) → IsBelow e (e ∷ es)
IsOrdered-IsBelow e [] h x m =
    Or.elim (hlevel) (mem-cons.0 m) (λ s. rw s (path_le_refl e.path)) (λ n. absurd (not-mem-nil n))
IsOrdered-IsBelow e (f ∷ fs) (le, h) x m =
    Or.elim (hlevel) (mem-cons.0 m) (λ s. rw s (path_le_refl e.path))
      (λ n. path_le_trans e.path f.path x.path le (IsOrdered-IsBelow f fs h x n))

-- Entries with one path are one entry.
abbrev pub HasOneEach : List FileEntry → Type 0
HasOneEach es = (e f : FileEntry) → Mem e es → Mem f es → e.path ≡ f.path → e ≡ f

HasOneEach-tail : {e : FileEntry} {es : List FileEntry} → HasOneEach (e ∷ es) → HasOneEach es
HasOneEach-tail one x y mx my = one x y (mem-cons.1 (Or.inr mx)) (mem-cons.1 (Or.inr my))

IsOrdered-tail : (e : FileEntry) (es : List FileEntry) → IsOrdered (e ∷ es) → IsOrdered es
IsOrdered-tail e [] h = tt
IsOrdered-tail e (f ∷ fs) (le, h) = h

-- A bundle with one entry for each path has only one ordered list.
pub IsOrdered-eq_of_perm :
    (es fs : List FileEntry) → IsOrdered es → IsOrdered fs → HasOneEach es → Perm es fs → es ≡ fs
IsOrdered-eq_of_perm [] fs h k one p = Perm.nil-eq p
IsOrdered-eq_of_perm (e ∷ es) [] h k one p = Perm.eq-nil p
IsOrdered-eq_of_perm (e ∷ es) (f ∷ fs) h k one p =
    let e_in = (Perm.mem_iff p).0 mem-cons_self in
    let f_in = (Perm.mem_iff p).1 mem-cons_self in
    let heads : e ≡ f = one e f mem-cons_self f_in (
      path_le_antisym e.path f.path (IsOrdered-IsBelow e es h f f_in)
        (IsOrdered-IsBelow f fs k e e_in)) in
    let tails = Perm.cons_inv (Perm.trans p (Perm.symm (Perm.cons' heads Perm.rfl))) in
    ap₂ ◌∷◌ heads (
      IsOrdered-eq_of_perm es fs (IsOrdered-tail e es h) (IsOrdered-tail f fs k)
        (HasOneEach-tail one) tails)

-- The packed bundle depends neither on the order in which the files were added nor on how `qsort`
-- treats equal elements: two bundles of the same entries, one for each path, are packed into the
-- same bytes.
pub bundle_pack-perm :
    (q r : Qsort) (malloc : Bool) (b c : Bundle)
    → HasOneEach b.entries
    → Perm b.entries c.entries
    → bundle_pack q malloc b ≡ bundle_pack r malloc c
unfolding bundle_pack
bundle_pack-perm q r malloc b c one p =
    let same =
      IsOrdered-eq_of_perm (q.sort b.entries) (r.sort c.entries) (q.sort-IsOrdered b.entries)
        (r.sort-IsOrdered c.entries)
        (λ x y mx my.
          one x y ((Perm.mem_iff (q.sort-perm b.entries)).0 mx)
            ((Perm.mem_iff (q.sort-perm b.entries)).0 my))
        (Perm.trans (q.sort-perm b.entries) (Perm.trans p (Perm.symm (r.sort-perm c.entries)))) in
    ap
      (λ (sorted : List FileEntry).
        if not malloc
        then none
        else some (put_u32 (u32 (length sorted)) ++ pack_entries sorted, total_size 4 sorted))
      same

-- ===== src/Translate/Readers.antt =====
-- src/translate.cc, `object_read_start` and `object_read_end`: the counts of outstanding reads, which
-- keep an object from being deleted.
use lsvd_rbd.Base.{ℕ, zero, suc, ◌==◌, if◌then◌else◌, Bool, true, false, Option, none, some, List}
use lsvd_rbd.Base.Int.{ℤ, pos, negsuc, raise, lower}
use lsvd_rbd.Base.Assoc.{find, insert, erase}
pub mod Uncounted

abbrev pub is_one : ℤ → Bool
is_one (pos n) = n == 1
is_one (negsuc n) = false

-- `obj_read_refcount[obj]`: a key that is missing counts zero.
abbrev pub count_or_zero : Option ℤ → ℤ
count_or_zero none = pos 0
count_or_zero (some i) = i

unfoldable pub object_read_start : ℕ → List (ℕ × ℤ) → List (ℕ × ℤ)
object_read_start obj t = elim (find obj t) [
  | none ↦ insert obj (pos 0) t
  | some i ↦ insert obj (raise i 1) t
]

unfoldable pub object_read_end : ℕ → List (ℕ × ℤ) → List (ℕ × ℤ)
object_read_end obj t =
    let i = count_or_zero (find obj t) in if is_one i then erase obj t else insert obj (lower i 1) t

-- Some calls one after the other.
pub starts : ℕ → ℕ → List (ℕ × ℤ) → List (ℕ × ℤ)
unfolding object_read_start
starts obj zero t = t
starts obj (suc n) t = object_read_start obj (starts obj n t)

pub ends : ℕ → ℕ → List (ℕ × ℤ) → List (ℕ × ℤ)
unfolding object_read_end
ends obj zero t = t
ends obj (suc n) t = ends obj n (object_read_end obj t)

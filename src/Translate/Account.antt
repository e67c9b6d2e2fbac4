-- ===== src/Translate/Account.antt =====
-- src/translate.cc: the loop that takes discarded extents off the live sectors of their objects.
use lsvd_rbd.Base.{
  ℕ, ◌-◌, ◌≤◌, ◌≡◌, refl, leb-true, Option, none, some, Option-cases, inl, inr, List, [], ◌∷◌,
  arith,
}
use lsvd_rbd.Base.Int.{ℤ, lower}
use lsvd_rbd.Base.Assoc.{find, insert, find-insert}
use lsvd_rbd.Extent.{Extent}
use lsvd_rbd.Extent.Map.Weight.{weight}
use lsvd_rbd.Extent.Pointers.{ObjOffset}
use lsvd_rbd.Translate.{ObjInfo, deduct}
use lsvd_rbd.Translate.Batch.{in_obj}

abbrev pub lowered : ℕ → Option ObjInfo → Option ObjInfo
lowered n none = none
lowered n (some info) = some (record info { live = info.live - n })

-- No object loses more than it has.
abbrev pub Covers : List (ℕ × ObjInfo) → List (Extent ObjOffset) → Type 0
Covers infos ds =
    (o : ℕ) (info : ObjInfo) → find o infos ≡ some info → weight (in_obj o) ds ≤ info.live

pub record Deducted (ds : List (Extent ObjOffset)) (infos : List (ℕ × ObjInfo)) (total : ℤ)
    : Type 0 where
  pub infos' : List (ℕ × ObjInfo)
  pub total' : ℤ
  pub runs : deduct ds infos total ≡ some (infos', total')
  pub takes : (o : ℕ) → find o infos' ≡ lowered (weight (in_obj o) ds) (find o infos)

lowered-zero : (o : Option ObjInfo) → o ≡ lowered 0 o
lowered-zero none = refl
lowered-zero (some info) = ground arith

-- The assertion holds, and each object that is known loses its discarded sectors.
pub deduct-Deducted :
    (ds : List (Extent ObjOffset)) (infos : List (ℕ × ObjInfo)) (total : ℤ)
    → Covers infos ds
    → Deducted ds infos total
unfolding deduct
deduct-Deducted [] infos total c = record {
  infos' = infos;
  total' = total;
  runs = refl;
  takes = λ o. lowered-zero (find o infos);
}
deduct-Deducted (d ∷ ds) infos total c = elim (Option-cases (find d.ptr.obj infos)) [
  | inl e ↦
      let r = deduct-Deducted ds infos total (λ o info h. omega (arith, c o info h)) in
      record {
        infos' = r.infos';
        total' = r.total';
        runs = rw (e, deduct) r.runs;
        takes = λ o. ground (arith, r.takes o);
      }
  | inr (info, e) ↦
      let infos₁ = insert d.ptr.obj (record info { live = info.live - d.len }) infos in
      let r = deduct-Deducted ds infos₁ (lower total d.len) (λ o info' h. ground (
        arith,
        find-insert o d.ptr.obj (record info { live = info.live - d.len }) infos,
        c d.ptr.obj info e,
        c o info',
      )) in
      record {
        infos' = r.infos';
        total' = r.total';
        runs = rw (e, leb-true d.len info.live (ground (arith, c d.ptr.obj info e)), deduct) r.runs;
        takes = λ o. ground (
          arith,
          r.takes o,
          find-insert o d.ptr.obj (record info { live = info.live - d.len }) infos,
        );
      }
]

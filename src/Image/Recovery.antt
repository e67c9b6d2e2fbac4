-- ===== src/Image/Recovery.antt =====
-- src/image.cc, `apply_log` and `roll_forward_from_last_checkpoint`, and the check of
-- src/objects.cc, `read_data_hdr`.
pub mod Replay
pub mod Roll
use lsvd_rbd.Base.{
  ℕ, zero, suc, ◌+◌, ◌-◌, ◌*◌, Bool, true, false, if◌then◌else◌, Option, none, some, List, [], ◌∷◌,
  ◌++◌,
}
use lsvd_rbd.Base.Int.{ℤ, pos, negsuc, lower}
use lsvd_rbd.Base.Assoc.{find, insert}
use lsvd_rbd.Extent.{Extent}
use lsvd_rbd.Extent.Map.{update}
use lsvd_rbd.Extent.Pointers.{ObjOffset, obj_target}
use lsvd_rbd.Translate.{DataHdr}

-- `obj_type`.
pub data ObjType : Type 0 where
  superblock logdata checkpoint : ObjType

-- An object as its header shows it. The backend is a function from the numbers to these.
pub record Stored : Type 0 where
  pub kind : ObjType
  pub hdr : DataHdr

-- `data_obj_info` with the signed count of live sectors that recovery computes with.
pub record LoggedInfo : Type 0 where
  pub hdr : ℕ
  pub data_len : ℕ
  pub live : ℤ

-- The tables of the image that recovery fills.
pub record Recovered : Type 0 where
  pub objmap : List (Extent ObjOffset)
  pub obj_info : List (ℕ × LoggedInfo)
  pub checkpoints : List ℕ

-- `apply_log` returns false, returns true, or throws.
pub data LogResult : Type 0 where
  stops : LogResult
  applies : Recovered → LogResult
  throws : LogResult

-- `read_data_hdr`: nothing but a data object is taken.
unfoldable pub read_data_hdr : (ℕ → Option Stored) → ℕ → Option Stored
read_data_hdr fetch seq = elim (fetch seq) [
  | none ↦ none
  | some o ↦ elim o.kind [ logdata ↦ some o | _ ↦ none ]
]

-- The loop over the log records of an object: `offset` counts from the end of the header.
pub replay_records :
    ℕ
    → ℕ
    → ℕ
    → List (ℕ × ℕ)
    → List (Extent ObjOffset)
    → List (Extent ObjOffset) × List (Extent ObjOffset)
replay_records seq hdr_sectors offset [] m = (m, [])
replay_records seq hdr_sectors offset ((lba, len) ∷ es) m =
    let oo : ObjOffset = record { obj = seq; offset = offset + hdr_sectors } in
    let (m₁, del₁) = update m lba (lba + len) oo in
    let (m₂, del₂) = replay_records seq hdr_sectors (offset + len) es m₁ in (m₂, del₁ ++ del₂)

abbrev pub is_nonneg : ℤ → Bool
is_nonneg (pos n) = true
is_nonneg (negsuc n) = false

-- `obj_info[k]`: a key that is missing is entered with zeros.
abbrev pub info_or_new : Option LoggedInfo → LoggedInfo
info_or_new none = record { hdr = 0; data_len = 0; live = pos 0 }
info_or_new (some info) = info

-- The loop over the discarded extents. `none` is the exception "Negative live sectors", which the
-- source throws when the live sectors are not negative.
unfoldable pub manage_deleted :
    List (Extent ObjOffset) → List (ℕ × LoggedInfo) → Option (List (ℕ × LoggedInfo))
manage_deleted [] infos = some infos
manage_deleted (d ∷ ds) infos =
    let info = info_or_new (find d.ptr.obj infos) in
    let live = lower info.live d.len in
    let rest = manage_deleted ds (insert d.ptr.obj (record info { live = live }) infos) in
    if is_nonneg live then none else rest

apply_data : ℕ → DataHdr → Recovered → LogResult
apply_data seq h r =
    let info : LoggedInfo = record {
      hdr = h.hdr_sectors;
      data_len = h.data_sectors;
      live = pos h.data_sectors;
    } in
    let (objmap, deleted) = replay_records seq h.hdr_sectors 0 h.data_map r.objmap in
    elim (manage_deleted deleted (insert seq info r.obj_info)) [
      | none ↦ throws
      | some infos ↦ applies (record r { objmap = objmap; obj_info = infos })
    ]

unfoldable pub apply_log : (ℕ → Option Stored) → ℕ → Recovered → LogResult
unfolding read_data_hdr replay_records apply_data
apply_log fetch seq r = elim (read_data_hdr fetch seq) [
  | none ↦ stops
  | some o ↦ elim o.kind [
    | checkpoint ↦ applies (record r { checkpoints = r.checkpoints ++ (seq ∷ []) })
    | _ ↦ apply_data seq o.hdr r
  ]
]

-- How the loop over the log ends: with the number where it stopped, by the exception, or without
-- fuel.
pub data RollResult : Type 0 where
  rolled : ℕ → Recovered → RollResult
  thrown : RollResult
  out_of_fuel : RollResult

unfoldable pub roll : (ℕ → Option Stored) → ℕ → ℕ → Recovered → RollResult
roll fetch zero seq r = out_of_fuel
roll fetch (suc fuel) seq r = elim (apply_log fetch seq r) [
  | stops ↦ rolled seq r
  | applies r' ↦ roll fetch fuel (seq + 1) r'
  | throws ↦ thrown
]

-- The numbers `seq + 1` to `seq + n`, which are deleted as dangling.
pub dangling : ℕ → ℕ → List ℕ
dangling seq zero = []
dangling seq (suc n) = (seq + 1) ∷ dangling (seq + 1) n

abbrev pub last_of : List ℕ → Option ℕ
last_of [] = none
last_of (c ∷ []) = some c
last_of (c ∷ d ∷ ds) = last_of (d ∷ ds)

-- `roll_forward_from_last_checkpoint`: the number of the last object and the numbers deleted.
pub roll_forward : (ℕ → Option Stored) → ℕ → ℕ → Recovered → Option (ℕ × List ℕ × Recovered)
unfolding roll dangling
roll_forward fetch fuel window r = elim (last_of r.checkpoints) [
  | none ↦ some (0, [], r)
  | some last ↦ elim (roll fetch fuel (last + 1) r) [
    | rolled seq r' ↦ some (seq - 1, dangling (seq - 1) (window * 4 - 1), r')
    | thrown ↦ none
    | out_of_fuel ↦ none
  ]
]

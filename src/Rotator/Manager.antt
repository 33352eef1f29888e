-- ===== src/Rotator/Manager.antt =====
-- liboverlay/overlayRotator.h and overlayRotator.cpp: `RotMgr`, which hands out the rotator objects
-- of a composition round. An object is known by the hardware it drives and by a number for its
-- address; `made` counts the objects so far, `deleted` and `closed` list what was deleted and
-- closed. The instance is a singleton of the process.
use android_device_casio_dtx.Base.{
  ℕ, ◌+◌, ◌-◌, not, Option, none, some, is_some, List, [], ◌∷◌, ◌++◌, leb, ◌==◌, if◌then◌else◌,
  sub32, update, for_range,
}
use android_device_casio_dtx.Ctrl.{mdss_v5}

pub data HwType : Type 0 where
  type_mdp type_mdss : HwType

pub record Rotator : Type 0 where
  pub hw_type : HwType
  pub address : ℕ

pub record RotMgr : Type 0 where
  pub rot : ℕ → Option Rotator
  pub use_count : ℕ
  -- A negative descriptor is `none`.
  pub rot_dev_fd : Option ℕ
  pub made : ℕ
  pub deleted : List Rotator
  pub closed : List (Option ℕ)

abbrev pub max_rot_sess : ℕ
max_rot_sess = 4

abbrev pub create_rot_mgr : RotMgr
create_rot_mgr = record {
  rot = λ i. none;
  use_count = 0;
  rot_dev_fd = none;
  made = 0;
  deleted = [];
  closed = [];
}

unfoldable pub get_rotator_hw_type : ℕ → HwType
get_rotator_hw_type mdp_version = if mdp_version == mdss_v5 then type_mdss else type_mdp

-- A new object. Its type is one of two, so the case of an unknown one is not reached.
unfoldable pub get_rotator : ℕ → ℕ → Rotator
unfolding get_rotator_hw_type
get_rotator mdp_version address = record {
  hw_type = get_rotator_hw_type mdp_version;
  address = address;
}

unfoldable pub config_begin : RotMgr → RotMgr
config_begin m = record m { use_count = 0 }

-- The body of the loops that delete.
unfoldable pub delete_rot : ℕ → RotMgr → RotMgr
delete_rot i m = elim (m.rot i) [
  | none ↦ m
  | some r ↦ record m { rot = update (m.rot) i none; deleted = m.deleted ++ r ∷ [] }
]

-- The loop index is an int: a count that wrapped below 0 starts it before the array, which is `none`.
unfoldable pub config_done : RotMgr → Option RotMgr
unfolding delete_rot for_range
config_done m =
    if leb 2147483648 m.use_count
    then none
    else some (for_range (max_rot_sess - m.use_count) m.use_count delete_rot m)

unfoldable pub get_next : ℕ → RotMgr → Option Rotator × RotMgr
unfolding get_rotator
get_next mdp_version m =
    if leb max_rot_sess m.use_count then (none, m) else elim (m.rot m.use_count) [
      | none ↦
          let r = get_rotator mdp_version m.made in
          (
            some r,
            record m {
              rot = update (m.rot) m.use_count (some r);
              use_count = m.use_count + 1;
              made = m.made + 1;
            },
          )
      | some r ↦ (some r, record m { use_count = m.use_count + 1 })
    ]

unfoldable pub clear : RotMgr → RotMgr
unfolding delete_rot for_range
clear m =
    let n = for_range max_rot_sess 0 delete_rot m in
    record n { use_count = 0; rot_dev_fd = none; closed = n.closed ++ n.rot_dev_fd ∷ [] }

unfoldable pub mark_unused_top : ℕ → RotMgr → RotMgr
mark_unused_top count m = record m { use_count = sub32 m.use_count count }

-- `opened` is what open of /dev/graphics/fb0 would return.
unfoldable pub get_rot_dev_fd : ℕ → Option ℕ → RotMgr → Option ℕ × RotMgr
unfolding get_rotator_hw_type
get_rot_dev_fd mdp_version opened m =
    if not (is_some m.rot_dev_fd)
    then elim (get_rotator_hw_type mdp_version) [
      | type_mdp ↦ (m.rot_dev_fd, m)
      | type_mdss ↦ (opened, record m { rot_dev_fd = opened })
    ]
    else (m.rot_dev_fd, m)

-- ===== src/Composition.antt =====
-- libhwcomposer/hwc_mdpcomp.cpp: the composition policy, and here the overlap of layers.
-- The layers of the list are given by their number; `frames` are their display frames.
pub mod Layers
pub mod Batch
pub mod Marks
pub mod Counted
pub mod Cached
pub mod Stages
pub mod Stacked
pub mod Mapped
pub mod Policy
pub mod Accepted
pub mod Roi
pub mod Hidden
pub mod Split
pub mod Ptor
pub mod Rest
pub mod Exact
pub mod Freed
pub mod Searched
pub mod PtorScenes
pub mod HiddenHalves
pub mod Scenes
pub mod RegionScenes
pub mod Progress
pub mod Count
pub mod Examples
use android_device_casio_dtx.Base.{
  ℕ, zero, suc, ◌+◌, ◌-◌, Bool, true, false, ◌&&◌, ◌||◌, not, Option, none, some, ltb, ◌==◌,
  if◌then◌else◌, find_index,
}
use android_device_casio_dtx.Geometry.{Rect, are_layers_intersecting}

-- The part of `FrameInfo` that says how each layer is composed, and the frames of the layers.
pub record Frame : Type 0 where
  pub layer_count : ℕ
  pub is_fb_composed : ℕ → Bool
  pub drop : ℕ → Bool
  pub frames : ℕ → Rect

-- A loop over [from, to] (`n` is its length) that returns true at the first index that passes.
unfoldable pub any_index : ℕ → ℕ → (ℕ → Bool) → Bool
any_index zero from test = false
any_index (suc n) from test = test from || any_index n (from + 1) test

unfoldable pub intersecting_updating_layers : Frame → ℕ → ℕ → ℕ → Bool
unfolding any_index
intersecting_updating_layers f from_index to_index target =
    any_index (to_index + 1 - from_index) from_index
      λ i. not (f.is_fb_composed i) && are_layers_intersecting (f.frames i) (f.frames target)

unfoldable pub can_push_batch_to_top : Frame → ℕ → ℕ → Bool
unfolding any_index intersecting_updating_layers
can_push_batch_to_top f from_index to_index = not (
    any_index (to_index - from_index) from_index (λ i.
      f.is_fb_composed i && not (f.drop i) && intersecting_updating_layers f (i + 1) to_index i))

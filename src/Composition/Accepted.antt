-- ===== src/Composition/Accepted.antt =====
-- What holds of a frame with which a strategy of hwc_mdpcomp.cpp succeeds.
use android_device_casio_dtx.Base.{
  ℕ, ◌+◌, ◌≤◌, Bool, true, false, not, ◌&&◌, Option, none, some, ◌==◌, if◌then◌else◌, count_index,
}
use android_device_casio_dtx.Geometry.{zero_int}
use android_device_casio_dtx.Composition.Marks.{FrameInfo, Display}
use android_device_casio_dtx.Composition.Cached.{Marks}
use android_device_casio_dtx.Composition.Policy.{Context}

-- The marks and the counters that the checks read.
pub record Checked : Type 0 where
  pub layer_count : ℕ
  pub is_fb_composed : ℕ → Bool
  pub fb_count : ℕ

abbrev checked : FrameInfo → Checked
checked f = record {
  layer_count = f.layer_count;
  is_fb_composed = f.is_fb_composed;
  fb_count = f.fb_count;
}

-- The display processor has a stage for each of its layers and one for the framebuffer where it is used,
-- and there are rotator sessions for the layers to be turned.
abbrev pub Fits : Context → Display → Checked → Type 0
Fits c d k =
    (count_index k.layer_count 0 (λ i. not (k.is_fb_composed i))
        + (if k.fb_count == zero_int then 0 else 1)
      ≤ c.max_pipes_per_mixer)
    × (c.active_sessions
          + count_index k.layer_count 0 (λ i.
            not (k.is_fb_composed i)
            && (d.layers i).has_90_transform
            && (d.layers i).rotation_doable)
        ≤ 4)

-- The outcome of a strategy: it returns, and the frame of a success fits.
abbrev pub Accepts : Context → Display → Option (Bool × FrameInfo) → Type 0
Accepts c d none = ⊥
Accepts c d (some (false, g)) = Unit
Accepts c d (some (true, g)) = Fits c d (checked g)

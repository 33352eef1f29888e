-- ===== src/Composition/Scenes.antt =====
-- The theorems on marks, stages and strategies on a small list of layers.
use android_device_casio_dtx.Base.{
  ℕ, ◌+◌, ◌*◌, ◌≡◌, refl, Bool, true, false, Option, none, some, List, [], ◌==◌, arith, ◌∷◌,
  count_index,
}
use android_device_casio_dtx.Geometry.{Rect, zero_int, are_layers_intersecting}
use android_device_casio_dtx.Composition.Layers.{Layer}
use android_device_casio_dtx.Composition.Marks.{
  FrameInfo, Display, reset, update_layer_cache, mark_layers_for_caching,
}
use android_device_casio_dtx.Composition.Cached.{Marks, mark_layers_for_caching-Marks}
use android_device_casio_dtx.Composition.Stages.{all_stages}
use android_device_casio_dtx.Composition.Stacked.{Stacked, prepared, all_stages-Stacked}
use android_device_casio_dtx.Composition.Policy.{
  Context, reset_cache, cache_based_comp, load_based_comp,
}

-- A strip of the screen, 100 lines high.
abbrev pub strip : ℕ → Rect
strip i = record {
  left = zero_int;
  top = zero_int + 100 * i;
  right = zero_int + 720;
  bottom = zero_int + 100 * i + 100;
}

abbrev layer : ℕ → Layer
layer i = record {
  updating = i == 2;
  has_90_transform = i == 2;
  rotation_doable = true;
  valid_dimension = true;
  skip = false;
  yuv_buffer = i == 2;
  secure_buffer = false;
  within_threshold = true;
  securing = false;
  plane_alpha = 255;
  alpha_scaled = false;
  downscale_required = false;
  aiv_video = false;
  aiv_cc = false;
  yuv_split_needed = i == 2;
  display_frame = strip i;
}

-- Two still layers, a video on top of them, and a status bar.
abbrev phone : Display
phone = record {
  num_app_layers = 4;
  layers = layer;
  yuv_count = 1;
  yuv_indices = λ k. 2;
  vg_pipes = 2;
  secure_rgb_count = 0;
  secure_rgb_indices = λ k. 0;
  can_use_rotator = true;
  threshold = false;
}

abbrev context : Context
context = record {
  dpy = 0;
  max_pipes_per_mixer = 4;
  available_pipes = 6;
  active_sessions = 0;
  a_family = false;
  overlap_limited = true;
  yuv_split = true;
  simulation_flags = 0;
  num_hw_layers = 5;
  virtual_yuv = false;
  mixed_mode = true;
  alpha_in_fb = true;
  skip_present = false;
  geometry_changed = false;
  secure_present = false;
  yuv_present = true;
  cached = reset_cache;
  fb_prepare = λ f. true;
  alloc_pipes = λ f. true;
  configure = λ s. true;
  validate = λ f. true;
}

abbrev pub blank : FrameInfo
blank = record {
  layer_count = 4;
  layer_to_mdp = λ i. none;
  mdp_count = zero_int + 3;
  list_index = λ i. 0;
  fb_count = zero_int + 1;
  is_fb_composed = λ i. i == 1;
  drop_count = zero_int;
  drop = λ i. false;
  needs_redraw = true;
  fb_z = zero_int + 1;
}

all_stages-Stacked_example :
    let g = prepared true phone blank in Stacked g.fb_z 0 (all_stages true phone g)
all_stages-Stacked_example = all_stages-Stacked true phone blank (omega arith) (omega arith)

mark_layers_for_caching-Marks_example : Marks 4 (λ i. false) (mark_layers_for_caching phone blank)
unfolding count_index
mark_layers_for_caching-Marks_example =
    mark_layers_for_caching-Marks phone 4 (λ i. false) blank
      (
        record {
          few = omega arith;
          fb = refl;
          drops = refl;
          held = λ i h e. absurd (ground (arith, e));
        },
        refl,
        refl,
      )
      refl

abbrev succeeds : Option (Bool × FrameInfo) → Bool
succeeds none = false
succeeds (some r) = r.0

abbrev marks : Option (Bool × FrameInfo) → List Bool
marks none = []
marks (some r) =
    r.1.is_fb_composed 0 ∷ r.1.is_fb_composed 1 ∷ r.1.is_fb_composed 2 ∷ r.1.is_fb_composed 3 ∷ []

-- The video leaves the framebuffer; the status bar does not overlap it and joins the layers below.
cached_succeeds : succeeds (cache_based_comp context phone blank) ≡ true
unfolding cache_based_comp are_layers_intersecting count_index
cached_succeeds = refl

cached_marks : marks (cache_based_comp context phone blank) ≡ true ∷ true ∷ false ∷ true ∷ []
unfolding cache_based_comp are_layers_intersecting count_index
cached_marks = refl

-- An updating layer that is dropped is marked for the display processor, but not counted for it.
abbrev hidden_video : FrameInfo
hidden_video =
    update_layer_cache phone
      (record (reset 4 blank) { drop = λ i. i == 2; drop_count = zero_int + 1 })

hidden_video_counts : (hidden_video.is_fb_composed 2 ≡ false) × (hidden_video.mdp_count ≡ zero_int)
unfolding reset update_layer_cache
hidden_video_counts = (refl, refl)

-- Layer 0 is not supported, but dropped; the first attempt of loadBasedComp, with two layers, fails.
abbrev scrolled : Display
scrolled = record phone {
  num_app_layers = 5;
  layers = λ i. record (layer 3) { skip = i == 0 };
  yuv_count = 0;
}

abbrev short_of_pipes : Context
short_of_pipes = record context {
  yuv_split = false;
  yuv_present = false;
  alloc_pipes = λ f. f.mdp_count == zero_int + 1;
}

abbrev without_first : FrameInfo
without_first = record (reset 5 blank) { drop = λ i. i == 0; drop_count = zero_int + 1 }

-- The second attempt succeeds with layer 0 on the display processor.
load_based_takes_unsupported :
    marks (some (load_based_comp short_of_pipes scrolled without_first))
    ≡ false ∷ true ∷ true ∷ true ∷ []
unfolding load_based_comp reset
load_based_takes_unsupported = refl

-- ===== src/Composition/Examples.antt =====
-- getBatch on a list of eight layers that restarts in the middle.
use android_device_casio_dtx.Base.{ℕ, ◌+◌, ◌≡◌, refl, ◌||◌, not, some, ◌==◌, if◌then◌else◌}
use android_device_casio_dtx.Geometry.{Rect, zero_int, get_intersection, are_layers_intersecting}
use android_device_casio_dtx.Composition.{Frame, any_index}
use android_device_casio_dtx.Composition.Batch.{get_batch}
use android_device_casio_dtx.Composition.Count.{Returns, get_batch-Returns}

abbrev column : ℕ → ℕ → Rect
column l r = record {
  left = zero_int + l;
  top = zero_int;
  right = zero_int + r;
  bottom = zero_int + 10;
}

-- Layers 1 and 4 update; layer 3 is dropped. Layer 0 stands apart, layer 2 meets both, and layers
-- 5 to 7 meet layer 4.
abbrev list : Frame
list = record {
  layer_count = 8;
  is_fb_composed = λ i. not (i == 1 || i == 4);
  drop = λ i. i == 3;
  frames = λ i. if i == 0 then column 0 5 else if i == 1 then column 10 20 else column 15 30;
}

get_batch-Returns_example : Returns list (get_batch list)
get_batch-Returns_example = get_batch-Returns list

-- The batch 5 to 7 is drawn at z 3, where four layers that are not dropped lie below it: layer 3
-- is counted as dropped a second time after the restart at layer 2.
restart_counts_drop_twice :
    get_batch list
    ≡ some (record {
      max_start = zero_int + 5;
      max_end = zero_int + 7;
      max_count = 3;
      fb_z_order = zero_int + 3;
    })
unfolding get_batch any_index are_layers_intersecting get_intersection
restart_counts_drop_twice = refl

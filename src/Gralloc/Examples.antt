-- ===== src/Gralloc/Examples.antt =====
-- The theorems on buffers at a platform without libadreno_utils.
use android_device_casio_dtx.Base.{◌*◌, ◌≡◌, refl, Bool, true, false, not, none, arith}
use android_device_casio_dtx.Base.Int.{pos}
use android_device_casio_dtx.Gralloc.{
  Format, yv12, ycrcb_420_sp_adreno, Platform, rgba_8888, rgbx_8888, bgra_8888, rgb_888, rgb_565,
  align_up,
}
use android_device_casio_dtx.Gralloc.Size.{get_buffer_attributes, get_yuv_plane_info}
use android_device_casio_dtx.Gralloc.Planes.{Placed, VenusRoom, planes_in_buffer}
use android_device_casio_dtx.Gralloc.Heap.{
  HeapBits, AllocData, IonAlloc, is_zero, allocate, attributes, buffer_data, alloc_buffer,
}
use android_device_casio_dtx.Gralloc.Buffer.{Allocated, alloc_buffer-Allocated}

abbrev packed : Format → Bool
packed rgba_8888 = true
packed rgbx_8888 = true
packed bgra_8888 = true
packed rgb_888 = true
packed rgb_565 = true
packed _ = false

abbrev plain : Platform
plain = record {
  is_packed = packed;
  map_fb_memory = false;
  adreno_loaded = false;
  aligned = none;
  padding = none;
  macro_tiling = none;
  compressed = none;
  pixel_alignment = none;
  supports_macro_tile = false;
  venus_y_stride = λ w. w;
  venus_y_scanlines = λ h. h;
  venus_buffer_size = λ w h. w * h * 2;
}

abbrev bits : HeapBits
bits = record {
  private_0 = 28;
  private_1 = 29;
  private_2 = 30;
  private_3 = 31;
  protected_bit = 14;
  sw_read_mask = 15;
  sw_read_rarely = 2;
  sw_write_mask = 240;
  sw_write_rarely = 32;
  sf_heap_id = 24;
  system_heap_id = 25;
  iommu_heap_id = 25;
  cp_mm_heap_id = 8;
  camera_heap_id = 20;
  adsp_heap_id = 22;
  secure_bit = 31;
  composes_with_mdp = false;
}

-- A driver that always allocates.
abbrev gives : IonAlloc
gives d = (record d { fd = pos 5 }, pos 0)

venus : VenusRoom plain 640 480
venus = record { room = omega arith }

planes_in_buffer_example :
    let a = get_buffer_attributes plain 255 640 480 yv12 0 in
    Placed yv12 a.aligned_h a.size (get_yuv_plane_info plain yv12 a.aligned_w a.aligned_h none)
unfolding get_buffer_attributes align_up
planes_in_buffer_example =
    planes_in_buffer plain 640 480 refl refl (omega arith) (omega arith) 255 yv12 0 refl venus
      (omega arith) (omega arith)

alloc_buffer-Allocated_example :
    let d = buffer_data (attributes plain bits 640 480 yv12 0) bits 4096 0 in
    Allocated plain yv12
      (not (is_zero (allocate bits gives d 0).1))
      (alloc_buffer plain bits gives 4096 640 480 yv12 0)
unfolding get_buffer_attributes align_up
alloc_buffer-Allocated_example =
    alloc_buffer-Allocated plain bits gives 4096 640 480 yv12 0 (λ x. refl) refl refl (omega arith)
      (omega arith) refl venus (omega arith) (omega arith)

abbrev request : AllocData
request = buffer_data (attributes plain bits 640 480 yv12 0) bits 4096 0

-- An odd width of the Adreno format: 65 by 640 lines take 81920 bytes, but with the stride of
-- getYUVPlaneInfo the chroma lines end at 92160.
adreno_odd_size : (get_buffer_attributes plain 255 65 640 ycrcb_420_sp_adreno 0).size ≡ 81920
unfolding get_buffer_attributes align_up
adreno_odd_size = refl

adreno_odd_stride : (get_buffer_attributes plain 255 65 640 ycrcb_420_sp_adreno 0).aligned_w ≡ 96
unfolding get_buffer_attributes align_up
adreno_odd_stride = refl

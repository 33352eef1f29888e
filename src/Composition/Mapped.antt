-- ===== src/Composition/Mapped.antt =====
-- FrameInfo::map (hwc_mdpcomp.cpp): the two maps between the layers and the display processor.
use android_device_casio_dtx.Base.{ℕ, ◌+◌, ◌<◌, ◌≡◌, true, some, update, count_index}
use android_device_casio_dtx.Composition.Marks.{FrameInfo}
use android_device_casio_dtx.Composition.Counted.{on_mdp}
use android_device_casio_dtx.Composition.Stages.{Mapping}

-- The number of layers of the display processor below layer `i`.
abbrev pub rank : FrameInfo → ℕ → ℕ
rank f i = count_index i 0 (on_mdp f)

-- Layer `i` has the index `rank f i` of the display processor, which leads back to it.
abbrev pub Placed : FrameInfo → ℕ → FrameInfo → Type 0
Placed f i g = (g.layer_to_mdp i ≡ some (rank f i)) × (g.list_index (rank f i) ≡ i)

-- After `k` layers.
record Maps (f : FrameInfo) (k : ℕ) (s : Mapping) : Type 0 where
  next : s.next ≡ rank f k
  marks : s.frame.is_fb_composed ≡ f.is_fb_composed
  placed : (i : ℕ) → i < k → on_mdp f i ≡ true → Placed f i s.frame × (rank f i < rank f k)

-- The loop's state with layer `k` added.
abbrev added : ℕ → Mapping → Mapping
added k s = record {
  next = s.next + 1;
  frame = record (s.frame) {
    list_index = update (s.frame.list_index) s.next k;
    layer_to_mdp = update (s.frame.layer_to_mdp) k (some (s.next));
  };
}

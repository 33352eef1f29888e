-- ===== src/Composition/Batch.antt =====
-- getBatch (hwc_mdpcomp.cpp): the longest batch of layers that can be drawn as one.
-- fbZ is an int as in Geometry.antt.
use android_device_casio_dtx.Base.{
  ℕ, zero, suc, ◌+◌, ◌-◌, not, Option, none, some, ltb, ◌==◌, if◌then◌else◌,
}
use android_device_casio_dtx.Geometry.{zero_int, add_int, sub_int}
use android_device_casio_dtx.Composition.{
  Frame, intersecting_updating_layers, can_push_batch_to_top,
}

-- The variables of the inner loop.
pub record Scan : Type 0 where
  pub i : ℕ
  pub dropped : ℕ
  pub batch_count : ℕ
  pub batch_end : ℕ
  pub fb_z : ℕ
  pub first_z_reverse : Option ℕ
  pub updating_above : ℕ

-- A round of the inner loop ends with `break`, or goes on.
pub data Round : Type 0 where
  stop go : Scan → Round

-- Layer i joins the batch.
abbrev pub join : Scan → Scan
join s = record s { i = s.i + 1; batch_count = s.batch_count + 1; batch_end = s.i }

abbrev pub or_else : Option ℕ → ℕ → ℕ
or_else none d = d
or_else (some r) d = r

abbrev pub push_up : Scan → Scan
push_up s = record (join s) {
  first_z_reverse = some (or_else s.first_z_reverse s.i);
  fb_z = add_int s.fb_z (zero_int + s.updating_above);
  updating_above = 0;
}

unfoldable pub round : Frame → ℕ → Scan → Round
unfolding intersecting_updating_layers can_push_batch_to_top
round f start s =
    if not (f.is_fb_composed s.i)
    then if s.batch_count == 0
      then stop (record s { i = s.i + 1 })
      else go (record s { i = s.i + 1; updating_above = s.updating_above + 1 })
    else if f.drop s.i
    then go (record s { i = s.i + 1; dropped = s.dropped + 1 })
    else if s.updating_above == 0
    then go (join s)
    else if not (intersecting_updating_layers f start (s.i - 1) s.i)
    then go (join s)
    else if can_push_batch_to_top f start s.i
    then go (push_up s)
    else stop (record s { i = or_else s.first_z_reverse s.i })

-- The inner loop, over the layers that are left.
unfoldable pub scan : ℕ → Frame → ℕ → Scan → Scan
unfolding round
scan zero f start s = s
scan (suc n) f start s = elim (round f start s) [ stop t ↦ t | go t ↦ scan n f start t ]

-- The best batch so far: start and end are -1 at first.
pub record Best : Type 0 where
  pub max_start : ℕ
  pub max_end : ℕ
  pub max_count : ℕ
  pub fb_z_order : ℕ

abbrev pub minus_one : ℕ
minus_one = 2147483647

abbrev pub no_batch : Best
no_batch = record {
  max_start = minus_one;
  max_end = minus_one;
  max_count = 0;
  fb_z_order = minus_one;
}

abbrev pub fresh : ℕ → ℕ → Scan
fresh i dropped = record {
  i = i;
  dropped = dropped;
  batch_count = 0;
  batch_end = i;
  fb_z = sub_int (zero_int + i) (zero_int + dropped);
  first_z_reverse = none;
  updating_above = 0;
}

abbrev pub better : ℕ → Scan → Best → Best
better start s b =
    if ltb b.max_count s.batch_count
    then record {
      max_start = zero_int + start;
      max_end = zero_int + s.batch_end;
      max_count = s.batch_count;
      fb_z_order = s.fb_z;
    }
    else b

-- The outer loop on fuel; `none` is out of fuel.
unfoldable pub batches : ℕ → Frame → ℕ → ℕ → Best → Option Best
unfolding scan
batches zero f i dropped b = if ltb i f.layer_count then none else some b
batches (suc fuel) f i dropped b =
    let s = scan (f.layer_count - i) f i (fresh i dropped) in
    let rest = batches fuel f s.i s.dropped (better i s b) in
    if ltb i f.layer_count then rest else some b

unfoldable pub get_batch : Frame → Option Best
unfolding batches
get_batch f = batches f.layer_count f 0 0 no_batch

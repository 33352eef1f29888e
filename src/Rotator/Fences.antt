-- ===== src/Rotator/Fences.antt =====
-- The release fences of a rotator, from the first buffer to the destructor.
use android_device_casio_dtx.Base.{
  subst, sym, ℕ, ◌+◌, ◌<◌, ◌≡◌, refl, Option, none, some, List, [], ◌∷◌, ◌++◌, if◌then◌else◌, ◌==◌,
  arith, inl, inr, Option-cases, branch, true, false, Bool, leb, add32, ◌%◌,
}
use android_device_casio_dtx.Rotator.Memory.{
  RotMem, create_rot_mem, destroy_rot_mem, replace_fence, set_curr_buf_release_fd,
  set_prev_buf_release_fd, next_slot, prev_index, OvMem,
}

pub data FenceCall : Type 0 where
  curr_fence prev_fence : Option ℕ → FenceCall
  next_buffer : FenceCall

unfoldable pub fence_step : FenceCall → RotMem → Option RotMem
unfolding set_curr_buf_release_fd set_prev_buf_release_fd next_slot
fence_step (curr_fence f) m = set_curr_buf_release_fd f m
fence_step (prev_fence f) m = set_prev_buf_release_fd f m
fence_step next_buffer m = next_slot m

abbrev and_then : Option RotMem → (RotMem → Option RotMem) → Option RotMem
and_then none rest = none
and_then (some m) rest = rest m

abbrev pub fence_run : List FenceCall → RotMem → Option RotMem
fence_run [] m = some m
fence_run (c ∷ cs) m = and_then (fence_step c m) (fence_run cs)

-- How often the fence `f` stands in a slot, in a list, or among the fences handed over.
abbrev pub in_slot : ℕ → Option ℕ → ℕ
in_slot f none = 0
in_slot f (some g) = if f == g then 1 else 0

abbrev pub occurrences : ℕ → List (Option ℕ) → ℕ
occurrences f [] = 0
occurrences f (o ∷ os) = in_slot f o + occurrences f os

abbrev pub handed : FenceCall → List (Option ℕ)
handed (curr_fence f) = f ∷ []
handed (prev_fence f) = f ∷ []
handed next_buffer = []

abbrev pub all_handed : List FenceCall → List (Option ℕ)
all_handed [] = []
all_handed (c ∷ cs) = handed c ++ all_handed cs

occurrences-append :
    (f : ℕ) (xs ys : List (Option ℕ))
    → occurrences f (xs ++ ys) ≡ occurrences f xs + occurrences f ys
occurrences-append f [] ys = omega arith
occurrences-append f (x ∷ xs) ys = omega (arith, occurrences-append f xs ys)

abbrev pub IsReady : RotMem → Type 0
IsReady m = (m.curr_index < 2) × (m.mem.num_buffers ≡ 2)

-- The fences that are closed or held.
abbrev known : ℕ → RotMem → ℕ
known f m = occurrences f m.closed + (in_slot f (m.rel_fence 0) + in_slot f (m.rel_fence 1))

-- The buffers are as they were, and `f` is known `n` times more.
abbrev Adds : ℕ → ℕ → RotMem → RotMem → Type 0
Adds f n m k = IsReady k × (known f k ≡ known f m + n)

replace_fence-known :
    (f : ℕ) (waits : Bool) (i : ℕ) (fence : Option ℕ) (m : RotMem)
    → i < 2
    → known f (replace_fence waits i fence m) ≡ known f m + in_slot f fence
unfolding replace_fence
replace_fence-known f waits i fence m h = elim (Option-cases (m.rel_fence i)) [
  | inl e ↦ ground arith
  | inr (old, e) ↦ ground (arith, occurrences-append f (m.closed) (some old ∷ []))
]

replace_fence-IsReady :
    (waits : Bool) (i : ℕ) (fence : Option ℕ) (m : RotMem)
    → IsReady m
    → IsReady (replace_fence waits i fence m)
unfolding replace_fence
replace_fence-IsReady waits i fence m (c, n) = elim (Option-cases (m.rel_fence i)) [
  | inl e ↦ (ground arith, ground arith)
  | inr (old, e) ↦ (ground arith, ground arith)
]

-- A call returns and adds the fences that it was handed.
abbrev Returns : ℕ → List (Option ℕ) → RotMem → Option RotMem → Type 0
Returns f hs m none = ⊥
Returns f hs m (some k) = Adds f (occurrences f hs) m k

replaced :
    (f : ℕ) (waits : Bool) (i : ℕ) (fence : Option ℕ) (m : RotMem)
    → IsReady m
    → i < 2
    → Returns f (fence ∷ []) m (if leb 2 i then none else some (replace_fence waits i fence m))
replaced f waits i fence m r h =
    branch (leb 2 i) (Returns f (fence ∷ []) m) none (some (replace_fence waits i fence m))
      (λ big. absurd (ground arith))
      λ small. (
        replace_fence-IsReady waits i fence m r,
        omega (arith, replace_fence-known f waits i fence m h),
      )

prev_index-lt : (c : ℕ) → c < 2 → prev_index c 2 < 2
unfolding prev_index
prev_index-lt c h = omega arith

fence_step-Returns :
    (f : ℕ) (c : FenceCall) (m : RotMem) → IsReady m → Returns f (handed c) m (fence_step c m)
unfolding fence_step set_curr_buf_release_fd set_prev_buf_release_fd next_slot
fence_step-Returns f (curr_fence fence) m (c, n) = replaced f true m.curr_index fence m (c, n) c
fence_step-Returns f (prev_fence fence) m (c, n) =
    let i = prev_index m.curr_index m.mem.num_buffers in
    let small : i < 2 =
      subst (λ k. prev_index m.curr_index k < 2) (sym n) (prev_index-lt m.curr_index c) in
    branch (m.mem.num_buffers == 0) (Returns f (fence ∷ []) m) none
      (if leb 2 i then none else some (replace_fence false i fence m))
      (λ zero. absurd (ground arith)) (λ h. replaced f false i fence m (c, n) small)
fence_step-Returns f next_buffer m (c, n) =
    let next : RotMem = record m { curr_index = add32 m.curr_index 1 % m.mem.num_buffers } in
    branch (m.mem.num_buffers == 0) (Returns f [] m) none (some next)
      (λ zero. absurd (ground arith))
      λ h. ((subst (λ k. add32 m.curr_index 1 % k < 2) (sym n) (omega (arith, c)), n), omega arith)

destroy-known : (f : ℕ) (m : RotMem) → occurrences f (destroy_rot_mem m).closed ≡ known f m
unfolding destroy_rot_mem
destroy-known f m =
    omega (arith, occurrences-append f (m.closed) (m.rel_fence 0 ∷ m.rel_fence 1 ∷ []))

Returns-append :
    (f : ℕ) (hs ts : List (Option ℕ)) (m k : RotMem) (o : Option RotMem)
    → Adds f (occurrences f hs) m k
    → Returns f ts k o
    → Returns f (hs ++ ts) m o
Returns-append f hs ts m k none a r = r
Returns-append f hs ts m k (some l) (ready, e) (r, e') =
    (r, omega (arith, e, e', occurrences-append f hs ts))

and_then-Returns :
    (f : ℕ) (hs ts : List (Option ℕ)) (m : RotMem) (o : Option RotMem)
    (rest : RotMem → Option RotMem)
    → Returns f hs m o
    → ((k : RotMem) → IsReady k → Returns f ts k (rest k))
    → Returns f (hs ++ ts) m (and_then o rest)
and_then-Returns f hs ts m none rest a h = a
and_then-Returns f hs ts m (some k) rest a h = Returns-append f hs ts m k (rest k) a (h k a.0)

fence_run-Returns :
    (f : ℕ) (cs : List FenceCall) (m : RotMem)
    → IsReady m
    → Returns f (all_handed cs) m (fence_run cs m)
fence_run-Returns f [] m r = (r, omega arith)
fence_run-Returns f (c ∷ cs) m r =
    and_then-Returns f (handed c) (all_handed cs) m (fence_step c m) (fence_run cs)
      (fence_step-Returns f c m r) (fence_run-Returns f cs)

-- The calls returned, and the destructor after them leaves `n` closes of `f`.
abbrev pub Closes : ℕ → ℕ → Option RotMem → Type 0
Closes f n none = ⊥
Closes f n (some m) = occurrences f (destroy_rot_mem m).closed ≡ n

Returns-Closes :
    (f : ℕ) (hs : List (Option ℕ)) (m : RotMem) (o : Option RotMem)
    → known f m ≡ 0
    → Returns f hs m o
    → Closes f (occurrences f hs) o
Returns-Closes f hs m none e r = r
Returns-Closes f hs m (some k) e (r, a) = omega (arith, destroy-known f k)

-- On a new rotator with its two buffers, any sequence of fences for the current and the previous slot
-- and of new buffers returns, and when the destructor has run, each fence was closed exactly as
-- often as it was handed over.
pub fence_run-Closes :
    (f : ℕ) (mem : OvMem) (cs : List FenceCall)
    → mem.num_buffers ≡ 2
    → Closes f (occurrences f (all_handed cs)) (fence_run cs (record create_rot_mem { mem = mem }))
fence_run-Closes f mem cs two =
    let m : RotMem = record create_rot_mem { mem = mem } in
    Returns-Closes f (all_handed cs) m (fence_run cs m) refl
      (fence_run-Returns f cs m (omega arith, two))

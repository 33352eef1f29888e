-- ===== src/Hdmi/Configure.antt =====
-- What configure ends with, and when it does not (hdmi.cpp).
use android_device_casio_dtx.Base.{
  ℕ, ◌/◌, ◌≤◌, ◌<◌, ◌≡◌, ◌≢◌, ◌⊎◌, inl, inr, refl, sym, subst, ◌∙◌, Bool, true, false, not, ◌&&◌,
  Option, none, some, List, [], ◌∷◌, ◌==◌, if◌then◌else◌, All, arith, branch,
}
use native.Mathlib.Nat.{le-div_iff_mul-le}
use android_device_casio_dtx.Hdmi.{
  Formats, EdidData, no_mode, edid_data, find_entry, get_best_mode, is_valid_mode,
  is_interlaced_mode, choose_mode,
}
use android_device_casio_dtx.Hdmi.Best.{
  Distinct, IsBest, edid_data-IsTable, get_best_mode-IsBest, find_entry-EntryFound, EntryFound,
}
use android_device_casio_dtx.Hdmi.Parse.{read_resolution}
use android_device_casio_dtx.Hdmi.Display.{
  HdmiDisplay, Platform, Connection, finished, set_mode, modes_after, open_frame_buffer, is_open,
  read_ce_underscan_info, attr_of, apply_attributes, set_attributes, configure,
}

-- The mode is in the table.
abbrev pub Supported : Formats → ℕ → Type 0
Supported f mode = (i : ℕ) × (i < 35) × (f i ≡ mode)

-- The property takes effect: the display lists its mode, which is not interlaced.
abbrev pub user_sets : Formats → List ℕ → ℕ → Bool
user_sets f modes property = is_valid_mode modes property && not (is_interlaced_mode f property)

-- A number of frames in a second, for each entry.
abbrev HasRate : List EdidData → Type 0
HasRate t = All (λ (e : EdidData). (0 < e.fps) × (e.fps ≤ 60)) t

edid_data-HasRate : (f : Formats) → HasRate (edid_data f)
unfolding edid_data
edid_data-HasRate f = omega arith

find_entry_rate :
    (t : List EdidData) (mode : ℕ) (e : EdidData)
    → HasRate t
    → find_entry t mode ≡ some e
    → (0 < e.fps) × (e.fps ≤ 60)
unfolding find_entry
find_entry_rate [] mode e h = λ p. cc
find_entry_rate (d ∷ t) mode e h =
    branch (d.mode == mode) (λ o. o ≡ some e → (0 < e.fps) × (e.fps ≤ 60)) (some d)
      (find_entry t mode) (λ _ p. ground (arith, h.0)) (λ _. find_entry_rate t mode e h.1)

entry_of : (f : Formats) (mode : ℕ) → EntryFound f 0 35 mode (find_entry (edid_data f) mode)
unfolding edid_data
entry_of f mode = find_entry-EntryFound f 0 35 (edid_data f) mode refl (edid_data-IsTable f)

find_entry-Supported :
    (f : Formats) (mode : ℕ) (e : EdidData)
    → find_entry (edid_data f) mode ≡ some e
    → Supported f mode
find_entry-Supported f mode e p =
    let (i, _, h, same, _, _) = subst (EntryFound f 0 35 mode) p (entry_of f mode) in (i, h, same)

find_entry-none :
    (f : Formats) (mode : ℕ) → find_entry (edid_data f) mode ≡ none → ¬ Supported f mode
find_entry-none f mode p (i, h, same) =
    let miss = subst (EntryFound f 0 35 mode) p (entry_of f mode) in miss i (omega arith) h same

-- What setAttributes does with the entry of the mode, if there is one.
abbrev Attributes : HdmiDisplay → Option EdidData → Option HdmiDisplay → Type 0
Attributes d none none = Unit
Attributes d none (some d') = ⊥
Attributes d (some e) none = ⊥
Attributes d (some e) (some d') =
    (d'.current_mode ≡ d.current_mode)
    × (d'.edid_modes ≡ d.edid_modes)
    × (d'.vsync_period ≡ 1000000000 / e.fps)

apply-Attributes :
    (p : Platform) (d : HdmiDisplay) (o : Option EdidData)
    → ((e : EdidData) → o ≡ some e → 0 < e.fps)
    → Attributes d o (apply_attributes p d (attr_of o d.xres d.yres 0))
unfolding apply_attributes
apply-Attributes p d none h = tt
apply-Attributes p d (some e) h =
    branch (e.fps == 0) (Attributes d (some e)) none _ (λ z. absurd (ground (arith, h e refl)))
      (λ _. (refl, refl, refl))

set_attributes-Attributes :
    (f : Formats) (p : Platform) (d : HdmiDisplay)
    → Attributes d (find_entry (edid_data f) d.current_mode) (set_attributes f p d)
unfolding set_attributes
set_attributes-Attributes f p d =
    apply-Attributes p d (find_entry (edid_data f) d.current_mode)
      (λ e q. (find_entry_rate (edid_data f) d.current_mode e (edid_data-HasRate f) q).0)

-- How the mode is chosen: `set` says that the property takes effect.
abbrev Chosen : Bool → ℕ → ℕ → ℕ → Type 0
Chosen set property best mode =
    ((set ≡ true) × (property ≢ no_mode) × (mode ≡ property))
    ⊎ (((set ≡ false) ⊎ (property ≡ no_mode)) × (mode ≡ best))

prefer-Chosen :
    (set : Bool) (property best : ℕ)
    → let user = if set then property else no_mode in
      Chosen set property best (if user == no_mode then best else user)
prefer-Chosen false property best = inr (inl refl, refl)
prefer-Chosen true property best =
    branch (property == no_mode) (Chosen true property best) best property
      (λ e. inr (inr (ground arith), refl)) (λ n. inl (refl, ground arith, refl))

choose_mode-Chosen :
    (f : Formats) (modes : List ℕ) (property : ℕ)
    → Chosen
        (user_sets f modes property)
        property
        (get_best_mode f modes)
        (choose_mode f modes property)
unfolding choose_mode
choose_mode-Chosen f modes property =
    prefer-Chosen (user_sets f modes property) property (get_best_mode f modes)

-- How configure ends, when the display lists `modes` and the property asks for `property`.
abbrev pub Ends : Formats → List ℕ → ℕ → Option (HdmiDisplay × Bool) → Type 0
Ends f modes property none =
    (user_sets f modes property ≡ true) × (property ≢ no_mode) × ¬ Supported f property
Ends f modes property (some (d, zero_returned)) =
    (zero_returned ≡ true)
    × (d.edid_modes ≡ modes)
    × (0 < d.vsync_period)
    × Supported f d.current_mode
    × (((user_sets f modes property ≡ true) × (d.current_mode ≡ property))
        ⊎ (((user_sets f modes property ≡ false) ⊎ (property ≡ no_mode))
            × IsBest f modes d.current_mode))

period_pos : (fps : ℕ) → 0 < fps → fps ≤ 60 → 0 < 1000000000 / fps
period_pos fps h k = (le-div_iff_mul-le h).1 (omega arith)

module _ (f : Formats) (distinct : Distinct f) (modes : List ℕ) (property : ℕ) where
  -- The mode of the property is chosen, or the best one.
  abbrev Choice : ℕ → Type 0
  Choice mode = Chosen (user_sets f modes property) property (get_best_mode f modes) mode

  chosen_none : (mode : ℕ) → Choice mode → ¬ Supported f mode → Ends f modes property none
  chosen_none mode (inl (set, other, same)) not =
      (set, other, subst (λ m. ¬ Supported f m) same not)
  chosen_none mode (inr (_, same)) not =
      let (i, h, e, _, _) = get_best_mode-IsBest f modes distinct in
      absurd (not (i, h, sym (same ∙ e)))

  finished-Ends :
      (d : HdmiDisplay) (downscale : Bool) (o : Option EdidData) (r : Option HdmiDisplay)
      → Choice d.current_mode
      → d.edid_modes ≡ modes
      → find_entry (edid_data f) d.current_mode ≡ o
      → Attributes d o r
      → Ends f modes property (finished downscale r)
  finished-Ends d downscale none none choice m e a =
      chosen_none d.current_mode choice (find_entry-none f d.current_mode e)
  finished-Ends d downscale none (some r) choice m e a = absurd a
  finished-Ends d downscale (some n) none choice m e a = absurd a
  finished-Ends d downscale (some n) (some r) choice m e a =
      let (pos, low) = find_entry_rate (edid_data f) d.current_mode n (edid_data-HasRate f) e in
      let supported = find_entry-Supported f d.current_mode n e in
      (
        refl,
        a.1 ∙ m,
        subst (λ v. 0 < v) (sym a.2) (period_pos n.fps pos low),
        subst (Supported f) (sym a.0) supported,
        kept choice,
      )
    where
      kept :
          Choice d.current_mode
          → ((user_sets f modes property ≡ true) × (r.current_mode ≡ property))
            ⊎ (((user_sets f modes property ≡ false) ⊎ (property ≡ no_mode))
                × IsBest f modes r.current_mode)
      kept (inl (set, _, same)) = inl (set, a.0 ∙ same)
      kept (inr (unset, same)) =
          inr (
            unset,
            subst (IsBest f modes) (sym (a.0 ∙ same)) (get_best_mode-IsBest f modes distinct),
          )

  set_mode-Ends :
      (p : Platform) (c : Connection) (d : HdmiDisplay)
      → c.resolution_property ≡ property
      → Ends f modes property (set_mode f p c d (some modes))
  unfolding set_mode
  set_mode-Ends p c d same =
      let set : HdmiDisplay = record d {
        edid_modes = modes;
        current_mode = choose_mode f modes c.resolution_property;
      } in
      finished-Ends set c.downscale_property _ _
        (subst (λ r. Choice (choose_mode f modes r)) (sym same)
          (choose_mode-Chosen f modes property))
        refl refl (set_attributes-Attributes f p set)

-- Where the device opens, and `modes` are listed, without a write past mEDIDModes, configure
-- returns 0 with a mode of the table and a positive period: the mode of the property, if the display
-- lists it and it is not interlaced, and getBestMode's otherwise; but it divides by 0 if the
-- property's mode takes effect and is not in the table, and in no other case. The header's numbers of
-- the modes are different.
pub configure-Ends :
    (f : Formats) (p : Platform) (c : Connection) (d : HdmiDisplay) (modes : List ℕ)
    → Distinct f
    → is_open (open_frame_buffer c.opened d) ≡ true
    → modes_after (read_resolution p.strtol p.isspace c.edid_modes_file) d.edid_modes ≡ some modes
    → Ends f modes c.resolution_property (configure f p c d)
unfolding configure
configure-Ends f p c d modes distinct opened listed =
    let scanned = read_ce_underscan_info p c.scan_info (open_frame_buffer c.opened d) in
    branch (not (is_open (open_frame_buffer c.opened d))) (Ends f modes c.resolution_property) _ _
      (λ t. absurd (ground (arith, opened)))
      (λ _.
        subst (λ o. Ends f modes c.resolution_property (set_mode f p c scanned o)) (sym listed)
          (set_mode-Ends f distinct modes c.resolution_property p c scanned refl))

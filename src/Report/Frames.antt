-- ===== src/Report/Frames.antt =====
-- runner.go: which stack frame becomes the origin of a failure.
use hegel_go.Prelude.{
  ◌≡◌, ◌≢◌, refl, ap, String, Bool, true, false, some, none, List, [], ◌∷◌, ◌++◌, All, Bool-cases,
  inl, inr,
}
use hegel_go.Engine.{Engine}
use hegel_go.Report.{find_caller_frame, find_caller, origin_of, is_hegel_frame, is_not_hegel_frame}
use hegel_go.Errors.{Frame}

-- The frame that findCallerFrameInPCs finds is the first one of a non-empty stack whose function
-- the filter accepts.
pub find_caller_frame_first :
    (pcs : List Frame) (filter : String → Bool) (frame : Frame)
    → pcs ≢ []
    → find_caller_frame pcs filter ≡ some frame
    → (before : List Frame) × (after : List Frame) × (pcs ≡ before ++ frame ∷ after)
      × All (λ f. filter f.function ≡ false) before
      × (filter frame.function ≡ true)
unfolding find_caller_frame
find_caller_frame_first [] filter frame ne e = absurd (ne refl)
find_caller_frame_first (f ∷ []) filter frame ne e = elim (Bool-cases (filter f.function)) [
  | inl yes_f ↦ ([], [], (cc), tt, (cc))
  | inr no_f ↦ absurd (cc)
]
find_caller_frame_first (f ∷ g ∷ rest) filter frame ne e = elim (Bool-cases (filter f.function)) [
  | inl yes_f ↦ ([], g ∷ rest, cc, tt, cc)
  | inr no_f ↦
      let (before, after, cut, all, yes_frame) =
        find_caller_frame_first (g ∷ rest) filter frame (λ h. cc) (cc) in
      (f ∷ before, after, ap (λ l. f ∷ l) cut, (no_f, all), yes_frame)
]

module _ ⦃eng : Engine⦄ where
  abbrev Inside : List Frame → Type 0
  Inside = All (λ f. is_hegel_frame f.function ≡ true)

  abbrev no_frame : Frame
  no_frame = record { function = ""; file = ""; line = 0; pc = 0 }

  -- The origin that a stack's first frame outside the package gives: `file:line (0xpc)`, as the
  -- parameter `frame_origin` writes it. An empty stack yields one empty frame.
  pub data OriginOf : List Frame → String → Type 0 where
    first_outside :
        (before : List Frame) (frame : Frame) (after : List Frame)
        → Inside before
        → is_hegel_frame frame.function ≡ false
        → OriginOf (before ++ frame ∷ after) (eng.frame_origin frame)
    all_inside :
        (frame : Frame) (frames : List Frame)
        → Inside (frame ∷ frames)
        → OriginOf (frame ∷ frames) "<unknown>:0 (0x0)"
    empty_stack : OriginOf [] (eng.frame_origin no_frame)

  finds_first :
      (before : List Frame) (frame : Frame) (after : List Frame)
      → Inside before
      → is_hegel_frame frame.function ≡ false
      → find_caller_frame (before ++ frame ∷ after) is_not_hegel_frame ≡ some frame
  unfolding find_caller_frame is_not_hegel_frame
  finds_first [] frame [] inside outside = rw outside refl
  finds_first [] frame (f ∷ after) inside outside = rw outside refl
  finds_first (f ∷ []) frame after inside outside =
      rw (inside.0) (finds_first [] frame after tt outside)
  finds_first (f ∷ g ∷ before) frame after inside outside =
      rw (inside.0) (finds_first (g ∷ before) frame after inside.1 outside)

  finds_none :
      (frame : Frame) (frames : List Frame)
      → Inside (frame ∷ frames)
      → find_caller_frame (frame ∷ frames) is_not_hegel_frame ≡ none
  unfolding find_caller_frame is_not_hegel_frame
  finds_none frame [] inside = rw (inside.0) refl
  finds_none frame (f ∷ frames) inside = rw (inside.0) (finds_none f frames inside.1)

  pub find_caller-OriginOf :
      (pcs : List Frame) (origin : String)
      → OriginOf pcs origin
      → find_caller pcs is_not_hegel_frame ≡ origin
  unfolding find_caller origin_of
  find_caller-OriginOf pcs origin (first_outside before frame after inside outside) =
      rw (finds_first before frame after inside outside) refl
  find_caller-OriginOf pcs origin (all_inside frame frames inside) =
      rw (finds_none frame frames inside) refl
  find_caller-OriginOf pcs origin empty_stack =
      unfold find_caller_frame is_not_hegel_frame is_hegel_frame in refl

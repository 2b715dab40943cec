-- ===== src/MacTouch/Legal.antt =====
-- What the system sees of the gestures: buttons and scrolling that begin and end in turn.
use screx_v.Prelude.{
  ℕ, ◌≡◌, refl, ap, ◌∙◌, Bool, true, false, ◌&&◌, Option, none, some, List, [], ◌∷◌, ◌++◌, length,
  leb, ltb, ◌==◌, if◌then◌else◌, if-preserves,
}
use screx_v.Input.{TouchContact}
use screx_v.MacTouch.{
  track_all, active, Area, GestureMode, idle, pending, dragging, scrolling, secondary_clicked,
  TouchState, began, changed, ended, Effect, left_button, right_button, left_drag, scroll,
  arm_long_press, sync_pointer, start_scrolling, from_idle, distance, maybe_drag, next_generation,
  from_pending, primary_pos, drag_to, from_dragging, centroid, delta, from_scrolling, note_lift,
  from_secondary, gesture, touch, long_press, click_if_pending, Step, packet, timer, step, run,
}

-- The left and the right button, and whether a scroll is under way.
pub record Pointer : Type 0 where
  pub left : Bool
  pub right : Bool
  pub scrolls : Bool

-- What an effect does to the pointer, or nothing when it is out of turn: a button is pressed only
-- when it is up, let go only when it is down, a drag needs the left button, and a scroll changes or
-- ends only after it began.
unfoldable pub observe : Effect → Pointer → Option Pointer
observe (left_button at true) p = if p.left then none else some (record p { left = true })
observe (left_button at false) p = if p.left then some (record p { left = false }) else none
observe (right_button at true) p = if p.right then none else some (record p { right = true })
observe (right_button at false) p = if p.right then some (record p { right = false }) else none
observe (left_drag to) p = if p.left then some p else none
observe (scroll dx dy began) p = if p.scrolls then none else some (record p { scrolls = true })
observe (scroll dx dy changed) p = if p.scrolls then some p else none
observe (scroll dx dy ended) p = if p.scrolls then some (record p { scrolls = false }) else none
observe (arm_long_press generation) p = some p
observe (sync_pointer at) p = some p

unfoldable pub observe_all : List Effect → Option Pointer → Option Pointer
unfolding observe
observe_all es none = none
observe_all [] (some p) = some p
observe_all (e ∷ es) (some p) = observe_all es (observe e p)

-- The pointer that belongs to a mode.
unfoldable pub pointer_of : GestureMode → Pointer
pointer_of idle = record { left = false; right = false; scrolls = false }
pointer_of (pending generation) = record { left = false; right = false; scrolls = false }
pointer_of dragging = record { left = true; right = false; scrolls = false }
pointer_of scrolling = record { left = false; right = false; scrolls = true }
pointer_of secondary_clicked = record { left = false; right = false; scrolls = false }

-- An operation that starts in a mode ends with the pointer of its new mode, each effect in turn.
abbrev Legal : GestureMode → TouchState × List Effect → Type 0
Legal mode done = observe_all done.1 (some (pointer_of mode)) ≡ some (pointer_of done.0.mode)

start_scrolling-Legal :
    (mode : GestureMode) (st : TouchState)
    → pointer_of mode ≡ pointer_of idle
    → Legal mode (start_scrolling st)
unfolding start_scrolling pointer_of observe_all
start_scrolling-Legal mode st h = rw h refl

from_idle-Legal :
    (a : Area) (count : ℕ) (st : TouchState) → st.mode ≡ idle → Legal idle (from_idle a count st)
unfolding from_idle pointer_of observe_all
from_idle-Legal a count st h =
    if-preserves (Legal idle) (count == 1) refl
      (if-preserves (Legal idle) (leb 2 count) (start_scrolling-Legal idle st refl) (rw h refl))

maybe_drag-Legal :
    (generation : ℕ) (st : TouchState) (o : Option (ℕ × ℕ))
    → st.mode ≡ pending generation
    → Legal (pending generation) (maybe_drag st o)
unfolding maybe_drag pointer_of observe_all
maybe_drag-Legal generation st none h = rw h refl
maybe_drag-Legal generation st (some p) h =
    if-preserves (Legal (pending generation)) (ltb 8 (distance p st.anchor)) refl (rw h refl)

from_pending-Legal :
    (generation count : ℕ) (st : TouchState)
    → st.mode ≡ pending generation
    → Legal (pending generation) (from_pending count st)
unfolding from_pending pointer_of observe_all
from_pending-Legal generation count st h =
    if-preserves (Legal (pending generation)) (count == 0) refl (
      if-preserves (Legal (pending generation)) (leb 2 count)
        (start_scrolling-Legal (pending generation)
          (record st { generation = next_generation st.generation }) refl)
        (maybe_drag-Legal generation st (primary_pos st.slots) h))

drag_to-Legal :
    (st : TouchState) (o : Option (ℕ × ℕ)) → st.mode ≡ dragging → Legal dragging (drag_to st o)
unfolding drag_to pointer_of observe_all
drag_to-Legal st none h = rw h refl
drag_to-Legal st (some p) h = rw h refl

from_dragging-Legal :
    (count : ℕ) (lift : Option (ℕ × ℕ)) (st : TouchState)
    → st.mode ≡ dragging
    → Legal dragging (from_dragging count lift st)
unfolding from_dragging pointer_of observe_all
from_dragging-Legal count lift st h =
    if-preserves (Legal dragging) (count == 0) refl (drag_to-Legal st (primary_pos st.slots) h)

from_scrolling-Legal :
    (count : ℕ) (st : TouchState) → st.mode ≡ scrolling → Legal scrolling (from_scrolling count st)
unfolding from_scrolling pointer_of observe_all
from_scrolling-Legal count st h =
    if-preserves (Legal scrolling) (leb 2 count)
      (if-preserves (λ es. observe_all es (some (pointer_of scrolling)) ≡ some (pointer_of st.mode))
        ((delta (centroid st.slots).0 st.scroll_last.0 == 0)
          && (delta (centroid st.slots).1 st.scroll_last.1 == 0))
        (rw h refl) (rw h refl))
      refl

note_lift-still :
    (lift : Option (ℕ × ℕ)) (p : Pointer) → observe_all (note_lift lift) (some p) ≡ some p
unfolding note_lift observe_all
note_lift-still none p = refl
note_lift-still (some at) p = refl

from_secondary-Legal :
    (count : ℕ) (lift : Option (ℕ × ℕ)) (st : TouchState)
    → st.mode ≡ secondary_clicked
    → Legal secondary_clicked (from_secondary count lift st)
unfolding from_secondary note_lift pointer_of observe_all
from_secondary-Legal count lift st h =
    if-preserves (Legal secondary_clicked) (count == 0) (note_lift-still lift _) (rw h refl)

gesture-Legal :
    (a : Area) (count : ℕ) (lift : Option (ℕ × ℕ)) (mode : GestureMode) (st : TouchState)
    → st.mode ≡ mode
    → Legal mode (gesture a count lift mode st)
unfolding gesture
gesture-Legal a count lift idle st h = from_idle-Legal a count st h
gesture-Legal a count lift (pending generation) st h = from_pending-Legal generation count st h
gesture-Legal a count lift dragging st h = from_dragging-Legal count lift st h
gesture-Legal a count lift scrolling st h = from_scrolling-Legal count st h
gesture-Legal a count lift secondary_clicked st h = from_secondary-Legal count lift st h

touch-Legal : (a : Area) (cs : List TouchContact) (st : TouchState) → Legal st.mode (touch a cs st)
unfolding touch observe_all
touch-Legal a [] st = refl
touch-Legal a (c ∷ cs) st =
    let tracked = track_all a (c ∷ cs) (st.slots, none) in
    gesture-Legal a (length (active tracked.0)) tracked.1 st.mode (record st { slots = tracked.0 })
      refl

click_if_pending-Legal :
    (generation : ℕ) (mode : GestureMode) (st : TouchState)
    → st.mode ≡ mode
    → Legal mode (click_if_pending generation mode st)
unfolding click_if_pending pointer_of observe_all
click_if_pending-Legal generation idle st h = rw h refl
click_if_pending-Legal generation (pending g) st h =
    if-preserves (Legal (pending g)) (g == generation) refl (rw h refl)
click_if_pending-Legal generation dragging st h = rw h refl
click_if_pending-Legal generation scrolling st h = rw h refl
click_if_pending-Legal generation secondary_clicked st h = rw h refl

step-Legal : (s : Step) (st : TouchState) → Legal st.mode (step s st)
unfolding step long_press
step-Legal (packet a cs) st = touch-Legal a cs st
step-Legal (timer generation) st = click_if_pending-Legal generation st.mode st refl

observe_all-append :
    (es fs : List Effect) (o : Option Pointer)
    → observe_all (es ++ fs) o ≡ observe_all fs (observe_all es o)
unfolding observe_all
observe_all-append es fs none = refl
observe_all-append [] fs (some p) = refl
observe_all-append (e ∷ es) fs (some p) = observe_all-append es fs (observe e p)

-- Whatever packets of contacts come and whichever timers fire, stale ones among them, in any order:
-- every effect comes in its turn, and afterwards the left button is down exactly in a drag, the right
-- button is up, and a scroll is under way exactly in the scrolling mode, if that was so before.
pub run-Legal :
    (ss : List Step) (st : TouchState)
    → observe_all (run ss st).1 (some (pointer_of st.mode)) ≡ some (pointer_of (run ss st).0.mode)
unfolding run observe_all
run-Legal [] st = refl
run-Legal (s ∷ ss) st =
    observe_all-append (step s st).1 (run ss (step s st).0).1 (some (pointer_of st.mode))
    ∙ ap (observe_all (run ss (step s st).0).1) (step-Legal s st)
    ∙ run-Legal ss (step s st).0

-- ===== src/MacTouch.antt =====
-- The touch gestures of daemon/src/platform/macos/input.rs: MacInput::touch, which makes clicks, drags
-- and scrolling of contacts, and the timer of a long press. A coordinate of the desktop is
-- an i32, held here as its distance from -2 ^ 31, so that an output may lie left of or above the main
-- display; a scroll step is its bit pattern.
pub mod Legal
pub mod Clicks
mod Tests
use screx_v.Prelude.{
  ℕ, ◌+◌, ◌-◌, ◌*◌, ◌/◌, ◌%◌, ◌^◌, max, Bool, true, false, ◌&&◌, ◌||◌, not, Option, none, some,
  List, [], ◌∷◌, ◌++◌, length, set, ltb, leb, ◌==◌, if◌then◌else◌,
}
use screx_v.Input.{TouchContact}

-- The origin, the wire's and the output's size of PointerState.
pub record Area : Type 0 where
  pub origin : ℕ × ℕ
  pub wire_size : ℕ × ℕ
  pub output_size : ℕ × ℕ

pub data GestureMode : Type 0 where
  idle : GestureMode
  pending : (generation : ℕ) → GestureMode
  dragging : GestureMode
  scrolling : GestureMode
  secondary_clicked : GestureMode

pub record TouchState : Type 0 where
  pub slots : List (Option (ℕ × ℕ))
  pub mode : GestureMode
  pub anchor : ℕ × ℕ
  pub scroll_last : ℕ × ℕ
  pub generation : ℕ

pub data ScrollPhase : Type 0 where
  began changed ended : ScrollPhase

-- What is posted to the system, the arming of the timer, and the note of where the pointer is. A move
-- is one with the left button held; a scroll step is before the user's choice of direction.
pub data Effect : Type 0 where
  left_button : (at : ℕ × ℕ) (pressed : Bool) → Effect
  right_button : (at : ℕ × ℕ) (pressed : Bool) → Effect
  left_drag : (to : ℕ × ℕ) → Effect
  scroll : (dx dy : ℕ) → ScrollPhase → Effect
  arm_long_press : (generation : ℕ) → Effect
  sync_pointer : (at : ℕ × ℕ) → Effect

-- The source divides doubles and rounds; below 2 ^ 16 that is the nearest integer, halves upwards.
unfoldable pub scale_position : (value wire out : ℕ) → ℕ
scale_position value wire out =
    if leb wire 1 || (leb out 1 || (wire == out))
    then value
    else (2 * value * (out - 1) + (wire - 1)) / (2 * (wire - 1))

unfoldable pub position : Area → TouchContact → ℕ × ℕ
unfolding scale_position
position a c = (
  a.origin.0 + scale_position c.x a.wire_size.0 a.output_size.0,
  a.origin.1 + scale_position c.y a.wire_size.1 a.output_size.1,
)

unfoldable pub or_else : Option (ℕ × ℕ) → ℕ × ℕ → Option (ℕ × ℕ)
or_else none p = some p
or_else (some q) p = some q

-- One contact: the slots, and where the first touch of the packet went up.
unfoldable pub track :
    Area
    → TouchContact
    → List (Option (ℕ × ℕ)) × Option (ℕ × ℕ)
    → List (Option (ℕ × ℕ)) × Option (ℕ × ℕ)
unfolding position or_else
track a c (slots, lift) =
    if leb 10 c.slot
    then (slots, lift)
    else if leb c.event_type 1
    then (set slots c.slot (some (position a c)), lift)
    else if c.event_type == 2
    then (set slots c.slot none, or_else lift (position a c))
    else (slots, lift)

unfoldable pub track_all :
    Area
    → List TouchContact
    → List (Option (ℕ × ℕ)) × Option (ℕ × ℕ)
    → List (Option (ℕ × ℕ)) × Option (ℕ × ℕ)
unfolding track
track_all a [] tracked = tracked
track_all a (c ∷ cs) tracked = track_all a cs (track a c tracked)

-- The positions of the contacts that are down, in the order of their slots.
unfoldable pub active : List (Option (ℕ × ℕ)) → List (ℕ × ℕ)
active [] = []
active (none ∷ slots) = active slots
active (some p ∷ slots) = p ∷ active slots

unfoldable pub first_of : List (ℕ × ℕ) → Option (ℕ × ℕ)
first_of [] = none
first_of (p ∷ ps) = some p

-- Slot 0 when it is down, else the first that is: the first of the active ones in either case.
unfoldable pub primary_pos : List (Option (ℕ × ℕ)) → Option (ℕ × ℕ)
unfolding first_of active
primary_pos slots = first_of (active slots)

-- The coordinate 0.
abbrev pub zero_coordinate : ℕ
zero_coordinate = 2 ^ 31

-- Half the sum of two coordinates; the source's division rounds towards the coordinate 0.
unfoldable pub midway : ℕ → ℕ → ℕ
midway x y = if ltb (x + y) (2 ^ 32) then (x + y + 1) / 2 else (x + y) / 2

unfoldable pub centroid_of : List (ℕ × ℕ) → ℕ × ℕ
unfolding midway
centroid_of [] = (zero_coordinate, zero_coordinate)
centroid_of (p ∷ []) = p
centroid_of ((px, py) ∷ (qx, qy) ∷ _) = (midway px qx, midway py qy)

unfoldable pub centroid : List (Option (ℕ × ℕ)) → ℕ × ℕ
unfolding centroid_of active
centroid slots = centroid_of (active slots)

unfoldable pub next_generation : ℕ → ℕ
next_generation n = (n + 1) % 2 ^ 64

unfoldable pub unwrap_or : Option (ℕ × ℕ) → ℕ × ℕ → ℕ × ℕ
unwrap_or none p = p
unwrap_or (some q) p = q

unfoldable pub start_scrolling : TouchState → TouchState × List Effect
unfolding centroid
start_scrolling st =
    (record st { scroll_last = centroid st.slots; mode = scrolling }, scroll 0 0 began ∷ [])

unfoldable pub from_idle : Area → (count : ℕ) → TouchState → TouchState × List Effect
unfolding start_scrolling next_generation unwrap_or primary_pos
from_idle a count st =
    let generation = next_generation st.generation in
    if count == 1
    then (
      record st {
        generation = generation;
        anchor = unwrap_or (primary_pos st.slots) a.origin;
        mode = pending generation;
      },
      arm_long_press generation ∷ [],
    )
    else if leb 2 count
    then start_scrolling st
    else (st, [])

-- How far a position is from another, in the direction in which it is farther.
unfoldable pub distance : ℕ × ℕ → ℕ × ℕ → ℕ
distance (x, y) (ax, ay) = max (max (x - ax) (ax - x)) (max (y - ay) (ay - y))

unfoldable pub maybe_drag : TouchState → Option (ℕ × ℕ) → TouchState × List Effect
unfolding distance next_generation
maybe_drag st none = (st, [])
maybe_drag st (some p) =
    if ltb 8 (distance p st.anchor)
    then (
      record st { generation = next_generation st.generation; mode = dragging },
      left_button st.anchor true ∷ left_drag p ∷ sync_pointer p ∷ [],
    )
    else (st, [])

unfoldable pub from_pending : (count : ℕ) → TouchState → TouchState × List Effect
unfolding start_scrolling maybe_drag primary_pos next_generation
from_pending count st =
    let st' = record st { generation = next_generation st.generation } in
    if count == 0
    then (
      record st' { mode = idle },
      left_button st.anchor true ∷ left_button st.anchor false ∷ sync_pointer st.anchor ∷ [],
    )
    else if leb 2 count
    then start_scrolling st'
    else maybe_drag st (primary_pos st.slots)

unfoldable pub drag_to : TouchState → Option (ℕ × ℕ) → TouchState × List Effect
drag_to st none = (st, [])
drag_to st (some p) = (st, left_drag p ∷ sync_pointer p ∷ [])

unfoldable pub from_dragging :
    (count : ℕ) (lift : Option (ℕ × ℕ)) → TouchState → TouchState × List Effect
unfolding unwrap_or primary_pos drag_to
from_dragging count lift st =
    let p = unwrap_or lift (unwrap_or (primary_pos st.slots) st.anchor) in
    if count == 0
    then (record st { mode = idle }, left_button p false ∷ sync_pointer p ∷ [])
    else drag_to st (primary_pos st.slots)

-- The difference of two coordinates as an i32.
unfoldable pub delta : ℕ → ℕ → ℕ
delta now last = (now + 2 ^ 32 - last) % 2 ^ 32

unfoldable pub from_scrolling : (count : ℕ) → TouchState → TouchState × List Effect
unfolding centroid delta
from_scrolling count st =
    let c = centroid st.slots in
    let dx = delta c.0 st.scroll_last.0 in
    let dy = delta c.1 st.scroll_last.1 in
    if leb 2 count
    then (
      record st { scroll_last = c },
      (if (dx == 0) && (dy == 0) then [] else scroll dx dy changed ∷ []),
    )
    else (record st { mode = idle }, scroll 0 0 ended ∷ [])

unfoldable pub note_lift : Option (ℕ × ℕ) → List Effect
note_lift none = []
note_lift (some p) = sync_pointer p ∷ []

unfoldable pub from_secondary :
    (count : ℕ) (lift : Option (ℕ × ℕ)) → TouchState → TouchState × List Effect
unfolding note_lift
from_secondary count lift st =
    if count == 0 then (record st { mode = idle }, note_lift lift) else (st, [])

unfoldable pub gesture :
    Area → (count : ℕ) (lift : Option (ℕ × ℕ)) → GestureMode → TouchState → TouchState × List Effect
unfolding from_idle from_pending from_dragging from_scrolling from_secondary
gesture a count lift idle st = from_idle a count st
gesture a count lift (pending generation) st = from_pending count st
gesture a count lift dragging st = from_dragging count lift st
gesture a count lift scrolling st = from_scrolling count st
gesture a count lift secondary_clicked st = from_secondary count lift st

unfoldable pub touch : Area → List TouchContact → TouchState → TouchState × List Effect
unfolding gesture track_all active
touch a [] st = (st, [])
touch a (c ∷ cs) st =
    let tracked = track_all a (c ∷ cs) (st.slots, none) in
    gesture a (length (active tracked.0)) tracked.1 st.mode (record st { slots = tracked.0 })

-- The thread that `arm_long_press` starts, when its 500 ms are over.
unfoldable pub click_if_pending :
    (generation : ℕ) → GestureMode → TouchState → TouchState × List Effect
click_if_pending generation (pending g) st =
    if g == generation
    then (
      record st { mode = secondary_clicked },
      right_button st.anchor true ∷ right_button st.anchor false ∷ [],
    )
    else (st, [])
click_if_pending generation _ st = (st, [])

unfoldable pub long_press : (generation : ℕ) → TouchState → TouchState × List Effect
unfolding click_if_pending
long_press generation st = click_if_pending generation st.mode st

-- Packets and timers, in any order.
pub data Step : Type 0 where
  packet : Area → List TouchContact → Step
  timer : (generation : ℕ) → Step

unfoldable pub step : Step → TouchState → TouchState × List Effect
unfolding touch long_press
step (packet a cs) st = touch a cs st
step (timer generation) st = long_press generation st

unfoldable pub run : List Step → TouchState → TouchState × List Effect
unfolding step
run [] st = (st, [])
run (s ∷ ss) st = let done = step s st in let rest = run ss done.0 in (rest.0, done.1 ++ rest.1)

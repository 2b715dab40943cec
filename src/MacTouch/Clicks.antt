-- ===== src/MacTouch/Clicks.antt =====
-- Which clicks come of which touches.
use screx_v.Prelude.{ℕ, ◌≡◌, refl, true, false, none, some, [], ◌∷◌, replicate, ◌==◌, arith}
use screx_v.Input.{TouchContact}
use screx_v.MacTouch.{
  Area, idle, scrolling, TouchState, ended, left_button, right_button, scroll, arm_long_press,
  sync_pointer, position, or_else, track, track_all, active, first_of, primary_pos, next_generation,
  unwrap_or, from_idle, from_pending, from_scrolling, from_secondary, note_lift, gesture, touch,
  long_press, click_if_pending, packet, timer, step, run,
}

abbrev pub contact : (slot event_type x y : ℕ) → TouchContact
contact slot event_type x y = record { slot = slot; event_type = event_type; x = x; y = y }

==_self : (n : ℕ) → (n == n) ≡ true
==_self n = ground arith

-- A touch that goes down on a screen without touches and goes up where it is, in a packet each, and
-- its timer, for any positions. When the timer fires after the lift, the touch is a left click where
-- it went down, and the timer does nothing; when it fires before, the touch is a right click there,
-- and the lift only notes where it was.
pub stationary_touch_clicks_once :
    (a : Area) (st : TouchState) (x y u v : ℕ)
    → st.mode ≡ idle
    → st.slots ≡ replicate 10 none
    → (let down = packet a (contact 0 0 x y ∷ []) in
        let up = packet a (contact 0 2 u v ∷ []) in
        let g = next_generation st.generation in
        let at = position a (contact 0 0 x y) in
        ((run (down ∷ up ∷ timer g ∷ []) st).1
          ≡ arm_long_press g ∷ left_button at true ∷ left_button at false ∷ sync_pointer at ∷ [])
        × ((run (down ∷ timer g ∷ up ∷ []) st).1
            ≡ arm_long_press g
              ∷ right_button at true
              ∷ right_button at false
              ∷ sync_pointer (position a (contact 0 2 u v))
              ∷ []))
unfolding run step touch track_all track or_else active first_of primary_pos unwrap_or gesture
    from_idle from_pending from_secondary note_lift long_press click_if_pending
stationary_touch_clicks_once a st x y u v m e =
    (rw (m, e) refl, rw (m, e, ==_self (next_generation st.generation)) refl)

-- Two touches that scroll, in the first two slots, and go up one after the other: when the one that
-- stays longer moves in between, its lift is a left click where it moved to, for any positions.
pub lifting_scroll_clicks :
    (a : Area) (st : TouchState) (p q : ℕ × ℕ) (u v x y z w : ℕ)
    → st.mode ≡ scrolling
    → st.slots ≡ some p ∷ some q ∷ replicate 8 none
    → (let first_up = packet a (contact 1 2 u v ∷ []) in
        let move = packet a (contact 0 1 x y ∷ []) in
        let last_up = packet a (contact 0 2 z w ∷ []) in
        let at = position a (contact 0 1 x y) in
        (run (first_up ∷ move ∷ last_up ∷ []) st).1
        ≡ scroll 0 0 ended
          ∷ arm_long_press (next_generation st.generation)
          ∷ left_button at true
          ∷ left_button at false
          ∷ sync_pointer at
          ∷ [])
unfolding run step touch track_all track or_else active first_of primary_pos unwrap_or gesture
    from_idle from_pending from_scrolling
lifting_scroll_clicks a st p q u v x y z w m e = rw (m, e) refl

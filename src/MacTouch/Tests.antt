-- ===== src/MacTouch/Tests.antt =====
-- The theorems of the gestures on one screen.
use screx_v.Prelude.{◌≡◌, ◌-◌, ◌^◌, refl, true, false, none, some, List, [], ◌∷◌, replicate}
use screx_v.MacTouch.{
  Step, Area, idle, scrolling, ended, TouchState, left_button, right_button, scroll, arm_long_press,
  sync_pointer, zero_coordinate, position, packet, timer, next_generation, run,
}
use screx_v.MacTouch.Legal.{observe_all, pointer_of, run-Legal}
use screx_v.MacTouch.Clicks.{contact, stationary_touch_clicks_once, lifting_scroll_clicks}

abbrev screen : Area
screen = record {
  origin = (2 ^ 31 - 1920, 2 ^ 31);
  wire_size = (1280, 720);
  output_size = (1920, 1080);
}

abbrev untouched : TouchState
untouched = record {
  slots = replicate 10 none;
  mode = idle;
  anchor = (zero_coordinate, zero_coordinate);
  scroll_last = (zero_coordinate, zero_coordinate);
  generation = 7;
}

abbrev two_fingers : TouchState
two_fingers = record untouched {
  slots = some (10, 10) ∷ some (20, 20) ∷ replicate 8 none;
  mode = scrolling;
}

abbrev steps : List Step
steps =
    packet screen (contact 0 0 5 5 ∷ [])
    ∷ packet screen (contact 0 1 500 5 ∷ [])
    ∷ timer 8
    ∷ packet screen (contact 0 2 500 5 ∷ [])
    ∷ []

run-Legal_example :
    observe_all (run steps untouched).1 (some (pointer_of idle))
    ≡ some (pointer_of (run steps untouched).0.mode)
run-Legal_example = run-Legal steps untouched

stationary_touch_clicks_once_example :
    (let down = packet screen (contact 0 0 5 6 ∷ []) in
      let up = packet screen (contact 0 2 5 7 ∷ []) in
      let at = position screen (contact 0 0 5 6) in
      ((run (down ∷ up ∷ timer 8 ∷ []) untouched).1
        ≡ arm_long_press 8 ∷ left_button at true ∷ left_button at false ∷ sync_pointer at ∷ [])
      × ((run (down ∷ timer 8 ∷ up ∷ []) untouched).1
          ≡ arm_long_press 8
            ∷ right_button at true
            ∷ right_button at false
            ∷ sync_pointer (position screen (contact 0 2 5 7))
            ∷ []))
unfolding next_generation
stationary_touch_clicks_once_example =
    stationary_touch_clicks_once screen untouched 5 6 5 7 refl refl

lifting_scroll_clicks_example :
    (let at = position screen (contact 0 1 11 11) in
      (run
        (packet screen (contact 1 2 20 20 ∷ [])
          ∷ packet screen (contact 0 1 11 11 ∷ [])
          ∷ packet screen (contact 0 2 11 11 ∷ [])
          ∷ [])
        two_fingers).1
      ≡ scroll 0 0 ended
        ∷ arm_long_press 8
        ∷ left_button at true
        ∷ left_button at false
        ∷ sync_pointer at
        ∷ [])
unfolding next_generation
lifting_scroll_clicks_example =
    lifting_scroll_clicks screen two_fingers (10, 10) (20, 20) 20 20 11 11 11 11 refl refl

-- ===== src/History/Runs.antt =====
-- The list of connections through sequences of AppStorage's operations.
use screx_v.Prelude.{
  ℕ, ◌+◌, ◌≤◌, ◌≡◌, ◌∙◌, ap, sym, refl, suc, Bool, true, false, List, [], ◌∷◌, ◌++◌, length, arith,
  if◌then◌else◌, Bool-cases, inl, inr, if-preserves, All,
}
use mathlib.Core.List.{append-nil}
use screx_v.History.{
  RecentConnection, StoredState, is_at, pinned_of, forget, remember_connection, toggle_pinned,
  update_connection_name, clear_recent_connections, delete_connection, set_pairing_key,
}
use screx_v.History.Normal.{
  occurs, IsNormal, remember-IsNormal, toggle-IsNormal, occurs-forget, occurs-append, forget-All,
}

forget-append :
    (host : List ℕ) (port : ℕ) (xs ys : List RecentConnection)
    → forget host port (xs ++ ys) ≡ forget host port xs ++ forget host port ys
unfolding forget
forget-append host port [] ys = refl
forget-append host port (x ∷ xs) ys = elim (Bool-cases (is_at host port x)) [
  | inl here ↦ rw (forget-append host port xs ys, here) refl
  | inr elsewhere ↦ rw (forget-append host port xs ys, elsewhere) refl
]

length-forget :
    (host : List ℕ) (port : ℕ) (cs : List RecentConnection)
    → length (forget host port cs) ≤ length cs
unfolding forget
length-forget host port [] = omega arith
length-forget host port (c ∷ cs) =
    if-preserves (λ (xs : List RecentConnection). length xs ≤ suc (length cs)) (is_at host port c)
      (omega (arith, length-forget host port cs)) (omega (arith, length-forget host port cs))

forget-IsNormal :
    (host : List ℕ) (port : ℕ) (cs : List RecentConnection)
    → IsNormal cs
    → IsNormal (forget host port cs)
forget-IsNormal host port cs h = record {
  pins = forget host port h.pins;
  others = forget host port h.others;
  split = ap (forget host port) h.split ∙ forget-append host port h.pins h.others;
  pins_first = forget-All (λ c. c.pinned ≡ true) host port h.pins h.pins_first;
  others_last = forget-All (λ c. c.pinned ≡ false) host port h.others h.others_last;
  few_pins = omega (arith, length-forget host port h.pins, h.few_pins);
  few_others = omega (arith, length-forget host port h.others, h.few_others);
  once = λ h' p'. omega (arith, occurs-forget h' p' host port cs, h.once h' p');
}

module _ (host : List ℕ) (port : ℕ) (name : List ℕ) where
  rename : List RecentConnection → List RecentConnection
  rename cs = update_connection_name host port name cs

  rename-append : (xs ys : List RecentConnection) → rename (xs ++ ys) ≡ rename xs ++ rename ys
  unfolding rename update_connection_name
  rename-append [] ys = refl
  rename-append (x ∷ xs) ys =
      ap (λ zs. (if is_at host port x then record x { name = name } else x) ∷ zs)
        (rename-append xs ys)

  length-rename : (cs : List RecentConnection) → length (rename cs) ≡ length cs
  unfolding rename update_connection_name
  length-rename [] = refl
  length-rename (c ∷ cs) = ap suc (length-rename cs)

  rename-All :
      (b : Bool) (cs : List RecentConnection)
      → All (λ c. c.pinned ≡ b) cs
      → All (λ c. c.pinned ≡ b) (rename cs)
  unfolding rename update_connection_name
  rename-All b [] h = tt
  rename-All b (c ∷ cs) (h, hs) = (
    if-preserves (λ (x : RecentConnection). x.pinned ≡ b) (is_at host port c) h h,
    rename-All b cs hs,
  )

  occurs-rename :
      (h' : List ℕ) (p' : ℕ) (cs : List RecentConnection)
      → occurs h' p' (rename cs) ≡ occurs h' p' cs
  unfolding rename update_connection_name is_at
  occurs-rename h' p' [] = refl
  occurs-rename h' p' (c ∷ cs) =
      if-preserves
        (λ (x : RecentConnection).
          (if is_at h' p' x then 1 else 0) + occurs h' p' (rename cs) ≡ occurs h' p' (c ∷ cs))
        (is_at host port c) (omega (arith, occurs-rename h' p' cs))
        (omega (arith, occurs-rename h' p' cs))

  rename-IsNormal : (cs : List RecentConnection) → IsNormal cs → IsNormal (rename cs)
  rename-IsNormal cs h = record {
    pins = rename h.pins;
    others = rename h.others;
    split = ap rename h.split ∙ rename-append h.pins h.others;
    pins_first = rename-All true h.pins h.pins_first;
    others_last = rename-All false h.others h.others_last;
    few_pins = omega (arith, length-rename h.pins, h.few_pins);
    few_others = omega (arith, length-rename h.others, h.few_others);
    once = λ h' p'. omega (arith, occurs-rename h' p' cs, h.once h' p');
  }

pinned_of_split :
    (ps rs : List RecentConnection)
    → All (λ c. c.pinned ≡ true) ps
    → All (λ c. c.pinned ≡ false) rs
    → pinned_of (ps ++ rs) ≡ ps
unfolding pinned_of
pinned_of_split [] [] h k = refl
pinned_of_split [] (r ∷ rs) h (k, ks) =
    ap (λ b. if b then r ∷ pinned_of rs else pinned_of rs) k ∙ pinned_of_split [] rs h ks
pinned_of_split (p ∷ ps) rs (h, hs) k =
    ap (λ b. if b then p ∷ pinned_of (ps ++ rs) else pinned_of (ps ++ rs)) h
    ∙ ap (◌∷◌ p) (pinned_of_split ps rs hs k)

clear-IsNormal : (cs : List RecentConnection) → IsNormal cs → IsNormal (clear_recent_connections cs)
unfolding clear_recent_connections
clear-IsNormal cs h = record {
  pins = h.pins;
  others = [];
  split =
      ap pinned_of h.split
      ∙ pinned_of_split h.pins h.others h.pins_first h.others_last
      ∙ sym (append-nil h.pins);
  pins_first = h.pins_first;
  others_last = tt;
  few_pins = h.few_pins;
  few_others = omega arith;
  once = λ host port. omega (
    arith,
    ap (occurs host port)
        (ap pinned_of h.split ∙ pinned_of_split h.pins h.others h.pins_first h.others_last),
    ap (occurs host port) h.split,
    occurs-append host port h.pins h.others,
    h.once host port,
  );
}

pub data Op : Type 0 where
  remembers : (name host : List ℕ) (port now : ℕ) → Op
  toggles : (host : List ℕ) (port : ℕ) → Op
  deletes : (host : List ℕ) (port : ℕ) → Op
  renames : (host : List ℕ) (port : ℕ) (name : List ℕ) → Op
  clears : Op
  pairs : (endpoint key : List ℕ) → Op

unfoldable pub step : Op → StoredState → StoredState
step (remembers name host port now) s = record s {
  recent_connections = remember_connection name host port now s.recent_connections;
}
step (toggles host port) s = record s {
  recent_connections = toggle_pinned host port s.recent_connections;
}
step (deletes host port) s = delete_connection host port s
step (renames host port name) s = record s {
  recent_connections = update_connection_name host port name s.recent_connections;
}
step clears s = record s { recent_connections = clear_recent_connections s.recent_connections }
step (pairs endpoint key) s = set_pairing_key endpoint key s

unfoldable pub run : List Op → StoredState → StoredState
unfolding step
run [] s = s
run (op ∷ ops) s = run ops (step op s)

-- From a state whose list of connections is in order, any sequence of remembering, pinning, deleting,
-- renaming, clearing and pairing leaves it in order: at most ten pinned connections, then at most
-- five others, and no endpoint twice.
pub run-IsNormal :
    (ops : List Op) (s : StoredState)
    → IsNormal s.recent_connections
    → IsNormal (run ops s).recent_connections
unfolding run delete_connection set_pairing_key rename
run-IsNormal [] s h = h
run-IsNormal (op ∷ ops) s h = run-IsNormal ops (step op s) (step-IsNormal op)
  where
    step-IsNormal : (op : Op) → IsNormal (step op s).recent_connections
    step-IsNormal (remembers name host port now) =
        remember-IsNormal name host port now s.recent_connections h
    step-IsNormal (toggles host port) = toggle-IsNormal host port s.recent_connections h
    step-IsNormal (deletes host port) = forget-IsNormal host port s.recent_connections h
    step-IsNormal (renames host port name) = rename-IsNormal host port name s.recent_connections h
    step-IsNormal clears = clear-IsNormal s.recent_connections h
    step-IsNormal (pairs endpoint key) = h

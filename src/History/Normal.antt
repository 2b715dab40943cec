-- ===== src/History/Normal.antt =====
-- What the list of connections keeps through every operation of AppStorage.
use screx_v.Prelude.{
  ℕ, ◌+◌, ◌≤◌, ◌≡◌, ◌∙◌, ap, ap₂, sym, subst, refl, zero, suc, Bool, true, false, List, [], ◌∷◌,
  ◌++◌, length, take, arith, if◌then◌else◌, Bool-cases, inl, inr, if-preserves, length-take, All,
}
use screx_v.History.{
  same_bytes, RecentConnection, is_at, pinned_of, recent_of, normalize_connections, find, is_pinned,
  forget, remember_connection, toggle_first, toggle_pinned,
}

-- How many connections are at an endpoint.
abbrev pub occurs : (host : List ℕ) (port : ℕ) → List RecentConnection → ℕ
occurs host port [] = 0
occurs host port (c ∷ cs) = (if is_at host port c then 1 else 0) + occurs host port cs

-- At most ten pinned connections come first, at most five others follow, and no endpoint is there
-- twice.
pub record IsNormal (cs : List RecentConnection) : Type 0 where
  pub pins : List RecentConnection
  pub others : List RecentConnection
  pub split : cs ≡ pins ++ others
  pub pins_first : All (λ c. c.pinned ≡ true) pins
  pub others_last : All (λ c. c.pinned ≡ false) others
  pub few_pins : length pins ≤ 10
  pub few_others : length others ≤ 5
  pub once : (host : List ℕ) (port : ℕ) → occurs host port cs ≤ 1

pub same_bytes_eq : (xs ys : List ℕ) → same_bytes xs ys ≡ true → xs ≡ ys
unfolding same_bytes
same_bytes_eq [] [] h = refl
same_bytes_eq [] (y ∷ ys) h = absurd cc
same_bytes_eq (x ∷ xs) [] h = absurd cc
same_bytes_eq (x ∷ xs) (y ∷ ys) h =
    ap₂ ◌∷◌ (ground (arith, h)) (same_bytes_eq xs ys (ground (arith, h)))

module _ (P : RecentConnection → Type 0) where
  take-All : (n : ℕ) (cs : List RecentConnection) → All P cs → All P (take n cs)
  take-All zero cs h = tt
  take-All (suc n) [] h = tt
  take-All (suc n) (c ∷ cs) (h, hs) = (h, take-All n cs hs)

  pub forget-All :
      (host : List ℕ) (port : ℕ) (cs : List RecentConnection)
      → All P cs
      → All P (forget host port cs)
  unfolding forget
  forget-All host port [] h = tt
  forget-All host port (c ∷ cs) (h, hs) =
      if-preserves (All P) (is_at host port c) (forget-All host port cs hs)
        (h, forget-All host port cs hs)

pub pinned_of-All : (cs : List RecentConnection) → All (λ c. c.pinned ≡ true) (pinned_of cs)
unfolding pinned_of
pinned_of-All [] = tt
pinned_of-All (c ∷ cs) = elim (Bool-cases c.pinned) [
  | inl p ↦
      subst (λ b. All (λ c. c.pinned ≡ true) (if b then c ∷ pinned_of cs else pinned_of cs)) (sym p)
        (p, pinned_of-All cs)
  | inr p ↦
      subst (λ b. All (λ c. c.pinned ≡ true) (if b then c ∷ pinned_of cs else pinned_of cs)) (sym p)
        (pinned_of-All cs)
]

recent_of-All : (cs : List RecentConnection) → All (λ c. c.pinned ≡ false) (recent_of cs)
unfolding recent_of
recent_of-All [] = tt
recent_of-All (c ∷ cs) = elim (Bool-cases c.pinned) [
  | inl p ↦
      subst (λ b. All (λ c. c.pinned ≡ false) (if b then recent_of cs else c ∷ recent_of cs))
        (sym p) (recent_of-All cs)
  | inr p ↦
      subst (λ b. All (λ c. c.pinned ≡ false) (if b then recent_of cs else c ∷ recent_of cs))
        (sym p) (p, recent_of-All cs)
]

module _ (host : List ℕ) (port : ℕ) where
  pub occurs-append :
      (xs ys : List RecentConnection)
      → occurs host port (xs ++ ys) ≡ occurs host port xs + occurs host port ys
  occurs-append [] ys = omega arith
  occurs-append (x ∷ xs) ys = omega (arith, occurs-append xs ys)

  occurs-take :
      (n : ℕ) (cs : List RecentConnection) → occurs host port (take n cs) ≤ occurs host port cs
  occurs-take zero cs = omega arith
  occurs-take (suc n) [] = omega arith
  occurs-take (suc n) (c ∷ cs) = omega (arith, occurs-take n cs)

  occurs-parts :
      (cs : List RecentConnection)
      → occurs host port (pinned_of cs) + occurs host port (recent_of cs) ≡ occurs host port cs
  unfolding pinned_of recent_of
  occurs-parts [] = refl
  occurs-parts (c ∷ cs) = by_pin c.pinned (occurs-parts cs)
    where
      by_pin :
          (p : Bool)
          → occurs host port (pinned_of cs) + occurs host port (recent_of cs) ≡ occurs host port cs
          → occurs host port (if p then c ∷ pinned_of cs else pinned_of cs)
              + occurs host port (if p then recent_of cs else c ∷ recent_of cs)
            ≡ occurs host port (c ∷ cs)
      by_pin true ih = omega (arith, ih)
      by_pin false ih = omega (arith, ih)

  pub occurs-forget :
      (h' : List ℕ) (p' : ℕ) (cs : List RecentConnection)
      → occurs host port (forget h' p' cs) ≤ occurs host port cs
  unfolding forget
  occurs-forget h' p' [] = omega arith
  occurs-forget h' p' (c ∷ cs) =
      if-preserves (λ (xs : List RecentConnection). occurs host port xs ≤ occurs host port (c ∷ cs))
        (is_at h' p' c) (omega (arith, occurs-forget h' p' cs))
        (omega (arith, occurs-forget h' p' cs))

  pub forget_none : (cs : List RecentConnection) → occurs host port (forget host port cs) ≡ 0
  unfolding forget
  forget_none [] = refl
  forget_none (c ∷ cs) = elim (Bool-cases (is_at host port c)) [
    | inl here ↦
        ap (λ b. occurs host port (if b then forget host port cs else c ∷ forget host port cs)) here
        ∙ forget_none cs
    | inr elsewhere ↦
        ap (λ b. occurs host port (if b then forget host port cs else c ∷ forget host port cs))
          elsewhere
        ∙ omega (arith, ap {B = ℕ} (λ b. if b then 1 else 0) elsewhere, forget_none cs)
  ]

-- A list with no endpoint twice, cut and ordered.
pub normalize-IsNormal :
    (cs : List RecentConnection)
    → ((host : List ℕ) (port : ℕ) → occurs host port cs ≤ 1)
    → IsNormal (normalize_connections cs)
unfolding normalize_connections
normalize-IsNormal cs h = record {
  pins = take 10 (pinned_of cs);
  others = take 5 (recent_of cs);
  split = refl;
  pins_first = take-All (λ c. c.pinned ≡ true) 10 (pinned_of cs) (pinned_of-All cs);
  others_last = take-All (λ c. c.pinned ≡ false) 5 (recent_of cs) (recent_of-All cs);
  few_pins = omega (arith, length-take 10 (pinned_of cs));
  few_others = omega (arith, length-take 5 (recent_of cs));
  once = λ host port. omega (
    arith,
    occurs-append host port (take 10 (pinned_of cs)) (take 5 (recent_of cs)),
    occurs-take host port 10 (pinned_of cs),
    occurs-take host port 5 (recent_of cs),
    occurs-parts host port cs,
    h host port,
  );
}

-- The endpoint of a connection at an endpoint.
at_eq :
    (host : List ℕ) (port : ℕ) (c : RecentConnection)
    → is_at host port c ≡ true
    → (c.host ≡ host) × (c.port ≡ port)
unfolding is_at
at_eq host port c h = (same_bytes_eq c.host host (ground (arith, h)), ground (arith, h))

pub remember-IsNormal :
    (name host : List ℕ) (port now : ℕ) (cs : List RecentConnection)
    → IsNormal cs
    → IsNormal (remember_connection name host port now cs)
unfolding remember_connection
remember-IsNormal name host port now cs h = normalize-IsNormal (entry ∷ forget host port cs) once
  where
    entry : RecentConnection
    entry = record {
      host = host;
      port = port;
      name = name;
      last_connected_at = now;
      pinned = is_pinned (find host port cs);
    }

    once : (h' : List ℕ) (p' : ℕ) → occurs h' p' (entry ∷ forget host port cs) ≤ 1
    once h' p' = elim (Bool-cases (is_at h' p' entry)) [
      | inl here ↦ omega (
        arith,
        ap {B = ℕ} (λ b. if b then 1 else 0) here,
        ap₂ (λ k q. occurs k q (forget host port cs)) (sym (at_eq h' p' entry here).0)
            (sym (at_eq h' p' entry here).1),
        forget_none host port cs,
      )
      | inr elsewhere ↦ omega (
        arith,
        ap {B = ℕ} (λ b. if b then 1 else 0) elsewhere,
        occurs-forget h' p' host port cs,
        h.once h' p',
      )
    ]

toggle_occurs :
    (h' : List ℕ) (p' : ℕ) (host : List ℕ) (port : ℕ) (cs : List RecentConnection)
    → occurs h' p' (toggle_first host port cs) ≡ occurs h' p' cs
unfolding toggle_first is_at
toggle_occurs h' p' host port [] = refl
toggle_occurs h' p' host port (c ∷ cs) =
    if-preserves (λ (xs : List RecentConnection). occurs h' p' xs ≡ occurs h' p' (c ∷ cs))
      (is_at host port c) refl (omega (arith, toggle_occurs h' p' host port cs))

pub toggle-IsNormal :
    (host : List ℕ) (port : ℕ) (cs : List RecentConnection)
    → IsNormal cs
    → IsNormal (toggle_pinned host port cs)
unfolding toggle_pinned
toggle-IsNormal host port cs h =
    normalize-IsNormal (toggle_first host port cs)
      (λ h' p'. omega (arith, toggle_occurs h' p' host port cs, h.once h' p'))

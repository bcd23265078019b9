-- ===== src/Lab2/Targets.antt =====
-- Lab/Lab2/complete/world/world.go: the loop of `AttackPlayer` that looks for a target.
use a_simple_game_server.Prelude.{
  ℕ, ◌+◌, ◌≤◌, true, false, ◌&&◌, List, [], ◌∷◌, none, some, ◌≡◌, ◌≢◌, sym, ◌-ℤ◌, abs, All-map, ◌⊎◌,
  inl, inr, arith, ltb, nat_eq, All, In, Bool-cases,
}
use a_simple_game_server.Lab2.World.{Player, is_target, pick_target}

-- No player of the list is a target with fewer hit points than `n`.
abbrev pub NoneBelow : Player → ℕ → List Player → Type 0
NoneBelow a n = All (λ p. (is_target a p ≡ false) ⊎ (n ≤ p.hp))

-- The target that replaces the best so far, or the best so far.
pick_target-from :
    (a b t : Player) (ps : List Player)
    → pick_target a (some b) ps ≡ some t
    → ((t ≡ b) ⊎ (In t ps × is_target a t ≡ true)) × t.hp ≤ b.hp × NoneBelow a t.hp ps
unfolding pick_target
pick_target-from a b t [] e = let same : b ≡ t = cc in (inl (sym same), rw same (omega arith), tt)
pick_target-from a b t (p ∷ ps) e = elim (Bool-cases (is_target a p && ltb p.hp b.hp)) [
  | inl better ↦
      let (from, less, rest) = pick_target-from a p t ps (rw better at e) in
      (
        inr (elim from [
          | inl same ↦ (inl same, rw same (ground arith))
          | inr (m, is) ↦ (inr m, is)
        ]),
        ground arith,
        (inr less, rest),
      )
  | inr worse ↦
      let (from, less, rest) = pick_target-from a b t ps (rw worse at e) in
      (
        elim from [ inl same ↦ inl same | inr (m, is) ↦ inr (inr m, is) ],
        less,
        (ground arith, rest),
      )
]

pub pick_target-first :
    (a t : Player) (ps : List Player)
    → pick_target a none ps ≡ some t
    → In t ps × is_target a t ≡ true × NoneBelow a t.hp ps
unfolding pick_target
pick_target-first a t [] e = absurd cc
pick_target-first a t (p ∷ ps) e = elim (Bool-cases (is_target a p)) [
  | inl is ↦
      let (from, less, rest) = pick_target-from a p t ps (rw is at e) in
      (
        elim from [ inl same ↦ inl same | inr (m, _) ↦ inr m ],
        elim from [ inl same ↦ rw same is | inr (_, i) ↦ i ],
        (inr less, rest),
      )
  | inr diff ↦
      let (m, is, rest) = pick_target-first a t ps (rw diff at e) in (inr m, is, (inl diff, rest))
]

pick_target-kept : (a b : Player) (ps : List Player) → ¬ (pick_target a (some b) ps ≡ none)
unfolding pick_target
pick_target-kept a b [] e = absurd cc
pick_target-kept a b (p ∷ ps) e = elim (Bool-cases (is_target a p && ltb p.hp b.hp)) [
  | inl better ↦ pick_target-kept a p ps (rw better at e)
  | inr worse ↦ pick_target-kept a b ps (rw worse at e)
]

-- With a target in the list, one is picked.
pub pick_target-finds :
    (a q : Player) (ps : List Player)
    → In q ps
    → is_target a q ≡ true
    → ¬ (pick_target a none ps ≡ none)
unfolding pick_target
pick_target-finds a q [] m is e = absurd m
pick_target-finds a q (p ∷ ps) m is e = elim (Bool-cases (is_target a p)) [
  | inl is_first ↦ pick_target-kept a p ps (rw is_first at e)
  | inr diff ↦ elim m [
    | inl same ↦ absurd (let k : is_target a p ≡ true = rw (sym same) is in cc)
    | inr later ↦ pick_target-finds a q ps later is (rw diff at e)
  ]
]

-- Somebody else, alive and at most two steps away.
abbrev pub InReach : Player → Player → Type 0
InReach a p = p.id ≢ a.id × p.alive ≡ true × abs (a.x -ℤ p.x) + abs (a.y -ℤ p.y) ≤ 2

-- The attacker, a player who is not alive, or one who is three steps away or more.
abbrev pub OutOfReach : Player → Player → Type 0
OutOfReach a p = (p.id ≡ a.id) ⊎ (p.alive ≡ false) ⊎ (3 ≤ abs (a.x -ℤ p.x) + abs (a.y -ℤ p.y))

pub is_target-InReach : (a p : Player) → is_target a p ≡ true → InReach a p
is_target-InReach a p e = ground arith

pub InReach-is_target : (a p : Player) → InReach a p → is_target a p ≡ true
InReach-is_target a p h = ground arith

is_target-OutOfReach : (a p : Player) → is_target a p ≡ false → OutOfReach a p
is_target-OutOfReach a p e = ground arith

pub NoneBelow-reach :
    (a : Player) (n : ℕ) (ps : List Player)
    → NoneBelow a n ps
    → All (λ p. OutOfReach a p ⊎ (n ≤ p.hp)) ps
NoneBelow-reach a n ps h =
    All-map (λ p. (is_target a p ≡ false) ⊎ (n ≤ p.hp)) (λ p. OutOfReach a p ⊎ (n ≤ p.hp)) ps
      (λ p k. elim k [ inl e ↦ inl (is_target-OutOfReach a p e) | inr less ↦ inr less ]) h

-- ===== src/Lab2/Strikes.antt =====
-- Lab/Lab2/complete/world/world.go: whom `AttackPlayer` hits, and what the attack changes.
use a_simple_game_server.Prelude.{
  ℕ, ◌+◌, ◌-◌, ◌≤◌, true, false, List, [], ◌∷◌, none, some, ◌≡◌, ◌≢◌, refl, sym, ap, ◌∙◌,
  Option-cases, All-In, ◌⊎◌, inl, inr, arith, ltb, ◌==◌, nat_eq, if◌then◌else◌, All, In, Bool-cases,
}
use a_simple_game_server.Lab2.World.{
  Player, World, kills, strikes, find_player, update_player, pick_target, hurt, attack_dmg,
  attack_player,
}
use a_simple_game_server.Lab2.Rules.{Distinct, ids, IsWorld, id-hurt}
use a_simple_game_server.Lab2.Targets.{
  InReach, OutOfReach, pick_target-first, pick_target-finds, is_target-InReach, InReach-is_target,
  NoneBelow-reach,
}

module _ (f : Player → Player) (same : (p : Player) → (f p).id ≡ p.id) where
  find_player-update :
      (id : ℕ) (p : Player) (ps : List Player)
      → find_player id ps ≡ some p
      → find_player id (update_player id f ps) ≡ some (f p)
  unfolding find_player update_player
  find_player-update id p [] e = absurd cc
  find_player-update id p (q ∷ ps) e = elim (Bool-cases (q.id == id)) [
    | inl t ↦
        let here : some q ≡ some p = rw t at e in
        let k : q ≡ p = cc in
        let hit : ((f q).id == id) ≡ true = rw (same q) t in rw (t, hit) (ap (λ z. some (f z)) k)
    | inr n ↦ rw (n, n) (find_player-update id p ps (rw n at e))
  ]

  find_player-update_other :
      (id j : ℕ) (ps : List Player)
      → j ≢ id
      → find_player j (update_player id f ps) ≡ find_player j ps
  unfolding find_player update_player
  find_player-update_other id j [] ne = refl
  find_player-update_other id j (q ∷ ps) ne = elim (Bool-cases (q.id == id)) [
    | inl t ↦
        let away : (q.id == j) ≡ false = ground arith in
        let away' : ((f q).id == j) ≡ false = rw (same q) away in rw (t, away', away) refl
    | inr n ↦ elim (Bool-cases (q.id == j)) [
      | inl y ↦ rw (n, y) refl
      | inr diff ↦ rw (n, diff) (find_player-update_other id j ps ne)
    ]
  ]

add_zero : (n : ℕ) → n + 0 ≡ n
add_zero n = omega arith

find_player-id : (id : ℕ) (a : Player) (ps : List Player) → find_player id ps ≡ some a → a.id ≡ id
unfolding find_player
find_player-id id a [] e = absurd cc
find_player-id id a (p ∷ ps) e = elim (Bool-cases (p.id == id)) [
  | inl t ↦
      let here : some p ≡ some a = rw t at e in let k : p ≡ a = cc in rw (sym k) (ground arith)
  | inr n ↦ find_player-id id a ps (rw n at e)
]

In-ids : (t : Player) (ps : List Player) → In t ps → In t.id (ids ps)
In-ids t [] m = absurd m
In-ids t (p ∷ ps) (inl e) = inl (ap (λ q. q.id) e)
In-ids t (p ∷ ps) (inr m) = inr (In-ids t ps m)

-- With ids of their own, each player is found under the own id.
find_player-In :
    (t : Player) (ps : List Player) → Distinct (ids ps) → In t ps → find_player t.id ps ≡ some t
unfolding find_player
find_player-In t [] d m = absurd m
find_player-In t (p ∷ ps) d (inl e) =
    let self : (p.id == p.id) ≡ true = ground arith in rw (e, self) refl
find_player-In t (p ∷ ps) d (inr m) =
    let apart = All-In (λ n. n ≢ p.id) (ids ps) t.id d.0 (In-ids t ps m) in
    let away : (p.id == t.id) ≡ false = ground arith in rw away (find_player-In t ps d.1 m)

-- A living player after a blow: thirty hit points fewer, and alive with more than those before.
abbrev pub struck : Player → Player
struck t = record t { hp = t.hp - 30; alive = ltb 30 t.hp }

hurt-struck : (t : Player) → t.alive ≡ true → hurt t ≡ struck t
unfolding hurt
hurt-struck t up = elim (Bool-cases (t.hp - attack_dmg == 0)) [
  | inl dead ↦ let n : ltb 30 t.hp ≡ false = ground arith in rw (dead, n) refl
  | inr on ↦ let n : ltb 30 t.hp ≡ true = ground arith in rw (on, n, up) refl
]

-- The attacker after the blow, who counts a kill of a player with thirty hit points or fewer.
abbrev pub attacker_after : Player → Player → Player
attacker_after a t = record a { kills = a.kills + (if ltb 30 t.hp then 0 else 1) }

attack_player-value :
    (w : World) (id : ℕ) (a t : Player)
    → find_player id w.players ≡ some a
    → a.alive ≡ true
    → pick_target a none w.players ≡ some t
    → attack_player w id ≡ (
        let hit = update_player t.id hurt w.players in
        let left = t.hp - attack_dmg in
        if left == 0
        then (
          record w { players = update_player id (λ p. record p { kills = p.kills + 1 }) hit },
          kills a.name t.name left t.max_hp,
          some t.id,
        )
        else (record w { players = hit }, strikes a.name t.name left t.max_hp, none))
unfolding attack_player
attack_player-value w id a t at alive pick = rw (attack_player, at, alive, pick) refl

-- What an attack by `a` on the target `t` leaves of the world.
abbrev pub Struck : World → ℕ → ℕ → Player → Player → Type 0
Struck w id other a t =
    let (w', _, revived) = attack_player w id in
    find_player t.id w'.players ≡ some (struck t)
    × find_player id w'.players ≡ some (attacker_after a t)
    × ((other ≡ id) ⊎ (other ≡ t.id) ⊎ (find_player other w'.players ≡ find_player other w.players))
    × revived ≡ (if ltb 30 t.hp then none else some t.id)

module _ (w : World) (id other : ℕ) (a t : Player) (h : IsWorld w)
    (at : find_player id w.players ≡ some a) (alive : a.alive ≡ true)
    (pick : pick_target a none w.players ≡ some t) (m : In t w.players) (reach : InReach a t) where
  abbrev hit : List Player
  hit = update_player t.id hurt w.players

  apart : t.id ≢ id
  apart e = let mine = find_player-id id a w.players at in reach.0 (e ∙ sym mine)

  apart' : id ≢ t.id
  apart' e = apart (sym e)

  hit_target : find_player t.id hit ≡ some (struck t)
  hit_target =
      find_player-update hurt id-hurt t.id t w.players (find_player-In t w.players h.1 m)
      ∙ ap (λ p. some p) (hurt-struck t reach.1)

  hit_attacker : find_player id hit ≡ some a
  hit_attacker = rw (find_player-update_other hurt id-hurt t.id id w.players apart') at

  hit_other : other ≢ t.id → find_player other hit ≡ find_player other w.players
  hit_other ne = find_player-update_other hurt id-hurt t.id other w.players ne

  count : Player → Player
  count p = record p { kills = p.kills + 1 }

  attack_player-Struck : Struck w id other a t
  unfolding count
  attack_player-Struck = elim (Bool-cases (t.hp - attack_dmg == 0)) [
    | inr on ↦
        let more : ltb 30 t.hp ≡ true = ground arith in
        rw (attack_player-value w id a t at alive pick, on)
          (
            hit_target,
            rw (more, add_zero a.kills) hit_attacker,
            elim (Bool-cases (other == t.id)) [
              | inl same ↦ inr (inl (ground arith))
              | inr diff ↦ inr (inr (hit_other (λ e. ground arith)))
            ],
            rw more refl,
          )
    | inl dead ↦
        let less : ltb 30 t.hp ≡ false = ground arith in
        rw (attack_player-value w id a t at alive pick, dead)
          (
            rw (find_player-update_other count (λ p. refl) id t.id hit apart) hit_target,
            rw less (find_player-update count (λ p. refl) id a hit hit_attacker),
            elim (Bool-cases (other == t.id)) [
              | inl same ↦ inr (inl (ground arith))
              | inr diff ↦ elim (Bool-cases (other == id)) [
                | inl same ↦ inl (ground arith)
                | inr diff' ↦ inr (
                    inr (
                      find_player-update_other count (λ p. refl) id other hit (λ e. ground arith)
                      ∙ hit_other (λ e. ground arith)))
              ]
            ],
            rw less refl,
          )
  ]

-- An attack by a living player with somebody else alive within two steps, in a world of sound players with
-- ids of their own, hits one of those, with no more hit points than any other of them. The target loses
-- thirty hit points, or all it has, and is alive then exactly if it had more than thirty. If it had not,
-- the attacker counts a kill and the target will be revived, and otherwise neither. Any player but these
-- two is as before.
pub attack_player_lem :
    (w : World) (id other : ℕ) (a q : Player)
    → IsWorld w
    → find_player id w.players ≡ some a
    → a.alive ≡ true
    → In q w.players
    → InReach a q
    → (t : Player) × In t w.players
      × InReach a t
      × All (λ p. OutOfReach a p ⊎ (t.hp ≤ p.hp)) w.players
      × Struck w id other a t
attack_player_lem w id other a q h at alive here near =
    elim (Option-cases (pick_target a none w.players)) [
      | inl nobody ↦
          absurd (pick_target-finds a q w.players here (InReach-is_target a q near) nobody)
      | inr (t, pick) ↦
          let (m, is, least) = pick_target-first a t w.players pick in
          let reach = is_target-InReach a t is in
          (
            t,
            m,
            reach,
            NoneBelow-reach a t.hp w.players least,
            attack_player-Struck w id other a t h at alive pick m reach,
          )
    ]

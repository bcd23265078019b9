-- ===== src/Lab1/Actions.antt =====
-- Lab/Lab1/complete/game/game.go: what an action leaves of the two players.
use a_simple_game_server.Prelude.{
  Within, Within-less, Within-more, ltb_ℤ, pos, ◌-◌, ◌≤◌, ◌<◌, String, true, false, Option, none,
  some, ◌≡◌, ◌⊎◌, inl, inr, arith, ◌==◌, nat_eq, string_eq, choose, choose_some,
}
use text.Mathlib.TextEquality.{eq_iff}
use a_simple_game_server.Lab1.Game.{
  map_width, map_height, attack_range, Player, Request, Event, stepped, handle_move, distance,
  handle_attack, handle_heal, process_action, max_potions,
}

-- On the map, with at most the potions of the start and the full hit points.
abbrev pub IsPlaced : Player → Type 0
IsPlaced p =
    Within map_width p.x × Within map_height p.y × p.potions ≤ max_potions × p.hp ≤ p.max_hp

abbrev pub Stands : Player → Type 0
Stands p = IsPlaced p × p.alive ≡ true × 0 < p.hp

stepped-Stands : (p q : Player) (dir : String) → Stands p → stepped p dir ≡ some q → Stands q
unfolding stepped
stepped-Stands p q dir h e =
    let Q : Option Player → Type 0 = λ o. o ≡ some q → Stands q in
    let placed : (r : Player) → Stands r → some r ≡ some q → Stands q =
      λ r hr k. let same : q ≡ r = cc in rw same hr in
    choose Q (dir == "up")
      (λ _. placed _ (
        choose Stands (ltb_ℤ (pos 0) p.y)
          (λ k. ((h.0.0, Within-less map_height p.y h.0.1 k, h.0.2, h.0.3), h.1, h.2)) (λ _. h)))
      (λ _.
        choose Q (dir == "down")
          (λ _. placed _ (
            choose Stands (ltb_ℤ p.y (pos (map_height - 1)))
              (λ k. ((h.0.0, Within-more map_height p.y h.0.1 k, h.0.2, h.0.3), h.1, h.2))
              (λ _. h)))
          (λ _.
            choose Q (dir == "left")
              (λ _. placed _ (
                choose Stands (ltb_ℤ (pos 0) p.x)
                  (λ k. ((Within-less map_width p.x h.0.0 k, h.0.1, h.0.2, h.0.3), h.1, h.2))
                  (λ _. h)))
              (λ _.
                choose Q (dir == "right")
                  (λ _. placed _ (
                    choose Stands (ltb_ℤ p.x (pos (map_width - 1)))
                      (λ k. ((Within-more map_width p.x h.0.0 k, h.0.1, h.0.2, h.0.3), h.1, h.2))
                      (λ _. h)))
                  (λ _ e. absurd cc))))
      e

handle_move-Stands : (p : Player) (dir : String) → Stands p → Stands (handle_move p dir).0
unfolding handle_move
handle_move-Stands p dir h =
    choose_some (λ (r : Player × Event). Stands r.0) (stepped p dir) (λ _. h)
      (λ q e. stepped-Stands p q dir h e)

handle_heal-Stands : (p : Player) → Stands p → Stands (handle_heal p).0
unfolding handle_heal
handle_heal-Stands p h = ground arith

-- A target stands after an attack, or it has lost all hit points to one in range.
abbrev pub Hit : Player → Player → Type 0
Hit actor t = Stands t ⊎ (IsPlaced t × t.alive ≡ false × t.hp ≡ 0 × distance actor t ≤ attack_range)

handle_attack-Hit : (actor t : Player) → Stands t → Hit actor (handle_attack actor t).0
unfolding handle_attack
handle_attack-Hit actor t h = ground arith

-- A request to attack.
abbrev pub IsAttack : Option Request → Type 0
IsAttack none = ⊥
IsAttack (some m) = m.kind ≡ "attack"

-- The actor stands after the action, and so does the other unless the action is an attack.
abbrev pub Acted : Request → Player × Player × Event → Type 0
Acted m r = Stands r.0 × (Stands r.1 ⊎ (m.kind ≡ "attack" × Hit r.0 r.1))

pub process_action-Acted :
    (actor t : Player) (m : Request) → Stands actor → Stands t → Acted m (process_action actor t m)
unfolding process_action
process_action-Acted actor t m ha ht =
    choose (Acted m) (m.kind == "move") (λ _. (handle_move-Stands actor m.dir ha, inl ht))
      (λ _.
        choose (Acted m) (m.kind == "attack")
          (λ e. (ha, inr ((eq_iff m.kind "attack").0 e, handle_attack-Hit actor t ht)))
          (λ _.
            choose (Acted m) (m.kind == "heal") (λ _. (handle_heal-Stands actor ha, inl ht))
              (λ _. (ha, inl ht))))

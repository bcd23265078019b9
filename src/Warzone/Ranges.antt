-- ===== src/Warzone/Ranges.antt =====
-- warzone_go, game.go: the map and the range of health, and the changes of a slot that stay within them.
use a_simple_game_server.Prelude.{
  ℕ, ◌+◌, ◌-◌, ◌≤◌, ◌<◌, Bool, false, List, [], ◌∷◌, ◌≡◌, ◌⊎◌, arith, nat_eq, get_elem?, All,
  choose, choose_some, Within, Within-less, Within-more, ltb_ℤ, pos, ◌==◌,
}
use a_simple_game_server.Warzone.State.{
  map_w, map_h, max_health, PlayerState, WeaponItem, Slot, modify, find_index, is_conn,
}
use a_simple_game_server.Warzone.Round.{
  candidates, spawn_order, spawn_point, reset_slot, reset_slots, clear_weapons,
}
use a_simple_game_server.Warzone.Arena.{stepped, fell_slots}
use a_simple_game_server.Warzone.Changes.{All-modify, All-get_elem?, modify-modify}

-- On the map, the health in range; a player who lives has some.
abbrev pub IsInBounds : PlayerState → Type 0
IsInBounds p =
    Within map_w p.x × Within map_h p.y × p.health ≤ max_health × (p.alive ≡ false ⊎ 0 < p.health)

abbrev pub IsOnMap : WeaponItem → Type 0
IsOnMap w = Within map_w w.x × Within map_h w.y

-- The slots alone.
abbrev pub Fine : List Slot → Type 0
Fine = All (λ s. IsInBounds s.player)

abbrev pub InBounds : List Slot → List WeaponItem → Bool → Bool → Type 0
InBounds slots weapons started over = Fine slots × All IsOnMap weapons

abbrev pub IsInside : ℕ × ℕ → Type 0
IsInside p = p.0 < map_w × p.1 < map_h

pub spawn_point-IsInside : (oc rank : ℕ) → IsInside (spawn_point oc rank)
unfolding spawn_point candidates
spawn_point-IsInside oc rank =
    choose_some IsInside (get_elem? spawn_order (oc - 1)) (λ _. omega arith)
      (λ row _.
        choose_some IsInside (get_elem? row rank) (λ _. omega arith)
          (λ i _.
            choose_some IsInside (get_elem? candidates i) (λ _. omega arith)
              (λ p at. All-get_elem? IsInside candidates i p (ground arith) at)))

pub stepped-IsInBounds :
    (action : ℕ) (p : PlayerState) → IsInBounds p → IsInBounds (stepped action p)
unfolding stepped
stepped-IsInBounds action p h =
    choose IsInBounds (action == 1)
      (λ _.
        choose IsInBounds (ltb_ℤ (pos 0) p.y) (λ e. (h.0, Within-less map_h p.y h.1 e, h.2, h.3))
          (λ _. h))
      (λ _.
        choose IsInBounds (action == 2)
          (λ _.
            choose IsInBounds (ltb_ℤ p.y (pos (map_h - 1)))
              (λ e. (h.0, Within-more map_h p.y h.1 e, h.2, h.3)) (λ _. h))
          (λ _.
            choose IsInBounds (action == 3)
              (λ _.
                choose IsInBounds (ltb_ℤ (pos 0) p.x)
                  (λ e. (Within-less map_w p.x h.0 e, h.1, h.2, h.3)) (λ _. h))
              (λ _.
                choose IsInBounds (action == 4)
                  (λ _.
                    choose IsInBounds (ltb_ℤ p.x (pos (map_w - 1)))
                      (λ e. (Within-more map_w p.x h.0 e, h.1, h.2, h.3)) (λ _. h))
                  (λ _. h))))

pub reset_slot-IsInBounds :
    (oc rank : ℕ) (s : Slot) → IsInBounds s.player → IsInBounds (reset_slot oc rank s).player
unfolding reset_slot
reset_slot-IsInBounds oc rank s h = ground (arith, spawn_point-IsInside oc rank)

pub reset_slots-Fine : (ss : List Slot) (oc rank : ℕ) → Fine ss → Fine (reset_slots oc rank ss)
unfolding reset_slots
reset_slots-Fine [] oc rank h = tt
reset_slots-Fine (s ∷ ss) oc rank h =
    (reset_slot-IsInBounds oc rank s h.0, reset_slots-Fine ss oc _ h.1)

pub clear_weapons-OnMap : (ws : List WeaponItem) → All IsOnMap ws → All IsOnMap (clear_weapons ws)
unfolding clear_weapons
clear_weapons-OnMap [] h = tt
clear_weapons-OnMap (w ∷ ws) h = (h.0, clear_weapons-OnMap ws h.1)

-- A change that keeps every player within bounds.
pub change-Fine :
    (n : ℕ) (f : Slot → Slot) (ss : List Slot)
    → ((s : Slot) → IsInBounds s.player → IsInBounds (f s).player)
    → Fine ss
    → Fine (modify n f ss)
change-Fine n f ss keep h = All-modify (λ s. IsInBounds s.player) n f ss (λ s _. keep s) h

-- The target may be alive without health before it falls.
pub fell_slots-Fine :
    (gs target dmg : ℕ) (tgt : Slot) (ss : List Slot)
    → Fine ss
    → Fine (
        fell_slots gs tgt target (
          modify target
            (λ s. record s { player = record s.player { health = s.player.health - dmg } })
            ss))
unfolding fell_slots
fell_slots-Fine gs target dmg tgt ss h =
    choose_some Fine tgt.conn (λ _. counted)
      (λ tcid _.
        choose_some Fine (find_index (λ s. is_conn tcid s.conn) _) (λ _. counted)
          (λ g _. change-Fine g _ _ (λ s b. b) counted))
  where
    counted : Fine (
        modify gs
          (λ s. record s { kills = s.kills + 1 })
          (modify target
            (λ s. record s { player = record s.player { health = 0; alive = false } })
            (modify target
              (λ s. record s { player = record s.player { health = s.player.health - dmg } })
              ss)))
    counted =
        change-Fine gs _ _ (λ s b. b)
          (rw modify-modify (change-Fine target _ ss (λ s b. ground arith) h))

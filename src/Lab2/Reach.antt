-- ===== src/Lab2/Reach.antt =====
-- Lab/Lab2/complete/world/world.go: the world as the clients' operations, in any order, leave it.
use a_simple_game_server.Prelude.{
  ℕ, ◌+◌, ◌-◌, ◌<◌, String, true, not, Option, none, ◌≡◌, ◌≢◌, refl, arith, ◌==◌, nat_eq, All-map,
  choose, choose_some,
}
use a_simple_game_server.Lab2.World.{
  World, Event, new_world, find_player, update_player, add_player, remove_player, stepped,
  move_player, hurt, pick_target, attack_dmg, attack_player, heal_player, respawn,
}
use a_simple_game_server.Lab2.Rules.{
  IsSound, ids, IsWorld, All-delete_player, All-ids-delete_player, Distinct-delete_player,
  update_player-IsWorld, stepped-IsSound, id-stepped, id-hurt, hurt-IsSound,
}

-- Clients join, leave, move, attack and drink, and the fallen are revived, in any order.
pub data Reaches : World → Type 0 where
  start : Reaches new_world
  joins :
      (draw : ℕ × ℕ) (w : World) (name : String) → Reaches w → Reaches (add_player draw w name).0
  leaves : (w : World) (id : ℕ) → Reaches w → Reaches (remove_player w id)
  moves : (w : World) (id : ℕ) (dir : String) → Reaches w → Reaches (move_player w id dir).0
  attacks : (w : World) (id : ℕ) → Reaches w → Reaches (attack_player w id).0
  drinks : (w : World) (id : ℕ) → Reaches w → Reaches (heal_player w id).0
  revives : (draw : ℕ × ℕ) (w : World) (id : ℕ) → Reaches w → Reaches (respawn draw w id)

add_player-IsWorld :
    (draw : ℕ × ℕ) (w : World) (name : String) → IsWorld w → IsWorld (add_player draw w name).0
unfolding add_player
add_player-IsWorld draw w name (sound, apart, below) = (
  (ground arith, sound),
  (
    All-map (λ n. n < w.next_id) (λ n. n ≢ w.next_id) (ids w.players) (λ n h e. omega arith) below,
    apart,
  ),
  (
    omega arith,
    All-map (λ n. n < w.next_id) (λ n. n < w.next_id + 1) (ids w.players) (λ n h. omega arith)
        below,
  ),
)

remove_player-IsWorld : (w : World) (id : ℕ) → IsWorld w → IsWorld (remove_player w id)
unfolding remove_player
remove_player-IsWorld w id (sound, apart, below) = (
  All-delete_player IsSound id w.players sound,
  Distinct-delete_player id w.players apart,
  All-ids-delete_player (λ n. n < w.next_id) id w.players below,
)

move_player-IsWorld :
    (w : World) (id : ℕ) (dir : String) → IsWorld w → IsWorld (move_player w id dir).0
unfolding move_player
move_player-IsWorld w id dir h =
    let Q : World × Event → Type 0 = λ r. IsWorld r.0 in
    choose_some Q (find_player id w.players) (λ _. h)
      (λ p at.
        choose Q (not p.alive) (λ _. h)
          (λ _.
            update_player-IsWorld w id (stepped dir) (id-stepped dir) (λ q _. stepped-IsSound dir q)
              h))

attack_player-IsWorld : (w : World) (id : ℕ) → IsWorld w → IsWorld (attack_player w id).0
unfolding attack_player
attack_player-IsWorld w id h =
    let Q : World × Event × Option ℕ → Type 0 = λ r. IsWorld r.0 in
    choose_some Q (find_player id w.players) (λ _. h)
      (λ a _.
        choose Q (not a.alive) (λ _. h)
          (λ _.
            choose_some Q (pick_target a none w.players) (λ _. h)
              (λ t _.
                let hit = update_player-IsWorld w t.id hurt id-hurt (λ q _. hurt-IsSound q) h in
                choose Q (t.hp - attack_dmg == 0)
                  (λ _.
                    update_player-IsWorld (record w { players = update_player t.id hurt w.players })
                      id _ (λ p. refl) (λ q _ s. s) hit)
                  (λ _. hit))))

heal_player-IsWorld : (w : World) (id : ℕ) → IsWorld w → IsWorld (heal_player w id).0
unfolding heal_player
heal_player-IsWorld w id h =
    let Q : World × Event → Type 0 = λ r. IsWorld r.0 in
    choose_some Q (find_player id w.players) (λ _. h)
      (λ p at.
        choose Q (not p.alive) (λ _. h)
          (λ lives.
            choose Q (p.potions == 0) (λ _. h)
              (λ some_left.
                update_player-IsWorld w id _ (λ q. refl)
                  (λ q there s.
                    let same : q ≡ p = cc in
                    let alive : q.alive ≡ true = rw same (ground arith) in ground arith)
                  h)))

respawn-IsWorld : (draw : ℕ × ℕ) (w : World) (id : ℕ) → IsWorld w → IsWorld (respawn draw w id)
unfolding respawn
respawn-IsWorld draw w id h = update_player-IsWorld w id _ (λ q. refl) (λ q _ s. ground arith) h

new_world-IsWorld : IsWorld new_world
unfolding new_world
new_world-IsWorld = (tt, tt, tt)

-- Whatever the clients ask for, in any order and with any random numbers, every player is on the map, has
-- at most the full hit points and the potions of the start, and is alive exactly with hit points left; no
-- two players share an id, and the next id is a new one.
pub Reaches-IsWorld : (w : World) → Reaches w → IsWorld w
Reaches-IsWorld _ start = new_world-IsWorld
Reaches-IsWorld _ (joins draw w name r) = add_player-IsWorld draw w name (Reaches-IsWorld w r)
Reaches-IsWorld _ (leaves w id r) = remove_player-IsWorld w id (Reaches-IsWorld w r)
Reaches-IsWorld _ (moves w id dir r) = move_player-IsWorld w id dir (Reaches-IsWorld w r)
Reaches-IsWorld _ (attacks w id r) = attack_player-IsWorld w id (Reaches-IsWorld w r)
Reaches-IsWorld _ (drinks w id r) = heal_player-IsWorld w id (Reaches-IsWorld w r)
Reaches-IsWorld _ (revives draw w id r) = respawn-IsWorld draw w id (Reaches-IsWorld w r)

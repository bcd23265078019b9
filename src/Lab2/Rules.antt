-- ===== src/Lab2/Rules.antt =====
-- Lab/Lab2/complete/world/world.go: what every operation keeps, whatever the order in which clients act.
use a_simple_game_server.Prelude.{
  ℕ, Within, Within-less, Within-more, ltb_ℤ, pos, ◌-◌, ◌≤◌, ◌<◌, String, true, false, List, [],
  ◌∷◌, some, ◌≡◌, ◌≢◌, refl, ◌⊎◌, inl, inr, arith, ◌==◌, nat_eq, string_eq, map, All, Bool-cases,
  choose,
}
use a_simple_game_server.Lab2.World.{
  map_width, map_height, max_potions, Player, World, find_player, update_player, delete_player,
  stepped, hurt,
}

-- On the map, with hit points in range, and alive exactly with some left.
abbrev pub IsSound : Player → Type 0
IsSound p =
    Within map_width p.x
    × Within map_height p.y
    × p.potions ≤ max_potions
    × 0 < p.max_hp
    × p.hp ≤ p.max_hp
    × ((p.alive ≡ true × 0 < p.hp) ⊎ (p.alive ≡ false × p.hp ≡ 0))

abbrev pub Distinct : List ℕ → Type 0
Distinct [] = Unit
Distinct (n ∷ ns) = All (λ m. m ≢ n) ns × Distinct ns

abbrev pub ids : List Player → List ℕ
ids ps = map (λ p. p.id) ps

-- Sound players with ids of their own, all below the next one.
abbrev pub IsWorld : World → Type 0
IsWorld w =
    All IsSound w.players × Distinct (ids w.players) × All (λ n. n < w.next_id) (ids w.players)

pub All-update_player :
    (Q : Player → Type 0) (id : ℕ) (f : Player → Player) (ps : List Player)
    → ((p : Player) → find_player id ps ≡ some p → Q p → Q (f p))
    → All Q ps
    → All Q (update_player id f ps)
unfolding update_player find_player
All-update_player Q id f [] keep h = tt
All-update_player Q id f (p ∷ ps) keep h = elim (Bool-cases (p.id == id)) [
  | inl e ↦ rw e (keep p (rw e refl) h.0, h.1)
  | inr e ↦ rw e (h.0, All-update_player Q id f ps (λ q at. keep q (rw e at)) h.1)
]

-- A change that keeps the id keeps the list of the ids.
ids-update_player :
    (id : ℕ) (f : Player → Player) (ps : List Player)
    → ((p : Player) → (f p).id ≡ p.id)
    → ids (update_player id f ps) ≡ ids ps
unfolding update_player
ids-update_player id f [] keep = refl
ids-update_player id f (p ∷ ps) keep = elim (Bool-cases (p.id == id)) [
  | inl e ↦ rw (e, keep p) refl
  | inr e ↦ rw (e, ids-update_player id f ps keep) refl
]

pub All-delete_player :
    (Q : Player → Type 0) (id : ℕ) (ps : List Player) → All Q ps → All Q (delete_player id ps)
unfolding delete_player
All-delete_player Q id [] h = tt
All-delete_player Q id (p ∷ ps) h =
    choose (All Q) (p.id == id) (λ _. All-delete_player Q id ps h.1)
      (λ _. (h.0, All-delete_player Q id ps h.1))

pub All-ids-delete_player :
    (Q : ℕ → Type 0) (id : ℕ) (ps : List Player)
    → All Q (ids ps)
    → All Q (ids (delete_player id ps))
unfolding delete_player
All-ids-delete_player Q id [] h = tt
All-ids-delete_player Q id (p ∷ ps) h =
    choose (λ qs. All Q (ids qs)) (p.id == id) (λ _. All-ids-delete_player Q id ps h.1)
      (λ _. (h.0, All-ids-delete_player Q id ps h.1))

pub Distinct-delete_player :
    (id : ℕ) (ps : List Player) → Distinct (ids ps) → Distinct (ids (delete_player id ps))
unfolding delete_player
Distinct-delete_player id [] h = tt
Distinct-delete_player id (p ∷ ps) h =
    choose (λ qs. Distinct (ids qs)) (p.id == id) (λ _. Distinct-delete_player id ps h.1)
      (λ _. (All-ids-delete_player (λ m. m ≢ p.id) id ps h.0, Distinct-delete_player id ps h.1))

-- A change of one player that keeps the id and soundness.
pub update_player-IsWorld :
    (w : World) (id : ℕ) (f : Player → Player)
    → ((p : Player) → (f p).id ≡ p.id)
    → ((p : Player) → find_player id w.players ≡ some p → IsSound p → IsSound (f p))
    → IsWorld w
    → IsWorld (record w { players = update_player id f w.players })
update_player-IsWorld w id f same keep (sound, apart, below) =
    rw (ids-update_player id f w.players same)
      (All-update_player IsSound id f w.players keep sound, apart, below)

pub stepped-IsSound : (dir : String) (p : Player) → IsSound p → IsSound (stepped dir p)
unfolding stepped
stepped-IsSound dir p h =
    choose IsSound (dir == "up")
      (λ _.
        choose IsSound (ltb_ℤ (pos 0) p.y)
          (λ e. (h.0, Within-less map_height p.y h.1 e, h.2, h.3, h.4, h.5)) (λ _. h))
      (λ _.
        choose IsSound (dir == "down")
          (λ _.
            choose IsSound (ltb_ℤ p.y (pos (map_height - 1)))
              (λ e. (h.0, Within-more map_height p.y h.1 e, h.2, h.3, h.4, h.5)) (λ _. h))
          (λ _.
            choose IsSound (dir == "left")
              (λ _.
                choose IsSound (ltb_ℤ (pos 0) p.x)
                  (λ e. (Within-less map_width p.x h.0 e, h.1, h.2, h.3, h.4, h.5)) (λ _. h))
              (λ _.
                choose IsSound (dir == "right")
                  (λ _.
                    choose IsSound (ltb_ℤ p.x (pos (map_width - 1)))
                      (λ e. (Within-more map_width p.x h.0 e, h.1, h.2, h.3, h.4, h.5)) (λ _. h))
                  (λ _. h))))

pub id-stepped : (dir : String) (p : Player) → (stepped dir p).id ≡ p.id
unfolding stepped
id-stepped dir p =
    let Q : Player → Type 0 = λ q. q.id ≡ p.id in
    choose Q (dir == "up") (λ _. ground arith)
      (λ _.
        choose Q (dir == "down") (λ _. ground arith)
          (λ _.
            choose Q (dir == "left") (λ _. ground arith)
              (λ _. choose Q (dir == "right") (λ _. ground arith) (λ _. refl))))

pub hurt-IsSound : (p : Player) → IsSound p → IsSound (hurt p)
unfolding hurt
hurt-IsSound p h = ground arith

pub id-hurt : (p : Player) → (hurt p).id ≡ p.id
unfolding hurt
id-hurt p = refl

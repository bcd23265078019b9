-- ===== src/Warzone/Running.antt =====
-- warzone_go, game.go: while a round runs, two players at least stand.
use a_simple_game_server.Prelude.{
  pos, ◌%◌, ◌-◌, ℕ, zero, suc, ◌+◌, ◌<◌, Bool, true, false, not, ◌&&◌, ◌||◌, List, [], ◌∷◌, Option,
  none, some, ◌≡◌, refl, ◌⊎◌, inl, inr, arith, ◌==◌, nat_eq, int_eq, ltb, leb, if◌then◌else◌,
  get_elem?, choose, choose_some,
}
use a_simple_game_server.Warzone.Bytes.{Bytes}
use a_simple_game_server.Warzone.State.{
  map_w, map_h, attack_range, PlayerState, WeaponItem, Slot, Server, Env, modify, find_index,
  is_some, count, stands, is_occupied,
}
use a_simple_game_server.Warzone.Round.{
  conn_to_game_slot, reset_slot, reset_slots, reset_game, game_ready, game_online, try_cells,
  spawn_weapon, is_busy,
}
use a_simple_game_server.Warzone.Arena.{
  check_pickup, check_game_over, save_stats, last_standing, stepped, nearest, fell, end_if_empty,
  vacate, damage_of, wound, strike, attack, apply_action, remove_from_game,
}
use a_simple_game_server.Warzone.Packets.{After, Reply}
use a_simple_game_server.Warzone.Conn.{seated, join, begin_if_ready, handle_ready}
use a_simple_game_server.Warzone.Changes.{count-modify, find_index_lem}
use a_simple_game_server.Warzone.System.{new_server, Phases, Reaches}
use a_simple_game_server.Warzone.Steps.{Holds, IsKept, Reaches-Holds}

-- No round, a round that is over, or two players at least who stand.
abbrev pub IsContested : List Slot → List WeaponItem → Bool → Bool → Type 0
IsContested slots weapons started over = started ≡ false ⊎ over ≡ true ⊎ 1 < count stands slots

-- A change of a slot that leaves it standing or not as it was.
same_count :
    {A B : Type 0} (ss : List Slot) (n : ℕ) (f : Slot → Slot)
    → ((s : Slot) → get_elem? ss n ≡ some s → stands (f s) ≡ stands s)
    → A ⊎ B ⊎ 1 < count stands ss
    → A ⊎ B ⊎ 1 < count stands (modify n f ss)
same_count ss n f keep h = rw (count-modify stands n f ss keep) h

-- All who are in the game stand when the round begins.
count-reset_slots :
    (ss : List Slot) (oc rank : ℕ) → count stands (reset_slots oc rank ss) ≡ count is_occupied ss
unfolding reset_slots reset_slot count
count-reset_slots [] oc rank = refl
count-reset_slots (s ∷ ss) oc rank =
    ground (arith, count-reset_slots ss oc (if is_occupied s then rank + 1 else rank))

begin_if_ready-Holds :
    (srv : Server) → Holds IsContested srv → Holds IsContested (begin_if_ready srv)
unfolding begin_if_ready reset_game game_online
begin_if_ready-Holds srv h =
    choose (Holds IsContested) (game_ready srv == game_online srv && leb 2 (game_online srv))
      (λ all. inr (inr (rw count-reset_slots (ground arith)))) (λ _. h)

handle_ready-Holds :
    (srv : Server) (cid : ℕ) → Holds IsContested srv → Holds IsContested (handle_ready srv cid).0
unfolding handle_ready
handle_ready-Holds srv cid h =
    choose (λ (r : Server × List (ℕ × Reply)). Holds IsContested r.0) srv.game_started (λ _. h)
      (λ _.
        choose_some (λ (r : Server × List (ℕ × Reply)). Holds IsContested r.0)
          (conn_to_game_slot srv cid) (λ _. h)
          (λ gs _. begin_if_ready-Holds _ (same_count srv.slots gs _ (λ s _. refl) h)))

module _ (env : Env) where
  -- After the test the round is over, or goes on with two who stand.
  check_game_over-Holds :
      (srv : Server) (hint : Option ℕ) → Holds IsContested (check_game_over env srv hint)
  unfolding check_game_over save_stats
  check_game_over-Holds srv hint =
      choose (Holds IsContested) (ltb 1 (count stands srv.slots)) (λ two. inr (inr (ground arith)))
        (λ _.
          choose_some (Holds IsContested) (last_standing srv.slots) (λ _. inr (inl refl))
            (λ s _. inr (inl refl)))

  check_pickup-Holds :
      (srv : Server) (gs : ℕ) → Holds IsContested srv → Holds IsContested (check_pickup srv gs)
  unfolding check_pickup
  check_pickup-Holds srv gs h =
      choose_some (Holds IsContested) (get_elem? srv.slots gs) (λ _. h)
        (λ s _.
          choose_some (Holds IsContested)
            (find_index (λ w. w.active && w.x == s.player.x && w.y == s.player.y) srv.weapons)
            (λ _. h) (λ i _. same_count srv.slots gs _ (λ s _. refl) h))

  attack-Holds :
      (srv : Server) (cid gs : ℕ) (me : PlayerState)
      → Holds IsContested srv
      → Holds IsContested (attack env srv cid gs me)
  unfolding attack strike wound fell
  attack-Holds srv cid gs me h =
      choose_some (Holds IsContested) (nearest gs me 0 none srv.slots) (λ _. h)
        (λ (target, d) _.
          choose_some (Holds IsContested) (get_elem? srv.slots target) (λ _. h)
            (λ tgt _.
              choose (Holds IsContested) (ltb attack_range d) (λ _. h)
                (λ _.
                  choose (Holds IsContested) (leb tgt.player.health (damage_of me))
                    (λ _. check_game_over-Holds _ (some cid))
                    (λ _.
                      same_count _ target _ (λ s _. refl)
                        (same_count srv.slots gs _ (λ s _. refl) h)))))

  stepped-stands :
      (action : ℕ) (s : Slot) → stands (record s { player = stepped action s.player }) ≡ stands s
  unfolding stepped
  stepped-stands action s = ground arith

  apply_action-Holds :
      (srv : Server) (cid action : ℕ)
      → Holds IsContested srv
      → Holds IsContested (apply_action env srv cid action)
  unfolding apply_action
  apply_action-Holds srv cid action h =
      choose (Holds IsContested) (not srv.game_started || srv.game_over) (λ _. h)
        (λ _.
          choose_some (Holds IsContested) (conn_to_game_slot srv cid) (λ _. h)
            (λ gs _.
              choose_some (Holds IsContested) (get_elem? srv.slots gs) (λ _. h)
                (λ s _.
                  choose (Holds IsContested) (not s.player.alive) (λ _. h)
                    (λ _.
                      choose (Holds IsContested) (action == 5)
                        (λ _. attack-Holds srv cid gs s.player h)
                        (λ _.
                          check_pickup-Holds _ gs
                            (same_count srv.slots gs _ (λ s _. stepped-stands action s) h))))))

  end_if_empty-Holds : (srv : Server) → Holds IsContested srv → Holds IsContested (end_if_empty srv)
  unfolding end_if_empty
  end_if_empty-Holds srv h =
      choose (Holds IsContested) (game_online srv == 0) (λ _. inl refl) (λ _. h)

  remove_from_game-Holds :
      (srv : Server) (cid : ℕ)
      → Holds IsContested srv
      → Holds IsContested (remove_from_game env srv cid)
  unfolding remove_from_game
  remove_from_game-Holds srv cid h =
      choose_some (Holds IsContested) (conn_to_game_slot srv cid) (λ _. h)
        (λ g _. end_if_empty-Holds _ (
          choose (Holds IsContested) (srv.game_started && not srv.game_over)
            (λ _. check_game_over-Holds _ none) (λ idle. at_rest g idle)))
    where
      at_rest :
          (g : ℕ)
          → (srv.game_started && not srv.game_over) ≡ false
          → Holds IsContested (vacate srv g)
      at_rest g idle = ground arith

  join-Holds :
      (srv : Server) (cid : ℕ) (s : Bytes)
      → Holds IsContested srv
      → Holds IsContested (join env srv cid s).server
  unfolding join seated
  join-Holds srv cid s h =
      choose_some (λ (a : After). Holds IsContested a.server)
        (find_index (λ g. not (is_some g.conn)) srv.slots) (λ _. h)
        (λ gs free.
          same_count srv.slots gs _
            (λ g at.
              let vacant = find_index_lem (λ g. not (is_some g.conn)) srv.slots gs g free at in
              ground arith)
            h)

  try_cells-Holds :
      (srv : Server) (slot left n : ℕ)
      → Holds IsContested srv
      → Holds IsContested (try_cells env srv slot left n)
  unfolding try_cells
  try_cells-Holds srv slot zero n h = h
  try_cells-Holds srv slot (suc left) n h =
      choose (Holds IsContested)
        (is_busy srv (pos (2 + (env.draws n).0 % (map_w - 4)))
          (pos (2 + (env.draws n).1 % (map_h - 4))))
        (λ _. try_cells-Holds srv slot left (n + 1) h) (λ _. h)

  spawn_weapon-Holds :
      (srv : Server) → Holds IsContested srv → Holds IsContested (spawn_weapon env srv)
  unfolding spawn_weapon
  spawn_weapon-Holds srv h =
      choose_some (Holds IsContested) (find_index (λ w. not w.active) srv.weapons) (λ _. h)
        (λ slot _. try_cells-Holds srv slot 50 0 h)

IsContested-IsKept : IsKept IsContested
unfolding new_server
IsContested-IsKept = record {
  acts = apply_action-Holds;
  leaves = remove_from_game-Holds;
  joins = join-Holds;
  readies = handle_ready-Holds;
  starts = λ db. inl refl;
  ticks = spawn_weapon-Holds;
}

-- From the start of the server on, whenever a round has begun and is not over, two players at least are in
-- the game and alive: the one who is left alone always ends the round, also when the others disconnect.
pub Reaches-IsContested : (srv : Server) (ph : Phases) → Reaches srv ph → Holds IsContested srv
Reaches-IsContested = Reaches-Holds IsContested IsContested-IsKept

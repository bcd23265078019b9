-- ===== src/World/Stuck.antt =====
-- Coming back to life in world.go: downed players of a running world, and players who were stored while
-- down and are put back.
use a_simple_game_server.Prelude.{
  ℕ, ℤ, List, [], ◌∷◌, All, In, ◌≢◌, eqb, inl, inr, ◌∙◌, String, true, false, none, some, ◌≤◌, ◌≡◌,
  refl, ◌⊎◌, arith, ◌==◌, string_eq, if◌then◌else◌,
}
use a_simple_game_server.Prelude.Maps.{
  Map, lookup, lookup-insert_self, lookup-insert_eq, lookup-insert_ne,
}
use text.Mathlib.TextEquality.{eq_iff}
use a_simple_game_server.Protocol.{UserProfile, PlayerView, MapCheckpoint}
use a_simple_game_server.World.State.{Player, World, bump, value_or}
use a_simple_game_server.World.Place.{walkable, find_safe}
use a_simple_game_server.World.Life.{refresh}
use a_simple_game_server.World.Move.{move_player}
use a_simple_game_server.World.Heal.{heal_player}
use a_simple_game_server.World.Attack.{attack}
use a_simple_game_server.World.Shop.{buy_item}
use a_simple_game_server.World.Sessions.{restored_player, add_or_restore_player}
use a_simple_game_server.World.Snapshot.{player_of_view, load_players, restore_checkpoint}
use a_simple_game_server.World.SpawnCells.{find_safe-walkable}
use a_simple_game_server.World.Frames.{refresh_again, revived}

-- A downed player whose time has come revives at the next refresh: with full hit points and at least
-- three potions, on a cell that is walkable unless no cell of the map is.
pub refresh_due :
    (now : ℕ) (w : World) (key : String) (p : Player) (t : ℕ)
    → p.alive ≡ false
    → p.respawn_at ≡ some t
    → t ≤ now
    → (let r = refresh now w key p in
        (r.1.alive ≡ true)
        × (r.1.hp ≡ p.max_hp)
        × (3 ≤ r.1.potions)
        × (lookup key r.0.players ≡ some r.1)
        × ((walkable w r.1.x r.1.y p.username ≡ true)
            ⊎ ((x y : ℤ) → walkable w x y p.username ≡ false)))
refresh_due now w key p t down at due =
    let (g, e) = refresh_again now w key p t down at due in
    rw e (
      refl,
      refl,
      ground arith,
      lookup-insert_self key (revived now w p) w.players,
      find_safe-walkable w w.cfg.spawn_x w.cfg.spawn_y p.username,
    )

-- Down, with no time to revive at.
abbrev pub IsStuck : Player → Type 0
IsStuck p = (p.alive ≡ false) × (p.respawn_at ≡ none)

pub refresh_stuck :
    (now : ℕ) (w : World) (key : String) (p : Player) → IsStuck p → refresh now w key p ≡ (w, p)
unfolding refresh
refresh_stuck now w key p (down, never) = ground arith

-- A stuck player's own requests change nothing, at any time.
pub stuck_acts :
    (now : ℕ) (w : World) (u : String) (p : Player) (arg : String)
    → lookup u w.players ≡ some p
    → IsStuck p
    → ((move_player now w u arg).0 ≡ w)
      × ((heal_player now w u).0 ≡ w)
      × ((attack now w u).0 ≡ w)
      × ((buy_item now w u arg).0 ≡ w)
unfolding move_player heal_player attack buy_item
stuck_acts now w u p arg at s =
    let idle = refresh_stuck now w u p s in
    let still : (refresh now w u p).1.alive ≡ false = rw idle s.0 in
    let same : (refresh now w u p).0 ≡ w = rw idle in
    (
      simp (at, move_player, still) same,
      simp (at, heal_player, still) same,
      simp (at, attack, still) same,
      simp (at, buy_item, still) same,
    )

restored_player-username :
    (now : ℕ) (w : World) (profile : UserProfile) (x y : ℤ)
    → (restored_player now w profile x y).username ≡ profile.username
unfolding restored_player
restored_player-username now w profile x y = ground arith

restored_player-IsStuck :
    (now : ℕ) (w : World) (profile : UserProfile) (x y : ℤ)
    → profile.alive ≡ false
    → IsStuck (restored_player now w profile x y)
unfolding restored_player value_or
restored_player-IsStuck now w profile x y down = (ground arith, ground arith)

-- A player of the world is stuck, and from then on none of the player's own requests changes anything, at
-- whatever time it comes and whatever its argument.
abbrev pub StaysStuck : World → String → ℕ → String → Type 0
StaysStuck w u later arg =
    (p : Player) × (lookup u w.players ≡ some p)
    × IsStuck p
    × ((move_player later w u arg).0 ≡ w)
    × ((heal_player later w u).0 ≡ w)
    × ((attack later w u).0 ≡ w)
    × ((buy_item later w u arg).0 ≡ w)

stuck_stays :
    (w : World) (u : String) (later : ℕ) (arg : String) (p : Player)
    → lookup u w.players ≡ some p
    → IsStuck p
    → StaysStuck w u later arg
stuck_stays w u later arg p at stuck =
    let (m, h, a, b) = stuck_acts later w u p arg at stuck in (p, at, stuck, m, h, a, b)

-- The bug: `AddOrRestorePlayer` puts a player who was stored while down into the world as one who is down
-- with no time to revive at. From then on none of the player's own requests to move, heal, attack or buy
-- changes anything, at whatever time it comes.
pub add_or_restore_player_stuck :
    (now later : ℕ) (w : World) (profile : UserProfile) (arg : String)
    → profile.alive ≡ false
    → StaysStuck (add_or_restore_player now w profile).0 profile.username later arg
unfolding add_or_restore_player bump
add_or_restore_player_stuck now later w profile arg down =
    let found =
      find_safe w (if profile.last_map == w.cfg.id then profile.x else w.cfg.spawn_x)
        (if profile.last_map == w.cfg.id then profile.y else w.cfg.spawn_y) "" in
    let p = restored_player now found.1 profile found.0.0 found.0.1 in
    let named : p.username ≡ profile.username =
      restored_player-username now found.1 profile found.0.0 found.0.1 in
    stuck_stays (add_or_restore_player now w profile).0 profile.username later arg p
      (lookup-insert_eq p.username profile.username p found.1.players named)
      (restored_player-IsStuck now found.1 profile found.0.0 found.0.1 down)

-- No two views are of the same player.
abbrev pub HasOwnNames : List PlayerView → Type 0
HasOwnNames [] = Unit
HasOwnNames (v ∷ vs) = All (λ u. u.username ≢ v.username) vs × HasOwnNames vs

load_players-other :
    (now : ℕ) (map_id name : String) (vs : List PlayerView) (m : Map Player)
    → All (λ u. u.username ≢ name) vs
    → lookup name (load_players now map_id vs m) ≡ lookup name m
unfolding load_players
load_players-other now map_id name [] m h = refl
load_players-other now map_id name (v ∷ vs) m (ne, h) =
    load_players-other now map_id name vs _ h ∙ lookup-insert_ne v.username name _ m ne

load_players-lookup :
    (now : ℕ) (map_id : String) (v : PlayerView) (vs : List PlayerView) (m : Map Player)
    → HasOwnNames vs
    → In v vs
    → lookup v.username (load_players now map_id vs m) ≡ some (player_of_view now map_id v)
unfolding load_players
load_players-lookup now map_id v [] m d at = absurd at
load_players-lookup now map_id v (u ∷ vs) m (own, d) (inl e) = rw e (
    load_players-other now map_id u.username vs _ own
    ∙ lookup-insert_self u.username (player_of_view now map_id u) m)
load_players-lookup now map_id v (u ∷ vs) m (own, d) (inr at) =
    load_players-lookup now map_id v vs _ d at

player_of_view-IsStuck :
    (now : ℕ) (map_id : String) (v : PlayerView)
    → v.alive ≡ false
    → IsStuck (player_of_view now map_id v)
unfolding player_of_view
player_of_view-IsStuck now map_id v down = (down, refl)

-- The bug: `RestoreCheckpoint` puts a player whom the checkpoint shows as down back as one who is down with
-- no time to revive at. From then on none of the player's own requests to move, heal, attack or buy
-- changes anything, at whatever time it comes. It holds for a checkpoint of this map with a version, which
-- shows no two players of the same name.
pub restore_checkpoint_stuck :
    (now later : ℕ) (w : World) (cp : MapCheckpoint) (v : PlayerView) (arg : String)
    → cp.map_id ≡ w.cfg.id
    → cp.version ≢ 0
    → HasOwnNames cp.players
    → In v cp.players
    → v.alive ≡ false
    → StaysStuck (restore_checkpoint now w cp) v.username later arg
unfolding restore_checkpoint
restore_checkpoint_stuck now later w cp v arg same live own at down =
    let mine : (cp.map_id == w.cfg.id) ≡ true = (eq_iff cp.map_id w.cfg.id).1 same in
    let fresh : eqb cp.version 0 ≡ false = ground arith in
    stuck_stays (restore_checkpoint now w cp) v.username later arg (player_of_view now w.cfg.id v)
      (rw (mine, fresh) (load_players-lookup now w.cfg.id v cp.players [] own at))
      (player_of_view-IsStuck now w.cfg.id v down)

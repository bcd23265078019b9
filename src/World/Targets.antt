-- ===== src/World/Targets.antt =====
-- Whom `Attack` of world.go strikes: the pick of the two loops is a unit in range that no other unit
-- in range is weaker than, for every order of iteration.
use text.Mathlib.TextEquality.{eq_iff}
use a_simple_game_server.Prelude.{
  string_eq, ◌≢◌, ◌<◌, ◌≤◌, ◌⊎◌, Bool, All, All-map, In, str_lt, ℤ, String, true, false, ◌&&◌, [],
  ◌∷◌, Option, none, some, ◌≡◌, refl, arith, if◌then◌else◌,
}
use a_simple_game_server.Prelude.TextOrder.{str_lt_trans, str_lt_irrefl}
use a_simple_game_server.Prelude.Picking.{pick_by, Least, no_one, least, pick_by-Least}
use a_simple_game_server.Prelude.Maps.{Map}
use a_simple_game_server.World.State.{Player, Npc, distance}
use a_simple_game_server.World.Attack.{
  npc_in_range, npc_weaker, pick_npc, player_in_range, player_weaker, pick_player,
}

npc_weaker_trans :
    (a b c : Npc) → npc_weaker a b ≡ true → npc_weaker b c ≡ true → npc_weaker a c ≡ true
unfolding npc_weaker
npc_weaker_trans a b c h k = ground (arith, str_lt_trans a.id b.id c.id)

player_weaker_trans :
    (a b c : Player)
    → player_weaker a b ≡ true
    → player_weaker b c ≡ true
    → player_weaker a c ≡ true
unfolding player_weaker
player_weaker_trans a b c h k = ground (arith, str_lt_trans a.username b.username c.username)

npc_weaker_irrefl : (a : Npc) → npc_weaker a a ≡ false
unfolding npc_weaker
npc_weaker_irrefl a = ground (arith, str_lt_irrefl a.id)

player_weaker_irrefl : (a : Player) → player_weaker a a ≡ false
unfolding player_weaker
player_weaker_irrefl a = ground (arith, str_lt_irrefl a.username)

pick_npc-pick_by :
    (x y : ℤ) (best : Option (String × Npc)) (m : Map Npc)
    → pick_npc x y best m ≡ pick_by (npc_in_range x y) npc_weaker best m
unfolding pick_npc pick_by
pick_npc-pick_by x y best [] = refl
pick_npc-pick_by x y none ((key, n) ∷ m) =
    pick_npc-pick_by x y (if npc_in_range x y n && true then some (key, n) else none) m
pick_npc-pick_by x y (some (k, b)) ((key, n) ∷ m) =
    pick_npc-pick_by x y
      (if npc_in_range x y n && npc_weaker n b then some (key, n) else some (k, b)) m

pick_player-pick_by :
    (p : Player) (username : String) (best : Option (String × Player)) (m : Map Player)
    → pick_player p username best m
      ≡ pick_by (λ o. player_in_range p o username) player_weaker best m
unfolding pick_player pick_by
pick_player-pick_by p username best [] = refl
pick_player-pick_by p username none ((key, o) ∷ m) =
    pick_player-pick_by p username
      (if player_in_range p o username && true then some (key, o) else none) m
pick_player-pick_by p username (some (k, b)) ((key, o) ∷ m) =
    pick_player-pick_by p username
      (if player_in_range p o username && player_weaker o b then some (key, o) else some (k, b)) m

-- What a pick `r` from `m` promises: nobody is in reach, or the one picked is, and of all in reach none
-- comes before it.
pub data Picked {A : Type 0} (InReach : A → Type 0) (NotAfter : A → A → Type 0) (m : Map A)
    (r : Option (String × A)) : Type 0 where
  nobody : r ≡ none → All (λ e. ¬ InReach e.1) m → Picked InReach NotAfter m r
  picked :
      (key : String) (a : A)
      → r ≡ some (key, a)
      → In (key, a) m
      → InReach a
      → All (λ e. InReach e.1 → NotAfter a e.1) m
      → Picked InReach NotAfter m r

Least-Picked :
    {A : Type 0} (ok : A → Bool) (less : A → A → Bool) (InReach : A → Type 0)
    (NotAfter : A → A → Type 0) (m : Map A) (r : Option (String × A))
    → ((a : A) → ok a ≡ true → InReach a)
    → ((a : A) → InReach a → ok a ≡ true)
    → ((a b : A) → less b a ≡ false → NotAfter a b)
    → Least ok less m r
    → Picked InReach NotAfter m r
Least-Picked ok less InReach NotAfter m r to from order (no_one e out) = nobody e (
    All-map (λ e. ok e.1 ≡ false) (λ e. ¬ InReach e.1) m
      (λ e unfit near. let fit = from e.1 near in cc) out)
Least-Picked ok less InReach NotAfter m r to from order (least key a e i fit rest) =
    picked key a e i (to a fit) (
      All-map (λ e. ok e.1 ≡ true → less e.1 a ≡ false) (λ e. InReach e.1 → NotAfter a e.1) m
        (λ e h near. order a e.1 (h (from e.1 near))) rest)

-- A living monster at most two cells away from `(x, y)`.
abbrev pub NpcInReach : ℤ → ℤ → Npc → Type 0
NpcInReach x y n = (n.alive ≡ true) × (distance x y n.x n.y ≤ 2)

-- Fewer hit points, or as many and an identifier that is not greater.
abbrev pub NpcNotAfter : Npc → Npc → Type 0
NpcNotAfter a b = (a.hp < b.hp) ⊎ ((a.hp ≡ b.hp) × (str_lt b.id a.id ≡ false))

-- The monster that an attack picks is alive, at most two cells away and such that every other living
-- monster so near has more hit points, or as many and no smaller identifier; none is picked only if
-- none is so near. This holds whatever the order of the map.
pub pick_npc-Picked :
    (x y : ℤ) (m : Map Npc) → Picked (NpcInReach x y) NpcNotAfter m (pick_npc x y none m)
unfolding npc_in_range npc_weaker
pick_npc-Picked x y m =
    Least-Picked (npc_in_range x y) npc_weaker (NpcInReach x y) NpcNotAfter m (pick_npc x y none m)
      (λ n h. ground arith) (λ n h. ground arith) (λ a b h. ground arith)
      (rw (pick_npc-pick_by x y none m)
        (pick_by-Least (npc_in_range x y) npc_weaker npc_weaker_irrefl npc_weaker_trans m))

-- A standing player of another name at most two cells away from `p`.
abbrev pub PlayerInReach : Player → String → Player → Type 0
PlayerInReach p username o =
    (o.username ≢ username) × (o.alive ≡ true) × (distance p.x p.y o.x o.y ≤ 2)

abbrev pub PlayerNotAfter : Player → Player → Type 0
PlayerNotAfter a b = (a.hp < b.hp) ⊎ ((a.hp ≡ b.hp) × (str_lt b.username a.username ≡ false))

-- The player that an attack picks has another name, stands, is at most two cells away, and every
-- other such player has more hit points, or as many and no smaller name; none is picked only if there
-- is no such player. This holds whatever the order of the map.
pub pick_player-Picked :
    (p : Player) (username : String) (m : Map Player)
    → Picked (PlayerInReach p username) PlayerNotAfter m (pick_player p username none m)
unfolding player_in_range player_weaker
pick_player-Picked p username m =
    Least-Picked (λ o. player_in_range p o username) player_weaker (PlayerInReach p username)
      PlayerNotAfter m (pick_player p username none m)
      (λ o h. ((λ same. ground (arith, eq_iff o.username username)), ground arith, ground arith))
      (λ o h. ground (arith, eq_iff o.username username)) (λ a b h. ground arith)
      (rw (pick_player-pick_by p username none m) (
        pick_by-Least (λ o. player_in_range p o username) player_weaker player_weaker_irrefl
          player_weaker_trans m))

-- ===== src/World/Effects.antt =====
-- What a potion and a purchase do to a player in world.go.
use text.Mathlib.TextEquality.{eq_iff}
use a_simple_game_server.Messages.{recovered}
use a_simple_game_server.World.State.{bump}
use a_simple_game_server.Prelude.{
  ◌∙◌, ◌↔◌, eqb, ℕ, String, true, false, some, ◌+◌, ◌-◌, ◌≤◌, ◌<◌, ◌≡◌, refl, ◌⊎◌, inl, inr, arith,
}
use a_simple_game_server.Prelude.Maps.{lookup}
use a_simple_game_server.World.State.{Player, World}
use a_simple_game_server.World.Life.{refresh, profile_locked}
use a_simple_game_server.World.Heal.{drink, heal_alive, heal_player}
use a_simple_game_server.World.Shop.{buy_potion, buy_weapon, buy_alive, buy_item}
use a_simple_game_server.World.Outcomes.{
  store, Updated, same, stored, heal_alive-Updated, Bought, potion, weapon, buy_alive-Updated,
}
use a_simple_game_server.World.HitPoints.{IsSound}

refresh_standing :
    (now : ℕ) (w : World) (u : String) (p : Player) → p.alive ≡ true → refresh now w u p ≡ (w, p)
unfolding refresh
refresh_standing now w u p up = ground arith

-- What `p'` has that `p` had, one potion later.
pub record IsHealed (p p' : Player) : Type 0 where
  pub no_less : p.hp ≤ p'.hp
  pub no_more : p'.hp ≤ p.hp + 30
  pub at_most : p'.hp ≤ p.max_hp
  pub enough : (p'.hp ≡ p.max_hp) ⊎ (p'.hp ≡ p.hp + 30)
  pub spent : p'.potions + 1 ≡ p.potions
  pub still_up : p'.alive ≡ p.alive
  pub rest :
      (p'.treasures ≡ p.treasures)
      × (p'.attack ≡ p.attack)
      × (p'.max_hp ≡ p.max_hp)
      × (p'.x ≡ p.x)
      × (p'.y ≡ p.y)

drink-IsHealed : (now : ℕ) (p : Player) → IsSound p → 0 < p.potions → IsHealed p (drink now p)
unfolding drink
drink-IsHealed now p s left = record {
  no_less = ground (arith, s.at_most);
  no_more = ground arith;
  at_most = ground arith;
  enough = ground arith;
  spent = omega arith;
  still_up = refl;
  rest = (refl, refl, refl, refl, refl);
}

heal_alive_lem :
    (now : ℕ) (w : World) (u : String) (p : Player)
    → IsSound p
    → Updated (IsHealed p) w u (heal_alive now w u p).0
heal_alive_lem now w u p s = elim (heal_alive-Updated now w u p) [
  | same e ↦ same e
  | stored p' (q, left) e ↦ stored (drink now p) (drink-IsHealed now p s left) (rw (← q) e)
]

-- A standing player with a potion, whose hit points are at most the maximum and positive, is healed by
-- it: the hit points rise by thirty, or to the maximum if that is less, and one potion is spent, while
-- the treasure, the attack, the maximum and the place stay; the world is otherwise the same, one
-- version on, and the reply tells the gain.
pub heal_player_lem :
    (now : ℕ) (w : World) (u : String) (p : Player)
    → lookup u w.players ≡ some p
    → p.alive ≡ true
    → IsSound p
    → 0 < p.potions
    → (p' : Player) × IsHealed p p'
      × (heal_player now w u
          ≡ (store w u p', some (recovered u (p'.hp - p.hp), profile_locked w p')))
unfolding heal_player heal_alive bump
heal_player_lem now w u p at up s left = (
  drink now p,
  drink-IsHealed now p s left,
  let idle = refresh_standing now w u p up in
      let some_left : eqb p.potions 0 ≡ false = ground arith in
      simp (at, heal_player, idle, up, some_left),
)

-- What a purchase leaves: the price is paid out of treasure that was there, for one potion more,
-- never beyond the limit of eight, or for six points of attack.
pub record IsPurchase (p p' : Player) : Type 0 where
  pub deal :
      ((p'.treasures + 3 ≡ p.treasures)
        × (p'.potions ≡ p.potions + 1)
        × (p'.potions ≤ 8)
        × (p'.attack ≡ p.attack))
      ⊎ ((p'.treasures + 8 ≡ p.treasures) × (p'.potions ≡ p.potions) × (p'.attack ≡ p.attack + 6))
  pub rest :
      (p'.hp ≡ p.hp)
      × (p'.max_hp ≡ p.max_hp)
      × (p'.alive ≡ p.alive)
      × (p'.x ≡ p.x)
      × (p'.y ≡ p.y)
      × (p'.kills ≡ p.kills)

Bought-IsPurchase : (now : ℕ) (p p' : Player) → Bought now p p' → IsPurchase p p'
Bought-IsPurchase now p p' (potion rich fits e) = rw e (record {
  deal = inl (omega arith, refl, omega arith, refl);
  rest = (refl, refl, refl, refl, refl, refl);
})
Bought-IsPurchase now p p' (weapon rich e) =
    rw e
      (record { deal = inr (omega arith, refl, refl); rest = (refl, refl, refl, refl, refl, refl) })

-- Whatever a standing player asks the shop for, the world stays as it is or the player alone changes,
-- by a purchase that was paid for in full.
pub buy_item_lem :
    (now : ℕ) (w : World) (u item : String) (p : Player)
    → lookup u w.players ≡ some p
    → p.alive ≡ true
    → Updated (IsPurchase p) w u (buy_item now w u item).0
unfolding buy_item
buy_item_lem now w u item p at up =
    let idle = refresh_standing now w u p up in
    let end : (buy_item now w u item).0 ≡ (buy_alive now w u p item).0 =
      simp (at, buy_item, idle, up) in
    elim (buy_alive-Updated now w u p item) [
      | same e ↦ same (end ∙ e)
      | stored p' b e ↦ stored p' (Bought-IsPurchase now p p' b) (end ∙ e)
    ]

buy_alive-version :
    (now : ℕ) (w : World) (u item : String) (p : Player)
    → ((buy_alive now w u p item).0.version ≡ w.version + 1) ↔ (
        ((item ≡ "potion") × (3 ≤ p.treasures) × (p.potions < 8))
        ⊎ ((item ≡ "weapon") × (8 ≤ p.treasures)))
unfolding buy_alive buy_potion buy_weapon bump
buy_alive-version now w u item p = (
  λ h. ground (arith, eq_iff item "potion", eq_iff item "weapon"),
  λ h. ground (arith, eq_iff item "potion", eq_iff item "weapon", eq_iff "weapon" "potion"),
)

-- The shop sells a potion exactly to those who have three treasures and fewer than eight potions, and
-- a stronger weapon exactly to those who have eight treasures; any other item to nobody. Nothing else
-- changes the version.
pub buy_item-version :
    (now : ℕ) (w : World) (u item : String) (p : Player)
    → lookup u w.players ≡ some p
    → p.alive ≡ true
    → ((buy_item now w u item).0.version ≡ w.version + 1) ↔ (
        ((item ≡ "potion") × (3 ≤ p.treasures) × (p.potions < 8))
        ⊎ ((item ≡ "weapon") × (8 ≤ p.treasures)))
unfolding buy_item
buy_item-version now w u item p at up =
    let idle = refresh_standing now w u p up in
    let end : (buy_item now w u item).0 ≡ (buy_alive now w u p item).0 =
      simp (at, buy_item, idle, up) in
    rw end (buy_alive-version now w u item p)

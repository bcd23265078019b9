-- ===== src/Warzone/Seats.antt =====
-- warzone_go, conn.go and server.go: who sits in the slots of the game.
use a_simple_game_server.Prelude.{
  ℕ, true, List, Option, none, some, ◌≡◌, ◌≢◌, refl, sym, arith, ◌⊎◌, inl, inr, ◌==◌, nat_eq,
  get_elem?, Bool-cases,
}
use a_simple_game_server.Warzone.State.{ConnEntry, modify}
use a_simple_game_server.Warzone.Packets.{Phase, auth, lobby, playing, closed}
use a_simple_game_server.Warzone.System.{Phases, put_phase}
use a_simple_game_server.Warzone.Changes.{get_elem?-modify_cases}

-- The entry of a connection whose thread is in a phase.
abbrev pub Fits : Option ConnEntry → Phase → Type 0
Fits o closed = Unit
Fits none (auth n) = ⊥
Fits none lobby = ⊥
Fits none playing = ⊥
Fits (some e) (auth n) = e.active ≡ true
Fits (some e) lobby = e.active ≡ true × e.authed ≡ true
Fits (some e) playing = e.active ≡ true × e.authed ≡ true

-- Threads and entries agree, only threads in the game have a slot, and none has two.
pub record IsSeated (ss : List (Option ℕ)) (cs : List ConnEntry) (ph : Phases) : Type 0 where
  pub entries : (c : ℕ) → Fits (get_elem? cs c) (ph c)
  pub plays : (n c : ℕ) → get_elem? ss n ≡ some (some c) → ph c ≡ playing
  pub once : (n m c : ℕ) → get_elem? ss n ≡ some (some c) → get_elem? ss m ≡ some (some c) → n ≡ m

-- The entry of a thread that has not ended.
pub Fits-entry :
    (o : Option ConnEntry) (p : Phase)
    → Fits o p
    → (p ≡ closed) ⊎ ((e : ConnEntry) × o ≡ some e × e.active ≡ true)
Fits-entry o closed h = inl refl
Fits-entry none (auth n) h = absurd h
Fits-entry none lobby h = absurd h
Fits-entry none playing h = absurd h
Fits-entry (some e) (auth n) h = inr (e, refl, h)
Fits-entry (some e) lobby h = inr (e, refl, h.0)
Fits-entry (some e) playing h = inr (e, refl, h.0)

module _ (ss : List (Option ℕ)) (cs : List ConnEntry) (ph : Phases) (ok : IsSeated ss cs ph)
    (cid : ℕ) (ss' : List (Option ℕ)) (cs' : List ConnEntry) (p : Phase)
    (others : (c : ℕ) → c ≢ cid → get_elem? cs' c ≡ get_elem? cs c)
    (fits : Fits (get_elem? cs' cid) p) where
  next_entries : (c : ℕ) → Fits (get_elem? cs' c) (put_phase cid p ph c)
  next_entries c = elim (Bool-cases (c == cid)) [
    | inl e ↦ let same : c ≡ cid = ground arith in rw (e, same) fits
    | inr ne ↦ rw (ne, others c (ground arith)) (ok.entries c)
  ]

  put_phase-playing :
      (c : ℕ)
      → (c ≡ cid → p ≡ playing)
      → (c ≢ cid → ph c ≡ playing)
      → put_phase cid p ph c ≡ playing
  put_phase-playing c mine other = elim (Bool-cases (c == cid)) [
    | inl e ↦ rw (e) (mine (ground arith))
    | inr ne ↦ rw (ne) (other (ground arith))
  ]

  -- The slots are as before.
  pub same-IsSeated :
      ss' ≡ ss
      → ((n : ℕ) → get_elem? ss n ≡ some (some cid) → p ≡ playing)
      → IsSeated ss' cs' (put_phase cid p ph)
  same-IsSeated e stays = record {
    entries = next_entries;
    plays = λ n c at.
        let was : get_elem? ss n ≡ some (some c) = rw (sym e) at in
        put_phase-playing c (λ same. stays n (rw (← same) was)) (λ _. ok.plays n c was);
    once = λ n m c a b. ok.once n m c (rw (sym e) a) (rw (sym e) b);
  }

  -- The thread's slot, if it has one, is given up.
  pub lost-IsSeated :
      (g : ℕ)
      → get_elem? ss g ≡ some (some cid)
      → ss' ≡ modify g (λ _. none) ss
      → IsSeated ss' cs' (put_phase cid p ph)
  lost-IsSeated g mine e = record {
    entries = next_entries;
    plays = λ n c at.
        let (away, was) = still n c at in
        put_phase-playing c (λ same. absurd (away (ok.once n g cid (rw (← same) was) mine)))
          (λ _. ok.plays n c was);
    once = λ n m c a b. ok.once n m c (still n c a).1 (still m c b).1;
  }
    where
      still : (n c : ℕ) → get_elem? ss' n ≡ some (some c) → n ≢ g × get_elem? ss n ≡ some (some c)
      still n c at = elim (get_elem?-modify_cases g n (λ _. none) ss (some c) (rw (← e) at)) [
        | inl (_, (x, _, bad)) ↦ absurd cc
        | inr r ↦ r
      ]

  -- The thread takes a slot, having none.
  pub gained-IsSeated :
      (g : ℕ)
      → ph cid ≢ playing
      → p ≡ playing
      → ss' ≡ modify g (λ _. some cid) ss
      → IsSeated ss' cs' (put_phase cid p ph)
  gained-IsSeated g out now e = record {
    entries = next_entries;
    plays = λ n c at. elim (origin n c at) [
      | inl (_, mine) ↦ put_phase-playing c (λ _. now) (λ ne. absurd (ne mine))
      | inr was ↦ put_phase-playing c (λ _. now) (λ _. ok.plays n c was)
    ];
    once = λ n m c a b. elim (origin n c a) [
      | inl (ng, mine) ↦ elim (origin m c b) [
        | inl (mg, _) ↦ cc
        | inr was ↦ absurd (out (rw (← mine) (ok.plays m c was)))
      ]
      | inr was ↦ elim (origin m c b) [
        | inl (_, mine) ↦ absurd (out (rw (← mine) (ok.plays n c was)))
        | inr was' ↦ ok.once n m c was was'
      ]
    ];
  }
    where
      origin :
          (n c : ℕ)
          → get_elem? ss' n ≡ some (some c)
          → (n ≡ g × c ≡ cid) ⊎ get_elem? ss n ≡ some (some c)
      origin n c at = elim (get_elem?-modify_cases g n (λ _. some cid) ss (some c) (rw (← e) at)) [
        | inl (same, (x, _, mine)) ↦ inl (same, cc)
        | inr (_, r) ↦ inr r
      ]

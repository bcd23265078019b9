-- ===== src/Warzone/Changes.antt =====
-- warzone_go: the change of one element of a list, and counting after it.
use a_simple_game_server.Prelude.{
  ℕ, zero, suc, Bool, true, false, List, [], ◌∷◌, none, some, ◌≡◌, ◌≢◌, ◌⊎◌, refl, sym, ap, arith,
  inl, inr, Bool-cases, Option-cases, get_elem?, All,
}
use a_simple_game_server.Warzone.State.{modify, count, find_index}

module _ {ℓ} {A : Type ℓ} where
  -- What holds of every element still holds, if the change keeps it for the element at the index.
  pub All-modify {κ} :
      (Q : A → Type κ) (n : ℕ) (f : A → A) (xs : List A)
      → ((x : A) → get_elem? xs n ≡ some x → Q x → Q (f x))
      → All Q xs
      → All Q (modify n f xs)
  unfolding modify
  All-modify Q n f [] keep h = tt
  All-modify Q zero f (x ∷ xs) keep h = (keep x refl h.0, h.1)
  All-modify Q (suc n) f (x ∷ xs) keep h = (h.0, All-modify Q n f xs keep h.1)

  pub All-get_elem? {κ} :
      (Q : A → Type κ) (xs : List A) (n : ℕ) (x : A) → All Q xs → get_elem? xs n ≡ some x → Q x
  All-get_elem? Q [] n x h e = absurd cc
  All-get_elem? Q (y ∷ xs) zero x h e = let same : y ≡ x = cc in rw (sym same) h.0
  All-get_elem? Q (y ∷ xs) (suc n) x h e = All-get_elem? Q xs n x h.1 e

  pub modify-id : (n : ℕ) (xs : List A) → modify n (λ x. x) xs ≡ xs
  unfolding modify
  modify-id n [] = refl
  modify-id zero (x ∷ xs) = refl
  modify-id (suc n) (x ∷ xs) = ap (x ∷◌) (modify-id n xs)

  pub modify-modify :
      (n : ℕ) (f g : A → A) (xs : List A) → modify n f (modify n g xs) ≡ modify n (λ x. f (g x)) xs
  unfolding modify
  modify-modify n f g [] = refl
  modify-modify zero f g (x ∷ xs) = refl
  modify-modify (suc n) f g (x ∷ xs) = ap (x ∷◌) (modify-modify n f g xs)

  -- A measure that the change keeps.
  pub get_elem?-modify {κ} :
      {B : Type κ} (m : A → B) (n k : ℕ) (f : A → A) (xs : List A) (x y : A)
      → ((x : A) → m (f x) ≡ m x)
      → get_elem? xs k ≡ some x
      → get_elem? (modify n f xs) k ≡ some y
      → m y ≡ m x
  unfolding modify
  get_elem?-modify m n k f [] x y keep ex ey = absurd cc
  get_elem?-modify m zero zero f (z ∷ xs) x y keep ex ey = let k = keep z in cc
  get_elem?-modify m zero (suc k) f (z ∷ xs) x y keep ex ey = cc
  get_elem?-modify m (suc n) zero f (z ∷ xs) x y keep ex ey = cc
  get_elem?-modify m (suc n) (suc k) f (z ∷ xs) x y keep ex ey =
      get_elem?-modify m n k f xs x y keep ex ey

  -- An element after the change is the changed one, or one that stood there before.
  pub get_elem?-modify_cases :
      (n k : ℕ) (f : A → A) (xs : List A) (y : A)
      → get_elem? (modify n f xs) k ≡ some y
      → (k ≡ n × ((x : A) × get_elem? xs k ≡ some x × y ≡ f x)) ⊎ (k ≢ n × get_elem? xs k ≡ some y)
  unfolding modify
  get_elem?-modify_cases n k f [] y e = absurd cc
  get_elem?-modify_cases zero zero f (x ∷ xs) y e = inl (refl, (x, refl, cc))
  get_elem?-modify_cases zero (suc k) f (x ∷ xs) y e = inr (omega arith, e)
  get_elem?-modify_cases (suc n) zero f (x ∷ xs) y e = inr (omega arith, e)
  get_elem?-modify_cases (suc n) (suc k) f (x ∷ xs) y e =
      elim (get_elem?-modify_cases n k f xs y e) [
        | inl (same, r) ↦ inl (ap suc same, r)
        | inr (other, r) ↦ inr (omega arith, r)
      ]

  pub get_elem?-modify_other :
      (n k : ℕ) (f : A → A) (xs : List A) → k ≢ n → get_elem? (modify n f xs) k ≡ get_elem? xs k
  unfolding modify
  get_elem?-modify_other n k f [] other = refl
  get_elem?-modify_other zero zero f (x ∷ xs) other = absurd (omega arith)
  get_elem?-modify_other zero (suc k) f (x ∷ xs) other = refl
  get_elem?-modify_other (suc n) zero f (x ∷ xs) other = refl
  get_elem?-modify_other (suc n) (suc k) f (x ∷ xs) other =
      get_elem?-modify_other n k f xs (omega arith)

  pub get_elem?-modify_same :
      (n : ℕ) (f : A → A) (xs : List A) (x : A)
      → get_elem? xs n ≡ some x
      → get_elem? (modify n f xs) n ≡ some (f x)
  unfolding modify
  get_elem?-modify_same n f [] x e = absurd cc
  get_elem?-modify_same zero f (y ∷ xs) x e = cc
  get_elem?-modify_same (suc n) f (y ∷ xs) x e = get_elem?-modify_same n f xs x e

  pub count-modify :
      (p : A → Bool) (n : ℕ) (f : A → A) (xs : List A)
      → ((x : A) → get_elem? xs n ≡ some x → p (f x) ≡ p x)
      → count p (modify n f xs) ≡ count p xs
  unfolding modify count
  count-modify p n f [] keep = refl
  count-modify p zero f (x ∷ xs) keep = rw (keep x refl) refl
  count-modify p (suc n) f (x ∷ xs) keep = rw (count-modify p n f xs keep) refl

  -- The element that is found passes the test.
  pub find_index_lem :
      (p : A → Bool) (xs : List A) (n : ℕ) (x : A)
      → find_index p xs ≡ some n
      → get_elem? xs n ≡ some x
      → p x ≡ true
  unfolding find_index
  find_index_lem p [] n x e at = absurd cc
  find_index_lem p (y ∷ xs) n x e at = elim (Bool-cases (p y)) [
    | inl t ↦ cc
    | inr f ↦ elim (Option-cases (find_index p xs)) [
      | inl gone ↦ absurd cc
      | inr (m, found) ↦
          let e' : n ≡ suc m = cc in
          find_index_lem p xs m x found
            (let here : get_elem? (y ∷ xs) (suc m) ≡ some x = cc in here)
    ]
  ]

  -- The index that is found is one of the list.
  pub find_index-get_elem? :
      (p : A → Bool) (xs : List A) (n : ℕ)
      → find_index p xs ≡ some n
      → (x : A) × get_elem? xs n ≡ some x × p x ≡ true
  unfolding find_index
  find_index-get_elem? p [] n e = absurd cc
  find_index-get_elem? p (y ∷ xs) n e = elim (Bool-cases (p y)) [
    | inl t ↦ (y, (let z : n ≡ 0 = cc in rw z refl), t)
    | inr f ↦ elim (Option-cases (find_index p xs)) [
      | inl gone ↦ absurd cc
      | inr (m, found) ↦
          let z : n ≡ suc m = cc in
          let (x, at, t) = find_index-get_elem? p xs m found in (x, rw z at, t)
    ]
  ]

  -- If none is found, no element passes the test.
  pub find_index-none :
      (p : A → Bool) (xs : List A) (n : ℕ) (x : A)
      → find_index p xs ≡ none
      → get_elem? xs n ≡ some x
      → p x ≡ false
  unfolding find_index
  find_index-none p [] n x e at = absurd cc
  find_index-none p (y ∷ xs) zero x e at = elim (Bool-cases (p y)) [
    | inl t ↦ absurd cc
    | inr f ↦ cc
  ]
  find_index-none p (y ∷ xs) (suc n) x e at = elim (Bool-cases (p y)) [
    | inl t ↦ absurd cc
    | inr f ↦ elim (Option-cases (find_index p xs)) [
      | inr (m, found) ↦ absurd cc
      | inl gone ↦ find_index-none p xs n x gone at
    ]
  ]

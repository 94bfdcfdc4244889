-- ===== src/Game/Collision/Marks.antt =====
-- What a collision pass of Src/Server/Game.cpp does to the entities: it marks some as collided.
use rtype_ci_cd.Common.{
  ℕ, zero, suc, ◌≡◌, refl, ap, ◌∙◌, sym, ◌⊎◌, inl, inr, Bool, true, ◌||◌, some, List, [], ◌∷◌, map,
  get_elem?, set, arith,
}
use rtype_ci_cd.Common.Machine.{Machine}
use rtype_ci_cd.Game.Types.{Player, Entity, Game}
use rtype_ci_cd.Game.Collision.{
  Clash, is_projectile, is_target, is_hazard, collided, strike_boss, meet, crash, player_loop,
}

-- The entities that can be marked: projectiles, what they hit, and what hurts players.
unfoldable pub can_collide : Entity → Bool
unfolding is_projectile is_target is_hazard
can_collide e = is_projectile e || is_target e || is_hazard e

-- An entity stays as it is, or is marked.
abbrev pub Marked : Entity → Entity → Type 0
Marked e e' = (e' ≡ e) ⊎ ((e' ≡ collided e) × (can_collide e ≡ true))

abbrev pub Marks : List Entity → List Entity → Type 0
Marks [] [] = Unit
Marks [] (e' ∷ es') = ⊥
Marks (e ∷ es) [] = ⊥
Marks (e ∷ es) (e' ∷ es') = Marked e e' × Marks es es'

pub Marks-refl : (es : List Entity) → Marks es es
Marks-refl [] = tt
Marks-refl (e ∷ es) = (inl refl, Marks-refl es)

Marked-trans : (a b c : Entity) → Marked a b → Marked b c → Marked a c
Marked-trans a b c (inl p) (inl q) = inl (q ∙ p)
Marked-trans a b c (inl p) (inr q) = inr (q.0 ∙ ap collided p, ap can_collide (sym p) ∙ q.1)
Marked-trans a b c (inr p) (inl q) = inr (q ∙ p.0, p.1)
Marked-trans a b c (inr p) (inr q) = inr (q.0 ∙ ap collided p.0, p.1)

pub Marks-trans : (xs ys zs : List Entity) → Marks xs ys → Marks ys zs → Marks xs zs
Marks-trans [] [] [] h k = tt
Marks-trans [] [] (z ∷ zs) h k = k
Marks-trans [] (y ∷ ys) zs h k = absurd h
Marks-trans (x ∷ xs) [] zs h k = absurd h
Marks-trans (x ∷ xs) (y ∷ ys) [] h k = k
Marks-trans (x ∷ xs) (y ∷ ys) (z ∷ zs) h k =
    (Marked-trans x y z h.0 k.0, Marks-trans xs ys zs h.1 k.1)

-- An entity of the old list is written back, marked, to its place in the new one.
pub Marks-set :
    (es fs : List Entity) (i : ℕ) (e : Entity)
    → Marks es fs
    → get_elem? es i ≡ some e
    → can_collide e ≡ true
    → Marks es (set fs i (collided e))
Marks-set [] [] i e k h c = tt
Marks-set [] (y ∷ fs) i e k h c = absurd k
Marks-set (x ∷ es) [] i e k h c = absurd k
Marks-set (x ∷ es) (y ∷ fs) zero e k h c = (inr (ground arith), k.1)
Marks-set (x ∷ es) (y ∷ fs) (suc i) e k h c = (k.0, Marks-set es fs i e k.1 h c)

-- What stands at an index of the new list comes from that index of the old one.
pub Marks-get :
    (es fs : List Entity) (i : ℕ) (e' : Entity)
    → Marks es fs
    → get_elem? fs i ≡ some e'
    → (e : Entity) × (get_elem? es i ≡ some e) × Marked e e'
Marks-get [] [] i e' k h = absurd (ground arith)
Marks-get [] (y ∷ fs) i e' k h = absurd k
Marks-get (x ∷ es) [] i e' k h = absurd k
Marks-get (x ∷ es) (y ∷ fs) zero e' k h = (x, refl, ground arith)
Marks-get (x ∷ es) (y ∷ fs) (suc i) e' k h = Marks-get es fs i e' k.1 h

-- The index `i` holds a projectile.
abbrev pub ProjectileAt : ℕ → List Entity → Type 0
ProjectileAt i es = (e : Entity) → get_elem? es i ≡ some e → is_projectile e ≡ true

is_projectile-Marked :
    (e e' : Entity) → Marked e e' → is_projectile e ≡ true → is_projectile e' ≡ true
unfolding is_projectile
is_projectile-Marked e e' h p = ground arith

pub ProjectileAt-Marks :
    (i : ℕ) (es fs : List Entity) → Marks es fs → ProjectileAt i es → ProjectileAt i fs
ProjectileAt-Marks i es fs k p e' h =
    let (e, at, mark) = Marks-get es fs i e' k h in is_projectile-Marked e e' mark (p e at)

module _ (m : Machine) where
  crash-Marked : (p : Player) (e : Entity) → Marked e (crash m p e)
  unfolding crash can_collide
  crash-Marked p e = ground arith

  map-crash-Marks : (p : Player) (es : List Entity) → Marks es (map (crash m p) es)
  map-crash-Marks p [] = tt
  map-crash-Marks p (e ∷ es) = (crash-Marked p e, map-crash-Marks p es)

  pub player_loop-Marks : (ps : List Player) (es : List Entity) → Marks es (player_loop m ps es)
  unfolding player_loop
  player_loop-Marks [] es = Marks-refl es
  player_loop-Marks (p ∷ ps) es =
      Marks-trans es (map (crash m p) es) (player_loop m ps (map (crash m p) es))
        (map-crash-Marks p es) (player_loop-Marks ps (map (crash m p) es))

  pub meet-Marks :
      (g : Game) (i j : ℕ) (p e : Entity) (c : Clash)
      → get_elem? c.entities i ≡ some p
      → get_elem? c.entities j ≡ some e
      → is_projectile p ≡ true
      → Marks c.entities (meet m g i j p e c).entities
  unfolding meet strike_boss can_collide
  meet-Marks g i j p e c hp he shot = ground (
    arith,
    Marks-refl c.entities,
    Marks-set c.entities c.entities i p (Marks-refl c.entities) hp,
    Marks-set c.entities (set c.entities i (collided p)) j e,
  )

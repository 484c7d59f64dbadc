-- ===== src/Scoring/Calm.antt =====
-- `DecisionGate` of services/layer2_anomaly/engine.py over ticks in a row.
use algo_trading_platform.Base.{
  ℕ, zero, suc, ◌+◌, ◌≤◌, ◌<◌, ◌≡◌, refl, sym, ap, arith, false, ◌||◌, ◌⊎◌, inl, inr, List, [], ◌∷◌,
  replicate, if◌then◌else◌,
}
use mathlib.Core.Path.{subst}
use algo_trading_platform.Schema.{
  SystemState, normal, conservative, degraded, halt, is_halt, is_normal,
}
use algo_trading_platform.Scoring.Gate.{DecisionGate, is_target, advance}

-- Never as many ticks in a row that ask for NORMAL as required, counted on from `streak`.
abbrev pub HasNoStreak : (required streak : ℕ) → List SystemState → Type 0
HasNoStreak required streak [] = Unit
HasNoStreak required streak (base ∷ bases) =
    let next = if is_normal base then suc streak else 0 in
    (next < required) × HasNoStreak required next bases

SystemState-cases : (s : SystemState) → (s ≡ normal) ⊎ (is_normal s ≡ false)
SystemState-cases normal = inl refl
SystemState-cases conservative = inr refl
SystemState-cases degraded = inr refl
SystemState-cases halt = inr refl

module _ {F : Type 0} where
  -- The gate after ticks that ask for these states in turn
  abbrev pub advance_all : List SystemState → DecisionGate F → DecisionGate F
  advance_all [] g = g
  advance_all (base ∷ bases) g = advance_all bases (advance base g)

  advance-halt :
      (base : SystemState) (g : DecisionGate F)
      → g.state ≡ halt
      → let next = if is_normal base then suc g.upgrade_streak else 0 in
        next < g.streak_required
        → ((advance base g).state ≡ halt)
          × ((advance base g).upgrade_streak ≡ next)
          × ((advance base g).streak_required ≡ g.streak_required)
  unfolding advance
  advance-halt base g h few = ground arith

  -- A gate in HALT stays in HALT over any ticks, however severe the states that they ask for, as long as never
  -- as many of them in a row as required ask for NORMAL.
  pub halt_holds :
      (bases : List SystemState) (g : DecisionGate F)
      → g.state ≡ halt
      → HasNoStreak g.streak_required g.upgrade_streak bases
      → (advance_all bases g).state ≡ halt
  halt_holds [] g h few = h
  halt_holds (base ∷ bases) g h (few, rest) =
      let (still, streak, required) = advance-halt base g h few in
      halt_holds bases (advance base g) still (
        subst (λ r. HasNoStreak r (advance base g).upgrade_streak bases) (sym required)
          (subst (λ k. HasNoStreak g.streak_required k bases) (sym streak) rest))

  -- How much of the streak to NORMAL is behind the gate.
  progress : DecisionGate F → ℕ
  progress g = if is_halt g.state || is_target g.upgrade_target normal then g.upgrade_streak else 0

  progress-le : (g : DecisionGate F) → progress g ≤ g.upgrade_streak
  unfolding progress
  progress-le g = ground arith

  advance-settled : (g : DecisionGate F) → g.state ≡ normal → (advance normal g).state ≡ normal
  unfolding advance
  advance-settled g h = ground arith

  advance-paced :
      (base : SystemState) (g : DecisionGate F)
      → 0 < g.streak_required
      → g.upgrade_streak < g.streak_required
      → ((advance base g).upgrade_streak < (advance base g).streak_required)
        × ((advance base g).streak_required ≡ g.streak_required)
  unfolding advance
  advance-paced base g positive paced = ground arith

  advance-calm :
      (g : DecisionGate F)
      → is_normal g.state ≡ false
      → is_normal (advance normal g).state ≡ false
      → progress (advance normal g) ≡ suc (progress g)
  unfolding advance progress
  advance-calm g before after = ground arith

  settled-here :
      (g : DecisionGate F) → g.state ≡ normal → is_normal (advance normal g).state ≡ false → ⊥
  settled-here g here other = ground (arith, ap is_normal (advance-settled g here), other)

  calm_from :
      (n : ℕ) (g : DecisionGate F)
      → g.upgrade_streak < g.streak_required
      → (g.state ≡ normal) ⊎ (g.streak_required ≤ progress g + n)
      → (advance_all (replicate n normal) g).state ≡ normal
  calm_from zero g paced (inl h) = h
  calm_from zero g paced (inr far) = absurd (omega (arith, far, paced, progress-le g))
  calm_from (suc n) g paced h =
      let (next, required) = advance-paced normal g (omega arith) paced in
      calm_from n (advance normal g) next (elim (SystemState-cases (advance normal g).state) [
        | inl settled ↦ inl settled
        | inr other ↦ inr (elim h [
          | inl here ↦ absurd (settled-here g here other)
          | inr far ↦ elim (SystemState-cases g.state) [
            | inl here ↦ absurd (settled-here g here other)
            | inr before ↦ omega (arith, far, required, advance-calm g before other)
          ]
        ])
      ])

  -- From any state, with a streak below the requirement, as many ticks in a row as required that ask for NORMAL
  -- leave the gate in NORMAL, and more of them too.
  pub calm_ends :
      (n : ℕ) (g : DecisionGate F)
      → g.upgrade_streak < g.streak_required
      → g.streak_required ≤ n
      → (advance_all (replicate n normal) g).state ≡ normal
  calm_ends n g paced enough = calm_from n g paced (inr (omega arith))

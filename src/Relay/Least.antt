-- ===== src/Relay/Least.antt =====
-- The number of attempts from which the delay of a failed batch is computed.
use mathlib.Core.List.{Memᴰ}
use geo_notifications_servic.Prelude.{
  ℕ, ◌≡◌, refl, ◌≤◌, ◌⊎◌, inl, inr, sym, subst, true, false, List, [], ◌∷◌, All, All-imp,
  Bool-cases, ltb, arith,
}
use geo_notifications_servic.Outbox.{Event}
use geo_notifications_servic.Relay.{smallest, min_attempts}

-- The least number of attempts of some events, but one if that is less or there is none.
abbrev pub IsLeast : ℕ → List Event → Type 0
IsLeast m events =
    (1 ≤ m)
    × All (λ ev. (m ≤ ev.attempts) ⊎ (m ≡ 1)) events
    × (((events ≡ []) × (m ≡ 1)) ⊎ ((ev : Event) × Memᴰ ev events × (ev.attempts ≤ m)))

abbrev IsMin : ℕ → ℕ → List Event → Type 0
IsMin s least events =
    (s ≤ least)
    × All (λ ev. s ≤ ev.attempts) events
    × ((s ≡ least) ⊎ ((ev : Event) × Memᴰ ev events × (s ≡ ev.attempts)))

IsMin-less :
    (s least : ℕ) (e : Event) (es : List Event)
    → ltb e.attempts least ≡ true
    → IsMin s e.attempts es
    → IsMin s least (e ∷ es)
IsMin-less s least e es less (low, all, inl same) =
    (ground arith, (low, all), inr (e, Memᴰ.head refl, same))
IsMin-less s least e es less (low, all, inr (ev, here, same)) =
    (ground arith, (low, all), inr (ev, Memᴰ.tail here, same))

IsMin-more :
    (s least : ℕ) (e : Event) (es : List Event)
    → ltb e.attempts least ≡ false
    → IsMin s least es
    → IsMin s least (e ∷ es)
IsMin-more s least e es more (low, all, inl same) = (low, (ground arith, all), inl same)
IsMin-more s least e es more (low, all, inr (ev, here, same)) =
    (low, (ground arith, all), inr (ev, Memᴰ.tail here, same))

module _ (least : ℕ) (e : Event) (es : List Event) where
  smallest-less : ltb e.attempts least ≡ true → smallest least (e ∷ es) ≡ smallest e.attempts es
  unfolding smallest
  smallest-less h = rw h refl

  smallest-more : ltb e.attempts least ≡ false → smallest least (e ∷ es) ≡ smallest least es
  unfolding smallest
  smallest-more h = rw h refl

smallest-IsMin : (least : ℕ) (events : List Event) → IsMin (smallest least events) least events
unfolding smallest
smallest-IsMin least [] = (omega arith, tt, inl refl)
smallest-IsMin least (e ∷ es) = elim (Bool-cases (ltb e.attempts least)) [
  | inl less ↦
      subst (λ s. IsMin s least (e ∷ es)) (sym (smallest-less least e es less))
        (IsMin-less _ least e es less (smallest-IsMin e.attempts es))
  | inr more ↦
      subst (λ s. IsMin s least (e ∷ es)) (sym (smallest-more least e es more))
        (IsMin-more _ least e es more (smallest-IsMin least es))
]

smallest-reached :
    (e : Event) (es : List Event)
    → (ev : Event) × Memᴰ ev (e ∷ es) × (smallest e.attempts (e ∷ es) ≡ ev.attempts)
smallest-reached e es =
    let (low, all, where_) = smallest-IsMin e.attempts (e ∷ es) in
    elim where_ [ inl same ↦ (e, Memᴰ.head refl, same) | inr found ↦ found ]

min_attempts-few :
    (e : Event) (es : List Event)
    → ltb (smallest e.attempts (e ∷ es)) 1 ≡ true
    → min_attempts (e ∷ es) ≡ 1
unfolding min_attempts
min_attempts-few e es h = rw h refl

min_attempts-many :
    (e : Event) (es : List Event)
    → ltb (smallest e.attempts (e ∷ es)) 1 ≡ false
    → min_attempts (e ∷ es) ≡ smallest e.attempts (e ∷ es)
unfolding min_attempts
min_attempts-many e es h = rw h refl

pub min_attempts-IsLeast : (events : List Event) → IsLeast (min_attempts events) events
unfolding min_attempts
min_attempts-IsLeast [] = (omega arith, tt, inl (refl, refl))
min_attempts-IsLeast (e ∷ es) =
    let (low, all, _) = smallest-IsMin e.attempts (e ∷ es) in
    let (ev, here, same) = smallest-reached e es in
    elim (Bool-cases (ltb (smallest e.attempts (e ∷ es)) 1)) [
      | inl few ↦
          subst (λ s. IsLeast s (e ∷ es)) (sym (min_attempts-few e es few))
            (omega arith, All-imp (λ ev h. inr refl) (e ∷ es) all, inr (ev, here, ground arith))
      | inr many ↦
          subst (λ s. IsLeast s (e ∷ es)) (sym (min_attempts-many e es many))
            (ground arith, All-imp (λ ev h. inl h) (e ∷ es) all, inr (ev, here, ground arith))
    ]

-- ===== src/Workload/Chaos/Tracking/Accepted.antt =====
-- crates/workload/src/chaos.rs: the validation of a batch of grants, in the model and in the
-- kernel.
use muaddib.Prelude.{
  ℕ, suc, ◌≡◌, refl, sym, ap, subst, All, inl, inr, ◌⊎◌, true, some, List, [], ◌∷◌, Result, ok, err,
  get_elem?, length, any, Bool-cases, ◌==◌,
}
use muaddib.Map.{Map}
use muaddib.Map
use muaddib.Capability.Rights.{contains}
use muaddib.Capability.Rights
use muaddib.Capability.{Capability, Kernel, check, derive}
use muaddib.Capability
use muaddib.Capability.Check.{check_cases}
use muaddib.Memory.{RegionRegistry}
use muaddib.Process.{Process}
use muaddib.Process
use muaddib.Process.Transfer.{
  Grant, GrantError, note_transfer, resolve_one, resolve_each, conflicts, check_moves,
  resolve_grants, duplicate_transfer, move_conflict,
}
use muaddib.Process.Transfer
use muaddib.Workload.Chaos.{CapModel, RegionModel, predict_check}
use muaddib.Workload.Chaos.Ops.{GrantKind}
use muaddib.Workload.Chaos.World.{is_region}
use muaddib.Workload.Chaos.Predictions.{predict_check-check}
use muaddib.Workload.Chaos.Batches.{note_seen, model_one, model_each, to_grants}
use muaddib.Workload.Chaos.Tracking.{
  IsTracked, Models, models_region, models_channel, Models-Shadows,
}
use muaddib.Workload.Chaos.Tracking.Mirrors.{Mirrors, Mirrors-get}

-- A capability for each model.
pub data Pairs (regions : List RegionModel) (channel_objects : List ℕ)
    : List CapModel → List Capability → Type 0 where
  nil : Pairs regions channel_objects [] []
  cons :
      (m : CapModel) (c : Capability) (ms : List CapModel) (cs : List Capability)
      → Models regions channel_objects m c
      → Pairs regions channel_objects ms cs
      → Pairs regions channel_objects (m ∷ ms) (c ∷ cs)

-- Both refuse, or both accept with related values.
abbrev pub Agree {ℓ κ μ} :
    {E : Type ℓ} {A : Type κ} {B : Type μ}
    → (A → B → Type 0)
    → Result (Unit {0}) A
    → Result E B
    → Type (ℓ ⊔ κ ⊔ μ)
Agree {E = E} {A = A} {B = B} R model real =
    ((e : E) × (model ≡ err tt) × (real ≡ err e))
    ⊎ ((a : A) × (b : B) × (model ≡ ok a) × (real ≡ ok b) × R a b)

pub Models-rights :
    {regions : List RegionModel} {channel_objects : List ℕ} {m : CapModel} {c : Capability}
    → Models regions channel_objects m c
    → (m.rights ≡ c.rights)
      × ((rights : ℕ)
          → Models regions channel_objects
              (record m { rights = rights })
              (record c { rights = rights }))
Models-rights (models_region i m rights epoch at) = (refl, λ r. models_region i m r epoch at)
Models-rights (models_channel i object rights at) = (refl, λ r. models_channel i object r at)

module _ {regions : List RegionModel} {channel_objects : List ℕ} {k : Kernel} {r : RegionRegistry}
    (tracked : IsTracked regions channel_objects k r) where
  check_agrees :
      (m : CapModel) (c : Capability) (required : ℕ)
      → Models regions channel_objects m c
      → predict_check regions channel_objects m required ≡ check k c required
  check_agrees m c required models =
      predict_check-check regions channel_objects k r m c required (Models-Shadows tracked models)

  one_agrees :
      (source : Process) (table : Map CapModel) (h : ℕ) (kind : GrantKind)
      (gs : List (ℕ × GrantKind)) (m : CapModel) (c : Capability)
      → Models regions channel_objects m c
      → Process.capability source h ≡ some c
      → (g : Grant) × (to_grants ((h, kind) ∷ gs) ≡ g ∷ to_grants gs)
        × Agree
            (λ m' c'. Models regions channel_objects m' c' × (m'.obj ≡ m.obj))
            (model_one regions channel_objects m kind)
            (resolve_one k source g)
        × ((seen : List ℕ) → Agree (λ s t. s ≡ t) (note_seen seen h kind) (note_transfer seen g))
  unfolding to_grants model_one resolve_one note_seen note_transfer derive
  one_agrees source table h GrantKind.transfer gs m c models held = (
    Grant.transfer h,
    refl,
    inr (m, c, refl, rw held, (models, refl)),
    λ seen. elim (Bool-cases (any (λ j. h == j) seen)) [
      | inl twice ↦ inl (duplicate_transfer h, rw twice, rw twice)
      | inr once ↦ inr (h ∷ seen, h ∷ seen, rw once, rw once, refl)
    ],
  )
  one_agrees source table h GrantKind.move gs m c models held = (
    Grant.move h,
    refl,
    elim (check_cases k c Rights.destroy) [
      | inl (_, _, granted) ↦ inr (
        m,
        c,
        rw (check_agrees m c Rights.destroy models, granted),
        rw (held, granted),
        (models, refl),
      )
      | inr (e, refused) ↦ inl (
        Transfer.capability e,
        rw (check_agrees m c Rights.destroy models, refused),
        rw (held, refused),
      )
    ],
    λ seen. elim (Bool-cases (any (λ j. h == j) seen)) [
      | inl twice ↦ inl (duplicate_transfer h, rw twice, rw twice)
      | inr once ↦ inr (h ∷ seen, h ∷ seen, rw once, rw once, refl)
    ],
  )
  one_agrees source table h (GrantKind.derive rights) gs m c models held = (
    Grant.derive h rights,
    refl,
    (let (same, weaker) = Models-rights models in
        elim (check_cases k c Rights.grant) [
          | inr (e, refused) ↦ inl (
            Transfer.capability e,
            rw (check_agrees m c Rights.grant models, refused),
            rw (held, refused),
          )
          | inl (_, _, granted) ↦ elim (Bool-cases (contains c.rights rights)) [
            | inl within ↦ inr (
              record m { rights = rights },
              record c { rights = rights },
              rw (check_agrees m c Rights.grant models, granted, same, within),
              rw (held, granted, within),
              (weaker rights, refl),
            )
            | inr beyond ↦ inl (
              Transfer.capability (Capability.cannot_amplify c.object c.rights rights),
              rw (check_agrees m c Rights.grant models, granted, same, beyond),
              rw (held, granted, beyond),
            )
          ]
        ]),
    λ seen. inr (seen, seen, refl, refl, refl),
  )

  pub each_agrees :
      (source : Process) (table : Map CapModel) (seen : List ℕ) (gs : List (ℕ × GrantKind))
      → Mirrors regions channel_objects table source.capabilities
      → ((i h : ℕ) (kind : GrantKind)
          → get_elem? gs i ≡ some (h, kind)
          → (m : CapModel) × (Map.get h table ≡ some m) × (is_region m.obj ≡ true))
      → Agree
          (λ ms cs.
            Pairs regions channel_objects ms cs
            × (length ms ≡ length gs)
            × All (λ m. is_region m.obj ≡ true) ms)
          (model_each regions channel_objects table seen gs)
          (resolve_each k source seen (to_grants gs))
  unfolding model_each resolve_each to_grants Process.capability
  each_agrees source table seen [] mirrors held = inr ([], [], refl, refl, (nil, refl, tt))
  each_agrees source table seen ((h, kind) ∷ gs) mirrors held =
      let (m, found, isr) = held 0 h kind refl in
      let (c, real, models) = Mirrors-get mirrors h m found in
      let (g, split, one, notes) = one_agrees source table h kind gs m c models real in
      rw (split, found)
        (elim (notes seen) [
          | inl (x, e, e') ↦ rw (e, e') (inl (x, refl, refl))
          | inr (seen₁, seen₂, e, e', same) ↦
              rw (e, e', same)
                (elim one [
                  | inl (x, e₁, e₂) ↦ rw (e₁, e₂) (inl (x, refl, refl))
                  | inr (m', c', e₁, e₂, (models', obj)) ↦
                      rw (e₁, e₂)
                        (elim (each_agrees source table seen₂ gs mirrors (λ i. held (suc i))) [
                          | inl (x, e₃, e₄) ↦ rw (e₃, e₄) (inl (x, refl, refl))
                          | inr (ms, cs, e₃, e₄, (pairs, long, all)) ↦
                              rw (e₃, e₄)
                                (inr (
                                  m' ∷ ms,
                                  c' ∷ cs,
                                  refl,
                                  refl,
                                  (
                                    cons m' c' ms cs models' pairs,
                                    ap suc long,
                                    (subst (λ o. is_region o ≡ true) (sym obj) isr, all),
                                  ),
                                ))
                        ])
                ])
        ])

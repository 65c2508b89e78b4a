-- ===== src/Workload/Chaos/Tracking/Moved.antt =====
-- crates/workload/src/chaos.rs: the conflicts of a move, in the model and in the kernel.
use muaddib.Prelude.{
  ℕ, zero, suc, ◌+◌, ◌≡◌, refl, sym, ap, All, ◌∙◌, inl, inr, true, false, not, ◌&&◌, some, List, [],
  ◌∷◌, ok, ◌>>=◌, ◌>>◌, get_elem?, length, arith, Bool-cases, Option-cases, ◌==◌, eq_of_some, ◌≤◌,
  length-le_of_none,
}
use muaddib.Map.{Map}
use muaddib.Map
use muaddib.Capability.{Capability, Kernel}
use muaddib.Memory.{RegionRegistry}
use muaddib.Process.{Process}
use muaddib.Process.Transfer.{conflicts, check_moves, resolve_grants, move_conflict}
use muaddib.Workload.Chaos.{CapModel, RegionModel}
use muaddib.Workload.Chaos.Ops.{GrantKind}
use muaddib.Workload.Chaos.World.{is_region}
use muaddib.Workload.Chaos.Batches.{model_each, model_conflicts, model_moves, same_obj, to_grants}
use muaddib.Workload.Chaos.Tracking.{IsTracked, Models, models_region, models_channel}
use muaddib.Workload.Chaos.Tracking.Mirrors.{Mirrors}
use muaddib.Workload.Chaos.Tracking.Accepted.{Pairs, nil, cons, Agree, each_agrees}

pub Pairs-get :
    {regions : List RegionModel} {channel_objects : List ℕ} {ms : List CapModel}
    {cs : List Capability}
    → Pairs regions channel_objects ms cs
    → (i : ℕ) (m : CapModel) → get_elem? ms i ≡ some m
    → (c : Capability) × (get_elem? cs i ≡ some c) × Models regions channel_objects m c
Pairs-get nil i m e = cc
Pairs-get (cons n c ms cs models rest) zero m e =
    let same : n ≡ m = eq_of_some e in (c, refl, rw (sym same) models)
Pairs-get (cons n c ms cs models rest) (suc i) m e = Pairs-get rest i m e

same_test : (a b : ℕ) → (a ≡ b) → (a == b) ≡ true
same_test a b e = ground arith

other_test : (a b : ℕ) → ¬ (a ≡ b) → (a == b) ≡ false
other_test a b e = ground arith

module _ {regions : List RegionModel} {channel_objects : List ℕ} {k : Kernel} {r : RegionRegistry}
    (tracked : IsTracked regions channel_objects k r) where
  -- Two capabilities name one object exactly when their models do.
  same_obj-object :
      (m n : CapModel) (c d : Capability)
      → Models regions channel_objects m c
      → Models regions channel_objects n d
      → same_obj m.obj n.obj ≡ (c.object == d.object)
  same_obj-object _ _ _ _ (models_region i m r₁ e₁ at) (models_channel j o r₂ at') =
      sym (other_test m.object o (tracked.kinds_apart i j o m at at'))
  same_obj-object _ _ _ _ (models_channel j o r₂ at') (models_region i m r₁ e₁ at) =
      sym (other_test o m.object (λ h. tracked.kinds_apart i j o m at at' (sym h)))
  same_obj-object _ _ _ _ (models_region i m r₁ e₁ at) (models_region j n r₂ e₂ at') =
      elim (Bool-cases (i == j)) [
        | inl here ↦
            let e : i ≡ j = ground arith in
            let one : m ≡ n = eq_of_some (sym at ∙ ap (get_elem? regions) e ∙ at') in
            here ∙ sym (same_test m.object n.object (ap (λ x. RegionModel.object x) one))
        | inr other ↦
            other
            ∙ sym (
                other_test m.object n.object λ h.
                  let e : i ≡ j = tracked.regions_apart i j m n at at' h in
                  let t = same_test i j e in cc)
      ]
  same_obj-object _ _ _ _ (models_channel i o r₁ at) (models_channel j o' r₂ at') =
      elim (Bool-cases (j == i)) [
        | inl here ↦
            let e : j ≡ i = ground arith in
            let one : o ≡ o' = eq_of_some (sym at ∙ ap (get_elem? channel_objects) (sym e) ∙ at') in
            here ∙ sym (same_test o o' one)
        | inr other ↦
            other
            ∙ sym (
                other_test o o' λ h.
                  let e : j ≡ i = tracked.channels_apart j i o' at' (at ∙ ap some h) in
                  let t = same_test j i e in cc)
      ]

  conflicts_agree :
      (i j : ℕ) (n : CapModel) (d : Capability) (ms : List CapModel) (cs : List Capability)
      → Models regions channel_objects n d
      → Pairs regions channel_objects ms cs
      → model_conflicts i n.obj j ms ≡ conflicts i d.object j cs
  unfolding model_conflicts conflicts
  conflicts_agree i j n d _ _ moved nil = refl
  conflicts_agree i j n d _ _ moved (cons m c ms cs models rest) =
      rw (model_conflicts, same_obj-object m n c d models moved)
        (elim (Bool-cases (not (j == i) && (c.object == d.object))) [
          | inl clash ↦ rw (conflicts, clash) refl
          | inr free ↦ rw (conflicts, free) (conflicts_agree i (suc j) n d ms cs moved rest)
        ])

  moves-Agree :
      (ms : List CapModel) (cs : List Capability) (i : ℕ) (gs : List (ℕ × GrantKind))
      → Pairs regions channel_objects ms cs
      → i + length gs ≤ length ms
      → Agree (λ a b. Unit {0}) (model_moves ms i gs) (check_moves cs i (to_grants gs))
  unfolding model_moves check_moves to_grants
  moves-Agree ms cs i [] pairs fits = inr (tt, tt, refl, refl, tt)
  moves-Agree ms cs i ((h, GrantKind.transfer) ∷ gs) pairs fits =
      moves-Agree ms cs (suc i) gs pairs (omega arith)
  moves-Agree ms cs i ((h, GrantKind.derive rights) ∷ gs) pairs fits =
      moves-Agree ms cs (suc i) gs pairs (omega arith)
  moves-Agree ms cs i ((h, GrantKind.move) ∷ gs) pairs fits = elim (Option-cases (get_elem? ms i)) [
    | inl short ↦ absurd (omega (arith, length-le_of_none ms i short))
    | inr (m, at) ↦
        let (c, at', models) = Pairs-get pairs i m at in
        rw (at, at', conflicts_agree i 0 m c ms cs models pairs)
          (elim (Bool-cases (conflicts i c.object 0 cs)) [
            | inl clash ↦ rw clash (inl (move_conflict c.object, refl, refl))
            | inr free ↦ rw free (moves-Agree ms cs (suc i) gs pairs (omega arith))
          ])
  ]

  -- The two loops that validate a batch.
  pub validation_agrees :
      (source : Process) (table : Map CapModel) (gs : List (ℕ × GrantKind))
      → Mirrors regions channel_objects table source.capabilities
      → ((i h : ℕ) (kind : GrantKind)
          → get_elem? gs i ≡ some (h, kind)
          → (m : CapModel) × (Map.get h table ≡ some m) × (is_region m.obj ≡ true))
      → Agree
          (λ ms cs.
            Pairs regions channel_objects ms cs
            × (length ms ≡ length gs)
            × All (λ m. is_region m.obj ≡ true) ms)
          (model_each regions channel_objects table [] gs >>= λ ms. model_moves ms 0 gs >> ok ms)
          (resolve_grants k source (to_grants gs))
  unfolding resolve_grants
  validation_agrees source table gs mirrors held =
      elim (each_agrees tracked source table [] gs mirrors held) [
        | inl (x, e, e') ↦ rw (e, e') (inl (x, refl, refl))
        | inr (ms, cs, e, e', (pairs, long, all)) ↦
            rw (e, e')
              (elim (moves-Agree ms cs 0 gs pairs (omega arith)) [
                | inl (x, f, f') ↦ rw (f, f') (inl (x, refl, refl))
                | inr (_, _, f, f', _) ↦ rw (f, f') (inr (ms, cs, refl, refl, (pairs, long, all)))
              ])
      ]

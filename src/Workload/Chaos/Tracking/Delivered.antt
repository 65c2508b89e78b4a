-- ===== src/Workload/Chaos/Tracking/Delivered.antt =====
-- crates/workload/src/chaos.rs: an accepted batch, in the model and in the kernel.
use muaddib.Prelude.{
  ℕ, suc, ◌≡◌, refl, inl, inr, ◌⊎◌, true, some, List, [], ◌∷◌, Result, ok, err, panic, ◌>>=◌, ◌>>◌,
  get_elem?, length, arith, next_u64,
}
use muaddib.Map.{Map}
use muaddib.Map
use muaddib.Map.Laws.{get-insert_self, get-insert_ne}
use muaddib.Map.Size.{RisesFrom, remove-RisesFrom}
use muaddib.Capability.{Capability, Kernel, check}
use muaddib.Capability.Rights
use muaddib.Capability.Revocation.{bumped}
use muaddib.Memory.{RegionRegistry}
use muaddib.Process.{Process}
use muaddib.Process.Transfer.{GrantError, resolve_grants, apply_grants}
use muaddib.Process.Transfer.Resolved.{AreApart, resolve_grants-eq_ok}
use muaddib.Process.Transfer.Applied.{
  strip, bump_all, delivered, moved, stripped, MovesPass, AreApart-tail, MovesPass-bumped,
  ResolvesAll-MovesPass, apply-resolve,
}
use muaddib.Workload.Chaos.{CapModel, RegionModel}
use muaddib.Workload.Chaos.Ops.{GrantKind}
use muaddib.Workload.Chaos.World.{is_region}
use muaddib.Workload.Chaos.Batches.{
  model_bump, model_apply, model_each, model_moves, model_batch, to_grants,
}
use muaddib.Workload.Chaos.Tracking.{Models, models_region, models_channel}
use muaddib.Workload.Chaos.Tracking.Access.{granted_alive}
use muaddib.Workload.Chaos.Tracking.Answered.{KeepsUp, Keeps, KeepsUp-replaced}
use muaddib.Workload.Chaos.Tracking.Mirrors.{Mirrors, Mirrors-remove, Mirrors-Keeps, All-get}
use muaddib.Workload.Chaos.Tracking.Accepted.{Pairs, nil, cons}
use muaddib.Workload.Chaos.Tracking.Moved.{validation_agrees}

Pairs-Keeps :
    {regions regions' : List RegionModel} {channel_objects : List ℕ} {ms : List CapModel}
    {cs : List Capability}
    → Keeps regions regions' channel_objects
    → Pairs regions channel_objects ms cs
    → Pairs regions' channel_objects ms cs
Pairs-Keeps keeps nil = nil
Pairs-Keeps keeps (cons m c ms cs models rest) =
    cons m c ms cs (keeps m c models) (Pairs-Keeps keeps rest)

-- Every move is of a region.
abbrev pub MovesRegions : List (ℕ × GrantKind) → List CapModel → Type 0
MovesRegions gs ms =
    (i h : ℕ) (m : CapModel)
    → get_elem? gs i ≡ some (h, GrantKind.move)
    → get_elem? ms i ≡ some m
    → is_region m.obj ≡ true

-- What the model's batch left, beside what the kernel's did.
pub record Applies (regions : List RegionModel) (channel_objects : List ℕ) (r : RegionRegistry)
    (epochs : Kernel) (table : Map Capability) (arrived : List Capability)
    (model : Result (Unit {0}) (Map CapModel × List RegionModel × List CapModel)) : Type 0 where
  pub table' : Map CapModel
  pub regions' : List RegionModel
  pub models : List CapModel
  pub result : model ≡ ok (table', regions', models)
  pub up : KeepsUp regions' channel_objects epochs r
  pub keeps : Keeps regions regions' channel_objects
  pub rises : RisesFrom 0 table'
  pub mirrors : Mirrors regions' channel_objects table' table
  pub pairs : Pairs regions' channel_objects models arrived

model_bump-bumped :
    {regions : List RegionModel} {channel_objects : List ℕ} {k : Kernel} {r : RegionRegistry}
    (m : CapModel) (c : Capability)
    → KeepsUp regions channel_objects k r
    → Models regions channel_objects m c
    → is_region m.obj ≡ true
    → check k c Rights.destroy ≡ ok tt
    → (regions' : List RegionModel) × (model_bump regions m m.obj
        ≡ ok (regions', record m { epoch = next_u64 c.epoch }))
      × KeepsUp regions' channel_objects (bumped k c.object c.epoch) r
      × Keeps regions regions' channel_objects
      × Models regions' channel_objects
          (record m { epoch = next_u64 c.epoch })
          (record c { epoch = next_u64 c.epoch })
unfolding model_bump
model_bump-bumped m c up (models_channel i object rights at) isr granted = absurd (cc isr)
model_bump-bumped {k = k} {r = r} m c up (models_region i model rights epoch at) isr granted =
    let (alive, now) = granted_alive up.tracked i model rights epoch Rights.destroy at granted in
    let (regions', done, up', keeps, at') =
      KeepsUp-replaced {E = Unit {0}} (λ n. record n { epoch = next_u64 n.epoch }) i model
        {k' = bumped k model.object epoch} {r' = r} at refl up
        (
          rw (now, alive) (get-insert_self model.object (next_u64 model.epoch) k.epochs),
          up.tracked.region_bytes i model at,
        )
        (λ o other. (get-insert_ne o model.object (next_u64 epoch) k.epochs other, refl)) refl
        up.stocked.rises refl in
    (
      regions',
      rw (done, at', now),
      up',
      keeps,
      models_region i (record model { epoch = next_u64 model.epoch }) rights (next_u64 epoch) at',
    )

apply_agrees :
    (gs : List (ℕ × GrantKind)) {regions : List RegionModel} {channel_objects : List ℕ} {k : Kernel}
    {r : RegionRegistry} (ms : List CapModel) (cs : List Capability) (table : Map CapModel)
    (real : Map Capability)
    → KeepsUp regions channel_objects k r
    → RisesFrom 0 table
    → Mirrors regions channel_objects table real
    → Pairs regions channel_objects ms cs
    → length ms ≡ length gs
    → MovesRegions gs ms
    → AreApart (to_grants gs) cs
    → MovesPass k (to_grants gs) cs
    → Applies regions channel_objects r
        (moved k (to_grants gs) cs)
        (strip (to_grants gs) real)
        (delivered (to_grants gs) cs)
        (model_apply table regions gs ms)
unfolding model_apply strip bump_all delivered to_grants
apply_agrees [] ms cs table real up rises mirrors pairs long isr apart pass = record {
  table' = table;
  regions' = _;
  models = ms;
  result = refl;
  up = up;
  keeps = λ m c h. h;
  rises = rises;
  mirrors = mirrors;
  pairs = pairs;
}
apply_agrees (g ∷ gs) _ _ table real up rises mirrors nil long isr apart pass = absurd (omega arith)
apply_agrees ((h, GrantKind.transfer) ∷ gs) _ _ table real up rises mirrors
      (cons m c ms cs models rest) long isr apart pass =
    let a =
      apply_agrees gs ms cs (Map.remove h table) (Map.remove h real) up
        (remove-RisesFrom 0 h table rises) (Mirrors-remove h mirrors) rest (omega arith)
        (λ i. isr (suc i)) (AreApart-tail _ c (to_grants gs) cs apart) (λ i. pass (suc i)) in
    record {
      table' = a.table';
      regions' = a.regions';
      models = m ∷ a.models;
      result = rw a.result;
      up = a.up;
      keeps = a.keeps;
      rises = a.rises;
      mirrors = a.mirrors;
      pairs = cons m c a.models _ (a.keeps m c models) a.pairs;
    }
apply_agrees ((h, GrantKind.derive rights) ∷ gs) _ _ table real up rises mirrors
      (cons m c ms cs models rest) long isr apart pass =
    let a =
      apply_agrees gs ms cs table real up rises mirrors rest (omega arith) (λ i. isr (suc i))
        (AreApart-tail _ c (to_grants gs) cs apart) (λ i. pass (suc i)) in
    record {
      table' = a.table';
      regions' = a.regions';
      models = m ∷ a.models;
      result = rw a.result;
      up = a.up;
      keeps = a.keeps;
      rises = a.rises;
      mirrors = a.mirrors;
      pairs = cons m c a.models _ (a.keeps m c models) a.pairs;
    }
apply_agrees ((h, GrantKind.move) ∷ gs) {k = k} _ _ table real up rises mirrors
      (cons m c ms cs models rest) long isr apart pass =
    let (regions₁, done, up₁, keeps₁, models₁) =
      model_bump-bumped m c up models (isr 0 h m refl refl) (pass 0 h c refl refl) in
    let a =
      apply_agrees gs ms cs (Map.remove h table) (Map.remove h real) up₁
        (remove-RisesFrom 0 h table rises) (Mirrors-Keeps keeps₁ (Mirrors-remove h mirrors))
        (Pairs-Keeps keeps₁ rest) (omega arith) (λ i. isr (suc i))
        (AreApart-tail _ c (to_grants gs) cs apart)
        (MovesPass-bumped k h c (to_grants gs) cs apart pass) in
    record {
      table' = a.table';
      regions' = a.regions';
      models = record m { epoch = next_u64 c.epoch } ∷ a.models;
      result = rw (done, a.result);
      up = a.up;
      keeps = λ n d held. a.keeps n d (keeps₁ n d held);
      rises = a.rises;
      mirrors = a.mirrors;
      pairs =
          cons (record m { epoch = next_u64 c.epoch }) (record c { epoch = next_u64 c.epoch })
            a.models _ (a.keeps _ _ models₁) a.pairs;
    }

-- The batch is rejected by both, or changes both alike.
abbrev pub Batched :
    List RegionModel
    → List ℕ
    → Kernel
    → RegionRegistry
    → Process
    → Map CapModel
    → List (ℕ × GrantKind)
    → Type 0
Batched regions channel_objects k r source table gs =
    let model = model_batch regions channel_objects table gs in
    let real = resolve_grants k source (to_grants gs) in
    ((e : GrantError) × (model ≡ err tt) × (real ≡ err e))
    ⊎ ((cs : List Capability) × (real ≡ ok cs)
        × (apply_grants k source (to_grants gs) cs
            ≡ ok (
              moved k (to_grants gs) cs,
              stripped source (to_grants gs),
              delivered (to_grants gs) cs,
            ))
        × Applies regions channel_objects r (moved k (to_grants gs) cs)
            (strip (to_grants gs) source.capabilities) (delivered (to_grants gs) cs) model)

>>-split {ℓ κ μ} :
    {E : Type ℓ} {A : Type κ} {B : Type μ} (u : Result E (Unit {0})) (a : A) (g : A → Result E B)
    → (u >> g a) ≡ ((u >> ok a) >>= g)
>>-split (ok _) a g = refl
>>-split (err e) a g = refl
>>-split panic a g = refl

-- The parts of `model_batch` that validate and that apply.
batch_parts {ℓ κ μ} :
    {E : Type ℓ} {A : Type κ} {B : Type μ} (x : Result E A) (f : A → Result E (Unit {0}))
    (g : A → Result E B)
    → (x >>= λ a. f a >> g a) ≡ ((x >>= λ a. f a >> ok a) >>= g)
batch_parts (err e) f g = refl
batch_parts panic f g = refl
batch_parts (ok a) f g = >>-split (f a) a g

-- In a tracked world, the model of a batch of grants of regions rejects it exactly when the kernel
-- does, whatever its duplicates, conflicts and amplifications; else the kernel's side effects do not
-- fail, and the table, the epochs and the capabilities that they leave are those of the model.
pub model_batch-Batched :
    {regions : List RegionModel} {channel_objects : List ℕ} {k : Kernel} {r : RegionRegistry}
    (source : Process) (table : Map CapModel) (gs : List (ℕ × GrantKind))
    → KeepsUp regions channel_objects k r
    → RisesFrom 0 table
    → Mirrors regions channel_objects table source.capabilities
    → ((i h : ℕ) (kind : GrantKind)
        → get_elem? gs i ≡ some (h, kind)
        → (m : CapModel) × (Map.get h table ≡ some m) × (is_region m.obj ≡ true))
    → Batched regions channel_objects k r source table gs
unfolding model_batch
model_batch-Batched {regions} {channel_objects} {k} source table gs up rises mirrors held =
    rw
      (batch_parts (model_each regions channel_objects table [] gs) (λ ms. model_moves ms 0 gs)
        (λ ms. model_apply table regions gs ms))
      (elim (validation_agrees up.tracked source table gs mirrors held) [
        | inl (x, e, e') ↦ inl (x, rw e, e')
        | inr (ms, cs, e, e', (pairs, long, all)) ↦
            let (resolves, apart) = resolve_grants-eq_ok k source (to_grants gs) cs e' in
            inr (
              cs,
              e',
              apply-resolve k source (to_grants gs) cs e',
              rw e (
                  apply_agrees gs ms cs table source.capabilities up rises mirrors pairs long
                    (λ i h m _ at. All-get (λ m. is_region m.obj ≡ true) ms i all at) apart
                    (ResolvesAll-MovesPass resolves)),
            )
      ])

-- ===== src/Workload/Chaos/Tracking/Answered.antt =====
-- crates/workload/src/chaos.rs: the harness's world after an access.
use muaddib.Prelude.{
  ℕ, zero, suc, ◌+◌, ◌≤◌, ◌<◌, ◌≡◌, refl, ◌∙◌, none, some, Bool, true, false, List, [], ◌∷◌, Result,
  ok, get_elem?, length, filter, arith, >>=-eq_ok, eq_of_some,
}
use muaddib.Map
use muaddib.Map.Size.{RisesFrom}
use muaddib.Capability.{Capability, Kernel}
use muaddib.Memory.{RegionRegistry}
use muaddib.Workload.Chaos.{CapModel, RegionModel}
use muaddib.Workload.Chaos.Failures.{Failure}
use muaddib.Workload.Chaos.World.{World, ChaosSummary, Entry, modify, outcome, log}
use muaddib.Workload.Chaos.Tracking.{
  IsTracked, Models, modify-ok, replaced, Models-replaced, IsTracked-replaced, Says, SameBut,
}
use muaddib.Workload.Chaos.Execute.Access.{note_access}

-- The registry holds the live regions and no others, and the next identifier is above all.
pub record IsStocked (regions : List RegionModel) (channel_objects : List ℕ) (k : Kernel)
    (r : RegionRegistry) : Type 0 where
  pub rises : RisesFrom 0 r.regions
  pub counted : Map.len r.regions ≡ length (filter (λ m. m.alive) regions)
  pub unused : (o : ℕ) → k.next_id ≤ o → Map.get o r.regions ≡ none
  pub regions_below :
      (i : ℕ) (m : RegionModel) → get_elem? regions i ≡ some m → m.object < k.next_id
  pub channels_below : (c o : ℕ) → get_elem? channel_objects c ≡ some o → o < k.next_id

-- The model keeps up with the kernel.
pub record KeepsUp (regions : List RegionModel) (channel_objects : List ℕ) (k : Kernel)
    (r : RegionRegistry) : Type 0 where
  pub tracked : IsTracked regions channel_objects k r
  pub stocked : IsStocked regions channel_objects k r

-- Every pair of a model and a capability that belonged together still does.
abbrev pub Keeps : List RegionModel → List RegionModel → List ℕ → Type 0
Keeps regions regions' channel_objects =
    (m : CapModel) (c : Capability)
    → Models regions channel_objects m c
    → Models regions' channel_objects m c

-- The check passed: it left a world that differs in what an access may change, in which the
-- model keeps up.
pub data Tolerates (w : World) : Result Failure World → Type 0 where
  tolerated :
      (k : Kernel) (mem : RegionRegistry) (regions : List RegionModel) (summary : ChaosSummary)
      (log_hash : ℕ)
      → KeepsUp regions w.channel_objects k mem
      → Keeps w.regions regions w.channel_objects
      → k.next_id ≡ w.k.next_id
      → Tolerates w (
          ok (record w {
            k = k;
            mem = mem;
            regions = regions;
            summary = summary;
            log_hash = log_hash;
          }))

abbrev pub count : Bool → ℕ
count true = 1
count false = 0

pub filter-modify {ℓ κ} :
    {E : Type ℓ} {A : Type κ} (p : A → Bool) (f : A → A) (i : ℕ) (xs ys : List A) {a : A}
    → get_elem? xs i ≡ some a
    → modify {E = E} f i xs ≡ ok ys
    → length (filter p ys) + count (p a) ≡ length (filter p xs) + count (p (f a))
unfolding modify
filter-modify p f i [] ys h e = cc
filter-modify p f zero (x ∷ xs) ys {a = a} h e =
    let same : x ≡ a = eq_of_some h in
    let new : ys ≡ f x ∷ xs = ground arith in rw (new, same) (ground arith)
filter-modify {E = E} p f (suc i) (x ∷ xs) ys h e =
    let (zs, e₁, e₂) = >>=-eq_ok (modify {E = E} f i xs) _ e in
    let new : ys ≡ x ∷ zs = ground arith in
    rw new (ground (arith, filter-modify {E = E} p f i xs zs h e₁))

-- The same change of one region in the kernel and in the model.
pub KeepsUp-replaced {ℓ} :
    {E : Type ℓ} (f : RegionModel → RegionModel) (i : ℕ) (m : RegionModel)
    {regions : List RegionModel} {channel_objects : List ℕ} {k k' : Kernel} {r r' : RegionRegistry}
    → get_elem? regions i ≡ some m
    → (f m).object ≡ m.object
    → KeepsUp regions channel_objects k r
    → Says (f m) k' r'
    → SameBut m.object k r k' r'
    → k'.next_id ≡ k.next_id
    → RisesFrom 0 r'.regions
    → Map.len r'.regions + count m.alive ≡ Map.len r.regions + count (f m).alive
    → (regions' : List RegionModel) × (modify {E = E} f i regions ≡ ok regions')
      × KeepsUp regions' channel_objects k' r'
      × Keeps regions regions' channel_objects
      × (get_elem? regions' i ≡ some (f m))
KeepsUp-replaced {E = E} f i m {regions = regions} {channel_objects = channel_objects} {k = k}
      {k' = k'} {r = r} {r' = r'} at object up says but next rises counted =
    let (regions', e, put, _) = modify-ok {E = E} f i regions at in
    let s = up.stocked in
    (
      regions',
      e,
      record {
        tracked = IsTracked-replaced regions regions' i m (f m) at object put up.tracked says but;
        stocked = record {
          rises = rises;
          counted = omega (
            arith,
            counted,
            s.counted,
            filter-modify {E = E} (λ n. n.alive) f i regions regions' at e,
          );
          unused = λ o above.
              let below = s.regions_below i m at in
              (but o (λ h. omega (arith, h, below, next, above))).1 ∙ s.unused o (omega arith);
          regions_below = λ j n found.
              let (n₀, e₀, o₀) = replaced regions regions' i m (f m) at object put j n found in
              omega (arith, s.regions_below j n₀ e₀, o₀, next);
          channels_below = λ c o found. omega (arith, s.channels_below c o found, next);
        };
      },
      λ cm c models. Models-replaced regions regions' i m (f m) at object put models,
      ground (arith, put i),
    )

-- An access is noted in the summary and the log alone.
pub note_access_lem :
    (render : Entry → List ℕ) (w : World) (name : ℕ) (stale passed refused : Bool) (entry : Entry)
    → (summary : ChaosSummary) × (log_hash : ℕ) × (note_access render w name stale passed refused
          entry
        ≡ record w { summary = summary; log_hash = log_hash })
unfolding note_access outcome log
note_access_lem render w name stale passed refused entry = (_, _, refl)

-- ===== src/Workload/Chaos/Tracking/Allocated.antt =====
-- crates/workload/src/chaos.rs: a fresh region or channel, in the kernel and in the model.
use muaddib.Prelude.{
  ℕ, zero, suc, ◌<◌, ◌≤◌, ◌≡◌, ◌≢◌, refl, sym, ap, ◌∙◌, inl, inr, ◌⊎◌, Bool, true, none, some, List,
  [], ◌∷◌, ◌++◌, get_elem?, length, filter, arith, Bool-cases, eq_of_some, u64_mod, next_u64,
}
use muaddib.Map
use muaddib.Map.Laws.{get-insert_self, get-insert_ne}
use muaddib.Map.Size.{insert-RisesFrom, len-insert}
use muaddib.Capability.{Capability, Kernel}
use muaddib.Memory.{RegionRegistry}
use muaddib.Workload.Chaos.{CapModel, RegionModel}
use muaddib.Workload.Chaos.Tracking.{Models, models_region, models_channel}
use muaddib.Workload.Chaos.Tracking.Answered.{KeepsUp, Keeps}

module _ {ℓ} {A : Type ℓ} where
  -- An entry of a list with one more item is an old entry or the new item at the end.
  pub get_elem?_last :
      (xs : List A) (a b : A) (i : ℕ)
      → get_elem? (xs ++ a ∷ []) i ≡ some b
      → (get_elem? xs i ≡ some b) ⊎ ((i ≡ length xs) × (a ≡ b))
  get_elem?_last [] a b zero e = inr (refl, eq_of_some e)
  get_elem?_last [] a b (suc i) e = absurd (let f : none ≡ some b = e in cc)
  get_elem?_last (x ∷ xs) a b zero e = inl e
  get_elem?_last (x ∷ xs) a b (suc i) e = elim (get_elem?_last xs a b i e) [
    | inl old ↦ inl old
    | inr (here, same) ↦ inr (ap suc here, same)
  ]

  pub get_elem?_old :
      (xs ys : List A) (a : A) (i : ℕ) → get_elem? xs i ≡ some a → get_elem? (xs ++ ys) i ≡ some a
  get_elem?_old [] ys a i e = cc
  get_elem?_old (x ∷ xs) ys a zero e = e
  get_elem?_old (x ∷ xs) ys a (suc i) e = get_elem?_old xs ys a i e

  pub get_elem?_new : (xs : List A) (a : A) → get_elem? (xs ++ a ∷ []) (length xs) ≡ some a
  get_elem?_new [] a = refl
  get_elem?_new (x ∷ xs) a = get_elem?_new xs a

  filter-append :
      (p : A → Bool) (xs : List A) (a : A)
      → p a ≡ true
      → length (filter p (xs ++ a ∷ [])) ≡ suc (length (filter p xs))
  filter-append p [] a h = rw h refl
  filter-append p (x ∷ xs) a h = elim (Bool-cases (p x)) [
    | inl keeps ↦ rw keeps (ap suc (filter-append p xs a h))
    | inr drops ↦ rw drops (filter-append p xs a h)
  ]

-- The kernel with a fresh object.
abbrev pub allocated : Kernel → Kernel
allocated k = record { next_id = next_u64 k.next_id; epochs = Map.insert k.next_id 0 k.epochs }

Models-longer :
    {regions : List RegionModel} {channel_objects : List ℕ} (n : RegionModel) (m : CapModel)
    (c : Capability)
    → Models regions channel_objects m c
    → Models (regions ++ n ∷ []) channel_objects m c
Models-longer {regions = regions} n m c (models_region i model rights epoch at) =
    models_region i model rights epoch (get_elem?_old regions (n ∷ []) model i at)
Models-longer n m c (models_channel i object rights at) = models_channel i object rights at

module _ {regions : List RegionModel} {channel_objects : List ℕ} {k : Kernel} {r : RegionRegistry}
    (up : KeepsUp regions channel_objects k r) (room : suc k.next_id < u64_mod) where
  region_old : (i : ℕ) (m : RegionModel) → get_elem? regions i ≡ some m → m.object ≢ k.next_id
  region_old i m at h = omega (arith, up.stocked.regions_below i m at, h)

  channel_old : (c o : ℕ) → get_elem? channel_objects c ≡ some o → o ≢ k.next_id
  channel_old c o at h = omega (arith, up.stocked.channels_below c o at, h)

  pub KeepsUp-region :
      (bytes : List ℕ)
      → let m : RegionModel = record {
        object = k.next_id;
        alive = true;
        epoch = 0;
        bytes = bytes;
      } in
        KeepsUp
          (regions ++ m ∷ [])
          channel_objects
          (allocated k)
          (record { regions = Map.insert k.next_id bytes r.regions })
        × Keeps regions (regions ++ m ∷ []) channel_objects
  KeepsUp-region bytes =
      let m : RegionModel = record { object = k.next_id; alive = true; epoch = 0; bytes = bytes } in
      (
        record {
          tracked = record {
            region_epoch = λ i n at. elim (get_elem?_last regions m n i at) [
              | inl old ↦
                  get-insert_ne n.object k.next_id 0 k.epochs (region_old i n old)
                  ∙ up.tracked.region_epoch i n old
              | inr (_, same) ↦ rw (sym same) (get-insert_self k.next_id 0 k.epochs)
            ];
            region_bytes = λ i n at. elim (get_elem?_last regions m n i at) [
              | inl old ↦
                  get-insert_ne n.object k.next_id bytes r.regions (region_old i n old)
                  ∙ up.tracked.region_bytes i n old
              | inr (_, same) ↦ rw (sym same) (get-insert_self k.next_id bytes r.regions)
            ];
            channel_epoch = λ c o at.
                get-insert_ne o k.next_id 0 k.epochs (channel_old c o at)
                ∙ up.tracked.channel_epoch c o at;
            channel_bytes = λ c o at.
                get-insert_ne o k.next_id bytes r.regions (channel_old c o at)
                ∙ up.tracked.channel_bytes c o at;
            regions_apart = λ i j n n' at at' h. elim (get_elem?_last regions m n i at) [
              | inl old ↦ elim (get_elem?_last regions m n' j at') [
                | inl old' ↦ up.tracked.regions_apart i j n n' old old' h
                | inr (_, same) ↦
                    absurd (region_old i n old (h ∙ ap (λ x. RegionModel.object x) (sym same)))
              ]
              | inr (here, same) ↦ elim (get_elem?_last regions m n' j at') [
                | inl old' ↦
                    absurd
                      (region_old j n' old' (sym h ∙ ap (λ x. RegionModel.object x) (sym same)))
                | inr (here', _) ↦ here ∙ sym here'
              ]
            ];
            channels_apart = up.tracked.channels_apart;
            kinds_apart = λ i c o n at at' h. elim (get_elem?_last regions m n i at) [
              | inl old ↦ up.tracked.kinds_apart i c o n old at' h
              | inr (_, same) ↦
                  channel_old c o at' (sym h ∙ ap (λ x. RegionModel.object x) (sym same))
            ];
          };
          stocked = record {
            rises = insert-RisesFrom 0 k.next_id bytes r.regions (omega arith) up.stocked.rises;
            counted =
                let fresh = up.stocked.unused k.next_id (omega arith) in
                let longer = len-insert 0 k.next_id bytes r.regions up.stocked.rises in
                let one_more = filter-append (λ n. n.alive) regions m refl in
                let same = up.stocked.counted in ground arith;
            unused = λ o above.
                let above' : suc k.next_id ≤ o = omega arith in
                get-insert_ne o k.next_id bytes r.regions (λ h. omega (arith, h, above'))
                ∙ up.stocked.unused o (omega arith);
            regions_below = λ i n at. elim (get_elem?_last regions m n i at) [
              | inl old ↦ omega (arith, up.stocked.regions_below i n old)
              | inr (_, same) ↦ rw (sym same) (omega arith)
            ];
            channels_below = λ c o at. omega (arith, up.stocked.channels_below c o at);
          };
        },
        λ cm c models. Models-longer m cm c models,
      )

  pub KeepsUp-channel : KeepsUp regions (channel_objects ++ k.next_id ∷ []) (allocated k) r
  KeepsUp-channel = record {
    tracked = record {
      region_epoch = λ i n at.
          get-insert_ne n.object k.next_id 0 k.epochs (region_old i n at)
          ∙ up.tracked.region_epoch i n at;
      region_bytes = up.tracked.region_bytes;
      channel_epoch = λ c o at. elim (get_elem?_last channel_objects k.next_id o c at) [
        | inl old ↦
            get-insert_ne o k.next_id 0 k.epochs (channel_old c o old)
            ∙ up.tracked.channel_epoch c o old
        | inr (_, same) ↦ rw (sym same) (get-insert_self k.next_id 0 k.epochs)
      ];
      channel_bytes = λ c o at. elim (get_elem?_last channel_objects k.next_id o c at) [
        | inl old ↦ up.tracked.channel_bytes c o old
        | inr (_, same) ↦ rw (sym same) (up.stocked.unused k.next_id (omega arith))
      ];
      regions_apart = up.tracked.regions_apart;
      channels_apart = λ c d o at at'. elim (get_elem?_last channel_objects k.next_id o c at) [
        | inl old ↦ elim (get_elem?_last channel_objects k.next_id o d at') [
          | inl old' ↦ up.tracked.channels_apart c d o old old'
          | inr (_, same) ↦ absurd (channel_old c o old (sym same))
        ]
        | inr (here, same) ↦ elim (get_elem?_last channel_objects k.next_id o d at') [
          | inl old' ↦ absurd (channel_old d o old' (sym same))
          | inr (here', _) ↦ here ∙ sym here'
        ]
      ];
      kinds_apart = λ i c o n at at' h. elim (get_elem?_last channel_objects k.next_id o c at') [
        | inl old ↦ up.tracked.kinds_apart i c o n at old h
        | inr (_, same) ↦ region_old i n at (h ∙ sym same)
      ];
    };
    stocked = record {
      rises = up.stocked.rises;
      counted = up.stocked.counted;
      unused = λ o above. up.stocked.unused o (omega arith);
      regions_below = λ i n at. omega (arith, up.stocked.regions_below i n at);
      channels_below = λ c o at. elim (get_elem?_last channel_objects k.next_id o c at) [
        | inl old ↦ omega (arith, up.stocked.channels_below c o old)
        | inr (_, same) ↦ omega (arith, same)
      ];
    };
  }

pub Models-wider :
    {regions : List RegionModel} {channel_objects : List ℕ} (o : ℕ) (m : CapModel) (c : Capability)
    → Models regions channel_objects m c
    → Models regions (channel_objects ++ o ∷ []) m c
Models-wider o m c (models_region i model rights epoch at) = models_region i model rights epoch at
Models-wider {channel_objects = channel_objects} o m c (models_channel i object rights at) =
    models_channel i object rights (get_elem?_old channel_objects (o ∷ []) object i at)

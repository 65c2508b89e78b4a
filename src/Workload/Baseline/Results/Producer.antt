-- ===== src/Workload/Baseline/Results/Producer.antt =====
-- crates/workload/src/baseline.rs: the turn of the producer.
use muaddib.Prelude.{
  map, sym, ℕ, suc, ◌+◌, ◌-◌, ◌<◌, ◌≤◌, ◌≡◌, refl, true, some, List, [], ◌∷◌, ◌++◌, ok, get_elem?,
  arith, All, All-append, Bool-cases, inl, inr, ◌∙◌, ap, subst, u64_mod, ltb, next_u64,
  if◌then◌else◌,
}
use muaddib.Workload.Data.{fill_batch, transforms}
use muaddib.Workload.Pipeline.{PipelineConfig}
use muaddib.Workload.Baseline.{
  State, Stage, Message, set, produce, collect, send_stamp, counted, nonempty,
}
use mathlib.Core.List.{append_assoc}
use muaddib.Workload.Baseline.Order.{flow, flow-enter}
use muaddib.Workload.Baseline.Progress.{
  load, length-set, get_elem?-some, weigh-set, times-append, send_stamp-kind, collect-kind,
  collect-All,
}
use muaddib.Workload.Baseline.Results.{
  IsGood, IsAt, IsWhole, Works, Travels-set, Fits-set, push_ok, filled_any,
}

pub produce-Works :
    (config : PipelineConfig) (s : State) (index : ℕ) (stage : Stage)
    → config.batches < u64_mod
    → IsGood config s
    → get_elem? s.stages index ≡ some stage
    → Works config s (produce config s index stage)
unfolding produce counted transforms
produce-Works config s index stage small g here =
    elim (Bool-cases (ltb s.next_batch config.batches)) [
      | inl more ↦ by_pool more (collect stage s.returns s.pool).1 refl
      | inr over ↦ (
        drained (collect stage s.returns s.pool).1,
        nonempty s.returns,
        rw over refl,
        drained-good _ gathered,
        lighter s.returns refl,
      )
    ]
  where
    stage' : Stage
    stage' = (collect stage s.returns s.pool).0

    gathered : All (IsWhole config) (collect stage s.returns s.pool).1
    gathered = collect-All (IsWhole config) stage s.returns s.pool g.free g.back

    drained : List (List ℕ) → State
    drained pool = record s {
      stages = set index (collect stage s.returns s.pool).0 s.stages;
      returns = [];
      pool = pool;
    }

    drained-good : (pool : List (List ℕ)) → All (IsWhole config) pool → IsGood config (drained pool)
    drained-good pool h = record {
      chan_count = g.chan_count;
      stage_count = length-set index (collect stage s.returns s.pool).0 s.stages ∙ g.stage_count;
      fits =
          Fits-set config s.stages index stage (collect stage s.returns s.pool).0 g.fits here
            (collect-kind stage s.returns s.pool);
      emitted = g.emitted;
      travels = g.travels;
      back = tt;
      free = h;
      done = g.done;
      in_order = g.in_order;
    }

    lighter :
        (returns : List Message)
        → s.returns ≡ returns
        → (if nonempty s.returns
            then suc (load config (drained (collect stage s.returns s.pool).1))
            else load config (drained (collect stage s.returns s.pool).1))
          ≤ load config s
    lighter [] e = rw e (omega arith)
    lighter (m ∷ ms) e = rw e (omega arith)

    by_pool :
        ltb s.next_batch config.batches ≡ true
        → (pool : List (List ℕ)) → (collect stage s.returns s.pool).1 ≡ pool
        → Works config s (produce config s index stage)
    by_pool more [] e = (
      drained [],
      nonempty s.returns,
      rw (more, e) (ap (λ pool. ok (drained pool, nonempty s.returns)) e),
      drained-good [] tt,
      lighter s.returns refl,
    )
    by_pool more (region ∷ rest) e =
        let (first, at) = get_elem?-some s.chan 0 (omega (arith, g.chan_count)) in
        let sent = send_stamp (collect stage s.returns s.pool).0 in
        let m : Message = record {
          batch = s.next_batch;
          region = fill_batch config.seed s.next_batch region;
          stamp = sent.1;
        } in
        let pooled : All (IsWhole config) (region ∷ rest) =
          subst (All (IsWhole config)) e gathered in
        let fresh : IsAt config 0 m = filled_any config s.next_batch region pooled.0 in
        let left : config.batches - s.next_batch ≡ suc (config.batches - next_u64 s.next_batch) =
          ground arith in
        (
          record s {
            stages = set index sent.0 s.stages;
            chan = set 0 (first ++ m ∷ []) s.chan;
            returns = [];
            pool = rest;
            next_batch = next_u64 s.next_batch;
            report = counted config s.report;
          },
          true,
          rw (more, e, push_ok s.chan 0 m first at) refl,
          record {
            chan_count = length-set 0 (first ++ m ∷ []) s.chan ∙ g.chan_count;
            stage_count = length-set index sent.0 s.stages ∙ g.stage_count;
            fits =
                Fits-set config s.stages index stage sent.0 g.fits here
                  (send_stamp-kind _ ∙ collect-kind stage s.returns s.pool);
            emitted = ground arith;
            travels =
                Travels-set config s.chan 0 first (first ++ m ∷ []) g.travels at
                  (All-append (IsAt config 0) first (m ∷ []) (g.travels 0 first at) (fresh, tt));
            back = tt;
            free = pooled.1;
            done = g.done;
            in_order =
                let e : next_u64 s.next_batch ≡ suc s.next_batch = ground arith in
                rw e (
                  ap (λ l. map (λ b. b.batch) s.report.results ++ l) (flow-enter m first s.chan at)
                  ∙ sym (
                      append_assoc (map (λ b. b.batch) s.report.results) (flow s.chan)
                        (s.next_batch ∷ []))
                  ∙ ap (λ l. l ++ s.next_batch ∷ []) g.in_order);
          },
          rw left (
              omega (
                arith,
                weigh-set (config.stages + 2) 0 first (first ++ m ∷ []) s.chan at,
                times-append first m (config.stages + 2 - 0),
              )),
        )

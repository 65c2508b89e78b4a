-- ===== src/Workload/Baseline/Results/Hops.antt =====
-- crates/workload/src/baseline.rs: the turns of a transformer and of the sink.
use muaddib.Prelude.{
  map, sym, ℕ, suc, ◌+◌, ◌-◌, ◌<◌, ◌≡◌, refl, true, false, some, List, [], ◌∷◌, ◌++◌, length,
  get_elem?, arith, All-append, ◌∙◌, ap, length-append,
}
use muaddib.Workload.Data.{transforms, checksum, reference_checksum, transform}
use muaddib.Workload.Pipeline.{PipelineConfig, BatchResult}
use muaddib.Workload.Baseline.{
  State, Stage, Message, set, transform_one, sink_one, send_stamp, receive_stamp, counted,
}
use mathlib.Core.List.{append_assoc, map-append}
use muaddib.Workload.Baseline.Order.{flow, flow-hop, flow-last}
use muaddib.Workload.Baseline.Progress.{
  length-set, get_elem?-set, get_elem?-some, weigh-set, times-append, send_stamp-kind,
  receive_stamp-kind,
}
use muaddib.Workload.Baseline.Results.{
  filled, IsAt, IsReference, IsWhole, IsGood, Works, Travels-set, Fits-set, push_ok, length-filled,
  length-transforms,
}

pub transform_one-Works :
    (config : PipelineConfig) (s : State) (index : ℕ) (stage : Stage) (i : ℕ)
    → IsGood config s
    → get_elem? s.stages index ≡ some stage
    → i < config.stages
    → Works config s (transform_one config s index stage i)
unfolding transform_one transforms counted
transform_one-Works config s index stage i g here l =
    let (queue, at) = get_elem?-some s.chan i (omega (arith, g.chan_count)) in
    let (next, at') = get_elem?-some s.chan (i + 1) (omega (arith, g.chan_count)) in
    by_queue queue next at at'
  where
    by_queue :
        (queue next : List Message)
        → get_elem? s.chan i ≡ some queue
        → get_elem? s.chan (i + 1) ≡ some next
        → Works config s (transform_one config s index stage i)
    by_queue [] next at at' = (s, false, rw at refl, g, omega arith)
    by_queue (m ∷ rest) next at at' =
        let stamped = send_stamp (receive_stamp stage m.stamp) in
        let m' : Message = record m { region = transform i m.region; stamp = stamped.1 } in
        let chan₁ = set i rest s.chan in
        let after : get_elem? chan₁ (i + 1) ≡ some next =
          ground (arith, get_elem?-set i (i + 1) rest (m ∷ rest) s.chan at) in
        let ready = g.travels i (m ∷ rest) at in
        let chan₂ = set (i + 1) (next ++ m' ∷ []) chan₁ in
        let t₁ = Travels-set config s.chan i (m ∷ rest) rest g.travels at ready.1 in
        let worked : IsAt config (i + 1) m' =
          let e : i + 1 ≡ suc i = omega arith in rw e (ap (transform i) ready.0) in
        let t₂ = Travels-set config chan₁ (i + 1) next (next ++ m' ∷ []) t₁ after (
          All-append (IsAt config (i + 1)) next (m' ∷ []) (g.travels (i + 1) next at')
            (worked, tt)) in
        (
          record s {
            stages = set index stamped.0 s.stages;
            chan = chan₂;
            report = counted config s.report;
          },
          true,
          rw (at, push_ok chan₁ (i + 1) m' next after) refl,
          record {
            chan_count = length-set (i + 1) _ chan₁ ∙ length-set i rest s.chan ∙ g.chan_count;
            stage_count = length-set index stamped.0 s.stages ∙ g.stage_count;
            fits =
                Fits-set config s.stages index stage stamped.0 g.fits here
                  (send_stamp-kind _ ∙ receive_stamp-kind stage m.stamp);
            emitted = g.emitted;
            travels = t₂;
            back = g.back;
            free = g.free;
            done = g.done;
            in_order =
                ap (λ l. map (λ b. b.batch) s.report.results ++ l)
                  (let e : i + 1 ≡ suc i = omega arith in
                    rw e (flow-hop i m m' rest next s.chan at (rw e at at') refl))
                ∙ g.in_order;
          },
          omega (
            arith,
            weigh-set (config.stages + 2) i (m ∷ rest) rest s.chan at,
            weigh-set (config.stages + 2) (i + 1) next (next ++ m' ∷ []) chan₁ after,
            times-append next m' (config.stages + 2 - (i + 1)),
          ),
        )

pub sink_one-Works :
    (config : PipelineConfig) (s : State) (index : ℕ) (stage : Stage)
    → IsGood config s
    → get_elem? s.stages index ≡ some stage
    → Works config s (sink_one config s index stage)
unfolding sink_one reference_checksum counted
sink_one-Works config s index stage g here =
    let (queue, at) = get_elem?-some s.chan config.stages (omega (arith, g.chan_count)) in
    by_queue queue at
  where
    by_queue :
        (queue : List Message)
        → get_elem? s.chan config.stages ≡ some queue
        → Works config s (sink_one config s index stage)
    by_queue [] at = (s, false, rw at refl, g, omega arith)
    by_queue (m ∷ rest) at =
        let stamped = send_stamp (receive_stamp stage m.stamp) in
        let ready = g.travels config.stages (m ∷ rest) at in
        let result : BatchResult = record { batch = m.batch; checksum = checksum m.region } in
        let m' : Message = record m { stamp = stamped.1 } in
        let whole : IsWhole config m.region =
          ap length ready.0
          ∙ length-transforms config.stages (filled config m.batch)
          ∙ length-filled config m.batch in
        (
          record s {
            stages = set index stamped.0 s.stages;
            chan = set config.stages rest s.chan;
            returns = s.returns ++ m' ∷ [];
            report = counted config (record s.report { results = s.report.results ++ result ∷ [] });
          },
          true,
          rw at refl,
          record {
            chan_count = length-set config.stages rest s.chan ∙ g.chan_count;
            stage_count = length-set index stamped.0 s.stages ∙ g.stage_count;
            fits =
                Fits-set config s.stages index stage stamped.0 g.fits here
                  (send_stamp-kind _ ∙ receive_stamp-kind stage m.stamp);
            emitted = g.emitted;
            travels = Travels-set config s.chan config.stages (m ∷ rest) rest g.travels at ready.1;
            back = All-append (λ n. IsWhole config n.region) s.returns (m' ∷ []) g.back (whole, tt);
            free = g.free;
            done =
                All-append (IsReference config) s.report.results (result ∷ []) g.done
                  (ap checksum ready.0, tt);
            in_order =
                ap (λ l. l ++ flow (set config.stages rest s.chan))
                  (map-append (λ b. b.batch) s.report.results (result ∷ []))
                ∙ append_assoc (map (λ b. b.batch) s.report.results) (m.batch ∷ [])
                    (flow (set config.stages rest s.chan))
                ∙ ap (λ l. map (λ b. b.batch) s.report.results ++ l)
                    (sym (flow-last config.stages m rest s.chan at (omega (arith, g.chan_count))))
                ∙ g.in_order;
          },
          omega (
            arith,
            weigh-set (config.stages + 2) config.stages (m ∷ rest) rest s.chan at,
            length-append s.returns (m' ∷ []),
          ),
        )

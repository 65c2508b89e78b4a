-- ===== src/Workload/Pipeline/Step/Drain.antt =====
-- crates/workload/src/pipeline.rs: the producer's loop over its return channel.
use muaddib.Prelude.{
  ℕ, zero, suc, ◌≤◌, ◌≡◌, refl, Bool, true, Option, none, some, [], ◌∷◌, ◌++◌, Result, ok, err,
  panic, expect, map_err, get_elem?, >>=-eq_ok, map_err-eq_ok, arith, ap, sym, ◌∙◌,
}
use muaddib.Map
use muaddib.Map.Laws.{get-insert_self}
use muaddib.Capability.{Capability}
use muaddib.Ipc.{ChannelRegistry, Delivery, receive}
use muaddib.Process.{Process}
use muaddib.Ipc.Traffic.{receive-some}
use muaddib.Process.Scheduler
use muaddib.Workload.Pipeline.{
  KernelPipeline, Stage, PipelineReport, PipelineError, ipc, missing_region, receives,
}
use muaddib.Workload.Pipeline.Step.{receive_as, drain, waiting, count_of, traced}

after_receive :
    (p p' : KernelPipeline) (pid : ℕ) (c : Capability) (d : Delivery) (proc proc' : Process)
    (channels : ChannelRegistry) (arrived : Option Delivery)
    → receive p.channels p.kernel c proc ≡ ok (channels, proc', arrived)
    → ◌≡◌ {A = Result PipelineError (KernelPipeline × Option Delivery)}
        (ok (
          record p { channels = channels; sched = Scheduler.set_process p.sched pid proc' },
          arrived,
        ))
        (ok (p', some d))
    → waiting p c ≡ suc (waiting p' c)
unfolding waiting
after_receive p p' pid c d proc proc' channels arrived call same =
    let arrives : arrived ≡ some d = cc in
    let after : p'.channels ≡ channels = ground arith in
    let (m, rest, found, _, left) =
      receive-some p.channels channels p.kernel c proc proc' d (rw arrives at call) in
    let left_over : Map.get c.object p'.channels.queues ≡ some rest =
      rw (after, left) (get-insert_self c.object rest p.channels.queues) in
    ap count_of found ∙ ap (λ q. suc (count_of q)) (sym left_over)

-- A receive that delivers leaves one message less.
pub receive_as-waiting :
    (p p' : KernelPipeline) (pid : ℕ) (c : Capability) (d : Delivery)
    → receive_as p pid c ≡ ok (p', some d)
    → waiting p c ≡ suc (waiting p' c)
unfolding receive_as
receive_as-waiting p p' pid c d h =
    let (proc, _, h₁) = >>=-eq_ok (expect (Scheduler.process p.sched pid)) _ h in
    let (answer, call, h₂) = >>=-eq_ok (map_err ipc (receive p.channels p.kernel c proc)) _ h₁ in
    after_receive p p' pid c d proc answer.1 answer.0 answer.2
      (map_err-eq_ok ipc (receive p.channels p.kernel c proc) call) h₂

-- What both amounts of fuel give is the one result.
abbrev GiveOne : ℕ → ℕ → KernelPipeline → Stage → Capability → PipelineReport → Bool → Type 0
GiveOne m n p stage input report progressed =
    (result : Result PipelineError (KernelPipeline × Stage × PipelineReport × Bool)) × (drain m p
        stage input report progressed
      ≡ some result)
    × (drain n p stage input report progressed ≡ some result)

drain_turn :
    (m n : ℕ) (p : KernelPipeline) (stage : Stage) (input : Capability) (report : PipelineReport)
    (progressed : Bool)
    → ((p' : KernelPipeline) (stage' : Stage) (report' : PipelineReport)
        → waiting p input ≡ suc (waiting p' input)
        → GiveOne m n p' stage' input report' true)
    → GiveOne (suc m) (suc n) p stage input report progressed
unfolding drain
drain_turn m n p stage input report progressed later =
    by_receive (receive_as p stage.pid input) refl
  where
    by_region :
        (p' : KernelPipeline) (d : Delivery) (region : Option ℕ)
        → receive_as p stage.pid input ≡ ok (p', some d)
        → get_elem? d.handles 0 ≡ region
        → GiveOne (suc m) (suc n) p stage input report progressed
    by_region p' d none h first =
        (err missing_region, rw (drain, h, first) refl, rw (drain, h, first) refl)
    by_region p' d (some r) h first =
        let (result, e, e') =
          later p' (record stage { free_regions = stage.free_regions ++ r ∷ [] })
            (traced p.config stage.role receives d.payload d.received_at report)
            (receive_as-waiting p p' stage.pid input d h) in
        (result, rw (drain, h, first) e, rw (drain, h, first) e')

    by_receive :
        (received : Result PipelineError (KernelPipeline × Option Delivery))
        → receive_as p stage.pid input ≡ received
        → GiveOne (suc m) (suc n) p stage input report progressed
    by_receive (err e) h = (err e, rw (drain, h) refl, rw (drain, h) refl)
    by_receive panic h = (panic, rw (drain, h) refl, rw (drain, h) refl)
    by_receive (ok (p', none)) h =
        (ok (p', stage, report, progressed), rw (drain, h) refl, rw (drain, h) refl)
    by_receive (ok (p', some d)) h = by_region p' d (get_elem? d.handles 0) h refl

-- With one turn more than messages wait, or with more fuel than that, the loop ends, by its own
-- return, an error or a panic, and any two such amounts of fuel give the one result.
pub drain_enough :
    (m n : ℕ) (p : KernelPipeline) (stage : Stage) (input : Capability) (report : PipelineReport)
    (progressed : Bool)
    → waiting p input ≤ m
    → waiting p input ≤ n
    → (result : Result PipelineError (KernelPipeline × Stage × PipelineReport × Bool)) × (drain
          (suc m)
          p
          stage
          input
          report
          progressed
        ≡ some result)
      × (drain (suc n) p stage input report progressed ≡ some result)
drain_enough zero n p stage input report progressed hm hn =
    drain_turn zero n p stage input report progressed (λ p' stage' report' w. absurd (omega arith))
drain_enough (suc m) zero p stage input report progressed hm hn =
    drain_turn (suc m) zero p stage input report progressed
      (λ p' stage' report' w. absurd (omega arith))
drain_enough (suc m) (suc n) p stage input report progressed hm hn =
    drain_turn (suc m) (suc n) p stage input report progressed (λ p' stage' report' w.
      drain_enough m n p' stage' input report' true (omega arith) (omega arith))

-- ===== src/Workload/Pipeline/Step/Drained.antt =====
-- crates/workload/src/pipeline.rs: the producer and its return channel after its loop.
use muaddib.Prelude.{
  ℕ, zero, suc, ◌+◌, ◌≡◌, refl, sym, ap, ◌∙◌, Bool, true, false, ◌||◌, Option, none, some, List, [],
  ◌∷◌, ◌++◌, Result, ok, err, panic, expect, map_err, get_elem?, length, ltb, >>=-eq_ok,
  map_err-eq_ok, length-append, arith,
}
use muaddib.Capability.{Capability}
use muaddib.Process.{Process}
use muaddib.Process.Scheduler
use muaddib.Ipc.{ChannelRegistry, Message, Delivery, receive, deliver}
use muaddib.Ipc.Receive.{receive-eq_ok}
use muaddib.Workload.Pipeline.{KernelPipeline, Stage, PipelineReport, PipelineError, ipc, receives}
use muaddib.Workload.Pipeline.Step.{receive_as, drain, waiting, count_of, traced}
use muaddib.Workload.Pipeline.Step.Drain.{receive_as-waiting}

deliver-none :
    (r r' : ChannelRegistry) (o : ℕ) (receiver receiver' : Process) (queue : List Message)
    → (r', receiver', none) ≡ deliver r o receiver queue
    → (queue ≡ []) × (r' ≡ r)
unfolding deliver
deliver-none r r' o receiver receiver' [] same = (refl, ground arith)
deliver-none r r' o receiver receiver' (m ∷ rest) same = absurd (ground arith)

after_nothing :
    (p p' : KernelPipeline) (pid : ℕ) (c : Capability) (proc proc' : Process)
    (channels : ChannelRegistry) (arrived : Option Delivery)
    → receive p.channels p.kernel c proc ≡ ok (channels, proc', arrived)
    → ◌≡◌ {A = Result PipelineError (KernelPipeline × Option Delivery)}
        (ok (
          record p { channels = channels; sched = Scheduler.set_process p.sched pid proc' },
          arrived,
        ))
        (ok (p', none))
    → (waiting p c ≡ 0) × (waiting p' c ≡ 0)
unfolding waiting
after_nothing p p' pid c proc proc' channels arrived call same =
    let nothing : arrived ≡ none = cc in
    let after : p'.channels ≡ channels = ground arith in
    let (queue, _, found, delivered) =
      receive-eq_ok p.channels channels p.kernel c proc proc' none (rw nothing at call) in
    let (empty, unchanged) = deliver-none p.channels channels c.object proc proc' queue delivered in
    let before : waiting p c ≡ 0 = ap count_of found ∙ ap length empty in
    (before, rw (after, unchanged) before)

-- A receive that delivers nothing finds no message and leaves none.
receive_as-none :
    (p p' : KernelPipeline) (pid : ℕ) (c : Capability)
    → receive_as p pid c ≡ ok (p', none)
    → (waiting p c ≡ 0) × (waiting p' c ≡ 0)
unfolding receive_as
receive_as-none p p' pid c h =
    let (proc, _, h₁) = >>=-eq_ok (expect (Scheduler.process p.sched pid)) _ h in
    let (answer, call, h₂) = >>=-eq_ok (map_err ipc (receive p.channels p.kernel c proc)) _ h₁ in
    after_nothing p p' pid c proc answer.1 answer.0 answer.2
      (map_err-eq_ok ipc (receive p.channels p.kernel c proc) call) h₂

-- What a loop that returned has done.
abbrev Drained : KernelPipeline → KernelPipeline → Stage → Stage → Capability → Bool → Bool → Type 0
Drained p p' stage stage' input progressed progressed' =
    (waiting p' input ≡ 0)
    × (length stage'.free_regions ≡ length stage.free_regions + waiting p input)
    × (progressed' ≡ (progressed || ltb 0 (waiting p input)))

-- The parts of two results that are the same.
returned :
    {p p' : KernelPipeline} {stage stage' : Stage} {report report' : PipelineReport}
    {progressed progressed' : Bool}
    → ◌≡◌ {A = Option (Result PipelineError (KernelPipeline × Stage × PipelineReport × Bool))}
        (some (ok (p, stage, report, progressed)))
        (some (ok (p', stage', report', progressed')))
    → (p ≡ p') × (stage ≡ stage') × (progressed ≡ progressed')
returned h = (ground arith, ground arith, ground arith)

-- When the loop of the producer returns without an error, its return channel is empty, the number
-- of free regions has grown by that of the messages that waited, and the turn counts as progress if
-- any waited or if it did before.
pub drain-eq_ok :
    (n : ℕ) (p p' : KernelPipeline) (stage stage' : Stage) (input : Capability)
    (report report' : PipelineReport) (progressed progressed' : Bool)
    → drain n p stage input report progressed ≡ some (ok (p', stage', report', progressed'))
    → (waiting p' input ≡ 0)
      × (length stage'.free_regions ≡ length stage.free_regions + waiting p input)
      × (progressed' ≡ (progressed || ltb 0 (waiting p input)))
unfolding drain
drain-eq_ok zero p p' stage stage' input report report' progressed progressed' h = cc
drain-eq_ok (suc n) p p' stage stage' input report report' progressed progressed' h =
    by_receive (receive_as p stage.pid input) refl (λ p₁ stage₁ report₁.
      drain-eq_ok n p₁ p' stage₁ stage' input report₁ report' true progressed')
  where
    by_region :
        (p₁ : KernelPipeline) (d : Delivery) (region : Option ℕ)
        → receive_as p stage.pid input ≡ ok (p₁, some d)
        → get_elem? d.handles 0 ≡ region
        → ((p₁ : KernelPipeline) (stage₁ : Stage) (report₁ : PipelineReport)
            → drain n p₁ stage₁ input report₁ true ≡ some (ok (p', stage', report', progressed'))
            → Drained p₁ p' stage₁ stage' input true progressed')
        → Drained p p' stage stage' input progressed progressed'
    by_region p₁ d none received first later =
        absurd (let f = rw (drain, received, first) at h in cc)
    by_region p₁ d (some r) received first later =
        let (empty, freed, counts) =
          later p₁ (record stage { free_regions = stage.free_regions ++ r ∷ [] })
            (traced p.config stage.role receives d.payload d.received_at report)
            (rw (drain, received, first) at h) in
        let less = receive_as-waiting p p₁ stage.pid input d received in
        let one_more : length (stage.free_regions ++ r ∷ []) ≡ length stage.free_regions + 1 =
          length-append stage.free_regions (r ∷ []) in
        let counted : length stage'.free_regions
            ≡ length (stage.free_regions ++ r ∷ []) + waiting p₁ input =
          freed in
        let some_wait : ltb 0 (waiting p input) ≡ true = ground arith in
        (empty, omega arith, rw some_wait (ground arith))

    by_receive :
        (received : Result PipelineError (KernelPipeline × Option Delivery))
        → receive_as p stage.pid input ≡ received
        → ((p₁ : KernelPipeline) (stage₁ : Stage) (report₁ : PipelineReport)
            → drain n p₁ stage₁ input report₁ true ≡ some (ok (p', stage', report', progressed'))
            → Drained p₁ p' stage₁ stage' input true progressed')
        → Drained p p' stage stage' input progressed progressed'
    by_receive (err e) received later = absurd (let f = rw (drain, received) at h in cc)
    by_receive panic received later = absurd (let f = rw (drain, received) at h in cc)
    by_receive (ok (p₁, none)) received later =
        let (before, after) = receive_as-none p p₁ stage.pid input received in
        let f = rw (drain, received) at h in
        let (same, same', same'') = returned f in
        let none_wait : ltb 0 (waiting p input) ≡ false = ground arith in
        (
          ap (λ x. waiting x input) (sym same) ∙ after,
          ap (λ x. length (Stage.free_regions x)) (sym same') ∙ omega (arith, before),
          rw none_wait (ground arith),
        )
    by_receive (ok (p₁, some d)) received later =
        by_region p₁ d (get_elem? d.handles 0) received refl later

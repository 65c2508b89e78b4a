-- ===== src/Workload/Baseline/Progress.antt =====
-- crates/workload/src/baseline.rs: a measure of the work left in a ring, and the lists that a turn
-- changes.
use muaddib.Prelude.{
  ℕ, zero, suc, ◌+◌, ◌-◌, ◌<◌, ◌≡◌, refl, Option, none, some, List, [], ◌∷◌, ◌++◌, length,
  get_elem?, arith, ◌==◌, if◌then◌else◌, All, All-append, eq_of_some, Option-cases, inl, inr, ◌∙◌,
  subst,
}
use muaddib.Clock.{Stamp}
use muaddib.Workload.Pipeline.{PipelineConfig}
use muaddib.Workload.Baseline.{State, Stage, Message, set, collect, send_stamp, receive_stamp}

-- `n` times `k`.
abbrev pub times : ℕ → ℕ → ℕ
times zero k = 0
times (suc n) k = k + times n k

-- The hops left for the messages of the channels, where those of the first have `w` left.
abbrev pub weigh : ℕ → List (List Message) → ℕ
weigh w [] = 0
weigh w (q ∷ qs) = times (length q) w + weigh (w - 1) qs

abbrev pub load : PipelineConfig → State → ℕ
load config s =
    times (config.batches - s.next_batch) (config.stages + 3)
    + weigh (config.stages + 2) s.chan
    + length s.returns

module _ {ℓ} {A : Type ℓ} where
  pub length-set : (i : ℕ) (a : A) (xs : List A) → length (set i a xs) ≡ length xs
  unfolding set
  length-set i a [] = refl
  length-set zero a (x ∷ xs) = refl
  length-set (suc i) a (x ∷ xs) = omega (arith, length-set i a xs)

  pub get_elem?-set :
      (i j : ℕ) (a b : A) (xs : List A)
      → get_elem? xs i ≡ some b
      → get_elem? (set i a xs) j ≡ (if j == i then some a else get_elem? xs j)
  unfolding set
  get_elem?-set i j a b [] h = cc
  get_elem?-set zero zero a b (x ∷ xs) h = ground arith
  get_elem?-set zero (suc j) a b (x ∷ xs) h = ground arith
  get_elem?-set (suc i) zero a b (x ∷ xs) h = ground arith
  get_elem?-set (suc i) (suc j) a b (x ∷ xs) h = ground (arith, get_elem?-set i j a b xs h)

  pub get_elem?-some : (xs : List A) (i : ℕ) → i < length xs → (a : A) × (get_elem? xs i ≡ some a)
  get_elem?-some [] i h = absurd (omega arith)
  get_elem?-some (x ∷ xs) zero h = (x, refl)
  get_elem?-some (x ∷ xs) (suc i) h = get_elem?-some xs i (omega arith)

-- Replacing one queue changes the load by what its messages weigh.
pub weigh-set :
    (w i : ℕ) (old new : List Message) (chan : List (List Message))
    → get_elem? chan i ≡ some old
    → weigh w (set i new chan) + times (length old) (w - i)
      ≡ weigh w chan + times (length new) (w - i)
unfolding set
weigh-set w i old new [] h = cc
weigh-set w zero old new (q ∷ qs) h =
    let e : length q ≡ length old = ground arith in
    let z : w - 0 ≡ w = omega arith in rw (e, z) (omega arith)
weigh-set w (suc i) old new (q ∷ qs) h =
    let e : w - suc i ≡ w - 1 - i = omega arith in
    rw e (omega (arith, weigh-set (w - 1) i old new qs h))

pub times-append :
    (q : List Message) (m : Message) (k : ℕ)
    → times (length (q ++ m ∷ [])) k ≡ times (length q) k + k
times-append [] m k = omega arith
times-append (x ∷ q) m k = omega (arith, times-append q m k)

pub send_stamp-kind : (s : Stage) → (send_stamp s).0.kind ≡ s.kind
unfolding send_stamp
send_stamp-kind s = elim (Option-cases s.clock) [ inl e ↦ rw e refl | inr (c, e) ↦ rw e refl ]

pub receive_stamp-kind : (s : Stage) (sent : Option Stamp) → (receive_stamp s sent).kind ≡ s.kind
unfolding receive_stamp
receive_stamp-kind s none = refl
receive_stamp-kind s (some sent) = elim (Option-cases s.clock) [
  | inl e ↦ rw e refl
  | inr (c, e) ↦ rw e refl
]

pub collect-kind :
    (s : Stage) (ms : List Message) (pool : List (List ℕ)) → (collect s ms pool).0.kind ≡ s.kind
unfolding collect
collect-kind s [] pool = refl
collect-kind s (m ∷ ms) pool =
    collect-kind (receive_stamp s m.stamp) ms (pool ++ m.region ∷ []) ∙ receive_stamp-kind s m.stamp

-- What came back joins the pool.
pub collect-All {κ} :
    (P : List ℕ → Type κ) (s : Stage) (ms : List Message) (pool : List (List ℕ))
    → All P pool
    → All (λ m. P m.region) ms
    → All P (collect s ms pool).1
unfolding collect
collect-All P s [] pool h back = h
collect-All P s (m ∷ ms) pool h back =
    collect-All P (receive_stamp s m.stamp) ms (pool ++ m.region ∷ [])
      (All-append P pool (m.region ∷ []) h (back.0, tt)) back.1

pub All-get {ℓ κ} :
    {A : Type ℓ} (P : A → Type κ) (xs : List A) (i : ℕ) (a : A)
    → All P xs
    → get_elem? xs i ≡ some a
    → P a
All-get P [] i a h e = cc
All-get P (x ∷ xs) zero a h e = subst P (eq_of_some e) h.0
All-get P (x ∷ xs) (suc i) a h e = All-get P xs i a h.1 e

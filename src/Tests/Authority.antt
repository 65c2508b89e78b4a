-- ===== src/Tests/Authority.antt =====
-- Kernel calls on the supervisor's region.
use muaddib.Prelude.{◌≡◌, refl, ok, err, [], ◌∷◌, arith, ◌⊎◌}
use muaddib.Capability.Rights.{contains, ◌∪◌, ◌∩◌}
use muaddib.Capability.Rights
use muaddib.Capability.{check, revoked, unknown_object}
use muaddib.Capability.Derivation.{Derives, here, next, Derives-attenuates}
use muaddib.Capability.Revocation.{reissue_exclusive}
use muaddib.Capability.Calls.{allocates, revokes, by_revoke, IsBounded, step, run, dead_forever}
use muaddib.Tests.Scene.{
  program, kernel, kernel_moved, owner, owner_moved, view, endpoint, receive_only,
}

chain : Derives kernel endpoint receive_only
unfolding program
chain = next 1 (next 9 here refl) refl

Derives-attenuates_example : check kernel endpoint Rights.read ≡ ok tt
unfolding program
Derives-attenuates_example = Derives-attenuates kernel Rights.read chain refl

reissue_exclusive_example : check kernel_moved view Rights.read ≡ err (revoked 0)
unfolding program
reissue_exclusive_example =
    (reissue_exclusive kernel kernel_moved owner owner_moved view Rights.read refl refl refl).3

kernel-IsBounded : IsBounded 2 kernel
unfolding program
kernel-IsBounded = record {
  ids = omega arith;
  allocated = λ o e g. ground arith;
  epochs = λ o e g. ground arith;
}

dead_forever_example :
    let k' = run (step kernel (revokes owner)) (allocates 31 ∷ revokes owner_moved ∷ []) in
    (check k' view Rights.read ≡ err (unknown_object 0))
    ⊎ (check k' view Rights.read ≡ err (revoked 0))
unfolding program
dead_forever_example =
    dead_forever 2 kernel owner view (allocates 31 ∷ revokes owner_moved ∷ []) Rights.read
      kernel-IsBounded (omega arith) refl by_revoke refl refl

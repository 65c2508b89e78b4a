-- ===== src/Capability.antt =====
-- crates/capability/src/lib.rs: capabilities, and the kernel's table of objects and epochs.
-- An `ObjectId` is its `u64`. A method that takes `&mut self` returns the new kernel; on an error
-- the kernel is the old one, since the source writes only after its last check.
pub mod Rights
pub mod Check
pub mod Derivation
pub mod Revocation
pub mod Calls
use muaddib.Prelude.{
  ℕ, Bool, Result, ok, err, panic, ◌>>=◌, ◌>>◌, guard, ok_or, expect, ◌==◌, next_u64,
}
use muaddib.Map.{Map}
use muaddib.Map

pub record Capability : Type 0 where
  pub object : ℕ
  pub rights : Rights.Rights
  pub epoch : ℕ

pub data CapError : Type 0 where
  unknown_object revoked : ℕ → CapError
  insufficient_rights : (object held required : ℕ) → CapError
  cannot_amplify : (object held requested : ℕ) → CapError

pub record Kernel : Type 0 where
  pub next_id : ℕ
  pub epochs : Map ℕ

abbrev pub new : Kernel
new = record { next_id = 0; epochs = Map.empty }

unfoldable pub new_object : Kernel → Rights.Rights → Kernel × Capability
new_object k rights = (
  record { next_id = next_u64 k.next_id; epochs = Map.insert k.next_id 0 k.epochs },
  record { object = k.next_id; rights = rights; epoch = 0 },
)

unfoldable pub check : Kernel → Capability → Rights.Rights → Result CapError (Unit {0})
check k c required = do
  current_epoch ← ok_or (Map.get c.object k.epochs) (unknown_object c.object)
  guard (current_epoch == c.epoch) (revoked c.object)
  guard (Rights.contains c.rights required) (insufficient_rights c.object c.rights required)

unfoldable pub revoke : Kernel → Capability → Result CapError Kernel
revoke k c = do
  check k c Rights.destroy
  epoch ← expect (Map.get c.object k.epochs)
  ok (record k { epochs = Map.insert c.object (next_u64 epoch) k.epochs })

unfoldable pub reissue : Kernel → Capability → Result CapError (Kernel × Capability)
reissue k c = do
  k' ← revoke k c
  epoch ← expect (Map.get c.object k'.epochs)
  ok (k', record c { epoch = epoch })

unfoldable pub object_exists : Kernel → ℕ → Bool
unfolding Map.contains_key
object_exists k object = Map.contains_key object k.epochs

unfoldable pub derive : Kernel → Capability → Rights.Rights → Result CapError Capability
derive k c requested = do
  check k c Rights.grant
  guard (Rights.contains c.rights requested) (cannot_amplify c.object c.rights requested)
  ok (record c { rights = requested })

unfoldable pub destroy_object : Kernel → Capability → Result CapError Kernel
destroy_object k c = do
  check k c Rights.destroy
  ok (record k { epochs = Map.remove c.object k.epochs })

-- ===== src/ModbusServer/Store.antt =====
-- The register spaces of internal/modbusserver/store.go. The code only ever reads them by m[k], where
-- a missing address is false or 0, so each is a total function. Addresses are not negative: they come
-- from uint16 fields and from configured addresses.
use tentacle_next.Prelude.{ℕ, Bool, false, update}

pub record RegisterStore : Type 0 where
  pub coils : ℕ → Bool
  pub discretes : ℕ → Bool
  pub holding : ℕ → ℕ
  pub input : ℕ → ℕ

abbrev pub new_register_store : RegisterStore
new_register_store = record {
  coils = λ a. false;
  discretes = λ a. false;
  holding = λ a. 0;
  input = λ a. 0;
}

-- ReadCoil, ReadDiscrete, ReadHolding and ReadInput are applications of the fields.
unfoldable pub write_coil : ℕ → Bool → RegisterStore → RegisterStore
write_coil address value s = record s { coils = update s.coils address value }

unfoldable pub write_holding : ℕ → ℕ → RegisterStore → RegisterStore
write_holding address value s = record s { holding = update s.holding address value }

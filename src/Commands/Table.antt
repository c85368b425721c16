-- ===== src/Commands/Table.antt =====
-- The command tables of pybtp/btp.py: service, opcode, controller index, and the payload where the
-- table has one.
pub mod Core
pub mod Gap
pub mod Gatts
pub mod Gattc
pub mod GattCl
pub mod L2cap
pub mod Mesh
use btptester_core.Prelude.{ℕ, Option, Bytes, Text}

-- What `BTPWorker.send` takes as data: a number, a text or bytes.
pub data Payload : Type 0 where
  int : ℕ → Payload
  text : Text → Payload
  bytes : Bytes → Payload

abbrev pub Cmd : Type 0
Cmd = ℕ × ℕ × ℕ × Option Payload

abbrev pub controller_index : ℕ
controller_index = 0

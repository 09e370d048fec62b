-- ===== src/Link/Wire.antt =====
-- The wire names of the transports.
use mlink.Prelude.{String, ◌≡◌, ◌↔◌, refl, arith, some, eq_iff}
use mlink.Link.{TransportKind, ble, tcp, ipc, mock, as_wire, from_wire}

from_wire-as_wire : (k : TransportKind) → from_wire (as_wire k) ≡ some k
unfolding from_wire as_wire
from_wire-as_wire ble = refl
from_wire-as_wire tcp = refl
from_wire-as_wire ipc = refl
from_wire-as_wire mock = refl

as_wire-from_wire : (s : String) (k : TransportKind) → from_wire s ≡ some k → as_wire k ≡ s
unfolding from_wire as_wire
as_wire-from_wire s k h =
    ground (arith, eq_iff s "ble", eq_iff s "tcp", eq_iff s "ipc", eq_iff s "mock")

-- A text is read as a transport exactly when it is that transport's name.
pub from_wire_iff : (s : String) (k : TransportKind) → (from_wire s ≡ some k) ↔ (as_wire k ≡ s)
from_wire_iff s k = (as_wire-from_wire s k, λ e. rw (← e) (from_wire-as_wire k))

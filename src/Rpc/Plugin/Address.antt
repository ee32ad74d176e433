-- ===== src/Rpc/Plugin/Address.antt =====
-- Repeated calls of `Address`.
use p2box.Base.{arith, false, [], Text, Option, some, ◌≡◌, ◌≢◌}
use p2box.Go.{ok, err, panic}
use p2box.Rpc.Plugin.{Plugin, address}

-- An address that is not empty is kept: a later call returns it whatever the process sends then.
pub address_again :
    (arrives later : Option Text) (p : Plugin) {a : Text}
    → (address arrives p).0 ≡ ok a
    → a ≢ []
    → address later (address arrives p).1 ≡ (ok a, (address arrives p).1)
unfolding address
address_again arrives later p h n = ground arith

-- A process that prints no line, or an empty one, is taken for one with an address; a second call
-- then closes the channel again and panics.
pub address_empty :
    (later : Option Text) (p : Plugin)
    → p.addr ≡ []
    → p.addr_ch_closed ≡ false
    → ((address (some []) p).0 ≡ ok [])
      × ((address later (address (some []) p).1).0 ≡ err (panic "close of closed channel"))
unfolding address
address_empty later p h c = (ground arith, ground arith)

-- ===== src/ControlStore/Commands/Agreement.antt =====
-- Replicas that start empty: the order of their transactions does not depend on how the transactions,
-- attestations and evaluations reached them.
use chronolog_db.Prelude.{ℕ, ◌≡◌, true, List, All}
use chronolog_db.Bytes.{Bytes}
use chronolog_db.ControlStore.State.{Persistence}
use chronolog_db.ControlStore.Restore.{empty}
use chronolog_db.ControlStore.Order.{admitted, key_of}
use chronolog_db.ControlStore.Order.Convergence.{order_determined}
use chronolog_db.ControlStore.Commands.{Command, run}
use chronolog_db.ControlStore.Commands.Invariant.{IsWellKeyed, run-IsOrdered, empty-IsOrdered}

-- Two replicas start empty and run any commands, failing ones included, whose new candidates are put
-- under the id that their order key names. If in the end they admit the same transactions, with the
-- same order keys, they have the same transaction order.
pub run-agrees :
    (p q : Persistence) (m n : ℕ) (cs ds : List Command)
    → All IsWellKeyed cs
    → All IsWellKeyed ds
    → ((id : Bytes)
        → admitted (run cs (empty p m)).candidates id ≡ admitted (run ds (empty q n)).candidates id)
    → ((id : Bytes)
        → admitted (run cs (empty p m)).candidates id ≡ true
        → key_of (run cs (empty p m)).candidates id ≡ key_of (run ds (empty q n)).candidates id)
    → (run cs (empty p m)).ordered_tx_ids ≡ (run ds (empty q n)).ordered_tx_ids
run-agrees p q m n cs ds wcs wds same keys =
    let s = run cs (empty p m) in
    let t = run ds (empty q n) in
    order_determined s.candidates t.candidates s.ordered_tx_ids t.ordered_tx_ids
      (run-IsOrdered cs (empty p m) wcs (empty-IsOrdered p m))
      (run-IsOrdered ds (empty q n) wds (empty-IsOrdered q n)) same keys

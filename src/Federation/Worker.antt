-- ===== src/Federation/Worker.antt =====
-- applyPendingInboundBundles and pullInbound of internal/domain/federation/worker.go. What is
-- written while a bundle is applied, the conversations and the accounts, is a parameter `W`.
pub mod Rounds
pub mod Once
pub mod Ends
use zvonilka.Base.{Text, Time, ok, err, ℕ, Result, List, [], ◌∷◌, ℤ, trim_space}
use zvonilka.Federation.Models.{Error, Bundle, BundleDirection, ReplicationCursor}
use zvonilka.Federation.Store.{MemoryStore}
use zvonilka.Federation.Bundles.{raised}
use zvonilka.Federation.BundleReads.{bundles_after}
use zvonilka.Federation.Replication.{replication_cursor, advance_inbound_cursor}

-- The bundles that were received and not applied, at most `batch_size` of them.
unfoldable pub pending_inbound : MemoryStore → Text → Text → ReplicationCursor → ℤ → List Bundle
pending_inbound s peer_id link_id cursor batch_size =
    bundles_after s (trim_space peer_id) (trim_space link_id) BundleDirection.inbound
      cursor.last_inbound_cursor batch_size

module _ {W : Type 0} (apply : Bundle → W → Result Error (Unit {0}) × W) where
  -- The loop over the bundles: the end of those that were applied.
  unfoldable pub apply_each : ℕ → List Bundle → W → Result Error ℕ × W
  apply_each applied [] w = (ok applied, w)
  apply_each applied (b ∷ bs) w = elim (apply b w).0 [
    | err e ↦ (err e, (apply b w).1)
    | ok done ↦ apply_each (raised b.cursor_to applied) bs (apply b w).1
  ]

  -- The end of the loop: the inbound cursor advances to what was applied.
  unfoldable pub advance_applied :
      MemoryStore → Time → Text → Text → Result Error ℕ × W → Result Error ℕ × MemoryStore × W
  advance_applied s clock peer_id link_id (err e, w) = (err e, s, w)
  advance_applied s clock peer_id link_id (ok applied, w) =
      elim (advance_inbound_cursor s clock peer_id link_id applied) [
        | err e ↦ (err e, s, w)
        | ok (cursor, t) ↦ (ok cursor.last_inbound_cursor, t, w)
      ]

  unfoldable pub apply_page :
      MemoryStore → Time → Text → Text → ℕ → List Bundle → W → Result Error ℕ × MemoryStore × W
  apply_page s clock peer_id link_id applied [] w = (ok applied, s, w)
  apply_page s clock peer_id link_id applied (b ∷ bs) w =
      advance_applied s clock peer_id link_id (apply_each applied (b ∷ bs) w)

  unfoldable pub apply_pending_inbound_bundles :
      MemoryStore → Time → Text → Text → ℤ → W → Result Error ℕ × MemoryStore × W
  apply_pending_inbound_bundles s clock peer_id link_id batch_size w =
      elim (replication_cursor s peer_id link_id) [
        | err e ↦ (err e, s, w)
        | ok cursor ↦
            apply_page s clock peer_id link_id cursor.last_inbound_cursor
              (pending_inbound s peer_id link_id cursor batch_size) w
      ]

-- ===== src/Tests/Handover.antt =====
-- The delegation of the scene's position, and a price that its feed's authority writes.
use hwal.Prelude.{◌↔◌, refl}
use hwal.Feed.{update_price_feed}
use hwal.Feed.Prices.{Updates, update_price_feed_iff}
use hwal.Errors.{ok}
use hwal.Prelude.{◌≡◌}
use hwal.Delegation.Handover.{Delegates, delegate_position-Delegates}
use hwal.Tests.Sample.{sample}
use hwal.Tests.Scene.{alice, pusher, feed_key, signed_by, scene, fallen, delegate_ctx, delegated}

delegate_position-Delegates_example :
    Delegates sample (signed_by alice 1015) delegate_ctx scene delegated
unfolding delegated
delegate_position-Delegates_example =
    delegate_position-Delegates sample (signed_by alice 1015) delegate_ctx scene delegated refl

update_price_feed_iff_example :
    (update_price_feed
        (signed_by pusher 1020)
        (record { authority = pusher; feed = feed_key })
        139_000
        scene
      ≡ ok fallen)
    ↔ Updates
        (signed_by pusher 1020)
        (record { authority = pusher; feed = feed_key })
        139_000
        scene
        fallen
update_price_feed_iff_example =
    update_price_feed_iff (signed_by pusher 1020) (record { authority = pusher; feed = feed_key })
      139_000 scene fallen

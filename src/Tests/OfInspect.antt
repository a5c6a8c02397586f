-- ===== src/Tests/OfInspect.antt =====
-- What is captured of two connections.
use proxiflare.Prelude.{◌∷◌, none, ◌≡◌, ◌⊎◌, Bytes, refl, true, false, some, [], codes, map}
use proxiflare.BodyDecode.{body_decode}
use proxiflare.CaptureQueue.{init}
use proxiflare.CaptureQueue.Refine.{Holds, enqueue, init-Holds}
use proxiflare.Tproxy.{Connection, free_connection}
use proxiflare.Inspect.{domain_is_tracker, content_type_is_asset, on_inspect_data}
use proxiflare.Inspect.Capture.{IsNoise, Names, captured, on_inspect_data_refines}

abbrev plain : Connection
plain = record free_connection { client_fd = some 9; dst_ip = codes "10.0.0.9"; dst_port = 80 }

tracker_seen : domain_is_tracker (codes "Stats.DoubleClick.net") ≡ true
unfolding domain_is_tracker
tracker_seen = refl

tracker_at_dot : domain_is_tracker (codes "notcriteo.com") ≡ false
unfolding domain_is_tracker
tracker_at_dot = refl

asset_seen : content_type_is_asset (codes "IMAGE/png; q=1") ≡ true
unfolding content_type_is_asset
asset_seen = refl

on_inspect_data_refines_example :
    (IsNoise (codes "GET /") plain
      × (on_inspect_data 7 init (codes "GET /") true plain ≡ ([], init)))
    ⊎ ((¬ IsNoise (codes "GET /") plain)
        × ((name : Bytes) × Names plain name
            × (let msg = captured 7 (codes "GET /") true plain name in
                ((on_inspect_data 7 init (codes "GET /") true plain).0
                  ≡ map some (enqueue [] msg).0)
                × Holds (on_inspect_data 7 init (codes "GET /") true plain).1 (enqueue [] msg).1)))
on_inspect_data_refines_example =
    on_inspect_data_refines 7 init [] (codes "GET /") true plain init-Holds

gzip_chosen :
    body_decode
      (record {
        decode_gzip = λ b n. some (7 ∷ []);
        decode_brotli = λ b n. none;
        decode_zstd = λ b n. none;
      })
      (codes "GZIP, br")
      (codes "..")
      4
    ≡ some (7 ∷ [])
unfolding body_decode
gzip_chosen = refl

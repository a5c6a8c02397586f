-- ===== src/Inspect.antt =====
-- daemon/src/main.c: what of the intercepted traffic is captured. `on_inspect_data` is the producer of
-- the capture queue; the filters drop trackers and assets.
pub mod Trackers
pub mod Capture
use proxiflare.Prelude.{
  ℕ, ◌-◌, Bool, true, false, not, ◌&&◌, ◌||◌, Option, none, some, List, [], ◌∷◌, ◌==◌, ltb, leb,
  if◌then◌else◌, Bytes, length, get_or, take, drop, codes, eq_ci,
}
use proxiflare.CaptureQueue.{Queue, push}
use proxiflare.Tproxy.{Connection}

-- g_tracker_domains
abbrev pub tracker_domains : List Bytes
tracker_domains =
    codes "doubleclick.net"
    ∷ codes "googlesyndication.com"
    ∷ codes "googleadservices.com"
    ∷ codes "googletagmanager.com"
    ∷ codes "googletagservices.com"
    ∷ codes "google-analytics.com"
    ∷ codes "amazon-adsystem.com"
    ∷ codes "adsrvr.org"
    ∷ codes "teads.tv"
    ∷ codes "scorecardresearch.com"
    ∷ codes "quantserve.com"
    ∷ codes "omtrdc.net"
    ∷ codes "demdex.net"
    ∷ codes "2mdn.net"
    ∷ codes "adnxs.com"
    ∷ codes "criteo.com"
    ∷ codes "criteo.net"
    ∷ codes "pubmatic.com"
    ∷ codes "rubiconproject.com"
    ∷ codes "openx.net"
    ∷ codes "taboola.com"
    ∷ codes "outbrain.com"
    ∷ codes "chartbeat.net"
    ∷ codes "hotjar.com"
    ∷ codes "clarity.ms"
    ∷ codes "fullstory.com"
    ∷ codes "segment.io"
    ∷ codes "mixpanel.com"
    ∷ codes "amplitude.com"
    ∷ codes "facebook.net"
    ∷ codes "fbcdn.net"
    ∷ codes "connect.facebook.net"
    ∷ codes "pagead2.googlesyndication.com"
    ∷ codes "bam.nr-data.net"
    ∷ codes "newrelic.com"
    ∷ codes "nr-data.net"
    ∷ codes "bam-cell.nr-data.net"
    ∷ codes "static.ads-twitter.com"
    ∷ codes "snap.licdn.com"
    ∷ []

-- One entry: a suffix, which is the whole domain or stands behind a dot.
unfoldable pub is_tracked_by : Bytes → Bytes → Bool
unfolding eq_ci
is_tracked_by domain t =
    let at = length domain - length t in
    leb (length t) (length domain)
    && eq_ci (drop at domain) t
    && (at == 0 || get_or domain (at - 1) 0 == b'.')

unfoldable pub tracked_by_any : List Bytes → Bytes → Bool
unfolding is_tracked_by
tracked_by_any [] domain = false
tracked_by_any (t ∷ ts) domain = is_tracked_by domain t || tracked_by_any ts domain

unfoldable pub domain_is_tracker : Bytes → Bool
unfolding tracked_by_any
domain_is_tracker domain = not (length domain == 0) && tracked_by_any tracker_domains domain

-- strncasecmp(ct, prefix, strlen(prefix)) == 0
abbrev pub starts_ci : Bytes → Bytes → Bool
starts_ci prefix ct = eq_ci (take (length prefix) ct) prefix

unfoldable pub content_type_is_asset : Bytes → Bool
unfolding eq_ci
content_type_is_asset ct =
    starts_ci (codes "image/") ct
    || starts_ci (codes "font/") ct
    || starts_ci (codes "audio/") ct
    || starts_ci (codes "video/") ct
    || starts_ci (codes "application/font") ct
    || starts_ci (codes "application/octet-stream") ct

-- pf_capture_msg_t; a client descriptor is never -1 here.
pub record CaptureMsg : Type 0 where
  pub payload : Bytes
  pub is_request : Bool
  pub is_tls : Bool
  pub dst_port : ℕ
  pub conn_id : Option ℕ
  pub ts_sec : ℕ
  pub domain : Bytes
  pub dst_ip : Bytes

abbrev pub message_of : ℕ → Bytes → Bool → Connection → CaptureMsg
message_of now payload is_request conn = record {
  payload = payload;
  is_request = is_request;
  is_tls = conn.is_tls;
  dst_port = conn.dst_port;
  conn_id = conn.client_fd;
  ts_sec = now;
  domain = take 255 (if length conn.domain == 0 then conn.dst_ip else conn.domain);
  dst_ip = take 45 conn.dst_ip;
}

-- `len < 4`, or a tracker.
abbrev pub is_noise : Bytes → Connection → Bool
is_noise payload conn = ltb (length payload) 4 || domain_is_tracker conn.domain

-- `on_inspect_data` at the time `now`, where malloc gives the memory: what is freed, and the queue.
unfoldable pub on_inspect_data :
    ℕ → Queue CaptureMsg → Bytes → Bool → Connection → List (Option CaptureMsg) × Queue CaptureMsg
unfolding domain_is_tracker
on_inspect_data now q payload is_request conn =
    if is_noise payload conn then ([], q) else push q (message_of now payload is_request conn)

-- ===== src/Startup/TlsLaws.antt =====
-- What the two servers are configured with.
use opsgenie_operator.Prelude.{
  ltb, arith, ℕ, ◌+◌, Bool, true, false, ◌≡◌, refl, [], ◌∷◌, Option, none, some, if◌then◌else◌,
}
use opsgenie_operator.Startup.Main.{Settings, manager_options}
use opsgenie_operator.Startup.Slices.{elements, append}
use opsgenie_operator.Startup.Tls.{Config, configure, server_options}

-- What a server is to be configured with, said without slices: HTTP/1.1 alone unless HTTP/2 is
-- enabled, and the certificates of its own watcher if it has one.
abbrev pub intended : Bool → Option ℕ → Config → Config
intended enable_http2 watcher c = record {
  next_protos = if enable_http2 then c.next_protos else ("http/1.1" ∷ []);
  certificate = elim watcher [ none ↦ c.certificate | some w ↦ some w ];
}

-- The same for the slices alone: if `append` gives the nil slice an array without spare room, as Go's runtime does for an element
-- of a machine word, then each server is configured just as intended: the appends for one never
-- reach the other, though both slices start as one.
pub server_options-configure :
    (enable_http2 : Bool) (webhook_watcher metrics_watcher : Option ℕ) (base : Config)
    → let (webhook, metrics, memory) =
        server_options 0 enable_http2 webhook_watcher metrics_watcher in
      (configure (elements memory webhook) base ≡ intended enable_http2 webhook_watcher base)
      × (configure (elements memory metrics) base ≡ intended enable_http2 metrics_watcher base)
unfolding server_options configure append
server_options-configure true none none base = (refl, refl)
server_options-configure true none (some m) base = (refl, refl)
server_options-configure true (some w) none base = (refl, refl)
server_options-configure true (some w) (some m) base = (refl, refl)
server_options-configure false none none base = (refl, refl)
server_options-configure false none (some m) base = (refl, refl)
server_options-configure false (some w) none base = (refl, refl)
server_options-configure false (some w) (some m) base = (refl, refl)

-- With spare room, the certificates of the metrics server would reach the webhook server, if both
-- have a watcher and HTTP/2 is off; and only the webhook server, and only its certificates.
pub server_options_shared :
    (room webhook_watcher metrics_watcher : ℕ) (base : Config)
    → let (webhook, metrics, memory) =
        server_options (room + 1) false (some webhook_watcher) (some metrics_watcher) in
      (configure (elements memory webhook) base ≡ intended false (some metrics_watcher) base)
      × (configure (elements memory metrics) base ≡ intended false (some metrics_watcher) base)
unfolding server_options configure append
server_options_shared room w m base =
    let fits : ltb 1 (1 + (room + 1)) ≡ true = ground arith in rw fits (refl, refl)

-- If `append` gives the nil slice an array without spare room, as Go's runtime does for an element
-- of a machine word, then the manager's options configure each of its two servers as intended for
-- it, whatever the settings and the watchers are: HTTP/1.1 alone unless HTTP/2 is enabled, and the
-- certificates of its own watcher alone. The metrics endpoint is filtered exactly if it is secure.
pub manager_options-configure :
    (s : Settings) (webhook_watcher metrics_watcher : Option ℕ) (base : Config)
    → let o = manager_options 0 s webhook_watcher metrics_watcher in
      (configure (elements o.memory o.webhook_tls_opts) base
        ≡ intended s.enable_http2 webhook_watcher base)
      × (configure (elements o.memory o.metrics.tls_opts) base
          ≡ intended s.enable_http2 metrics_watcher base)
      × (o.metrics.filtered ≡ o.metrics.secure_serving)
unfolding manager_options
manager_options-configure s webhook_watcher metrics_watcher base =
    let (webhook, metrics) =
      server_options-configure s.enable_http2 webhook_watcher metrics_watcher base in
    (webhook, metrics, refl)

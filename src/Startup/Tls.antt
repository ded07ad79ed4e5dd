-- ===== src/Startup/Tls.antt =====
-- The TLS options that `main` hands to the two servers. `tlsOpts`, `webhookTLSOpts` and
-- `metricsServerOptions.TLSOpts` are slices, which may share an array.
use opsgenie_operator.Prelude.{
  ℕ, String, Bool, not, List, [], ◌∷◌, Option, none, some, if◌then◌else◌,
}
use opsgenie_operator.Startup.Slices.{Slice, nil, append}

-- The fields of `tls.Config` that the options set: the protocols offered, and the watcher whose
-- certificate is used (its number).
pub record Config : Type 0 where
  pub next_protos : List String
  pub certificate : Option ℕ

-- The functions in the slices.
pub data TlsOption : Type 0 where
  disable_http2 : TlsOption
  get_certificate : ℕ → TlsOption

unfoldable pub apply : TlsOption → Config → Config
apply disable_http2 c = record c { next_protos = "http/1.1" ∷ [] }
apply (get_certificate watcher) c = record c { certificate = some watcher }

-- A server applies its options in order.
unfoldable pub configure : List TlsOption → Config → Config
unfolding apply
configure [] c = c
configure (o ∷ options) c = configure options (apply o c)

abbrev pub Memory : Type 0
Memory = List (List TlsOption)

module _ (room : ℕ) where
  -- `if !enableHTTP2 { tlsOpts = append(tlsOpts, disableHTTP2) }`
  unfoldable pub tls_opts : Bool → Slice × Memory
  tls_opts enable_http2 = if not enable_http2 then append room disable_http2 nil [] else (nil, [])

  -- A slice with the certificates of a watcher, if there is one.
  unfoldable pub with_watcher : Option ℕ → Slice → Memory → Slice × Memory
  with_watcher none s memory = (s, memory)
  with_watcher (some watcher) s memory = append room (get_certificate watcher) s memory

  -- Both servers' options, and the memory in which they are read when the servers start.
  unfoldable pub server_options : Bool → Option ℕ → Option ℕ → Slice × Slice × Memory
  unfolding tls_opts with_watcher
  server_options enable_http2 webhook_watcher metrics_watcher =
      let (opts, memory) = tls_opts enable_http2 in
      let (webhook, memory₂) = with_watcher webhook_watcher opts memory in
      let (metrics, memory₃) = with_watcher metrics_watcher opts memory₂ in
      (webhook, metrics, memory₃)

-- ===== src/Manager/Protocols.antt =====
-- The protocols that the servers of the manager offer.
use nautikus.Prelude.{
  not, Bool-cases, inl, inr, ◌==◌, string_eq, if◌then◌else◌, if_ind, List, [], ◌∷◌, ◌≡◌, refl, ap,
  ◌∙◌,
}
use nautikus.Manager.Options.{
  Flags, TlsConfig, WebhookOptions, tls_opts, webhook_server_options, metrics_server_options,
  manager_options,
}

-- A server applies its options in order.
abbrev pub configured : List (TlsConfig → TlsConfig) → TlsConfig → TlsConfig
configured [] c = c
configured (option ∷ options) c = configured options (option c)

tls_opts_lem :
    (flags : Flags) (c : TlsConfig)
    → (configured (tls_opts flags) c).next_protos
      ≡ (if flags.enable_http2 then c.next_protos else "http/1.1" ∷ [])
unfolding tls_opts
tls_opts_lem flags c = elim (Bool-cases flags.enable_http2) [
  | inl e ↦ rw e refl
  | inr e ↦ rw e refl
]

webhook-tls_opts : (flags : Flags) → (webhook_server_options flags).tls_opts ≡ tls_opts flags
unfolding webhook_server_options
webhook-tls_opts flags =
    if_ind (λ (o : WebhookOptions). o.tls_opts ≡ tls_opts flags)
      (not (flags.webhook_cert_path == "")) _ _ refl refl

metrics_lem :
    (flags : Flags)
    → ((metrics_server_options flags).tls_opts ≡ tls_opts flags)
      × ((metrics_server_options flags).filter_provider ≡ flags.secure_metrics)
      × ((metrics_server_options flags).secure_serving ≡ flags.secure_metrics)
unfolding metrics_server_options
metrics_lem flags = elim (Bool-cases flags.secure_metrics) [
  | inl e ↦ elim (Bool-cases (flags.metrics_cert_path == "")) [
    | inl h ↦ rw (e, h) (refl, refl, refl)
    | inr h ↦ rw (e, h) (refl, refl, refl)
  ]
  | inr e ↦ elim (Bool-cases (flags.metrics_cert_path == "")) [
    | inl h ↦ rw (e, h) (refl, refl, refl)
    | inr h ↦ rw (e, h) (refl, refl, refl)
  ]
]

-- Whatever the flags and the paths of certificates, both servers of the manager offer HTTP/1.1 only
-- unless the flag for HTTP/2 is set, and leave the protocols as they are if it is; and the metrics are
-- served by HTTPS just when the flag for it is set, and just then requests for them are authenticated
-- and authorized.
pub manager_options-next_protos :
    (flags : Flags) (c : TlsConfig)
    → ((configured (manager_options flags).webhook_server.tls_opts c).next_protos
        ≡ (if flags.enable_http2 then c.next_protos else "http/1.1" ∷ []))
      × ((configured (manager_options flags).metrics.tls_opts c).next_protos
          ≡ (if flags.enable_http2 then c.next_protos else "http/1.1" ∷ []))
      × ((manager_options flags).metrics.secure_serving ≡ flags.secure_metrics)
      × ((manager_options flags).metrics.filter_provider ≡ flags.secure_metrics)
unfolding manager_options
manager_options-next_protos flags c =
    let (opts, filter, secure) = metrics_lem flags in
    (
      ap (λ o. (configured o c).next_protos) (webhook-tls_opts flags) ∙ tls_opts_lem flags c,
      ap (λ o. (configured o c).next_protos) opts ∙ tls_opts_lem flags c,
      secure,
      filter,
    )

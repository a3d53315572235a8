-- ===== src/Tests/Prefixes.antt =====
-- The annotation keys of a resolver over the small daemon's client.
use pv_snapshotter.Base.{
  ◌≡◌, ◌↔◌, refl, List, [], ◌∷◌, Text, codes, Result, ok, err, wrapf, errorf, has_suffix,
  has_prefix, cut_prefix, ◌==◌,
}
use pv_snapshotter.Annotation.{resolve_prefix, validate_prefix, is_reserved}
use pv_snapshotter.Annotation.Prefix.{IsPrefix, resolve_prefix_iff}
use pv_snapshotter.Resolver.{Resolver, new_resolver}
use pv_snapshotter.Host.{SandboxMetadata}
use pv_snapshotter.Tests.World.{World}
use pv_snapshotter.Tests.Daemon.{client, templates, metadata}

abbrev unmarshal : Text → Result SandboxMetadata
unmarshal raw = ok metadata

abbrev made : Resolver World Text Text
made = new_resolver client templates unmarshal (codes "pv.example.com")

-- Every text is a DNS subdomain.
abbrev subdomains : Text → List Text
subdomains t = []

resolve_prefix_iff_example :
    (resolve_prefix subdomains (codes "pv.example.com") ≡ ok (codes "pv.example.com")) ↔ (
      (codes "pv.example.com" ≡ codes "pv.example.com")
      × IsPrefix subdomains (codes "pv.example.com"))
resolve_prefix_iff_example =
    resolve_prefix_iff subdomains (codes "pv.example.com") (codes "pv.example.com")

accepted : resolve_prefix subdomains (codes "pv.example.com") ≡ ok (codes "pv.example.com")
unfolding resolve_prefix validate_prefix is_reserved has_suffix has_prefix cut_prefix ◌==◌
accepted = refl

reserved :
    resolve_prefix subdomains (codes "pv.k8s.io")
    ≡ err (
        wrapf "invalid --%s: %w" (codes "annotation-prefix" ∷ []) (
          errorf "annotation prefix %q uses a reserved Kubernetes domain" (codes "pv.k8s.io" ∷ [])))
unfolding resolve_prefix validate_prefix is_reserved has_suffix has_prefix cut_prefix ◌==◌
reserved = refl
